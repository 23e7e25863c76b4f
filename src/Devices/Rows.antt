-- ===== src/Devices/Rows.antt =====
-- crates/hub/src/main.rs: the rows of the devices, by what the hub reads of their JSON. A
-- `SystemTime` is its nanosecond.
use haive_control.Prelude.{
  ℕ, ◌-◌, ◌/◌, Bool, true, Option, none, some, [], ◌++◌, Text, text, leb, unwrap_or, is_the, Map,
  lookup, strip_prefix, trim_end_matches, second_part, before, nat_eq, list_eq, if◌then◌else◌,
}

pub record Agent : Type 0 where
  pub owner : Option Text
  pub name : Option Text
  pub hostname : Option Text
  pub platform : Option Text
  pub scheme : Option Text
  pub ip : Option Text
  pub last : ℕ

abbrev pub Agents : Type 0
Agents = Map Text Agent

-- `relay_target`: the agent's id, of a relay device.
unfoldable pub relay_target : Text → Option Text
relay_target target = elim (strip_prefix (text "relay://") target) [
  | none ↦ none
  | some id ↦ some (trim_end_matches 47 id)
]

unfoldable pub device_key : Text → Text
device_key target = elim (strip_prefix (text "relay://") target) [
  | some id ↦ text "relay:" ++ trim_end_matches 47 id
  | none ↦ elim (second_part (text "://") target) [ none ↦ [] | some s ↦ before (text ":") s ]
]

unfoldable pub owner_at : Agents → Text → Option Text
owner_at agents key = elim (lookup key agents) [ none ↦ none | some a ↦ a.owner ]

unfoldable pub device_owner : Agents → Text → Option Text
unfolding owner_at
device_owner agents target = owner_at agents (device_key target)

unfoldable pub device_name : Agents → Text → Text
device_name agents target =
    let key = device_key target in
    elim (lookup key agents) [ none ↦ key | some a ↦ unwrap_or key a.name ]

unfoldable pub device_platform : Agents → Text → Text
device_platform agents target = elim (lookup (device_key target) agents) [
  | none ↦ []
  | some a ↦ unwrap_or [] a.platform
]

unfoldable pub may_control : Option Text → Agents → Text → Bool
unfolding device_owner
may_control none agents target = true
may_control (some u) agents target = is_the u (device_owner agents target)

-- `a.last.elapsed()` in whole seconds, or an error if the clock stands before it.
unfoldable pub elapsed : ℕ → Agent → Option ℕ
elapsed now a = if leb a.last now then some ((now - a.last) / 1000000000) else none
