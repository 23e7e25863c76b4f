-- ===== src/Enroll/Secrets.antt =====
-- crates/hub/src/devicesecrets.rs: the store of the devices' own secrets (`verify`, `owner_of`,
-- `mint`, `remove`). The random bytes in hex, the time, and whether a write reached the disk are
-- arguments; `sha256` is a parameter.
use haive_control.Prelude.{
  ℕ, Bool, true, false, not, ◌||◌, Option, none, some, ◌++◌, Text, text, is_empty, starts_with, Map,
  lookup, insert, ◌==◌, nat_eq, list_eq, if◌then◌else◌,
}
use haive_control.Prelude
use haive_control.ConstantTime.{ct_eq}

pub record Entry : Type 0 where
  pub hash : Text
  pub owner : Text
  pub issued : ℕ

abbrev pub Secrets : Type 0
Secrets = Map Text Entry

pub data Minted : Type 0 where
  other_owner no_entropy not_persisted : Minted
  minted : Text → Minted

unfoldable pub is_device_secret : Text → Bool
is_device_secret tok = starts_with (text "hdev_") tok

unfoldable pub verify : (Text → Text) → Secrets → Text → Text → Option Text
unfolding is_device_secret
verify sha256 s relay_id secret =
    if is_empty relay_id || not (is_device_secret secret) then none else elim (lookup relay_id s) [
      | none ↦ none
      | some e ↦ if ct_eq e.hash (sha256 secret) then some e.owner else none
    ]

unfoldable pub owner_of : Secrets → Text → Option Text
owner_of s relay_id = elim (lookup relay_id s) [ none ↦ none | some e ↦ some e.owner ]

-- Is there an entry of another owner?
unfoldable pub held_by_other : Secrets → Text → Text → Bool
held_by_other s relay_id owner = elim (lookup relay_id s) [
  | none ↦ false
  | some e ↦ not (e.owner == owner)
]

-- A failed write puts the previous entry back.
unfoldable pub mint :
    (Text → Text) → Secrets → Text → Text → Option Text → Bool → ℕ → Secrets × Minted
unfolding held_by_other
mint sha256 s relay_id owner random written now = elim random [
  | none ↦ (s, no_entropy)
  | some r ↦
      let secret = text "hdev_" ++ r in
      if held_by_other s relay_id owner
      then (s, other_owner)
      else (let s' =
            insert relay_id (record { hash = sha256 secret; owner = owner; issued = now }) s in
          if written then (s', minted secret) else (
            elim (lookup relay_id s) [
              | none ↦ haive_control.Prelude.remove relay_id s'
              | some p ↦ insert relay_id p s'
            ],
            not_persisted,
          ))
]

unfoldable pub remove : Secrets → Text → Secrets × Bool
remove s relay_id = elim (lookup relay_id s) [
  | none ↦ (s, false)
  | some e ↦ (haive_control.Prelude.remove relay_id s, true)
]
