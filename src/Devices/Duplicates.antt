-- ===== src/Devices/Duplicates.antt =====
-- crates/hub/src/relay.rs: the removal of duplicate rows (`retire_superseded`, `dedup_hostnames`,
-- `dedup_sweep`).
use haive_control.Prelude.{
  ℕ, Bool, true, not, ◌&&◌, none, some, List, [], ◌∷◌, ◌++◌, map, Text, text, retain, drop, length,
  is_empty, is_the, starts_with, unwrap_or, leb, ltb, Map, lookup, insert, remove, ◌==◌, nat_eq,
  list_eq, if◌then◌else◌,
}
use haive_control.Devices.Rows.{Agent, Agents, elapsed}
use haive_control.Devices.Fleet.{Fleet, clear_pending_dissolve}

-- No heartbeat in 45 seconds, or none that the clock can place.
unfoldable pub is_stale : ℕ → Agent → Bool
unfolding elapsed
is_stale now a = elim (elapsed now a) [ none ↦ true | some age ↦ leb 45 age ]

abbrev pub is_hc : Text → Bool
is_hc key = starts_with (text "relay:hc-") key

unfoldable pub is_superseded : ℕ → Text → Text → Text × Agent → Bool
unfolding is_stale
is_superseded now keep_key hostname (k, a) =
    not (k == keep_key) && (not (is_hc k) && (is_the hostname a.hostname && is_stale now a))

-- The loop of both: each row is removed, and its queued dissolve.
unfoldable pub retire : Fleet → List Text → Fleet
unfolding clear_pending_dissolve
retire f [] = f
retire f (k ∷ ks) = retire (clear_pending_dissolve (record f { agents = remove k f.agents }) k).0 ks

abbrev pub keys_of : Agents → List Text
keys_of agents = map (λ (e : Text × Agent). e.0) agents

unfoldable pub retire_superseded : Fleet → ℕ → Text → Text → Fleet
unfolding retire is_superseded
retire_superseded f now keep_key hostname =
    if is_empty hostname
    then f
    else retire f (keys_of (retain (is_superseded now keep_key hostname) f.agents))

-- `elapsed`, or `u64::MAX`.
unfoldable pub age_of : ℕ → Agent → ℕ
unfolding elapsed
age_of now a = unwrap_or 18446744073709551615 (elapsed now a)

-- The rows of each hostname with their ages, in their order.
unfoldable pub by_host : ℕ → Agents → Map Text (List (Text × ℕ)) → Map Text (List (Text × ℕ))
unfolding age_of
by_host now [] m = m
by_host now ((k, a) ∷ agents) m = elim a.hostname [
  | none ↦ by_host now agents m
  | some h ↦
      if is_empty h
      then by_host now agents m
      else by_host now agents (insert h (unwrap_or [] (lookup h m) ++ ((k, age_of now a) ∷ [])) m)
]

-- `sort_by_key`, which is stable.
unfoldable pub insert_by_age : Text × ℕ → List (Text × ℕ) → List (Text × ℕ)
insert_by_age (k, age) [] = (k, age) ∷ []
insert_by_age (k, age) ((j, other) ∷ rows) =
    let rest = insert_by_age (k, age) rows in
    if leb age other then (k, age) ∷ (j, other) ∷ rows else (j, other) ∷ rest

unfoldable pub sort_by_age : List (Text × ℕ) → List (Text × ℕ)
unfolding insert_by_age
sort_by_age [] = []
sort_by_age (row ∷ rows) = insert_by_age row (sort_by_age rows)

abbrev pub is_old : Text × ℕ → Bool
is_old (k, age) = leb 45 age

abbrev pub row_key : Text × ℕ → Text
row_key (k, age) = k

-- The rows of a host that are removed.
unfoldable pub to_retire : List (Text × ℕ) → List Text
unfolding sort_by_age
to_retire rows =
    if ltb (length rows) 2 then [] else map row_key (retain is_old (drop 1 (sort_by_age rows)))

unfoldable pub all_to_retire : Map Text (List (Text × ℕ)) → List Text
unfolding to_retire
all_to_retire [] = []
all_to_retire ((h, rows) ∷ m) = to_retire rows ++ all_to_retire m

unfoldable pub dedup_hostnames : Fleet → ℕ → Fleet
unfolding retire by_host all_to_retire
dedup_hostnames f now = retire f (all_to_retire (by_host now f.agents []))

-- The rows by machine id, with their hostnames.
unfoldable pub hc_rows : Agents → List (Text × Text)
hc_rows [] = []
hc_rows ((k, a) ∷ agents) =
    let rest = hc_rows agents in
    if is_hc k then elim a.hostname [ none ↦ rest | some h ↦ (k, h) ∷ rest ] else rest

unfoldable pub retire_each : Fleet → ℕ → List (Text × Text) → Fleet
unfolding retire_superseded
retire_each f now [] = f
retire_each f now ((keep_key, host) ∷ hc) =
    retire_each (retire_superseded f now keep_key host) now hc

unfoldable pub dedup_sweep : Fleet → ℕ → Fleet
unfolding retire_each hc_rows dedup_hostnames
dedup_sweep f now = dedup_hostnames (retire_each f now (hc_rows f.agents)) now
