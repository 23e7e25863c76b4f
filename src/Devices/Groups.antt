-- ===== src/Devices/Groups.antt =====
-- crates/hub/src/relay.rs: the groups of `dedup_hostnames`, one for each hostname.
use haive_control.Prelude.{
  append_assoc, append_nil, if-case, ℕ, ◌≡◌, refl, sym, ◌∙◌, inl, inr, Bool, false, none, some,
  List, [], ◌∷◌, ◌++◌, map, Text, retain, is_empty, is_the, unwrap_or, Map, lookup, insert,
  lookup-insert, HasDistinctKeys, insert-HasDistinctKeys, Bool-cases, Option-cases, ◌==◌, ==_iff,
  nat_eq, list_eq,
}
use haive_control.Devices.Rows.{Agent, Agents}
use haive_control.Devices.Duplicates.{age_of, by_host}

abbrev pub has_host : Text → Text × Agent → Bool
has_host h (k, a) = is_the h a.hostname

abbrev pub row_of : ℕ → Text × Agent → Text × ℕ
row_of now (k, a) = (k, age_of now a)

-- The group of a host, and no key stands in it twice.
abbrev pub rows_of : ℕ → Text → Agents → List (Text × ℕ)
rows_of now h agents = map (row_of now) (retain (has_host h) agents)

lookup-map-row :
    (now : ℕ) (k : Text) (m : Agents) → lookup k m ≡ none → lookup k (map (row_of now) m) ≡ none
lookup-map-row now k [] h = refl
lookup-map-row now k ((j, a) ∷ m) h = elim (Bool-cases (j == k)) [
  | inl t ↦ let n : some a ≡ none = rw t at h in absurd (cc)
  | inr n ↦ rw n (lookup-map-row now k m (rw n at h))
]

pub map-row-HasDistinctKeys :
    (now : ℕ) (m : Agents) → HasDistinctKeys m → HasDistinctKeys (map (row_of now) m)
map-row-HasDistinctKeys now [] d = tt
map-row-HasDistinctKeys now ((j, a) ∷ m) d =
    (lookup-map-row now j m d.0, map-row-HasDistinctKeys now m d.1)

unfoldable pub group : Text → Map Text (List (Text × ℕ)) → List (Text × ℕ)
group h m = unwrap_or [] (lookup h m)

pub by_host-group :
    (now : ℕ) (h : Text) (agents : Agents) (m : Map Text (List (Text × ℕ)))
    → is_empty h ≡ false
    → group h (by_host now agents m) ≡ group h m ++ rows_of now h agents
unfolding by_host group
by_host-group now h [] m full = sym (append_nil (unwrap_or [] (lookup h m)))
by_host-group now h ((k, a) ∷ agents) m full = elim (Option-cases a.hostname) [
  | inl e ↦ rw e (by_host-group now h agents m full)
  | inr (g, e) ↦ elim (Bool-cases (g == h)) [
    | inl s ↦
        let same : g ≡ h = (==_iff g h).0 s in
        let full' : is_empty g ≡ false = rw same full in
        rw (e, s, full')
          (by_host-group now h agents (insert g (group g m ++ ((k, age_of now a) ∷ [])) m) full
            ∙ (rw lookup-insert (
                rw s (
                  rw same
                    (append_assoc (group h m) ((k, age_of now a) ∷ []) (rows_of now h agents))))))
    | inr s ↦ elim (Bool-cases (is_empty g)) [
      | inl t ↦ rw (e, s, t) (by_host-group now h agents m full)
      | inr t ↦
          rw (e, s, t)
            (by_host-group now h agents (insert g (group g m ++ ((k, age_of now a) ∷ [])) m) full
              ∙ (rw lookup-insert (rw s refl)))
    ]
  ]
]

pub by_host-HasDistinctKeys :
    (now : ℕ) (agents : Agents) (m : Map Text (List (Text × ℕ)))
    → HasDistinctKeys m
    → HasDistinctKeys (by_host now agents m)
unfolding by_host
by_host-HasDistinctKeys now [] m d = d
by_host-HasDistinctKeys now ((k, a) ∷ agents) m d = elim (Option-cases a.hostname) [
  | inl e ↦ rw e (by_host-HasDistinctKeys now agents m d)
  | inr (g, e) ↦ rw e (
      if-case HasDistinctKeys (is_empty g) _ _ (λ _. by_host-HasDistinctKeys now agents m d)
        (λ _.
          by_host-HasDistinctKeys now agents
            (insert g (unwrap_or [] (lookup g m) ++ ((k, age_of now a) ∷ [])) m)
            (insert-HasDistinctKeys g (unwrap_or [] (lookup g m) ++ ((k, age_of now a) ∷ [])) m d)))
]
