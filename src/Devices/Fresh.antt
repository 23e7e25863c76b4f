-- ===== src/Devices/Fresh.antt =====
-- crates/hub/src/relay.rs: rows with a heartbeat under the removal of duplicates (`dedup_sweep`).
use haive_control.Prelude.{
  if-case, ℕ, ◌≡◌, refl, sym, subst, ◌∙◌, inl, inr, ◌⊎◌, Bool, true, false, some, List, [], ◌∷◌,
  ◌++◌, map, Text, arith, retain, drop, length, is_empty, leb, ltb, unwrap_or, All, All-In,
  All-append, All-insert, In, In-map, In-retain, In-append, Map, lookup, insert, remove,
  lookup-remove, lookup-In, In-lookup, HasDistinctKeys, remove-HasDistinctKeys, Bool-cases,
  Option-cases, ◌==◌, ==_iff, nat_eq, list_eq,
}
use haive_control.Devices.Rows.{Agent, Agents, elapsed}
use haive_control.Devices.Fleet.{Fleet, clear_pending_dissolve}
use haive_control.Devices.Duplicates.{
  is_stale, is_superseded, retire, keys_of, retire_superseded, age_of, by_host, insert_by_age,
  sort_by_age, is_old, row_key, to_retire, all_to_retire, dedup_hostnames, hc_rows, retire_each,
  dedup_sweep,
}

clear-agents : (f : Fleet) (k : Text) → (clear_pending_dissolve f k).0.agents ≡ f.agents
unfolding clear_pending_dissolve
clear-agents f k =
    if-case (λ (x : Fleet × Bool). x.0.agents ≡ f.agents) _ _ _ (λ _. refl) (λ _. refl)

pub retire-kept :
    (f : Fleet) (ks : List Text) (k : Text) (a : Agent)
    → (In k ks → ⊥)
    → lookup k f.agents ≡ some a
    → lookup k (retire f ks).agents ≡ some a
unfolding retire
retire-kept f [] k a never h = h
retire-kept f (j ∷ ks) k a never h =
    let other : (j == k) ≡ false = elim (Bool-cases (j == k)) [
      | inl e ↦ absurd (never (inl ((==_iff j k).0 e)))
      | inr e ↦ e
    ] in
    retire-kept (clear_pending_dissolve (record f { agents = remove j f.agents }) j).0 ks k a
      (λ i. never (inr i))
      (rw (clear-agents (record f { agents = remove j f.agents }) j)
        (rw lookup-remove (rw other h)))

pub retire-HasDistinctKeys :
    (f : Fleet) (ks : List Text) → HasDistinctKeys f.agents → HasDistinctKeys (retire f ks).agents
unfolding retire
retire-HasDistinctKeys f [] d = d
retire-HasDistinctKeys f (j ∷ ks) d =
    retire-HasDistinctKeys (clear_pending_dissolve (record f { agents = remove j f.agents }) j).0 ks
      (rw (clear-agents (record f { agents = remove j f.agents }) j)
        (remove-HasDistinctKeys j f.agents d))

-- A row whose key is among those of the rows that pass, passes.
pub keys_of-retain :
    (p : Text × Agent → Bool) (m : Agents) (k : Text) (a : Agent)
    → HasDistinctKeys m
    → lookup k m ≡ some a
    → In k (keys_of (retain p m))
    → p (k, a) ≡ true
keys_of-retain p m k a d h i =
    let ((j, b), in_list, e) = In-map (λ (e : Text × Agent). e.0) (retain p m) k i in
    let (there, t) = In-retain p m (j, b) in_list in
    let j' : j ≡ k = e in
    let found = In-lookup j b m d there in
    let b' : some b ≡ some a = sym found ∙ (rw j' h) in
    let b'' : b ≡ a = ground arith in
    let both : (j, b) ≡ (k, a) = cc in subst (λ x. p x ≡ true) both t

pub superseded-kept :
    (f : Fleet) (now : ℕ) (keep host : Text) (k : Text) (a : Agent)
    → HasDistinctKeys f.agents
    → lookup k f.agents ≡ some a
    → is_superseded now keep host (k, a) ≡ false
    → lookup k (retire_superseded f now keep host).agents ≡ some a
unfolding retire_superseded
superseded-kept f now keep host k a d h n =
    if-case (λ (x : Fleet). lookup k x.agents ≡ some a) (is_empty host) _ _ (λ _. h)
      (λ _.
        retire-kept f (keys_of (retain (is_superseded now keep host) f.agents)) k a
          (λ i.
            let t = keys_of-retain (is_superseded now keep host) f.agents k a d h i in absurd (cc))
          h)

pub superseded-HasDistinctKeys :
    (f : Fleet) (now : ℕ) (keep host : Text)
    → HasDistinctKeys f.agents
    → HasDistinctKeys (retire_superseded f now keep host).agents
unfolding retire_superseded
superseded-HasDistinctKeys f now keep host d =
    if-case (λ (x : Fleet). HasDistinctKeys x.agents) (is_empty host) _ _ (λ _. d)
      (λ _. retire-HasDistinctKeys f (keys_of (retain (is_superseded now keep host) f.agents)) d)

pub each-HasDistinctKeys :
    (f : Fleet) (now : ℕ) (hc : List (Text × Text))
    → HasDistinctKeys f.agents
    → HasDistinctKeys (retire_each f now hc).agents
unfolding retire_each
each-HasDistinctKeys f now [] d = d
each-HasDistinctKeys f now ((keep, host) ∷ hc) d =
    each-HasDistinctKeys (retire_superseded f now keep host) now hc
      (superseded-HasDistinctKeys f now keep host d)

-- A row of `all` with this age, of the host.
abbrev pub IsRowOf : ℕ → Agents → Text → Text × ℕ → Type 0
IsRowOf now all h row =
    (a : Agent) × In (row.0, a) all × (a.hostname ≡ some h) × (age_of now a ≡ row.1)

abbrev pub IsGroup : ℕ → Agents → Text × List (Text × ℕ) → Type 0
IsGroup now all group = All (IsRowOf now all group.0) group.1

pub by_host-IsGroup :
    (now : ℕ) (all agents : Agents) (m : Map Text (List (Text × ℕ)))
    → ((e : Text × Agent) → In e agents → In e all)
    → All (IsGroup now all) m
    → All (IsGroup now all) (by_host now agents m)
unfolding by_host
by_host-IsGroup now all [] m sub g = g
by_host-IsGroup now all ((k, a) ∷ agents) m sub g = elim (Option-cases a.hostname) [
  | inl e ↦ rw e (by_host-IsGroup now all agents m (λ x i. sub x (inr i)) g)
  | inr (h, e) ↦
      let old : All (IsRowOf now all h) (unwrap_or [] (lookup h m)) =
        elim (Option-cases (lookup h m)) [
          | inl n ↦ rw n tt
          | inr (rows, n) ↦ rw n (All-In (IsGroup now all) m (h, rows) g (lookup-In h rows m n))
        ] in
      let row : IsRowOf now all h (k, age_of now a) = (a, sub (k, a) (inl refl), e, refl) in
      let rows = unwrap_or [] (lookup h m) ++ ((k, age_of now a) ∷ []) in
      let good : IsGroup now all (h, rows) =
        All-append (IsRowOf now all h) (unwrap_or [] (lookup h m)) ((k, age_of now a) ∷ []) old
          (row, tt) in
      rw e (
        if-case (All (IsGroup now all)) (is_empty h) _ _
          (λ _. by_host-IsGroup now all agents m (λ x i. sub x (inr i)) g)
          (λ _.
            by_host-IsGroup now all agents (insert h rows m) (λ x i. sub x (inr i))
              (All-insert (IsGroup now all) h rows m good g)))
]

In-insert_by_age :
    (row x : Text × ℕ) (rows : List (Text × ℕ))
    → In x (insert_by_age row rows)
    → (row ≡ x) ⊎ In x rows
unfolding insert_by_age
In-insert_by_age (k, age) x [] (inl e) = inl e
In-insert_by_age (k, age) x [] (inr i) = inr i
In-insert_by_age (k, age) x ((j, other) ∷ rows) i = elim (Bool-cases (leb age other)) [
  | inl t ↦ elim (let i' : In x ((k, age) ∷ (j, other) ∷ rows) = rw t at i in i') [
    | inl e ↦ inl e
    | inr r ↦ inr r
  ]
  | inr n ↦ elim (let i' : In x ((j, other) ∷ insert_by_age (k, age) rows) = rw n at i in i') [
    | inl e ↦ inr (inl e)
    | inr r ↦ elim (In-insert_by_age (k, age) x rows r) [ inl e ↦ inl e | inr s ↦ inr (inr s) ]
  ]
]

pub In-sort : (x : Text × ℕ) (rows : List (Text × ℕ)) → In x (sort_by_age rows) → In x rows
unfolding sort_by_age
In-sort x [] i = i
In-sort x (row ∷ rows) i = elim (In-insert_by_age row x (sort_by_age rows) i) [
  | inl e ↦ inl e
  | inr r ↦ inr (In-sort x rows r)
]

pub In-drop1 : {A : Type 0} (x : A) (xs : List A) → In x (drop 1 xs) → In x xs
In-drop1 x [] i = i
In-drop1 x (y ∷ xs) i = inr i

-- What is retired of a host is one of its old rows, and not the first.
pub In-to_retire :
    (k : Text) (rows : List (Text × ℕ))
    → In k (to_retire rows)
    → (age : ℕ) × In (k, age) (drop 1 (sort_by_age rows)) × (leb 45 age ≡ true)
unfolding to_retire
In-to_retire k rows i = elim (Bool-cases (ltb (length rows) 2)) [
  | inl t ↦ elim (let i' : In k [] = rw t at i in i') [ ]
  | inr n ↦
      let i' : In k (map row_key (retain is_old (drop 1 (sort_by_age rows)))) = rw n at i in
      let ((j, age), r, e) = In-map row_key (retain is_old (drop 1 (sort_by_age rows))) k i' in
      let (d, old) = In-retain is_old (drop 1 (sort_by_age rows)) (j, age) r in
      (age, subst (λ x. In (x, age) (drop 1 (sort_by_age rows))) e d, old)
]

pub In-all_to_retire :
    (k : Text) (m : Map Text (List (Text × ℕ)))
    → In k (all_to_retire m)
    → (group : Text × List (Text × ℕ)) × In group m × In k (to_retire group.1)
unfolding all_to_retire
In-all_to_retire k [] i = elim i [ ]
In-all_to_retire k ((h, rows) ∷ m) i = elim (In-append (to_retire rows) (all_to_retire m) k i) [
  | inl l ↦ ((h, rows), inl refl, l)
  | inr r ↦ let (g, there, t) = In-all_to_retire k m r in (g, inr there, t)
]

module _ (now : ℕ) (k : Text) (a : Agent) (fresh : is_stale now a ≡ false) where
  fresh-young : leb 45 (age_of now a) ≡ false
  unfolding is_stale age_of
  fresh-young = elim (Option-cases (elapsed now a)) [
    | inl e ↦ let n : true ≡ false = rw (e, is_stale) at fresh in absurd (cc)
    | inr (age, e) ↦ let n : leb 45 age ≡ false = rw (e, is_stale) at fresh in rw (e, age_of) n
  ]

  hostnames-kept :
      (f : Fleet)
      → HasDistinctKeys f.agents
      → lookup k f.agents ≡ some a
      → lookup k (dedup_hostnames f now).agents ≡ some a
  unfolding dedup_hostnames
  hostnames-kept f d h =
      retire-kept f (all_to_retire (by_host now f.agents [])) k a
        (λ i.
          let ((host, rows), there, r) = In-all_to_retire k (by_host now f.agents []) i in
          let (age, in_tail, old) = In-to_retire k rows r in
          let good =
            All-In (IsGroup now f.agents) (by_host now f.agents []) (host, rows)
              (by_host-IsGroup now f.agents f.agents [] (λ x i. i) tt) there in
          let in_rows : In (k, age) rows =
            In-sort (k, age) rows (In-drop1 (k, age) (sort_by_age rows) in_tail) in
          let (b, in_all, e, eq) = All-In (IsRowOf now f.agents host) rows (k, age) good in_rows in
          let found : some b ≡ some a = sym (In-lookup k b f.agents d in_all) ∙ h in
          let same : b ≡ a = ground arith in
          let age_a : age_of now a ≡ age = subst (λ x. age_of now x ≡ age) same eq in
          let y = fresh-young in
          let y' : leb 45 age ≡ false = subst (λ x. leb 45 x ≡ false) age_a y in absurd (cc))
        h

  not_superseded : (keep host : Text) → is_superseded now keep host (k, a) ≡ false
  unfolding is_superseded
  not_superseded keep host = ground (arith, fresh)

  each-kept :
      (f : Fleet) (hc : List (Text × Text))
      → HasDistinctKeys f.agents
      → lookup k f.agents ≡ some a
      → lookup k (retire_each f now hc).agents ≡ some a
  unfolding retire_each
  each-kept f [] d h = h
  each-kept f ((keep, host) ∷ hc) d h =
      each-kept (retire_superseded f now keep host) hc
        (superseded-HasDistinctKeys f now keep host d)
        (superseded-kept f now keep host k a d h (not_superseded keep host))

  -- A row whose last heartbeat is less than 45 seconds old is not touched by the removal of
  -- duplicates, whatever other rows there are; no key stands twice, as in every map.
  pub dedup_sweep-fresh :
      (f : Fleet)
      → HasDistinctKeys f.agents
      → lookup k f.agents ≡ some a
      → lookup k (dedup_sweep f now).agents ≡ some a
  unfolding dedup_sweep
  dedup_sweep-fresh f d h =
      hostnames-kept (retire_each f now (hc_rows f.agents))
        (each-HasDistinctKeys f now (hc_rows f.agents) d) (each-kept f (hc_rows f.agents) d h)
