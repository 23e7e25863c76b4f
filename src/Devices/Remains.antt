-- ===== src/Devices/Remains.antt =====
-- crates/hub/src/relay.rs: what stays of a host's rows (`dedup_hostnames`, `dedup_sweep`).
use haive_control.Prelude.{
  if-case, ℕ, ◌≡◌, ◌≤◌, refl, sym, ap, subst, ◌∙◌, inl, inr, true, false, Option, some, List, [],
  ◌∷◌, Text, arith, retain, is_empty, is_the, is_the→eq, unwrap_or, All, All-In, In, In-map, map-In,
  In-retain, retain-In, lookup, lookup-In, In-lookup, HasDistinctKeys, retain-HasDistinctKeys,
  Bool-cases, Option-cases, ==_refl, nat_eq, list_eq,
}
use haive_control.Devices.Rows.{Agent, Agents}
use haive_control.Devices.Fleet.{Fleet}
use haive_control.Devices.Duplicates.{
  is_superseded, retire_superseded, age_of, by_host, sort_by_age, to_retire, all_to_retire,
  dedup_hostnames, hc_rows, retire_each, dedup_sweep, is_hc,
}
use haive_control.Devices.Fresh.{
  retire-kept, superseded-kept, superseded-HasDistinctKeys, each-HasDistinctKeys, IsRowOf, IsGroup,
  by_host-IsGroup, In-sort, In-drop1, In-to_retire, In-all_to_retire,
}
use haive_control.Devices.Sorted.{first-kept, first-youngest, sort-In}
use haive_control.Devices.Groups.{
  has_host, row_of, rows_of, group, by_host-group, by_host-HasDistinctKeys, map-row-HasDistinctKeys,
}

-- A row of the host that is there.
abbrev pub HasRow : Text → Agents → Type 0
HasRow h agents = (k : Text) × (a : Agent) × (lookup k agents ≡ some a) × (a.hostname ≡ some h)

is_the-some : (h : Text) (o : Option Text) → o ≡ some h → is_the h o ≡ true
is_the-some h o e = rw e (==_refl h)

module _ (now : ℕ) (f : Fleet) (d : HasDistinctKeys f.agents) (h : Text)
    (full : is_empty h ≡ false) where
  abbrev rows : List (Text × ℕ)
  rows = rows_of now h f.agents

  rows-HasDistinctKeys : HasDistinctKeys rows
  rows-HasDistinctKeys =
      map-row-HasDistinctKeys now (retain (has_host h) f.agents)
        (retain-HasDistinctKeys (has_host h) f.agents d)

  -- A row that is retired, is retired as one of its own host.
  retired-own :
      (k : Text) (a : Agent)
      → lookup k f.agents ≡ some a
      → a.hostname ≡ some h
      → In k (all_to_retire (by_host now f.agents []))
      → In k (to_retire rows)
  unfolding group
  retired-own k a here e i =
      let ((g, its), there, r) = In-all_to_retire k (by_host now f.agents []) i in
      let (age, in_tail, old) = In-to_retire k its r in
      let good =
        All-In (IsGroup now f.agents) (by_host now f.agents []) (g, its)
          (by_host-IsGroup now f.agents f.agents [] (λ x i. i) tt) there in
      let in_its = In-sort (k, age) its (In-drop1 (k, age) (sort_by_age its) in_tail) in
      let (b, in_all, e', eq) = All-In (IsRowOf now f.agents g) its (k, age) good in_its in
      let found : some b ≡ some a = sym (In-lookup k b f.agents d in_all) ∙ here in
      let same : b ≡ a = ground arith in
      let hosts : some g ≡ some h = sym e' ∙ (ap (λ (x : Agent). x.hostname) same ∙ e) in
      let g' : g ≡ h = ground arith in
      let at_g =
        In-lookup g its (by_host now f.agents []) (by_host-HasDistinctKeys now f.agents [] tt)
          there in
      let at_h : lookup h (by_host now f.agents []) ≡ some its =
        subst (λ x. lookup x (by_host now f.agents []) ≡ some its) g' at_g in
      let its' : its ≡ rows =
        sym (ap (λ o. unwrap_or [] o) at_h) ∙ by_host-group now h f.agents [] full in
      subst (λ x. In k (to_retire x)) its' r

  mine :
      (k : Text) (a : Agent)
      → lookup k f.agents ≡ some a
      → a.hostname ≡ some h
      → In (k, age_of now a) rows
  mine k a here e =
      map-In (row_of now) (retain (has_host h) f.agents) (k, a)
        (retain-In (has_host h) f.agents (k, a) (lookup-In k a f.agents here)
          (is_the-some h a.hostname e))

  sorted-first :
      (k : Text) (a : Agent) (l : List (Text × ℕ))
      → lookup k f.agents ≡ some a
      → a.hostname ≡ some h
      → sort_by_age rows ≡ l
      → (j : Text) × (b : Agent) × (lookup j (dedup_hostnames f now).agents ≡ some b)
        × (b.hostname ≡ some h)
        × (age_of now b ≤ age_of now a)
  unfolding dedup_hostnames
  sorted-first k a [] here e s =
      absurd (subst (In (k, age_of now a)) s (sort-In (k, age_of now a) rows (mine k a here e)))
  sorted-first k a ((j, age) ∷ rest) here e s =
      let in_sorted : In (j, age) (sort_by_age rows) = subst (In (j, age)) (sym s) (inl refl) in
      let kept = retain (has_host h) f.agents in
      let ((j', b), in_kept, eq) =
        In-map (row_of now) kept (j, age) (In-sort (j, age) rows in_sorted) in
      let (in_all, host) = In-retain (has_host h) f.agents (j', b) in_kept in
      let found = In-lookup j' b f.agents d in_all in
      let e' = is_the→eq h b.hostname host in
      let key : j' ≡ j = ap (λ (x : Text × ℕ). x.0) eq in
      let its : age_of now b ≡ age = ap (λ (x : Text × ℕ). x.1) eq in
      let le = first-youngest j age rest rows (k, age_of now a) s (mine k a here e) in
      (
        j',
        b,
        retire-kept f (all_to_retire (by_host now f.agents [])) j' b
            (λ i.
              first-kept j age rest rows rows-HasDistinctKeys s
                (subst (λ x. In x (to_retire rows)) key (retired-own j' b found e' i)))
            found,
        e',
        omega arith,
      )

-- When duplicates are removed, a host's freshest row stays: for each row of a host with a name there
-- still is one of the same host that is no older; no key stands twice, as in every map.
pub dedup_hostnames-freshest :
    (now : ℕ) (f : Fleet) (h k : Text) (a : Agent)
    → HasDistinctKeys f.agents
    → is_empty h ≡ false
    → lookup k f.agents ≡ some a
    → a.hostname ≡ some h
    → (j : Text) × (b : Agent) × (lookup j (dedup_hostnames f now).agents ≡ some b)
      × (b.hostname ≡ some h)
      × (age_of now b ≤ age_of now a)
dedup_hostnames-freshest now f h k a d full here e =
    sorted-first now f d h full k a (sort_by_age (rows_of now h f.agents)) here e refl

-- The rows by machine id, with their hostnames, are there.
abbrev AreThere : Agents → List (Text × Text) → Type 0
AreThere agents hc =
    All
      (λ (x : Text × Text).
        (is_hc x.0 ≡ true) × ((a : Agent) × (lookup x.0 agents ≡ some a) × (a.hostname ≡ some x.1)))
      hc

hc-AreThere :
    (all agents : Agents)
    → ((e : Text × Agent) → In e agents → In e all)
    → HasDistinctKeys all
    → AreThere all (hc_rows agents)
unfolding hc_rows
hc-AreThere all [] sub d = tt
hc-AreThere all ((k, a) ∷ agents) sub d =
    let rest = hc-AreThere all agents (λ x i. sub x (inr i)) d in
    if-case (AreThere all) (is_hc k) _ _
      (λ t. elim (Option-cases a.hostname) [
        | inl e ↦ rw e rest
        | inr (h, e) ↦ rw e ((t, (a, In-lookup k a all d (sub (k, a) (inl refl)), e)), rest)
      ])
      (λ _. rest)

superseded-AreThere :
    (f : Fleet) (now : ℕ) (keep host : Text) (hc : List (Text × Text))
    → HasDistinctKeys f.agents
    → AreThere f.agents hc
    → AreThere (retire_superseded f now keep host).agents hc
unfolding is_superseded
superseded-AreThere f now keep host [] d t = tt
superseded-AreThere f now keep host ((k, h) ∷ hc) d ((is, (a, here, e)), t) = (
  (is, (a, superseded-kept f now keep host k a d here (ground arith), e)),
  superseded-AreThere f now keep host hc d t,
)

each-HasRow :
    (now : ℕ) (h : Text) (f : Fleet) (hc : List (Text × Text))
    → HasDistinctKeys f.agents
    → AreThere f.agents hc
    → HasRow h f.agents
    → HasRow h (retire_each f now hc).agents
unfolding retire_each is_superseded
each-HasRow now h f [] d t r = r
each-HasRow now h f ((keep, host) ∷ hc) d ((is, (b, there, e')), t) (k, a, here, e) =
    each-HasRow now h (retire_superseded f now keep host) hc
      (superseded-HasDistinctKeys f now keep host d) (superseded-AreThere f now keep host hc d t)
      (elim (Bool-cases (is_superseded now keep host (k, a))) [
        | inl s ↦
            let its : a.hostname ≡ some host = is_the→eq host a.hostname (ground arith) in
            let same : some host ≡ some h = sym its ∙ e in
            (keep, b, superseded-kept f now keep host keep b d there (ground arith), e' ∙ same)
        | inr n ↦ (k, a, superseded-kept f now keep host k a d here n, e)
      ])

-- The removal of duplicates loses no host: a hostname that some row had, some row still has; no key
-- stands twice, as in every map.
pub dedup_sweep-HasRow :
    (now : ℕ) (f : Fleet) (h : Text)
    → HasDistinctKeys f.agents
    → is_empty h ≡ false
    → HasRow h f.agents
    → HasRow h (dedup_sweep f now).agents
unfolding dedup_sweep
dedup_sweep-HasRow now f h d full r =
    let hc = hc_rows f.agents in
    let there = hc-AreThere f.agents f.agents (λ x i. i) d in
    let (k, a, here, e) = each-HasRow now h f hc d there r in
    let (j, b, found, e', le) =
      dedup_hostnames-freshest now (retire_each f now hc) h k a (each-HasDistinctKeys f now hc d)
        full here e in
    (j, b, found, e')
