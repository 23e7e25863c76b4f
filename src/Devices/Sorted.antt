-- ===== src/Devices/Sorted.antt =====
-- crates/hub/src/relay.rs: a host's rows in the order of their ages (`sort_by_key` in `dedup_hostnames`).
use haive_control.Prelude.{
  if-case, ℕ, ◌≡◌, ◌≤◌, refl, sym, ap, subst, ◌∙◌, inl, inr, ◌⊎◌, false, none, some, List, [], ◌∷◌,
  Text, arith, drop, leb, leb→le, All, All-In, In-All, In, lookup, In-lookup, HasDistinctKeys,
  Bool-cases, ◌==◌, ==_iff, nat_eq, list_eq, if◌then◌else◌,
}
use haive_control.Devices.Duplicates.{insert_by_age, sort_by_age, to_retire}
use haive_control.Devices.Fresh.{In-to_retire}

-- The first row is no older than the others, and so on.
IsOrdered : List (Text × ℕ) → Type 0
IsOrdered [] = Unit
IsOrdered (row ∷ rows) = All (λ (x : Text × ℕ). row.1 ≤ x.1) rows × IsOrdered rows

All-insert_by_age :
    (P : Text × ℕ → Type 0) (row : Text × ℕ) (rows : List (Text × ℕ))
    → P row
    → All P rows
    → All P (insert_by_age row rows)
unfolding insert_by_age
All-insert_by_age P (k, age) [] p q = (p, tt)
All-insert_by_age P (k, age) ((j, other) ∷ rows) p q =
    if-case (All P) (leb age other) _ _ (λ _. (p, q))
      (λ _. (q.0, All-insert_by_age P (k, age) rows p q.1))

insert-IsOrdered :
    (row : Text × ℕ) (rows : List (Text × ℕ)) → IsOrdered rows → IsOrdered (insert_by_age row rows)
unfolding insert_by_age IsOrdered
insert-IsOrdered (k, age) [] o = (tt, tt)
insert-IsOrdered (k, age) ((j, other) ∷ rows) o =
    if-case IsOrdered (leb age other) _ _
      (λ t.
        let le = leb→le age other t in
        let others : All (λ (x : Text × ℕ). age ≤ x.1) rows =
          In-All (λ (x : Text × ℕ). age ≤ x.1) rows
            (λ x i. let le' = All-In (λ (x : Text × ℕ). other ≤ x.1) rows x o.0 i in omega arith) in
        ((le, others), o))
      (λ n. (
        All-insert_by_age (λ (x : Text × ℕ). other ≤ x.1) (k, age) rows (ground arith) o.0,
        insert-IsOrdered (k, age) rows o.1,
      ))

sort-IsOrdered : (rows : List (Text × ℕ)) → IsOrdered (sort_by_age rows)
unfolding sort_by_age IsOrdered
sort-IsOrdered [] = tt
sort-IsOrdered (row ∷ rows) = insert-IsOrdered row (sort_by_age rows) (sort-IsOrdered rows)

insert_by_age-In :
    (row x : Text × ℕ) (rows : List (Text × ℕ))
    → (row ≡ x) ⊎ In x rows
    → In x (insert_by_age row rows)
unfolding insert_by_age
insert_by_age-In (k, age) x [] i = i
insert_by_age-In (k, age) x ((j, other) ∷ rows) i =
    if-case (In x) (leb age other) _ _ (λ _. i)
      (λ _. elim i [
        | inl e ↦ inr (insert_by_age-In (k, age) x rows (inl e))
        | inr (inl e) ↦ inl e
        | inr (inr r) ↦ inr (insert_by_age-In (k, age) x rows (inr r))
      ])

pub sort-In : (x : Text × ℕ) (rows : List (Text × ℕ)) → In x rows → In x (sort_by_age rows)
unfolding sort_by_age
sort-In x [] i = i
sort-In x (row ∷ rows) (inl e) = insert_by_age-In row x (sort_by_age rows) (inl e)
sort-In x (row ∷ rows) (inr r) = insert_by_age-In row x (sort_by_age rows) (inr (sort-In x rows r))

apart :
    (k j : Text) (other : ℕ) (rows : List (Text × ℕ))
    → lookup k ((j, other) ∷ rows) ≡ none
    → (j == k) ≡ false
apart k j other rows h = elim (Bool-cases (j == k)) [
  | inl t ↦ let n : some other ≡ none = rw t at h in absurd (cc)
  | inr n ↦ n
]

lookup-insert_by_age :
    (k j : Text) (age : ℕ) (rows : List (Text × ℕ))
    → lookup k rows ≡ none
    → lookup j (insert_by_age (k, age) rows) ≡ (if k == j then some age else lookup j rows)
unfolding insert_by_age
lookup-insert_by_age k j age [] h = refl
lookup-insert_by_age k j age ((i, other) ∷ rows) h = elim (Bool-cases (leb age other)) [
  | inl t ↦ rw t refl
  | inr n ↦
      let other_key : (i == k) ≡ false = apart k i other rows h in
      let below : lookup k rows ≡ none = rw other_key at h in
      let ih = lookup-insert_by_age k j age rows below in
      rw n (elim (Bool-cases (i == j)) [
        | inl e ↦
            let new : (k == j) ≡ false = ground (arith, ==_iff k j, ==_iff i j, ==_iff i k) in
            rw (e, new) refl
        | inr e ↦ rw e ih
      ])
]

insert_by_age-HasDistinctKeys :
    (k : Text) (age : ℕ) (rows : List (Text × ℕ))
    → lookup k rows ≡ none
    → HasDistinctKeys rows
    → HasDistinctKeys (insert_by_age (k, age) rows)
unfolding insert_by_age
insert_by_age-HasDistinctKeys k age [] h d = (refl, tt)
insert_by_age-HasDistinctKeys k age ((j, other) ∷ rows) h d =
    let other_key : (j == k) ≡ false = apart k j other rows h in
    let below : lookup k rows ≡ none = rw other_key at h in
    if-case HasDistinctKeys (leb age other) _ _ (λ _. (h, d))
      (λ _. (
        lookup-insert_by_age k j age rows below
            ∙ (let flipped : (k == j) ≡ false = ground (arith, ==_iff k j, ==_iff j k) in
                rw flipped d.0),
        insert_by_age-HasDistinctKeys k age rows below d.1,
      ))

lookup-sort :
    (j : Text) (rows : List (Text × ℕ))
    → HasDistinctKeys rows
    → lookup j (sort_by_age rows) ≡ lookup j rows
unfolding sort_by_age
lookup-sort j [] d = refl
lookup-sort j ((k, age) ∷ rows) d =
    lookup-insert_by_age k j age (sort_by_age rows) (lookup-sort k rows d.1 ∙ d.0)
    ∙ ap (λ x. if k == j then some age else x) (lookup-sort j rows d.1)

sort-HasDistinctKeys :
    (rows : List (Text × ℕ)) → HasDistinctKeys rows → HasDistinctKeys (sort_by_age rows)
unfolding sort_by_age
sort-HasDistinctKeys [] d = tt
sort-HasDistinctKeys ((k, age) ∷ rows) d =
    insert_by_age-HasDistinctKeys k age (sort_by_age rows) (lookup-sort k rows d.1 ∙ d.0)
      (sort-HasDistinctKeys rows d.1)

-- The first row of a host stays.
pub first-kept :
    (k : Text) (age : ℕ) (rest rows : List (Text × ℕ))
    → HasDistinctKeys rows
    → sort_by_age rows ≡ (k, age) ∷ rest
    → In k (to_retire rows)
    → ⊥
first-kept k age rest rows d e i =
    let (other, in_tail, old) = In-to_retire k rows i in
    let in_rest : In (k, other) rest = subst (λ x. In (k, other) (drop 1 x)) e in_tail in
    let d' : HasDistinctKeys ((k, age) ∷ rest) =
      subst HasDistinctKeys e (sort-HasDistinctKeys rows d) in
    let found = In-lookup k other rest d'.1 in_rest in
    let n : some other ≡ none = sym found ∙ d'.0 in absurd (cc)

-- The oldest heartbeat of all is not in front.
pub first-youngest :
    (k : Text) (age : ℕ) (rest rows : List (Text × ℕ)) (x : Text × ℕ)
    → sort_by_age rows ≡ (k, age) ∷ rest
    → In x rows
    → age ≤ x.1
unfolding IsOrdered
first-youngest k age rest rows x e i =
    let o : IsOrdered ((k, age) ∷ rest) = subst IsOrdered e (sort-IsOrdered rows) in
    elim (let i' : In x ((k, age) ∷ rest) = subst (In x) e (sort-In x rows i) in i') [
      | inl same ↦ let eq : age ≡ x.1 = ap (λ (y : Text × ℕ). y.1) same in omega arith
      | inr r ↦ All-In (λ (y : Text × ℕ). age ≤ y.1) rest x o.0 r
    ]
