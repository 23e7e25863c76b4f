-- ===== src/Prelude/Maps.antt =====
-- A `HashMap` as an association list; an iteration takes the entries in the list's order.
use Prim.Native.Nat.{◌+◌, ◌≤◌, ◌<◌}
use mathlib.Core.Path.{◌≡◌, refl}
use mathlib.Core.Logic.{inl, inr}
use mathlib.Core.Bool.{Bool, true}
use mathlib.Core.List.{List, [], ◌∷◌}
use mathlib.Core.Option.{Option, none, some}
use native.Mathlib.Omega.{arith}
use haive_control.Prelude.Tests.{Eq, ◌==◌, ==_iff, ==_refl, Bool-cases, filter_some, if◌then◌else◌}
use haive_control.Prelude.Lists.{length, retain, count_if, All, In}

abbrev pub Map {ℓ κ} : Type ℓ → Type κ → Type (ℓ ⊔ κ)
Map K V = List (K × V)

module _ {ℓ κ} {K : Type ℓ} {V : Type κ} ⦃e : Eq K⦄ where
  -- `get`.
  abbrev pub lookup : K → Map K V → Option V
  lookup key [] = none
  lookup key ((other, value) ∷ m) = if other == key then some value else lookup key m

  abbrev pub insert : K → V → Map K V → Map K V
  insert key new [] = (key, new) ∷ []
  insert key new ((other, value) ∷ m) =
      if other == key then (key, new) ∷ m else (other, value) ∷ insert key new m

  abbrev pub remove : K → Map K V → Map K V
  remove k [] = []
  remove k ((j, w) ∷ m) = if j == k then remove k m else (j, w) ∷ remove k m

  -- A write through `get_mut`.
  abbrev pub modify : K → (V → V) → Map K V → Map K V
  modify k f [] = []
  modify k f ((j, w) ∷ m) = if j == k then (j, f w) ∷ m else (j, w) ∷ modify k f m

  pub lookup-insert :
      (new old : K) (v : V) (m : Map K V)
      → lookup old (insert new v m) ≡ (if new == old then some v else lookup old m)
  lookup-insert new old v [] = refl
  lookup-insert new old v ((other, w) ∷ m) =
      let ih = lookup-insert new old v m in
      ground (arith, ih, ==_iff other new, ==_iff other old, ==_iff new old)

  pub lookup-modify :
      (k j : K) (f : V → V) (v : V) (m : Map K V)
      → lookup j m ≡ some v
      → lookup j (modify k f m) ≡ some (if k == j then f v else v)
  lookup-modify k j f v [] h = absurd (cc)
  lookup-modify k j f v ((i, w) ∷ m) h =
      ground (arith, ==_iff k j, ==_iff i k, ==_iff i j, lookup-modify k j f v m)

  pub lookup-remove :
      (k j : K) (m : Map K V) → lookup j (remove k m) ≡ (if k == j then none else lookup j m)
  lookup-remove k j [] = ground arith
  lookup-remove k j ((i, w) ∷ m) =
      ground (arith, ==_iff k j, ==_iff i k, ==_iff i j, lookup-remove k j m)

  pub length-remove_le : (k : K) (m : Map K V) → length (remove k m) ≤ length m
  length-remove_le k [] = omega arith
  length-remove_le k ((i, w) ∷ m) = ground (arith, length-remove_le k m)

  pub count_if-remove_le :
      (p : K × V → Bool) (k : K) (m : Map K V) → count_if p (remove k m) ≤ count_if p m
  count_if-remove_le p k [] = omega arith
  count_if-remove_le p k ((i, w) ∷ m) = ground (arith, count_if-remove_le p k m)

  pub count_if-insert_le :
      (p : K × V → Bool) (k : K) (v : V) (m : Map K V)
      → count_if p (insert k v m) ≤ count_if p m + 1
  count_if-insert_le p k v [] = ground arith
  count_if-insert_le p k v ((i, w) ∷ m) = ground (arith, count_if-insert_le p k v m)

  pub count_if-insert :
      (p : K × V → Bool) (k : K) (v : V) (m : Map K V)
      → count_if p (insert k v m) ≤ count_if p m + (if p (k, v) then 1 else 0)
  count_if-insert p k v [] = ground arith
  count_if-insert p k v ((i, w) ∷ m) = ground (arith, count_if-insert p k v m)

  pub count_if-insert_same :
      (p : K × V → Bool) (k : K) (v w : V) (m : Map K V)
      → lookup k m ≡ some w
      → p (k, v) ≡ p (k, w)
      → count_if p (insert k v m) ≡ count_if p m
  count_if-insert_same p k v w [] h e = absurd (cc)
  count_if-insert_same p k v w ((i, u) ∷ m) h e =
      ground (arith, ==_iff i k, count_if-insert_same p k v w m)

  -- No key stands twice, as in every `HashMap`.
  abbrev pub HasDistinctKeys : Map K V → Type κ
  HasDistinctKeys [] = Unit
  HasDistinctKeys ((k, v) ∷ m) = (lookup k m ≡ none) × HasDistinctKeys m

  pub insert-HasDistinctKeys :
      (k : K) (v : V) (m : Map K V) → HasDistinctKeys m → HasDistinctKeys (insert k v m)
  insert-HasDistinctKeys k v [] d = (refl, tt)
  insert-HasDistinctKeys k v ((i, w) ∷ m) d = elim (Bool-cases (i == k)) [
    | inl t ↦ rw t (rw (← (==_iff i k).0 t) d.0, d.1)
    | inr f ↦ rw f (
      ground (arith, ==_iff i k, ==_iff k i, lookup-insert k i v m, d.0),
      insert-HasDistinctKeys k v m d.1,
    )
  ]

  pub remove-HasDistinctKeys :
      (k : K) (m : Map K V) → HasDistinctKeys m → HasDistinctKeys (remove k m)
  remove-HasDistinctKeys k [] d = d
  remove-HasDistinctKeys k ((i, w) ∷ m) d = elim (Bool-cases (i == k)) [
    | inl t ↦ rw t (remove-HasDistinctKeys k m d.1)
    | inr f ↦ rw f (ground (arith, lookup-remove k i m, d.0), remove-HasDistinctKeys k m d.1)
  ]

  lookup-retain-none :
      (p : K × V → Bool) (k : K) (m : Map K V) → lookup k m ≡ none → lookup k (retain p m) ≡ none
  lookup-retain-none p k [] h = refl
  lookup-retain-none p k ((i, w) ∷ m) h = ground (arith, lookup-retain-none p k m)

  pub retain-HasDistinctKeys :
      (p : K × V → Bool) (m : Map K V) → HasDistinctKeys m → HasDistinctKeys (retain p m)
  retain-HasDistinctKeys p [] d = d
  retain-HasDistinctKeys p ((i, w) ∷ m) d = elim (Bool-cases (p (i, w))) [
    | inl t ↦ rw t (lookup-retain-none p i m d.0, retain-HasDistinctKeys p m d.1)
    | inr f ↦ rw f (retain-HasDistinctKeys p m d.1)
  ]

  -- With distinct keys a filter keeps exactly the bindings that pass.
  pub lookup-retain :
      (p : K × V → Bool) (k : K) (m : Map K V)
      → HasDistinctKeys m
      → lookup k (retain p m) ≡ filter_some (λ v. p (k, v)) (lookup k m)
  lookup-retain p k [] d = refl
  lookup-retain p k ((i, w) ∷ m) d =
      ground (arith, ==_iff i k, lookup-retain-none p k m, lookup-retain p k m)

module _ {K V : Type 0} ⦃e : Eq K⦄ where
  pub count_if-remove_lt :
      (p : K × V → Bool) (k : K) (v : V) (m : Map K V)
      → In (k, v) m
      → p (k, v) ≡ true
      → count_if p (remove k m) < count_if p m
  count_if-remove_lt p k v [] h t = elim h [ ]
  count_if-remove_lt p k v ((i, w) ∷ m) (inl h) t =
      ground (arith, ==_iff i k, count_if-remove_le p k m)
  count_if-remove_lt p k v ((i, w) ∷ m) (inr h) t = ground (arith, count_if-remove_lt p k v m h t)

  pub In-lookup :
      (k : K) (v : V) (m : Map K V) → HasDistinctKeys m → In (k, v) m → lookup k m ≡ some v
  In-lookup k v [] d h = elim h [ ]
  In-lookup k v ((i, w) ∷ m) d (inl h) = ground (arith, ==_iff i k)
  In-lookup k v ((i, w) ∷ m) d (inr h) = ground (arith, ==_iff i k, In-lookup k v m d.1 h, d.0)

  pub lookup-In : (k : K) (v : V) (m : Map K V) → lookup k m ≡ some v → In (k, v) m
  lookup-In k v [] h = absurd (cc)
  lookup-In k v ((i, w) ∷ m) h = elim (Bool-cases (i == k)) [
    | inl t ↦ inl (ground (arith, ==_iff i k))
    | inr f ↦ inr (lookup-In k v m (rw f at h))
  ]

  -- A property of every entry.
  pub All-insert :
      (P : K × V → Type 0) (k : K) (v : V) (m : Map K V) → P (k, v) → All P m → All P (insert k v m)
  All-insert P k v [] h a = (h, tt)
  All-insert P k v ((i, w) ∷ m) h a = elim (Bool-cases (i == k)) [
    | inl t ↦ rw t (h, a.1)
    | inr f ↦ rw f (a.0, All-insert P k v m h a.1)
  ]

  pub All-remove : (P : K × V → Type 0) (k : K) (m : Map K V) → All P m → All P (remove k m)
  All-remove P k [] a = a
  All-remove P k ((i, w) ∷ m) a = elim (Bool-cases (i == k)) [
    | inl t ↦ rw t (All-remove P k m a.1)
    | inr f ↦ rw f (a.0, All-remove P k m a.1)
  ]

pub ruleset map_laws = (lookup-insert, lookup-remove, ==_refl)
