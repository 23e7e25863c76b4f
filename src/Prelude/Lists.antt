-- ===== src/Prelude/Lists.antt =====
-- Lists measured by native numbers, filtered by Boolean tests.
use Prim.Native.Nat.{ℕ, zero, suc, ◌+◌, ◌-◌, ◌≤◌}
use mathlib.Core.Path.{◌≡◌, refl, ap, subst}
use mathlib.Core.Bool.{Bool, true, false, ◌&&◌, ◌||◌}
use mathlib.Core.List.{List, [], ◌∷◌, ◌++◌, map}
use mathlib.Core.Option.{Option, none, some}
use mathlib.Core.Logic.{◌⊎◌, inl, inr}
use native.Mathlib.Omega.{arith}
use haive_control.Prelude.Tests.{if◌then◌else◌, Bool-cases}

module _ {ℓ} {A : Type ℓ} where
  abbrev pub length : List A → ℕ
  length [] = 0
  length (x ∷ xs) = suc (length xs)

  abbrev pub take : ℕ → List A → List A
  take zero xs = []
  take (suc n) [] = []
  take (suc n) (x ∷ xs) = x ∷ take n xs

  abbrev pub drop : ℕ → List A → List A
  drop zero xs = xs
  drop (suc n) [] = []
  drop (suc n) (x ∷ xs) = drop n xs

  pub append_assoc : (xs ys zs : List A) → (xs ++ ys) ++ zs ≡ xs ++ (ys ++ zs)
  append_assoc [] ys zs = refl
  append_assoc (x ∷ xs) ys zs = ap (λ l. x ∷ l) (append_assoc xs ys zs)

  pub append_nil : (xs : List A) → xs ++ [] ≡ xs
  append_nil [] = refl
  append_nil (x ∷ xs) = ap (λ l. x ∷ l) (append_nil xs)

  pub length-append : (xs ys : List A) → length (xs ++ ys) ≡ length xs + length ys
  length-append [] ys = omega arith
  length-append (x ∷ xs) ys = omega (arith, length-append xs ys)

  pub length-drop : (n : ℕ) (xs : List A) → length (drop n xs) ≡ length xs - n
  length-drop zero xs = omega arith
  length-drop (suc n) [] = omega arith
  length-drop (suc n) (x ∷ xs) = omega (arith, length-drop n xs)

  pub length-take_le : (n : ℕ) (xs : List A) → length (take n xs) ≤ n
  length-take_le zero xs = omega arith
  length-take_le (suc n) [] = omega arith
  length-take_le (suc n) (x ∷ xs) = omega (arith, length-take_le n xs)

  -- `Vec::retain` and `Iterator::filter`.
  abbrev pub retain : (A → Bool) → List A → List A
  retain p [] = []
  retain p (x ∷ xs) = if p x then x ∷ retain p xs else retain p xs

  -- `Iterator::find`.
  abbrev pub find : (A → Bool) → List A → Option A
  find p [] = none
  find p (x ∷ xs) = if p x then some x else find p xs

  abbrev pub any : (A → Bool) → List A → Bool
  any p [] = false
  any p (x ∷ xs) = p x || any p xs

  abbrev pub all : (A → Bool) → List A → Bool
  all p [] = true
  all p (x ∷ xs) = p x && all p xs

  -- Writes to the first element that passes the test, as through `iter_mut().find`.
  abbrev pub update_first : (A → Bool) → (A → A) → List A → List A
  update_first p f [] = []
  update_first p f (x ∷ xs) = if p x then f x ∷ xs else x ∷ update_first p f xs

  -- How many elements pass the test.
  abbrev pub count_if : (A → Bool) → List A → ℕ
  count_if p [] = 0
  count_if p (x ∷ xs) = if p x then suc (count_if p xs) else count_if p xs

  abbrev pub All {κ} : (A → Type κ) → List A → Type κ
  All P [] = Unit
  All P (x ∷ xs) = P x × All P xs

-- `a` stands in the list.
abbrev pub In : {A : Type 0} → A → List A → Type 0
In a [] = ⊥
In a (x ∷ xs) = (x ≡ a) ⊎ In a xs

module _ {A : Type 0} where
  pub find-In : (p : A → Bool) (xs : List A) (a : A) → find p xs ≡ some a → In a xs × (p a ≡ true)
  find-In p [] a h = absurd (cc)
  find-In p (x ∷ xs) a h = elim (Bool-cases (p x)) [
    | inl t ↦ let e : x ≡ a = ground arith in (inl e, rw (← e) t)
    | inr f ↦ let r = find-In p xs a (rw f at h) in (inr r.0, r.1)
  ]

  pub find-none : (p : A → Bool) (xs : List A) (a : A) → find p xs ≡ none → In a xs → p a ≡ false
  find-none p [] a h i = elim i [ ]
  find-none p (x ∷ xs) a h (inl e) = rw (← e) (ground arith)
  find-none p (x ∷ xs) a h (inr i) = find-none p xs a (ground arith) i

  pub In-retain : (p : A → Bool) (xs : List A) (a : A) → In a (retain p xs) → In a xs × (p a ≡ true)
  In-retain p [] a h = elim h [ ]
  In-retain p (x ∷ xs) a h = elim (Bool-cases (p x)) [
    | inl t ↦ elim (let k : In a (x ∷ retain p xs) = rw t at h in k) [
      | inl e ↦ (inl e, rw (← e) t)
      | inr k ↦ let r = In-retain p xs a k in (inr r.0, r.1)
    ]
    | inr f ↦ let r = In-retain p xs a (rw f at h) in (inr r.0, r.1)
  ]

  pub retain-In : (p : A → Bool) (xs : List A) (a : A) → In a xs → p a ≡ true → In a (retain p xs)
  retain-In p [] a h t = elim h [ ]
  retain-In p (x ∷ xs) a (inl e) t = let u : p x ≡ true = rw e t in rw u (inl e)
  retain-In p (x ∷ xs) a (inr h) t = elim (Bool-cases (p x)) [
    | inl u ↦ rw u (inr (retain-In p xs a h t))
    | inr u ↦ rw u (retain-In p xs a h t)
  ]

  pub any-false : (p : A → Bool) (xs : List A) (a : A) → any p xs ≡ false → In a xs → p a ≡ false
  any-false p [] a h i = elim i [ ]
  any-false p (x ∷ xs) a h (inl e) = rw (← e) (ground arith)
  any-false p (x ∷ xs) a h (inr i) = any-false p xs a (ground arith) i

  pub false-any :
      (p : A → Bool) (xs : List A) → ((a : A) → In a xs → p a ≡ false) → any p xs ≡ false
  false-any p [] f = refl
  false-any p (x ∷ xs) f = rw (f x (inl refl)) (false-any p xs (λ a i. f a (inr i)))

  pub In-append : (xs ys : List A) (a : A) → In a (xs ++ ys) → In a xs ⊎ In a ys
  In-append [] ys a h = inr h
  In-append (x ∷ xs) ys a (inl e) = inl (inl e)
  In-append (x ∷ xs) ys a (inr h) = elim (In-append xs ys a h) [
    | inl k ↦ inl (inr k)
    | inr k ↦ inr k
  ]

  pub append-In_left : (xs ys : List A) (a : A) → In a xs → In a (xs ++ ys)
  append-In_left [] ys a h = elim h [ ]
  append-In_left (x ∷ xs) ys a (inl e) = inl e
  append-In_left (x ∷ xs) ys a (inr h) = inr (append-In_left xs ys a h)

  pub append-In_right : (xs ys : List A) (a : A) → In a ys → In a (xs ++ ys)
  append-In_right [] ys a h = h
  append-In_right (x ∷ xs) ys a h = inr (append-In_right xs ys a h)

  pub In-All : (P : A → Type 0) (xs : List A) → ((a : A) → In a xs → P a) → All P xs
  In-All P [] f = tt
  In-All P (x ∷ xs) f = (f x (inl refl), In-All P xs (λ a i. f a (inr i)))

  pub All-In : (P : A → Type 0) (xs : List A) (a : A) → All P xs → In a xs → P a
  All-In P [] a h k = elim k [ ]
  All-In P (x ∷ xs) a h (inl e) = subst P e h.0
  All-In P (x ∷ xs) a h (inr k) = All-In P xs a h.1 k

pub In-map :
    {A B : Type 0} (f : A → B) (xs : List A) (b : B)
    → In b (map f xs)
    → (a : A) × In a xs × (f a ≡ b)
In-map f [] b h = elim h [ ]
In-map f (x ∷ xs) b (inl e) = (x, inl refl, e)
In-map f (x ∷ xs) b (inr h) = let (a, i, e) = In-map f xs b h in (a, inr i, e)

pub map-In : {A B : Type 0} (f : A → B) (xs : List A) (a : A) → In a xs → In (f a) (map f xs)
map-In f [] a h = elim h [ ]
map-In f (x ∷ xs) a (inl e) = inl (rw e refl)
map-In f (x ∷ xs) a (inr h) = inr (map-In f xs a h)

module _ {ℓ} {A : Type ℓ} where
  pub All-retain {κ} :
      (P : A → Type κ) (p : A → Bool) (xs : List A) → All P xs → All P (retain p xs)
  All-retain P p [] h = h
  All-retain P p (x ∷ xs) h = elim (Bool-cases (p x)) [
    | inl t ↦ rw t (h.0, All-retain P p xs h.1)
    | inr f ↦ rw f (All-retain P p xs h.1)
  ]

  pub All-take {κ} : (P : A → Type κ) (n : ℕ) (xs : List A) → All P xs → All P (take n xs)
  All-take P zero xs h = tt
  All-take P (suc n) [] h = tt
  All-take P (suc n) (x ∷ xs) h = (h.0, All-take P n xs h.1)

  pub All-append {κ} :
      (P : A → Type κ) (front back : List A) → All P front → All P back → All P (front ++ back)
  All-append P [] back f b = b
  All-append P (a ∷ front) back f b = (f.0, All-append P front back f.1 b)

  -- What passes the test, passes it.
  pub retain-All : (p : A → Bool) (xs : List A) → All (λ x. p x ≡ true) (retain p xs)
  retain-All p [] = tt
  retain-All p (x ∷ xs) = elim (Bool-cases (p x)) [
    | inl t ↦ rw t (t, retain-All p xs)
    | inr f ↦ rw f (retain-All p xs)
  ]

  pub length-retain_le : (p : A → Bool) (xs : List A) → length (retain p xs) ≤ length xs
  length-retain_le p [] = omega arith
  length-retain_le p (x ∷ xs) = ground (arith, length-retain_le p xs)

  pub count_if-retain_le : (p q : A → Bool) (xs : List A) → count_if p (retain q xs) ≤ count_if p xs
  count_if-retain_le p q [] = omega arith
  count_if-retain_le p q (x ∷ xs) = ground (arith, count_if-retain_le p q xs)

  pub count_if_le : (p : A → Bool) (xs : List A) → count_if p xs ≤ length xs
  count_if_le p [] = omega arith
  count_if_le p (x ∷ xs) = ground (arith, count_if_le p xs)
