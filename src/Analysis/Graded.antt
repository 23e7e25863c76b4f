-- ===== src/Analysis/Graded.antt =====
-- crates/hub/src/main.rs: what a compliance grade says (`analysis_compliance`, `grade`).
use haive_control.Prelude.{
  ℕ, zero, suc, ◌*◌, ◌≡◌, ◌≤◌, ◌<◌, ◌↔◌, ◌⊎◌, refl, ap, subst, ◌∙◌, inl, inr, true, false, some,
  List, [], ◌∷◌, map, Text, text, arith, length, count_if, count_if_le, All, lookup, Option-cases,
  Bool-cases, ◌==◌, ==_iff, nat_eq, list_eq, list_beq,
}
use haive_control.Analysis.Posture.{
  Sections, Item, Compliance, grade, checks, item_of, posture_pass, analysis_compliance,
}

grade-A : (n : ℕ) → n < 4 → (grade (n * 25) == text "A") ≡ false
unfolding grade list_beq
grade-A zero h = refl
grade-A (suc zero) h = refl
grade-A (suc (suc zero)) h = refl
grade-A (suc (suc (suc zero))) h = refl
grade-A (suc (suc (suc (suc n)))) h = absurd (omega arith)

grade_full : (grade 100 == text "A") ≡ true
unfolding grade list_beq
grade_full = refl

four : length checks ≡ 4
unfolding checks
four = refl

length-map : {A B : Type 0} (f : A → B) (xs : List A) → length (map f xs) ≡ length xs
length-map f [] = refl
length-map f (x ∷ xs) = ap (λ n. suc n) (length-map f xs)

-- The device reported this section, and what it reported passes the check.
abbrev pub IsPassed : (Text → Text) → Sections → Text → Type 0
IsPassed to_lowercase sections k =
    (out : Text) × (at : ℕ) × (lookup k sections ≡ some (out, at))
    × (posture_pass to_lowercase k out ≡ true)

-- What a score and a grade say of the sections.
abbrev pub IsGraded : (Text → Text) → Sections → Compliance → Type 0
IsGraded to_lowercase sections c =
    (c.score ≤ 100)
    × ((c.grade ≡ text "A") ↔ All (λ (x : Text × Text). IsPassed to_lowercase sections x.1) checks)

module _ (to_lowercase : Text → Text) (sections : Sections) where
  -- The mark of a check says whether its section passes.
  item_of-IsPassed :
      (x : Text × Text)
      → (item_of to_lowercase sections x).pass ≡ true
      → IsPassed to_lowercase sections x.1
  unfolding item_of
  item_of-IsPassed (label, k) h = elim (Option-cases (lookup k sections)) [
    | inl e ↦ let bad : false ≡ true = rw (e, item_of) at h in absurd (cc)
    | inr ((out, at), e) ↦
        let ok : posture_pass to_lowercase k out ≡ true = rw (e, item_of) at h in (out, at, e, ok)
  ]

  IsPassed-item_of :
      (x : Text × Text)
      → IsPassed to_lowercase sections x.1
      → (item_of to_lowercase sections x).pass ≡ true
  unfolding item_of
  IsPassed-item_of (label, k) (out, at, e, ok) = rw (e, item_of) ok

  -- Fewer marks than checks, or all of them.
  less_or_complete :
      (xs : List (Text × Text))
      → (count_if (λ (i : Item). i.pass) (map (item_of to_lowercase sections) xs) < length xs)
        ⊎ All (λ (x : Text × Text). IsPassed to_lowercase sections x.1) xs
  less_or_complete [] = inr tt
  less_or_complete (x ∷ xs) = elim (Bool-cases (item_of to_lowercase sections x).pass) [
    | inl t ↦ elim (less_or_complete xs) [
      | inl lt ↦ inl (rw t (omega arith))
      | inr a ↦ inr (item_of-IsPassed x t, a)
    ]
    | inr f ↦ inl (
        let le = count_if_le (λ (i : Item). i.pass) (map (item_of to_lowercase sections) xs) in
        let same = length-map (item_of to_lowercase sections) xs in rw f (omega arith))
  ]

  marked :
      (xs : List (Text × Text))
      → All (λ (x : Text × Text). IsPassed to_lowercase sections x.1) xs
      → count_if (λ (i : Item). i.pass) (map (item_of to_lowercase sections) xs) ≡ length xs
  marked [] a = refl
  marked (x ∷ xs) a = rw (IsPassed-item_of x a.0) (ap (λ n. suc n) (marked xs a.1))

-- A device's score is at most 100, and its grade is A exactly if it reported all four sections
-- (encryption, firewall, antivirus, updates) and each passes its check.
pub analysis_compliance-IsGraded :
    (to_lowercase : Text → Text) (sections : Sections)
    → IsGraded to_lowercase sections (analysis_compliance to_lowercase sections)
unfolding analysis_compliance
analysis_compliance-IsGraded to_lowercase sections =
    let items = map (item_of to_lowercase sections) checks in
    let n = count_if (λ (i : Item). i.pass) items in
    let le : n ≤ length items = count_if_le (λ (i : Item). i.pass) items in
    let same : length items ≡ 4 = length-map (item_of to_lowercase sections) checks ∙ four in
    (
      omega arith,
      (
        λ a. elim (less_or_complete to_lowercase sections checks) [
          | inl lt ↦
              let small : n < 4 = subst (λ m. n < m) four lt in
              let bad : (grade (n * 25) == text "A") ≡ false = grade-A n small in
              let ok = (==_iff (grade (n * 25)) (text "A")).1 a in absurd (cc)
          | inr all ↦ all
        ],
        (λ all.
            let full : n ≡ 4 = marked to_lowercase sections checks all ∙ four in
            ap (λ m. grade (m * 25)) full ∙ (==_iff (grade 100) (text "A")).0 grade_full),
      ),
    )
