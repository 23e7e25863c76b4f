-- ===== src/Policy/Denied.antt =====
-- crates/hub/src/policy.rs: which actions `enforce` refuses.
use haive_control.Prelude.{
  ◌≡◌, ◌≢◌, ◌↔◌, ◌⊎◌, refl, sym, ap, ◌∙◌, inl, inr, Bool, true, false, ◌||◌, Option, none, some,
  List, [], ◌∷◌, ◌++◌, Text, text, arith, find, any, is_empty, is_some, starts_with,
  starts_with-append, contains_text, to_ascii_lowercase, lower_char, In, Bool-cases, ==_iff, nat_eq,
  list_eq, if◌then◌else◌,
}
use haive_control.Policy.{
  Policy, allow, deny, need_approval, eq_ignore_ascii_case, matches, hay_of, enforce,
}

-- One text stands in another.
abbrev pub StandsIn : Text → Text → Type 0
StandsIn p s = (front : Text) × (behind : Text) × (s ≡ front ++ (p ++ behind))

-- A denied action has this name, or a denied pattern that is not empty stands in the action's name,
-- a space and its detail, whatever the case of the letters.
abbrev pub IsDenied : Policy → Text → Text → Type 0
IsDenied p kind detail =
    ((a : Text) × In a p.deny_actions × (to_ascii_lowercase a ≡ to_ascii_lowercase kind))
    ⊎ ((pat : Text) × In pat p.deny_patterns
        × (pat ≢ [])
        × StandsIn (to_ascii_lowercase pat)
            (to_ascii_lowercase kind ++ (text " " ++ to_ascii_lowercase detail)))

starts_with-StandsIn : (p s : Text) → starts_with p s ≡ true → (behind : Text) × (s ≡ p ++ behind)
unfolding starts_with
starts_with-StandsIn [] s h = (s, refl)
starts_with-StandsIn (c ∷ p) [] h = absurd (cc)
starts_with-StandsIn (c ∷ p) (d ∷ s) h =
    let same : c ≡ d = ground arith in
    let rest : starts_with p s ≡ true = ground arith in
    let (behind, e) = starts_with-StandsIn p s rest in (behind, rw same (ap (λ l. d ∷ l) e))

contains_text-StandsIn : (p s : Text) → contains_text p s ≡ true → StandsIn p s
unfolding contains_text
contains_text-StandsIn p [] h = let (behind, e) = starts_with-StandsIn p [] h in ([], behind, e)
contains_text-StandsIn p (c ∷ s) h = elim (Bool-cases (starts_with p (c ∷ s))) [
  | inl t ↦ let (behind, e) = starts_with-StandsIn p (c ∷ s) t in ([], behind, e)
  | inr f ↦
      let later : contains_text p s ≡ true = rw f at h in
      let (front, behind, e) = contains_text-StandsIn p s later in
      (c ∷ front, behind, ap (λ l. c ∷ l) e)
]

starts_with-contains_text : (p s : Text) → starts_with p s ≡ true → contains_text p s ≡ true
unfolding contains_text
starts_with-contains_text p [] h = h
starts_with-contains_text p (c ∷ s) h = rw h refl

StandsIn-contains_text : (p front behind : Text) → contains_text p (front ++ (p ++ behind)) ≡ true
unfolding contains_text
StandsIn-contains_text p [] behind =
    starts_with-contains_text p (p ++ behind) (starts_with-append p behind)
StandsIn-contains_text p (c ∷ front) behind =
    rw (StandsIn-contains_text p front behind) (ground arith)

module _ {A : Type 0} (p : A → Bool) where
  is_some-find : (xs : List A) → is_some (find p xs) ≡ any p xs
  is_some-find [] = refl
  is_some-find (x ∷ xs) = ground (arith, is_some-find xs)

  any-In : (xs : List A) → any p xs ≡ true → (x : A) × In x xs × (p x ≡ true)
  any-In [] h = absurd (cc)
  any-In (x ∷ xs) h = elim (Bool-cases (p x)) [
    | inl t ↦ (x, inl refl, t)
    | inr f ↦
        let rest : any p xs ≡ true = rw f at h in
        let (y, there, t) = any-In xs rest in (y, inr there, t)
  ]

  In-any : (xs : List A) (x : A) → In x xs → p x ≡ true → any p xs ≡ true
  In-any [] x i t = elim i [ ]
  In-any (y ∷ xs) x (inl e) t = let here : p y ≡ true = rw e t in rw here refl
  In-any (y ∷ xs) x (inr i) t = rw (In-any xs x i t) (ground arith)

-- Is it denied?
abbrev pub denied : Policy → Text → Text → Bool
denied p kind detail =
    any (λ a. eq_ignore_ascii_case a (to_ascii_lowercase kind)) p.deny_actions
    || any (matches (hay_of kind detail)) p.deny_patterns

is_some-ruled :
    (b c : Bool) (o : Option Text) (f : Text → Text) (r r' : Text)
    → is_some
        (elim (if b
          then deny r
          else elim o [ some pat ↦ deny (f pat) | none ↦ if c then need_approval r' else allow ]) [
            | deny x ↦ some x
            | allow ↦ none
            | need_approval x ↦ none
          ])
      ≡ (b || is_some o)
is_some-ruled true c o f r r' = refl
is_some-ruled false c (some x) f r r' = refl
is_some-ruled false true none f r r' = refl
is_some-ruled false false none f r r' = refl

enforce-denied :
    (p : Policy) (kind detail : Text) → is_some (enforce p kind detail) ≡ denied p kind detail
unfolding enforce
enforce-denied p kind detail =
    is_some-ruled (any (λ a. eq_ignore_ascii_case a (to_ascii_lowercase kind)) p.deny_actions)
      (any (λ a. eq_ignore_ascii_case a (to_ascii_lowercase kind)) p.require_approval)
      (find (matches (hay_of kind detail)) p.deny_patterns)
      (λ pat. text "command blocked by hub policy (matched '" ++ (pat ++ text "')"))
      (text "action '" ++ (kind ++ text "' is blocked by hub policy"))
      (text "action '" ++ (kind ++ text "' requires approval by hub policy"))
    ∙ ap (λ z. any (λ a. eq_ignore_ascii_case a (to_ascii_lowercase kind)) p.deny_actions || z)
        (is_some-find (matches (hay_of kind detail)) p.deny_patterns)

lower_idem : (s : Text) → to_ascii_lowercase (to_ascii_lowercase s) ≡ to_ascii_lowercase s
lower_idem [] = refl
lower_idem (c ∷ s) =
    let here : lower_char (lower_char c) ≡ lower_char c = ground arith in
    rw here (ap (λ l. lower_char c ∷ l) (lower_idem s))

empty_or : (s : Text) → (s ≡ []) ⊎ ((is_empty s ≡ false) × (s ≢ []))
empty_or [] = inl refl
empty_or (c ∷ s) = inr (refl, λ e. absurd (cc))

module _ (p : Policy) (kind detail : Text) where
  denied-IsDenied : denied p kind detail ≡ true → IsDenied p kind detail
  unfolding eq_ignore_ascii_case hay_of
  denied-IsDenied h =
      elim (Bool-cases
        (any (λ a. eq_ignore_ascii_case a (to_ascii_lowercase kind)) p.deny_actions)) [
          | inl t ↦
              let (a, there, e) =
                any-In (λ a. eq_ignore_ascii_case a (to_ascii_lowercase kind)) p.deny_actions t in
              let same =
                (==_iff (to_ascii_lowercase a) (to_ascii_lowercase (to_ascii_lowercase kind))).0
                  e in
              inl (a, there, same ∙ lower_idem kind)
          | inr f ↦
              let rest : any (matches (hay_of kind detail)) p.deny_patterns ≡ true = rw f at h in
              let (pat, there, m) = any-In (matches (hay_of kind detail)) p.deny_patterns rest in
              let found : contains_text (to_ascii_lowercase pat) (hay_of kind detail) ≡ true =
                ground arith in
              elim (empty_or pat) [
                | inl e ↦ let bad : is_empty pat ≡ true = rw e refl in absurd (ground arith)
                | inr (_, some_pat) ↦ inr (
                  pat,
                  there,
                  some_pat,
                  contains_text-StandsIn (to_ascii_lowercase pat) (hay_of kind detail) found,
                )
              ]
        ]

  IsDenied-denied : IsDenied p kind detail → denied p kind detail ≡ true
  unfolding eq_ignore_ascii_case hay_of
  IsDenied-denied (inl (a, there, e)) =
      let same =
        (==_iff (to_ascii_lowercase a) (to_ascii_lowercase (to_ascii_lowercase kind))).1
          (e ∙ sym (lower_idem kind)) in
      rw
        (In-any (λ a. eq_ignore_ascii_case a (to_ascii_lowercase kind)) p.deny_actions a there same)
        refl
  IsDenied-denied (inr (pat, there, some_pat, (front, behind, e))) =
      let found : contains_text (to_ascii_lowercase pat) (hay_of kind detail) ≡ true =
        rw e (StandsIn-contains_text (to_ascii_lowercase pat) front behind) in
      let m : matches (hay_of kind detail) pat ≡ true = elim (empty_or pat) [
        | inl z ↦ absurd (some_pat z)
        | inr (filled, _) ↦ rw (filled, found) refl
      ] in
      rw (In-any (matches (hay_of kind detail)) p.deny_patterns pat there m) (ground arith)

-- An action is refused exactly if the policy denies an action of this name, or has a pattern that is
-- not empty and stands in the name, a space and the detail, whatever the case of the letters in
-- either; what it asks approval for is let through.
pub enforce-IsDenied :
    (p : Policy) (kind detail : Text)
    → (is_some (enforce p kind detail) ≡ true) ↔ IsDenied p kind detail
enforce-IsDenied p kind detail = (
  (λ h. denied-IsDenied p kind detail (sym (enforce-denied p kind detail) ∙ h)),
  (λ d. enforce-denied p kind detail ∙ IsDenied-denied p kind detail d),
)
