-- ===== src/Commands/Gate.antt =====
-- crates/hub/src/main.rs: what the read-only gate lets through (`is_readonly_cmd`).
use haive_control.Prelude.{
  split_from, take, if-case, ℕ, ◌≡◌, refl, ap, subst, inl, inr, Bool, true, false, not, ◌&&◌, ◌||◌,
  Option, none, some, List, [], ◌∷◌, ◌++◌, Text, text, any, all, arith, Bool-cases, ltb, is_empty,
  trim, byte_len, starts_with, contains_text, to_ascii_lowercase, lower_char, ◌==◌, ==_iff, nat_eq,
  list_eq, All,
}
use haive_control.Commands.Args.{one_of}
use haive_control.Commands.Readonly.{
  split_whitespace, base_from, first_word, second_word, listed, contains_any, ps_bad, ps_verbs,
  ps_readonly, read_only, subcommands, sub_listed, program_ok, program, ro_stage_ok, shells, chains,
  is_readonly_cmd,
}

-- The characters that start a second command or a redirection, in every shell.
abbrev pub separates : ℕ → Bool
separates c = one_of (text ";&><`") c

-- The programs that a stage may name.
abbrev pub programs : List Text
programs =
    text "systemctl"
    ∷ text "sc"
    ∷ text "service"
    ∷ text "wmic"
    ∷ text "reg"
    ∷ text "dpkg"
    ∷ text "rpm"
    ∷ text "apt"
    ∷ text "apt-get"
    ∷ text "brew"
    ∷ text "git"
    ∷ read_only

abbrev pub is_shell : Text → Bool
is_shell c = listed shells (base_from [] (to_ascii_lowercase (first_word (split_whitespace c))))

abbrev pub stage_program : Text → Text
stage_program stage = program (first_word (split_whitespace (trim stage)))

absent :
    (d : ℕ)
    → lower_char d ≡ d
    → (s : Text) → contains_text (d ∷ []) (to_ascii_lowercase s) ≡ false
    → All (λ c. (d == c) ≡ false) s
unfolding contains_text starts_with
absent d e [] h = tt
absent d e (c ∷ s) h =
    let same : (d == c) ≡ false = elim (Bool-cases (d == c)) [
      | inl k ↦
          let l : lower_char c ≡ d = subst (λ x. lower_char x ≡ d) ((==_iff d c).0 k) e in
          let m : (d == lower_char c) ≡ true = (==_iff d (lower_char c)).1 (ground arith) in
          absurd (ground arith)
      | inr k ↦ k
    ] in
    (same, absent d e s (ground arith))

any-All : (s : Text) → any chains s ≡ false → All (λ c. separates c ≡ false) s
any-All [] h = tt
any-All (c ∷ s) h = (ground arith, any-All s (ground arith))

five :
    (a b c d e : ℕ) (s : Text)
    → All (λ x. (a == x) ≡ false) s
    → All (λ x. (b == x) ≡ false) s
    → All (λ x. (c == x) ≡ false) s
    → All (λ x. (d == x) ≡ false) s
    → All (λ x. (e == x) ≡ false) s
    → All (λ x. one_of (a ∷ b ∷ c ∷ d ∷ e ∷ []) x ≡ false) s
five a b c d e [] p q r t u = tt
five a b c d e (x ∷ s) p q r t u =
    (rw (p.0, q.0, r.0, t.0, u.0) refl, five a b c d e s p.1 q.1 r.1 t.1 u.1)

-- A text with one of these in it, lowercased, has one of them.
any-absent :
    (x : Text) (xs ys : List Text) (s : Text)
    → contains_any (xs ++ (x ∷ ys)) s ≡ false
    → contains_text x s ≡ false
unfolding contains_any
any-absent x [] ys s h = ground arith
any-absent x (y ∷ xs) ys s h = any-absent x xs ys s (ground arith)

bad-All :
    (s : Text)
    → contains_any ps_bad (to_ascii_lowercase s) ≡ false
    → All (λ c. separates c ≡ false) s
unfolding ps_bad
bad-All s h =
    five 59 38 62 60 96 s (absent 59 refl s (any-absent (text ";") [] _ (to_ascii_lowercase s) h))
      (absent 38 refl s (any-absent (text "&") (text ";" ∷ []) _ (to_ascii_lowercase s) h))
      (absent 62 refl s
        (any-absent (text ">") (text ";" ∷ text "&" ∷ []) _ (to_ascii_lowercase s) h))
      (absent 60 refl s
        (any-absent (text "<") (text ";" ∷ text "&" ∷ text ">" ∷ []) _ (to_ascii_lowercase s) h))
      (absent 96 refl s (
        any-absent (text "`") (text ";" ∷ text "&" ∷ text ">" ∷ text "<" ∷ []) _
          (to_ascii_lowercase s) h))

listed-at :
    (a : Text) (xs ys : List Text) (p : Text) → (p == a) ≡ true → listed (xs ++ (a ∷ ys)) p ≡ true
listed-at a [] ys p h =
    let e : (a == p) ≡ true = ground (arith, ==_iff a p, ==_iff p a) in ground arith
listed-at a (x ∷ xs) ys p h = let r = listed-at a xs ys p h in ground arith

listed-behind : (xs ys : List Text) (p : Text) → listed ys p ≡ true → listed (xs ++ ys) p ≡ true
listed-behind [] ys p h = h
listed-behind (x ∷ xs) ys p h = let r = listed-behind xs ys p h in ground arith

abbrev tools : List Text
tools =
    text "systemctl"
    ∷ text "sc"
    ∷ text "service"
    ∷ text "wmic"
    ∷ text "reg"
    ∷ text "dpkg"
    ∷ text "rpm"
    ∷ text "apt"
    ∷ text "apt-get"
    ∷ text "brew"
    ∷ text "git"
    ∷ []

abbrev IsKnown : Text → Option (List Text) → Type 0
IsKnown p none = Unit
IsKnown p (some xs) = listed programs p ≡ true

module _ (p : Text) where
  tool :
      (xs ys : List Text) (a : Text)
      → (p == a) ≡ true
      → xs ++ (a ∷ ys) ≡ programs
      → listed programs p ≡ true
  tool xs ys a h e = subst (λ z. listed z p ≡ true) e (listed-at a xs ys p h)

  or-tool :
      (a b : Text)
      → (p == a || p == b) ≡ true
      → ((p == a) ≡ true → listed programs p ≡ true)
      → ((p == b) ≡ true → listed programs p ≡ true)
      → listed programs p ≡ true
  or-tool a b h f g = elim (Bool-cases (p == a)) [ inl e ↦ f e | inr e ↦ g (rw e at h) ]

  subcommands-IsKnown : IsKnown p (subcommands p)
  unfolding subcommands
  subcommands-IsKnown =
      if-case (IsKnown p) (p == text "systemctl") _ _ (λ h. tool [] _ (text "systemctl") h refl)
        (λ _.
          if-case (IsKnown p) (p == text "sc") _ _
            (λ h. tool (text "systemctl" ∷ []) _ (text "sc") h refl)
            (λ _.
              if-case (IsKnown p) (p == text "reg") _ _
                (λ h. tool (take 4 tools) _ (text "reg") h refl)
                (λ _.
                  if-case (IsKnown p) (p == text "dpkg") _ _
                    (λ h. tool (take 5 tools) _ (text "dpkg") h refl)
                    (λ _.
                      if-case (IsKnown p) (p == text "apt" || p == text "apt-get") _ _
                        (λ h.
                          or-tool (text "apt") (text "apt-get") h
                            (λ k. tool (take 7 tools) _ (text "apt") k refl)
                            (λ k. tool (take 8 tools) _ (text "apt-get") k refl))
                        (λ _.
                          if-case (IsKnown p) (p == text "brew") _ _
                            (λ h. tool (take 9 tools) _ (text "brew") h refl)
                            (λ _.
                              if-case (IsKnown p) (p == text "git") _ _
                                (λ h. tool (take 10 tools) _ (text "git") h refl) (λ _. tt)))))))

  known-ok :
      (o : Option (List Text)) (sub : Option Text)
      → IsKnown p o
      → (elim o [ some xs ↦ sub_listed xs sub | none ↦ listed read_only p ]) ≡ true
      → listed programs p ≡ true
  known-ok none sub k h = listed-behind tools read_only p h
  known-ok (some xs) sub k h = k

  program_ok-listed :
      (sub : Option Text) (stage : Text) → program_ok p sub stage ≡ true → listed programs p ≡ true
  unfolding program_ok
  program_ok-listed sub stage =
      let P = λ (b : Bool). (b ≡ true → listed programs p ≡ true) in
      if-case P (p == text "service") _ _ (λ h _. tool (take 2 tools) _ (text "service") h refl)
        (λ _.
          if-case P (p == text "wmic") _ _ (λ h _. tool (take 3 tools) _ (text "wmic") h refl)
            (λ _.
              if-case P (p == text "rpm") _ _ (λ h _. tool (take 6 tools) _ (text "rpm") h refl)
                (λ _. known-ok (subcommands p) sub subcommands-IsKnown)))

stage-listed :
    (stage : Text) → ro_stage_ok (trim stage) ≡ true → listed programs (stage_program stage) ≡ true
unfolding ro_stage_ok first_word
stage-listed stage h = words (split_whitespace (trim stage)) h
  where
    words :
        (ws : List Text)
        → (elim ws [
          | [] ↦ false
          | w ∷ ws ↦ program_ok (program w) (second_word (w ∷ ws)) (trim stage)
        ])
          ≡ true
        → listed programs (program (first_word ws)) ≡ true
    words [] k = absurd (cc)
    words (w ∷ ws) k = program_ok-listed (program w) (second_word (w ∷ ws)) (trim stage) k

stages-listed :
    (xs : List Text)
    → all (λ stage. ro_stage_ok (trim stage)) xs ≡ true
    → all (λ stage. listed programs (stage_program stage)) xs ≡ true
stages-listed [] h = refl
stages-listed (x ∷ xs) h = rw (stage-listed x (ground arith), stages-listed xs (ground arith)) refl

ps_readonly-All : (c : Text) → ps_readonly c ≡ true → All (λ x. separates x ≡ false) c
unfolding ps_readonly
ps_readonly-All c =
    let P = λ (b : Bool). (b ≡ true → All (λ x. separates x ≡ false) c) in
    let lc = to_ascii_lowercase c in
    if-case P (not (contains_text (text "-command") lc) && not (contains_text (text " -c ") lc)) _ _
      (λ _ h. absurd (cc))
      (λ _.
        if-case P (contains_any ps_bad lc) _ _ (λ _ h. absurd (cc))
          (λ e. if-case P (contains_any ps_verbs lc) _ _ (λ _ h. absurd (cc)) (λ _ _. bad-All c e)))

or-false : (a b : Bool) → (a || b) ≡ false → a ≡ false
or-false a b h = ground arith

or-true : (a b : Bool) → b ≡ true → (a || b) ≡ true
or-true a b h = ground arith

-- No character starts a second command, and unless PowerShell is run, every stage of the pipe names
-- a program of the list.
abbrev pub IsTame : Text → Type 0
IsTame c =
    All (λ x. separates x ≡ false) c
    × ((is_shell c || all (λ stage. listed programs (stage_program stage)) (split_from 124 [] c))
        ≡ true)

-- A command that passes the gate, trimmed, has none of the characters ; & > < ` in it, on the
-- PowerShell path too, and is PowerShell or names a program of the list in every stage of its pipe.
pub is_readonly_cmd-IsTame : (cmd : Text) → is_readonly_cmd cmd ≡ true → IsTame (trim cmd)
unfolding is_readonly_cmd
is_readonly_cmd-IsTame cmd =
    let c = trim cmd in
    let P = λ (b : Bool). (b ≡ true → IsTame c) in
    if-case P (is_empty c || ltb 600 (byte_len c)) _ _ (λ _ h. absurd (cc))
      (λ _.
        if-case P (is_shell c) _ _
          (λ e h. (
            ps_readonly-All c h,
            ap
                (λ b.
                  b || all (λ stage. listed programs (stage_program stage)) (split_from 124 [] c))
                e,
          ))
          (λ _.
            if-case P (any chains c || contains_text (text "$(") c) _ _ (λ _ h. absurd (cc))
              (λ e h. (
                any-All c (or-false (any chains c) (contains_text (text "$(") c) e),
                or-true (is_shell c) _ (stages-listed (split_from 124 [] c) h),
              ))))
