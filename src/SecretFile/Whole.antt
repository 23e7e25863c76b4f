-- ===== src/SecretFile/Whole.antt =====
-- crates/hub/src/secretfile.rs: what a reader finds in the file while it is replaced, and behind it
-- (`replace_secret`).
use haive_control.Prelude.{
  if-case, ℕ, suc, zero, ◌<◌, ◌≡◌, refl, sym, ap, subst, ◌∙◌, inl, inr, ◌⊎◌, Bool, true, false, not,
  ◌||◌, Option, none, some, List, [], ◌∷◌, ◌++◌, map, Text, arith, length, take, ltb, ltb→lt,
  is_some, append_assoc, append_nil, All, All-take, All-append, lookup, insert, remove, modify,
  lookup-insert, lookup-remove, lookup-modify, Bool-cases, ◌==◌, ==_iff, ==_refl, nat_eq, list_eq,
  if◌then◌else◌,
}
use haive_control.SecretFile.Files.{
  File, Files, Op, creates, writes, syncs, renames, new_file, append, sync, moved, step, run, crash,
  settled,
}
use haive_control.SecretFile.Secret.{replace_ops, replace_secret}

unfoldable pub joined : List Text → Text
joined [] = []
joined (p ∷ ps) = p ++ joined ps

abbrev pub whole : List Text → File
whole pieces = record { mode = 0o600; content = joined pieces; synced = true }

run-append : (fs : Files) (xs ys : List Op) → run fs (xs ++ ys) ≡ run (run fs xs) ys
unfolding run
run-append fs [] ys = refl
run-append fs (x ∷ xs) ys = run-append (step fs x) xs ys

module _ (path tmp : Text) (apart : (tmp == path) ≡ false) where
  -- The step is about the temporary file only.
  abbrev IsTmp : Op → Type 0
  IsTmp (creates p) = p ≡ tmp
  IsTmp (writes p piece) = p ≡ tmp
  IsTmp (syncs p) = p ≡ tmp
  IsTmp (renames from to) = ⊥

  other-modify : (fs : Files) (f : File → File) → lookup path (modify tmp f fs) ≡ lookup path fs
  other-modify [] f = refl
  other-modify ((k, x) ∷ fs) f = elim (Bool-cases (k == tmp)) [
    | inl t ↦
        let same : k ≡ tmp = (==_iff k tmp).0 t in
        let away : (k == path) ≡ false = rw same apart in rw t (rw away refl)
    | inr n ↦ rw n (ap (λ o. if k == path then some x else o) (other-modify fs f))
  ]

  step-path : (fs : Files) (op : Op) → IsTmp op → lookup path (step fs op) ≡ lookup path fs
  unfolding step
  step-path fs (creates p) e = rw e (rw lookup-insert (rw apart refl))
  step-path fs (writes p piece) e = rw e (other-modify fs (append piece))
  step-path fs (syncs p) e = rw e (other-modify fs sync)
  step-path fs (renames from to) e = elim e [ ]

  run-path :
      (fs : Files) (ops : List Op) → All IsTmp ops → lookup path (run fs ops) ≡ lookup path fs
  unfolding run
  run-path fs [] a = refl
  run-path fs (op ∷ ops) a = run-path (step fs op) ops a.1 ∙ step-path fs op a.0

  writes-IsTmp : (pieces : List Text) → All IsTmp (map (writes tmp) pieces)
  writes-IsTmp [] = tt
  writes-IsTmp (p ∷ ps) = (refl, writes-IsTmp ps)

  -- The steps in front of the rename.
  abbrev before : List Text → List Op
  before pieces = (creates tmp ∷ map (writes tmp) pieces) ++ (syncs tmp ∷ [])

  before-IsTmp : (pieces : List Text) → All IsTmp (before pieces)
  before-IsTmp pieces =
      All-append IsTmp (creates tmp ∷ map (writes tmp) pieces) (syncs tmp ∷ [])
        (refl, writes-IsTmp pieces) (refl, tt)

  split-ops :
      (pieces : List Text) → replace_ops path tmp pieces ≡ before pieces ++ (renames tmp path ∷ [])
  unfolding replace_ops
  split-ops pieces = sym (
      append_assoc (creates tmp ∷ map (writes tmp) pieces) (syncs tmp ∷ []) (renames tmp path ∷ []))

  written :
      (fs : Files) (f : File) (pieces : List Text)
      → lookup tmp fs ≡ some f
      → (g : File) × (lookup tmp (run fs (map (writes tmp) pieces)) ≡ some g)
        × (g.mode ≡ f.mode)
        × (g.content ≡ f.content ++ joined pieces)
  unfolding run step joined
  written fs f [] h = (f, h, refl, sym (append_nil f.content))
  written fs f (p ∷ ps) h =
      let h' : lookup tmp (modify tmp (append p) fs) ≡ some (append p f) =
        lookup-modify tmp tmp (append p) f fs h ∙ rw (==_refl tmp) refl in
      let (g, there, mode, content) = written (modify tmp (append p) fs) (append p f) ps h' in
      (g, there, mode, content ∙ append_assoc f.content p (joined ps))

  -- All steps put the whole content in place.
  replaced :
      (fs : Files) (pieces : List Text)
      → lookup path (run fs (replace_ops path tmp pieces)) ≡ some (whole pieces)
  unfolding run step moved
  replaced fs pieces =
      let made : lookup tmp (insert tmp new_file fs) ≡ some new_file =
        rw lookup-insert (rw (==_refl tmp) refl) in
      let end = run (insert tmp new_file fs) (map (writes tmp) pieces) in
      let (g, there, mode, content) = written (insert tmp new_file fs) new_file pieces made in
      let full : lookup tmp (modify tmp sync end) ≡ some (sync g) =
        lookup-modify tmp tmp sync g end there ∙ rw (==_refl tmp) refl in
      let same : sync g ≡ whole pieces = rw (mode, content) refl in
      rw (split-ops pieces, run-append fs (before pieces) (renames tmp path ∷ []))
        (rw (run-append (insert tmp new_file fs) (map (writes tmp) pieces) (syncs tmp ∷ []))
          (rw full (rw lookup-insert (rw (==_refl path) (ap (λ f. some f) same)))))

take-snoc :
    (n : ℕ) (xs : List Op) (x : Op)
    → (take n (xs ++ (x ∷ [])) ≡ take n xs) ⊎ (take n (xs ++ (x ∷ [])) ≡ xs ++ (x ∷ []))
take-snoc zero xs x = inl refl
take-snoc (suc zero) [] x = inr refl
take-snoc (suc (suc n)) [] x = inr refl
take-snoc (suc n) (y ∷ xs) x = elim (take-snoc n xs x) [
  | inl e ↦ inl (ap (λ l. y ∷ l) e)
  | inr e ↦ inr (ap (λ l. y ∷ l) e)
]

-- Reading behind a crash.
abbrev pub kept : (Text → Text → Text) → Text → Option File → Option File
kept lost path none = none
kept lost path (some f) = some (settled lost (path, f)).1

lookup-crash :
    (lost : Text → Text → Text) (path : Text) (fs : Files)
    → lookup path (crash lost fs) ≡ kept lost path (lookup path fs)
unfolding crash
lookup-crash lost path [] = refl
lookup-crash lost path ((k, f) ∷ fs) = elim (Bool-cases (k == path)) [
  | inl t ↦
      let same : k ≡ path = (==_iff k path).0 t in
      rw t (ap (λ j. some (settled lost (j, f)).1) same)
  | inr n ↦ rw n (lookup-crash lost path fs)
]

-- Every cut of the replacement leaves the old file or the new one.
replace_ops-cut :
    (fs : Files) (path tmp : Text) (pieces : List Text) (n : ℕ)
    → (tmp == path) ≡ false
    → let seen = lookup path (run fs (take n (replace_ops path tmp pieces))) in
      (seen ≡ lookup path fs) ⊎ (seen ≡ some (whole pieces))
replace_ops-cut fs path tmp pieces n apart =
    let ops = before path tmp apart pieces in
    let cut = take n (replace_ops path tmp pieces) in
    let same = ap (take n) (split-ops path tmp apart pieces) in
    elim (take-snoc n ops (renames tmp path)) [
      | inl e ↦ inl (
          ap (λ l. lookup path (run fs l)) (same ∙ e)
          ∙ run-path path tmp apart fs (take n ops)
              (All-take (IsTmp path tmp apart) n ops (before-IsTmp path tmp apart pieces)))
      | inr e ↦ inr (
          ap (λ l. lookup path (run fs l)) (same ∙ (e ∙ sym (split-ops path tmp apart pieces)))
          ∙ replaced path tmp apart fs pieces)
    ]

-- Wherever the replacement of a secret is cut off, a reader finds the file as it was before, or the
-- whole new content in a file that is its owner's alone; and behind a crash at that place, which may
-- turn data that was not synced into anything, the file is what the crash leaves of the old one, or
-- holds the whole new content and is its owner's alone. The temporary file has another name.
pub replace_ops-whole :
    (fs : Files) (path tmp : Text) (pieces : List Text) (n : ℕ) (lost : Text → Text → Text)
    → (tmp == path) ≡ false
    → let cut = run fs (take n (replace_ops path tmp pieces)) in
      ((lookup path cut ≡ lookup path fs) ⊎ (lookup path cut ≡ some (whole pieces)))
      × ((lookup path (crash lost cut) ≡ lookup path (crash lost fs))
          ⊎ (lookup path (crash lost cut) ≡ some (whole pieces)))
replace_ops-whole fs path tmp pieces n lost apart =
    let cut = run fs (take n (replace_ops path tmp pieces)) in
    let at_cut = replace_ops-cut fs path tmp pieces n apart in
    (
      at_cut,
      elim at_cut [
        | inl e ↦
            inl (
              lookup-crash lost path cut
              ∙ (ap (kept lost path) e ∙ sym (lookup-crash lost path fs)))
        | inr e ↦ inr (lookup-crash lost path cut ∙ ap (kept lost path) e)
      ],
    )

take-front :
    (n : ℕ) (xs : List Op) (x : Op)
    → n < length (xs ++ (x ∷ []))
    → take n (xs ++ (x ∷ [])) ≡ take n xs
take-front zero xs x h = refl
take-front (suc n) [] x h = absurd (omega arith)
take-front (suc n) (y ∷ xs) x h = ap (λ l. y ∷ l) (take-front n xs x (omega arith))

abbrev pub Result : Files → Text → Text → List Text → Files × Bool → Type 0
Result fs path tmp pieces r =
    ((r.1 ≡ true) × (lookup path r.0 ≡ some (whole pieces)))
    ⊎ ((r.1 ≡ false) × (lookup path r.0 ≡ lookup path fs) × (lookup tmp r.0 ≡ none))

cleaned :
    (fs fs' : Files) (path tmp : Text) (pieces : List Text)
    → (tmp == path) ≡ false
    → lookup path fs' ≡ lookup path fs
    → Result fs path tmp pieces (remove tmp fs', false)
cleaned fs fs' path tmp pieces apart same =
    inr (refl, rw lookup-remove (rw apart same), rw lookup-remove (rw (==_refl tmp) refl))

-- Whichever system call fails, if one does: where `replace_secret` reports success the file holds the
-- whole new content and is its owner's alone, and where it reports an error the file is as it was and
-- the temporary file is gone; with a new temporary name and no failure it reports success.
pub replace_secret-Result :
    (fs : Files) (path tmp : Text) (pieces : List Text) (fails : Option ℕ)
    → (tmp == path) ≡ false
    → Result fs path tmp pieces (replace_secret fs path tmp pieces fails)
      × (fails ≡ none → lookup tmp fs ≡ none → (replace_secret fs path tmp pieces fails).1 ≡ true)
unfolding replace_secret
replace_secret-Result fs path tmp pieces none apart = (
  if-case (Result fs path tmp pieces) (is_some (lookup tmp fs)) _ _
      (λ _. cleaned fs fs path tmp pieces apart refl)
      (λ _. inl (refl, replaced path tmp apart fs pieces)),
  (λ _ fresh. rw fresh refl),
)
replace_secret-Result fs path tmp pieces (some n) apart =
    let ops = before path tmp apart pieces in
    let all_ops = replace_ops path tmp pieces in
    (
      if-case (Result fs path tmp pieces)
          (is_some (lookup tmp fs) || not (ltb n (length (replace_ops path tmp pieces)))) _ _
          (λ _. cleaned fs fs path tmp pieces apart refl)
          (λ ok.
            let same = split-ops path tmp apart pieces in
            let lt : n < length all_ops = ltb→lt n (length all_ops) (ground arith) in
            let lt' : n < length (ops ++ (renames tmp path ∷ [])) =
              subst (λ l. n < length l) same lt in
            let front = ap (take n) same ∙ take-front n ops (renames tmp path) lt' in
            cleaned fs (run fs (take n all_ops)) path tmp pieces apart (
              ap (λ l. lookup path (run fs l)) front
              ∙ run-path path tmp apart fs (take n ops)
                  (All-take (IsTmp path tmp apart) n ops (before-IsTmp path tmp apart pieces)))),
      (λ e. absurd (cc)),
    )
