-- ===== src/Actions/Round.antt =====
-- crates/hub/src/main.rs: what one round of the scheduler does to all schedules (`start_scheduler`).
use haive_control.Prelude.{
  ℕ, zero, suc, ◌+◌, ◌≡◌, ◌<◌, refl, ap, ◌∙◌, inl, inr, Bool, true, false, not, ◌&&◌, ◌||◌, Option,
  none, some, List, [], ◌∷◌, ◌++◌, map, text, arith, length, retain, any, ltb, append_assoc,
  append_nil, Bool-cases, ◌==◌, nat_eq, list_eq, if◌then◌else◌,
}
use haive_control.Actions.Schedules.{
  Schedule, Round, type_of, rearm, get_elem?, remove_at, set_at, tick_from, tick,
}

abbrev pub is_due : ℕ → Schedule → Bool
is_due now s = not (ltb now s.next_run)

-- Due, and the hub's to run.
abbrev pub is_hubs : ℕ → Schedule → Bool
is_hubs now s = is_due now s && not s.agent_owned

-- Not over with this round.
abbrev pub stays : ℕ → Schedule → Bool
stays now s = not (is_due now s && (type_of s.when == text "once"))

unfoldable pub advance : ℕ → (Schedule → ℕ) → Schedule → Schedule
advance now clock s = if is_due now s then rearm now (clock s) s else s

pub advance-idle :
    (now : ℕ) (clock : Schedule → ℕ) (s : Schedule)
    → ltb now s.next_run ≡ true
    → advance now clock s ≡ s
unfolding advance
advance-idle now clock s t = rw t refl

pub advance-due :
    (now : ℕ) (clock : Schedule → ℕ) (s : Schedule)
    → ltb now s.next_run ≡ false
    → advance now clock s ≡ rearm now (clock s) s
unfolding advance
advance-due now clock s f = rw f refl

-- What a round comes to.
abbrev pub round : ℕ → (Schedule → ℕ) → List Schedule → Round
round now clock all = (
  map (advance now clock) (retain (stays now) all),
  retain (is_hubs now) all,
  any (is_due now) all,
)

get_elem?-end : (front : List Schedule) → get_elem? front (length front) ≡ none
unfolding get_elem?
get_elem?-end [] = refl
get_elem?-end (s ∷ front) = get_elem?-end front

get_elem?-append :
    (front : List Schedule) (s : Schedule) (rest : List Schedule)
    → get_elem? (front ++ (s ∷ rest)) (length front) ≡ some s
unfolding get_elem?
get_elem?-append [] s rest = refl
get_elem?-append (t ∷ front) s rest = get_elem?-append front s rest

remove_at-append :
    (front : List Schedule) (s : Schedule) (rest : List Schedule)
    → remove_at (length front) (front ++ (s ∷ rest)) ≡ front ++ rest
unfolding remove_at
remove_at-append [] s rest = refl
remove_at-append (t ∷ front) s rest = ap (λ l. t ∷ l) (remove_at-append front s rest)

set_at-append :
    (front : List Schedule) (s new : Schedule) (rest : List Schedule)
    → set_at (length front) new (front ++ (s ∷ rest)) ≡ front ++ (new ∷ rest)
unfolding set_at
set_at-append [] s new rest = refl
set_at-append (t ∷ front) s new rest = ap (λ l. t ∷ l) (set_at-append front s new rest)

length-snoc : (front : List Schedule) (s : Schedule) → length (front ++ (s ∷ [])) ≡ length front + 1
length-snoc [] s = refl
length-snoc (t ∷ front) s = let ih = length-snoc front s in omega arith

or_false : (b : Bool) → (b || false) ≡ b
or_false true = refl
or_false false = refl

or_true : (b : Bool) → (b || true) ≡ true
or_true true = refl
or_true false = refl

fires :
    (s : Schedule) (fired later : List Schedule) (agent_owned : Bool)
    → (if agent_owned then fired else fired ++ (s ∷ [])) ++ later
      ≡ fired ++ (if not agent_owned then s ∷ later else later)
fires s fired later true = refl
fires s fired later false = append_assoc fired (s ∷ []) later

module _ (now : ℕ) (clock : Schedule → ℕ) where
  -- What a round comes to from here on.
  abbrev result : List Schedule → List Schedule → List Schedule → Bool → Option Round
  result front rest fired changed = some (
    front ++ map (advance now clock) (retain (stays now) rest),
    fired ++ retain (is_hubs now) rest,
    changed || any (is_due now) rest,
  )

  -- The schedule at hand goes to the front.
  past :
      (steps : ℕ) (front rest fired : List Schedule) (s : Schedule) (changed : Bool)
      → tick_from steps now clock
          (length (front ++ (s ∷ [])))
          ((front ++ (s ∷ [])) ++ rest)
          fired
          changed
        ≡ result (front ++ (s ∷ [])) rest fired changed
      → tick_from steps now clock (length front + 1) (front ++ (s ∷ rest)) fired changed
        ≡ some (
          front ++ (s ∷ map (advance now clock) (retain (stays now) rest)),
          fired ++ retain (is_hubs now) rest,
          changed || any (is_due now) rest,
        )
  past steps front rest fired s changed h =
      let at_s = length-snoc front s in
      let whole = append_assoc front (s ∷ []) rest in
      let end = append_assoc front (s ∷ []) (map (advance now clock) (retain (stays now) rest)) in
      rw at_s at (rw whole at (rw end at h))

  -- One step, by the three ways through the loop's body.
  module _ (n i : ℕ) (all fired : List Schedule) (s : Schedule) (changed : Bool)
      (here : get_elem? all i ≡ some s) where
    skips :
        ltb now s.next_run ≡ true
        → tick_from (suc n) now clock i all fired changed
          ≡ tick_from n now clock (i + 1) all fired changed
    unfolding tick_from
    skips t = rw (here, t, tick_from) refl

    drops :
        ltb now s.next_run ≡ false
        → (type_of s.when == text "once") ≡ true
        → tick_from (suc n) now clock i all fired changed
          ≡ tick_from n now clock i
              (remove_at i all)
              (if s.agent_owned then fired else fired ++ (s ∷ []))
              true
    unfolding tick_from
    drops f o = rw (here, f, o, tick_from) refl

    rearms :
        ltb now s.next_run ≡ false
        → (type_of s.when == text "once") ≡ false
        → tick_from (suc n) now clock i all fired changed
          ≡ tick_from n now clock
              (i + 1)
              (set_at i (rearm now (clock s) s) all)
              (if s.agent_owned then fired else fired ++ (s ∷ []))
              true
    unfolding tick_from
    rearms f o = rw (here, f, o, tick_from) refl

  tick_from-result :
      (steps : ℕ) (rest front fired : List Schedule) (changed : Bool)
      → length rest < steps
      → tick_from steps now clock (length front) (front ++ rest) fired changed
        ≡ result front rest fired changed
  unfolding tick_from
  tick_from-result zero rest front fired changed lt = absurd (omega arith)
  tick_from-result (suc n) [] front fired changed lt =
      let end : get_elem? (front ++ []) (length front) ≡ none =
        rw (append_nil front) (get_elem?-end front) in
      rw (end, append_nil fired, or_false changed, tick_from) refl
  tick_from-result (suc n) (s ∷ rest) front fired changed lt =
      let here = get_elem?-append front s rest in
      let fired' = if s.agent_owned then fired else fired ++ (s ∷ []) in
      let ran = fires s fired (retain (is_hubs now) rest) s.agent_owned in
      elim (Bool-cases (ltb now s.next_run)) [
        | inl t ↦
            skips n (length front) (front ++ (s ∷ rest)) fired s changed here t
            ∙ rw (t, advance-idle now clock s t)
                (past n front rest fired s changed
                  (tick_from-result n rest (front ++ (s ∷ [])) fired changed (omega arith)))
        | inr f ↦ elim (Bool-cases (type_of s.when == text "once")) [
          | inl o ↦
              drops n (length front) (front ++ (s ∷ rest)) fired s changed here f o
              ∙ rw (remove_at-append front s rest, f, o, or_true changed, ← ran)
                  (tick_from-result n rest front fired' true (omega arith))
          | inr o ↦
              let new = rearm now (clock s) s in
              rearms n (length front) (front ++ (s ∷ rest)) fired s changed here f o
              ∙ rw
                  (
                    set_at-append front s new rest,
                    f,
                    o,
                    advance-due now clock s f,
                    or_true changed,
                    ← ran,
                  )
                  (past n front rest fired' new true
                    (tick_from-result n rest (front ++ (new ∷ [])) fired' true (omega arith)))
        ]
      ]

-- One round ends within a step for each schedule and one more. It runs each schedule that is due and
-- not its agent's, once and in their order, and no other; of the schedules it drops those that are
-- due and of type once, arms the others that are due again, and leaves the rest, in their order; and
-- it saves exactly if one was due.
pub tick-round :
    (now : ℕ) (clock : Schedule → ℕ) (all : List Schedule)
    → tick now clock all ≡ some (round now clock all)
unfolding tick
tick-round now clock all =
    tick_from-result now clock (suc (length all)) all [] [] false (omega arith)
