-- ===== src/Actions/Armed.antt =====
-- crates/hub/src/main.rs: when schedules run next, behind a round of the scheduler (`start_scheduler`).
use haive_control.Prelude.{
  wrap, ℕ, ◌+◌, ◌*◌, ◌^◌, ◌≡◌, ◌≤◌, ◌<◌, inl, inr, ◌⊎◌, false, Option, none, some, List, [], ◌∷◌,
  text, arith, ltb, ltb→lt, unwrap_or, All, Bool-cases, ◌==◌, ==_iff, nat_eq, list_eq, list_beq,
}
use haive_control.Actions.Schedules.{
  When, Schedule, Round, at_least_1, type_of, next_run_from, rearm, tick,
}
use haive_control.Actions.Round.{advance-idle, advance-due, round, tick-round}
use haive_control.Actions.Daily.{wrap-small, next_run_from-IsNext}

-- A schedule of a known type or with minutes, a clock that does not go back, and times that stay in
-- 64 bits.
abbrev pub IsSound : ℕ → (Schedule → ℕ) → Schedule → Type 0
IsSound now clock s =
    (now ≤ clock s)
    × (clock s + 172800 < 2 ^ 64)
    × (clock s + at_least_1 (unwrap_or 60 s.when.mins) * 60 < 2 ^ 64)
    × ((type_of s.when ≡ text "once")
        ⊎ ((type_of s.when ≡ text "interval")
            ⊎ ((type_of s.when ≡ text "daily") ⊎ (0 < unwrap_or 0 s.when.mins))))

interval_later :
    (now : ℕ) (w : When)
    → type_of w ≡ text "interval"
    → now + at_least_1 (unwrap_or 60 w.mins) * 60 < 2 ^ 64
    → now < next_run_from now w
unfolding next_run_from list_beq
interval_later now w e small =
    let n = at_least_1 (unwrap_or 60 w.mins) in
    let some_mins : 1 ≤ n = ground arith in
    let inner : wrap (n * 60) ≡ n * 60 = wrap-small (n * 60) (omega arith) in
    let outer : wrap (now + n * 60) ≡ now + n * 60 = wrap-small (now + n * 60) small in
    let le : now < now + n * 60 = omega arith in rw e (rw inner (rw outer le))

-- With minutes every type is armed for later.
minutes_later :
    (now : ℕ) (w : When)
    → 0 < unwrap_or 0 w.mins
    → (type_of w == text "interval") ≡ false
    → (type_of w == text "daily") ≡ false
    → now + at_least_1 (unwrap_or 60 w.mins) * 60 < 2 ^ 64
    → now < next_run_from now w
unfolding next_run_from
minutes_later now w some_mins i d small =
    let m = unwrap_or 0 w.mins in
    let same : at_least_1 (unwrap_or 60 w.mins) ≡ m = minutes w.mins some_mins in
    let inner : wrap (m * 60) ≡ m * 60 = wrap-small (m * 60) (omega arith) in
    let outer : wrap (now + m * 60) ≡ now + m * 60 = wrap-small (now + m * 60) (omega arith) in
    let le : now < now + m * 60 = omega arith in rw (i, d, inner, outer) le
  where
    minutes :
        (mins : Option ℕ) → 0 < unwrap_or 0 mins → at_least_1 (unwrap_or 60 mins) ≡ unwrap_or 0 mins
    minutes none h = absurd (omega arith)
    minutes (some m) h = ground arith

rearm-later :
    (now : ℕ) (clock : Schedule → ℕ) (s : Schedule)
    → IsSound now clock s
    → (type_of s.when == text "once") ≡ false
    → now < (rearm now (clock s) s).next_run
unfolding rearm
rearm-later now clock s (le, days, mins, kind) n = elim kind [
  | inl e ↦ let t = (==_iff (type_of s.when) (text "once")).1 e in absurd (cc)
  | inr (inl e) ↦ let lt = interval_later (clock s) s.when e mins in omega arith
  | inr (inr (inl e)) ↦ let (lt, _, _) = next_run_from-IsNext (clock s) s.when e days in omega arith
  | inr (inr (inr some_mins)) ↦ elim (Bool-cases (type_of s.when == text "interval")) [
    | inl t ↦
        let e = (==_iff (type_of s.when) (text "interval")).0 t in
        let lt = interval_later (clock s) s.when e mins in omega arith
    | inr i ↦ elim (Bool-cases (type_of s.when == text "daily")) [
      | inl t ↦
          let e = (==_iff (type_of s.when) (text "daily")).0 t in
          let (lt, _, _) = next_run_from-IsNext (clock s) s.when e days in omega arith
      | inr d ↦ let lt = minutes_later (clock s) s.when some_mins i d mins in omega arith
    ]
  ]
]

round-armed :
    (now : ℕ) (clock : Schedule → ℕ) (all : List Schedule)
    → All (IsSound now clock) all
    → All (λ (s : Schedule). now < s.next_run) (round now clock all).0
round-armed now clock [] sound = tt
round-armed now clock (s ∷ rest) (ok, sound) =
    let ih = round-armed now clock rest sound in
    elim (Bool-cases (ltb now s.next_run)) [
      | inl t ↦ rw (t, advance-idle now clock s t) (ltb→lt now s.next_run t, ih)
      | inr n ↦ elim (Bool-cases (type_of s.when == text "once")) [
        | inl o ↦ rw (n, o) ih
        | inr o ↦ rw (n, o, advance-due now clock s n) (rearm-later now clock s ok o, ih)
      ]
    ]

-- Behind a round of the scheduler, which ends, no schedule that it leaves is due at the round's time,
-- where every schedule is of type once, interval or daily or has minutes, the clock does not go back
-- in the round, and the times stay in 64 bits.
pub tick-armed :
    (now : ℕ) (clock : Schedule → ℕ) (all : List Schedule)
    → All (IsSound now clock) all
    → (r : Round) × (tick now clock all ≡ some r) × All (λ (s : Schedule). now < s.next_run) r.0
tick-armed now clock all sound =
    (round now clock all, tick-round now clock all, round-armed now clock all sound)
