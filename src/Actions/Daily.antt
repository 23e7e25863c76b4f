-- ===== src/Actions/Daily.antt =====
-- crates/hub/src/main.rs: when a schedule runs next (`next_run_from`).
use haive_control.Prelude.{
  wrap, if-case, ℕ, ◌+◌, ◌-◌, ◌%◌, ◌^◌, ◌≡◌, ◌≤◌, ◌<◌, Text, text, arith, leb, unwrap_or, nat_eq,
  list_eq, list_beq,
}
use haive_control.Actions.Schedules.{When, second_of_day, daily_from, type_of, next_run_from}

pub wrap-small : (n : ℕ) → n < 2 ^ 64 → wrap n ≡ n
wrap-small n h = omega arith

-- The next time of the day: behind `now`, at most a day ahead, and at the second of the day.
abbrev pub IsNext : ℕ → ℕ → ℕ → Type 0
IsNext now tgt r = (now < r) × (r ≤ now + 86400) × (r % 86400 ≡ tgt)

pub daily_from-IsNext :
    (now tgt : ℕ) → tgt < 86400 → now + 172800 < 2 ^ 64 → IsNext now tgt (daily_from now tgt)
unfolding daily_from
daily_from-IsNext now tgt t small =
    let r = now - now % 86400 + tgt in
    let same : wrap r ≡ r = wrap-small r (omega arith) in
    rw same (
      if-case (IsNext now tgt) (leb r now) (wrap (r + 86400)) r
        (λ le.
          let le' : r ≤ now = ground arith in
          let same' : wrap (r + 86400) ≡ r + 86400 = wrap-small (r + 86400) (omega arith) in
          rw same' (omega arith, omega arith, omega arith))
        (λ gt. let gt' : now < r = ground arith in (omega arith, omega arith, omega arith)))

second_of_day_lt : (hhmm : Text) → second_of_day hhmm < 86400
unfolding second_of_day
second_of_day_lt hhmm = omega arith

-- A daily schedule runs next behind `now`, at most a day ahead, at the second of the day that its
-- `hhmm` means, while the clock is two days from the largest number of 64 bits.
pub next_run_from-IsNext :
    (now : ℕ) (w : When)
    → type_of w ≡ text "daily"
    → now + 172800 < 2 ^ 64
    → IsNext now (second_of_day (unwrap_or (text "00:00") w.hhmm)) (next_run_from now w)
unfolding next_run_from list_beq
next_run_from-IsNext now w e small = rw e (
    daily_from-IsNext now (second_of_day (unwrap_or (text "00:00") w.hhmm))
      (second_of_day_lt (unwrap_or (text "00:00") w.hhmm)) small)
