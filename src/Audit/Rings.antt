-- ===== src/Audit/Rings.antt =====
-- crates/hub/src/main.rs: the sizes of the logs (`audit`, `record_mcp_access`).
use haive_control.Prelude.{
  if-case, ℕ, ◌≤◌, List, [], ◌∷◌, Text, text, length, take, map, retain, length-take_le, All,
  All-take, All-insert, All-In, lookup-In, Option-cases, inl, inr, unwrap_or, Map, lookup, nat_eq,
  list_eq, is_empty,
}
use haive_control.Audit.Log.{Audit, Event, Session, Access, audit, push_event, record_access}
use haive_control.Audit.Sweep.{
  is_due, summarize, session_summary_sweep, append_summaries, Call, audits, sweeps, step, run,
}
use haive_control.Audit.Summary.{build_session_summary}

-- What the comments of the source promise of the log's memory.
unfoldable pub IsBounded : List Event → Type 0
IsBounded log = (length log ≤ 500) × All (λ (e : Event). length e.detail ≤ 180) log

audit-IsBounded :
    (a : Audit) (now : ℕ) (actor source action device detail : Text)
    → IsBounded a.log
    → IsBounded (audit a now actor source action device detail).log
unfolding audit push_event IsBounded
audit-IsBounded a now actor source action device detail h =
    let e : Event = record {
      at = now;
      actor = actor;
      source = source;
      action = action;
      device = device;
      detail = take 180 detail;
    } in
    let short : All (λ (e : Event). length e.detail ≤ 180) (e ∷ a.log) =
      (length-take_le 180 detail, h.1) in
    (
      length-take_le 500 (e ∷ a.log),
      All-take (λ (e : Event). length e.detail ≤ 180) 500 (e ∷ a.log) short,
    )

append_summaries-IsBounded :
    (a : Audit) (now : ℕ) (due : List (Text × Session))
    → IsBounded a.log
    → IsBounded (append_summaries a now due).log
unfolding append_summaries
append_summaries-IsBounded a now [] h = h
append_summaries-IsBounded a now ((actor, s) ∷ due) h =
    let told = build_session_summary a.log actor s in
    append_summaries-IsBounded
      (audit a now actor (text "summary") (text "session summary") (text "—") told) now due
      (audit-IsBounded a now actor (text "summary") (text "session summary") (text "—") told h)

step-IsBounded : (a : Audit) (c : Call) → IsBounded a.log → IsBounded (step a c).log
unfolding step session_summary_sweep
step-IsBounded a (audits now actor source action device detail) h =
    audit-IsBounded a now actor source action device detail h
step-IsBounded a (sweeps now) h =
    append_summaries-IsBounded (record a { sessions = map (summarize now) a.sessions }) now
      (retain (is_due now) a.sessions) h

-- Whatever is audited and summarized in whatever order, the audit log holds at most 500 events, each
-- with a detail of at most 180 characters, if it did at first.
pub run-IsBounded : (a : Audit) (cs : List Call) → IsBounded a.log → IsBounded (run a cs).log
unfolding run
run-IsBounded a [] h = h
run-IsBounded a (c ∷ cs) h = run-IsBounded (step a c) cs (step-IsBounded a c h)

unfoldable pub IsShort : Text × List Access → Type 0
IsShort e = (length e.1 ≤ 50) × All (λ (x : Access). length x.detail ≤ 180) e.1

-- Recording an access keeps at most 50 accesses of each device, each with a detail of at most 180
-- characters.
pub record_access-IsShort :
    (m : Map Text (List Access)) (now : ℕ) (key action owner detail : Text)
    → All IsShort m
    → All IsShort (record_access m now key action owner detail)
unfolding record_access IsShort
record_access-IsShort m now key action owner detail h =
    if-case (All IsShort) (is_empty key) _ _ (λ _. h)
      (λ _.
        let old : All (λ (x : Access). length x.detail ≤ 180) (unwrap_or [] (lookup key m)) =
          elim (Option-cases (lookup key m)) [
            | inl e ↦ rw e tt
            | inr (xs, e) ↦ rw e (All-In IsShort m (key, xs) h (lookup-In key xs m e)).1
          ] in
        let x : Access = record {
          when = now;
          action = action;
          owner = owner;
          detail = take 180 detail;
        } in
        let xs = x ∷ unwrap_or [] (lookup key m) in
        let short : All (λ (x : Access). length x.detail ≤ 180) xs =
          (length-take_le 180 detail, old) in
        let now_short : IsShort (key, take 50 xs) =
          (length-take_le 50 xs, All-take (λ (x : Access). length x.detail ≤ 180) 50 xs short) in
        All-insert IsShort key (take 50 xs) m now_short h)
