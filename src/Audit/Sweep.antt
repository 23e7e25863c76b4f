-- ===== src/Audit/Sweep.antt =====
-- crates/hub/src/main.rs: `session_summary_sweep`.
use haive_control.Prelude.{
  ℕ, Bool, true, not, ◌&&◌, List, [], ◌∷◌, map, Text, text, retain, if◌then◌else◌,
}
use haive_control.Audit.Log.{Audit, Session, audit, is_idle}
use haive_control.Audit.Summary.{build_session_summary}

-- A session to summarize, and a session once it is.
abbrev pub is_due : ℕ → Text × Session → Bool
is_due now (a, e) = not e.summarized && is_idle now e

unfoldable pub summarize : ℕ → Text × Session → Text × Session
summarize now (a, e) = (a, if is_due now (a, e) then record e { summarized = true } else e)

-- One event for each session that is due.
unfoldable pub append_summaries : Audit → ℕ → List (Text × Session) → Audit
unfolding audit build_session_summary
append_summaries a now [] = a
append_summaries a now ((actor, s) ∷ due) =
    let told = build_session_summary a.log actor s in
    append_summaries (audit a now actor (text "summary") (text "session summary") (text "—") told)
      now due

unfoldable pub session_summary_sweep : Audit → ℕ → Audit
unfolding summarize append_summaries
session_summary_sweep a now =
    append_summaries (record a { sessions = map (summarize now) a.sessions }) now
      (retain (is_due now) a.sessions)

-- A call that writes to the logs: its time, and for an event what `audit` takes.
pub data Call : Type 0 where
  audits : ℕ → Text → Text → Text → Text → Text → Call
  sweeps : ℕ → Call

unfoldable pub step : Audit → Call → Audit
unfolding audit session_summary_sweep
step a (audits now actor source action device detail) =
    audit a now actor source action device detail
step a (sweeps now) = session_summary_sweep a now

unfoldable pub run : Audit → List Call → Audit
unfolding step
run a [] = a
run a (c ∷ cs) = run (step a c) cs
