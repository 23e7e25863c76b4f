-- ===== src/Audit/Examples.antt =====
-- The logs and the sessions at concrete inputs.
use haive_control.Prelude.{
  List, ◌++◌, take, count_if, false, ◌≡◌, refl, true, some, [], ◌∷◌, text, lookup, arith, list_beq,
  is_whitespace, digits_from, decimal, nat_eq, list_eq,
}
use haive_control.Commands.Readonly.{words_from, split_whitespace, first_word, base_from}
use haive_control.Audit.Log.{Audit, Event, Session}
use haive_control.Audit.Summary.{fmt_dur, cmd_verb}
use haive_control.Audit.Sweep.{session_summary_sweep, Call, audits, sweeps, run}
use haive_control.Audit.Rings.{IsBounded, run-IsBounded}
use haive_control.Audit.Written.{is_told}
use haive_control.Audit.Once.{summarized-once}

fmt_dur_hours : fmt_dur 7325 ≡ text "2h 2m"
unfolding fmt_dur decimal digits_from
fmt_dur_hours = refl

cmd_verb_path : cmd_verb (text " \"/usr/bin/ssh\" -i key") ≡ text "ssh"
unfolding cmd_verb split_whitespace words_from first_word base_from is_whitespace
cmd_verb_path = refl

abbrev calls : List Call
calls =
    audits 5 (text "ann") (text "mcp") (text "run command") (text "mac") (text "ls")
    ∷ sweeps 2000
    ∷ audits 2001 (text "bob") (text "mcp") (text "input") (text "mac") []
    ∷ []

abbrev quiet : Audit
quiet = record { log = []; sessions = [] }

run-IsBounded_example : IsBounded (run quiet calls).log
unfolding IsBounded
run-IsBounded_example = run-IsBounded quiet calls (omega arith, tt)

abbrev session : Session
session = record { start = 5; last = 9; summarized = false }

abbrev later : List Call
later = audits 2001 (text "bob") (text "mcp") (text "input") (text "mac") [] ∷ sweeps 4000 ∷ []

abbrev idle : Audit
idle = record quiet { sessions = (text "ann", session) ∷ [] }

summarized-once_example :
    (lookup (text "ann") (run (session_summary_sweep idle 2000) later).sessions
      ≡ some (record session { summarized = true }))
    × ((added : List Event) × ((run (session_summary_sweep idle 2000) later).log
          ≡ take 500 (added ++ idle.log))
        × (count_if (is_told (text "ann")) added ≡ 1))
unfolding list_beq
summarized-once_example =
    summarized-once idle 2000 (text "ann") session later (refl, tt) (omega arith) refl refl
      (refl, (refl, tt))
