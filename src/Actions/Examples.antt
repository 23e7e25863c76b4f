-- ===== src/Actions/Examples.antt =====
-- Queued actions and schedules at concrete times.
use haive_control.Prelude.{
  ◌≡◌, ◌<◌, refl, arith, inr, inl, true, false, none, some, List, [], ◌∷◌, ◌++◌, Text, text,
  unwrap_or, All, list_beq, nat_eq, list_eq, split_from, parse_u64, digits_value, without_plus,
  trim, is_whitespace, replace_text, replace_from, starts_with,
}
use haive_control.Actions.Plugins.{Plugin, plugin_command}
use haive_control.Actions.Queue.{Queue, pending, Step, queues, drains, restarts, run}
use haive_control.Actions.Exactly.{commands_of, queued_by, IsSaved, run-exactly}
use haive_control.Actions.Schedules.{
  When, Schedule, second_of_day, part, next_run_from, type_of, tick, tick_from, get_elem?, set_at,
  rearm, Round, schedule_delete,
}
use haive_control.Actions.Daily.{IsNext, next_run_from-IsNext}
use haive_control.Actions.Armed.{tick-armed}
use haive_control.Actions.Round.{round, tick-round}
use haive_control.Commands.Args.{shell_arg}

abbrev empty : Queue
empty = record { queued = []; disk = [] }

empty-IsSaved : IsSaved empty
empty-IsSaved key = refl

abbrev steps : List Step
steps =
    queues (text "relay:a") (text "ls")
    ∷ restarts
    ∷ queues (text "relay:b") (text "id")
    ∷ queues (text "relay:a") (text "df")
    ∷ drains (text "relay:a")
    ∷ []

steps_out : (run empty steps).1 ≡ (text "relay:a", text "ls") ∷ (text "relay:a", text "df") ∷ []
unfolding run list_beq
steps_out = refl

run-exactly_example :
    commands_of (text "relay:a") (run empty steps).1
      ++ pending (run empty steps).0.queued (text "relay:a")
    ≡ pending empty.queued (text "relay:a") ++ queued_by (text "relay:a") steps
run-exactly_example = run-exactly empty steps (text "relay:a") empty-IsSaved

abbrev daily : When
daily = record { type = some (text "daily"); mins = none; hhmm = some (text "07:30") }

half_past_seven : second_of_day (text "07:30") ≡ 27000
unfolding second_of_day part split_from parse_u64 digits_value without_plus trim is_whitespace
half_past_seven = refl

next_run_from-IsNext_example :
    IsNext 1000000
      (second_of_day (unwrap_or (text "00:00") daily.hhmm))
      (next_run_from 1000000 daily)
unfolding type_of
next_run_from-IsNext_example = next_run_from-IsNext 1000000 daily refl (omega arith)

abbrev schedule : Text → Text → When → Schedule
schedule id owner when = record {
  id = id;
  owner = owner;
  target = text "relay://a";
  device = text "mac";
  kind = text "exec";
  arg = text "ls";
  label = [];
  when = when;
  next_run = 999990;
  last_run = none;
  created = 5;
  agent_owned = false;
}

abbrev schedules : List Schedule
schedules = schedule (text "s1") (text "ann") daily ∷ []

tick-armed_example :
    (r : Round) × (tick 1000000 (λ s. 1000020) schedules ≡ some r)
    × All (λ (s : Schedule). 1000000 < s.next_run) r.0
unfolding type_of
tick-armed_example =
    tick-armed 1000000 (λ s. 1000020) schedules
      ((omega arith, omega arith, omega arith, inr (inr (inl refl))), tt)

abbrev hourly : When
hourly = record { type = some (text "hourly"); mins = none; hhmm = none }

-- A schedule of another type without minutes stays due, and runs in every round.
unknown_runs_again :
    tick 999995 (λ s. 999990) (schedule (text "s2") (text "ann") hourly ∷ [])
    ≡ some (
      record (schedule (text "s2") (text "ann") hourly) { last_run = some 999995 } ∷ [],
      schedule (text "s2") (text "ann") hourly ∷ [],
      true,
    )
unfolding tick tick_from get_elem? set_at rearm next_run_from type_of list_beq
unknown_runs_again = refl

-- Another owner's schedule stays, but its device is told to drop it.
delete_tells :
    schedule_delete schedules (text "s1") (some (text "bob")) ≡ (schedules, some (text "relay://a"))
unfolding schedule_delete list_beq
delete_tells = refl

abbrev kill : Plugin
kill = record { id = some (text "kill"); cmd = (text "linux", text "pkill {{arg}} # {{arg}}") ∷ [] }

plugin_fills :
    plugin_command (kill ∷ []) (text "linux") (text "kill") (text "fire;fox")
    ≡ some (text "pkill firefox # firefox")
unfolding plugin_command list_beq replace_text replace_from starts_with shell_arg
plugin_fills = refl

tick-round_example :
    tick 1000000 (λ s. 1000020) schedules ≡ some (round 1000000 (λ s. 1000020) schedules)
tick-round_example = tick-round 1000000 (λ s. 1000020) schedules
