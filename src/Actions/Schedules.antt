-- ===== src/Actions/Schedules.antt =====
-- crates/hub/src/main.rs: the schedules (`next_run_from`, `schedule_add`, `schedule_delete`, the loop
-- of `start_scheduler`). A `u64` wraps around as in a release build. What the device answers, the
-- clock, and the commands that the hub runs itself are arguments.
use haive_control.Prelude.{
  wrap, ℕ, zero, suc, ◌+◌, ◌-◌, ◌*◌, ◌%◌, Bool, true, false, not, ◌&&◌, Option, none, some, List,
  [], ◌∷◌, ◌++◌, Text, text, length, retain, find, is_empty, ltb, leb, unwrap_or, split_from,
  parse_u64, trim, decimal, ◌==◌, nat_eq, list_eq, if◌then◌else◌,
}
use haive_control.Devices.Rows.{Agents, device_platform, device_name, may_control}
use haive_control.Actions.Plugins.{Plugin, any_command}

-- The `when` of a schedule.
pub record When : Type 0 where
  pub type : Option Text
  pub mins : Option ℕ
  pub hhmm : Option Text

pub record Schedule : Type 0 where
  pub id : Text
  pub owner : Text
  pub target : Text
  pub device : Text
  pub kind : Text
  pub arg : Text
  pub label : Text
  pub when : When
  pub next_run : ℕ
  pub last_run : Option ℕ
  pub created : ℕ
  pub agent_owned : Bool

abbrev pub at_least_1 : ℕ → ℕ
at_least_1 n = if n == 0 then 1 else n

-- The part of `hhmm` by its place, or 0.
unfoldable pub part : ℕ → List Text → ℕ
part n [] = 0
part zero (p ∷ ps) = unwrap_or 0 (parse_u64 (trim p))
part (suc n) (p ∷ ps) = part n ps

-- The second of the day that is meant.
unfoldable pub second_of_day : Text → ℕ
unfolding part
second_of_day hhmm =
    let ps = split_from 58 [] hhmm in wrap (wrap (part 0 ps * 3600) + wrap (part 1 ps * 60)) % 86400

unfoldable pub daily_from : ℕ → ℕ → ℕ
daily_from now tgt =
    let r = wrap (now - now % 86400 + tgt) in if leb r now then wrap (r + 86400) else r

unfoldable pub type_of : When → Text
type_of w = unwrap_or (text "once") w.type

unfoldable pub next_run_from : ℕ → When → ℕ
unfolding second_of_day daily_from type_of
next_run_from now w =
    if type_of w == text "interval"
    then wrap (now + wrap (at_least_1 (unwrap_or 60 w.mins) * 60))
    else if type_of w == text "daily"
    then daily_from now (second_of_day (unwrap_or (text "00:00") w.hhmm))
    else wrap (now + wrap (unwrap_or 0 w.mins * 60))

-- The body of `schedule_add`, as parsed.
pub record Added : Type 0 where
  pub target : Text
  pub kind : Text
  pub arg : Text
  pub label : Text
  pub when : Option When

abbrev pub at_once : When
at_once = record { type = some (text "once"); mins = some 0; hhmm = none }

unfoldable pub command_for : List Plugin → Text → Text → Text → Text
unfolding any_command
command_for plugins platform kind arg =
    if kind == text "exec" then arg else unwrap_or [] (any_command plugins platform kind arg)

-- `none` is a refusal. `counter` is `sched_counter()`, `answers` whether the device takes the command.
unfoldable pub schedule_add :
    List Plugin
    → Agents
    → List Schedule
    → Option Text
    → Added
    → ℕ
    → ℕ
    → Bool
    → Option (List Schedule)
unfolding command_for next_run_from
schedule_add plugins agents all user v now counter answers =
    if not (may_control user agents v.target)
    then none
    else if is_empty v.kind
    then none
    else some (
        all
        ++ (record {
          id = text "s" ++ (decimal now ++ (text "-" ++ decimal counter));
          owner = unwrap_or [] user;
          target = v.target;
          device = device_name agents v.target;
          kind = v.kind;
          arg = v.arg;
          label = v.label;
          when = unwrap_or at_once v.when;
          next_run = next_run_from now (unwrap_or at_once v.when);
          last_run = none;
          created = now;
          agent_owned =
              not (is_empty (command_for plugins (device_platform agents v.target) v.kind v.arg))
              && answers;
        }
            ∷ []))

abbrev pub is_visible : Option Text → Schedule → Bool
is_visible none s = true
is_visible (some u) s = s.owner == u

unfoldable pub schedules_list : List Schedule → Option Text → List Schedule
schedules_list all user = retain (is_visible user) all

-- The schedules left, and the device that is told to drop the id.
unfoldable pub schedule_delete : List Schedule → Text → Option Text → List Schedule × Option Text
schedule_delete all id user = (
  retain (λ s. not (s.id == id && is_visible user s)) all,
  elim (find (λ (s : Schedule). s.id == id) all) [ none ↦ none | some s ↦ some s.target ],
)

unfoldable pub rearm : ℕ → ℕ → Schedule → Schedule
unfolding next_run_from
rearm now later s = record s { next_run = next_run_from later s.when; last_run = some now }

-- `all[i]`, `all.remove(i)` and a write to `all[i]`. The loop's test `i < all.len()` keeps them in
-- range; here it is the `none` of `get_elem?`.
unfoldable pub get_elem? : List Schedule → ℕ → Option Schedule
get_elem? [] i = none
get_elem? (s ∷ all) zero = some s
get_elem? (s ∷ all) (suc i) = get_elem? all i

unfoldable pub remove_at : ℕ → List Schedule → List Schedule
remove_at i [] = []
remove_at zero (s ∷ all) = all
remove_at (suc i) (s ∷ all) = s ∷ remove_at i all

unfoldable pub set_at : ℕ → Schedule → List Schedule → List Schedule
set_at i new [] = []
set_at zero new (s ∷ all) = new ∷ all
set_at (suc i) new (s ∷ all) = s ∷ set_at i new all

-- The schedules, those that the hub has run, and whether there is something to save.
abbrev pub Round : Type 0
Round = List Schedule × List Schedule × Bool

-- The loop of `start_scheduler` from the schedule at `i`, in at most so many steps. `clock` is what
-- the clock shows when a schedule is armed again.
unfoldable pub tick_from :
    ℕ → ℕ → (Schedule → ℕ) → ℕ → List Schedule → List Schedule → Bool → Option Round
unfolding get_elem? remove_at set_at rearm type_of
tick_from zero now clock i all fired changed = none
tick_from (suc steps) now clock i all fired changed = elim (get_elem? all i) [
  | none ↦ some (all, fired, changed)
  | some s ↦ elim (ltb now s.next_run) [
    | true ↦ tick_from steps now clock (i + 1) all fired changed
    | false ↦
        let fired' = if s.agent_owned then fired else fired ++ (s ∷ []) in
        elim (type_of s.when == text "once") [
          | true ↦ tick_from steps now clock i (remove_at i all) fired' true
          | false ↦
              tick_from steps now clock (i + 1) (set_at i (rearm now (clock s) s) all) fired' true
        ]
  ]
]

unfoldable pub tick : ℕ → (Schedule → ℕ) → List Schedule → Option Round
unfolding tick_from
tick now clock all = tick_from (suc (length all)) now clock 0 all [] false
