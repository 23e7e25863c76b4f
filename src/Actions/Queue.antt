-- ===== src/Actions/Queue.antt =====
-- crates/hub/src/main.rs: the actions queued for devices that are offline (`queue_action`,
-- `drain_queued_actions`, `queue_action_ep`). A write to queued_actions.json succeeds.
use haive_control.Prelude.{
  not, ◌||◌, Option, none, some, List, [], ◌∷◌, ◌++◌, map, Text, is_empty, unwrap_or, Map, lookup,
  insert, remove, nat_eq, list_eq, if◌then◌else◌,
}
use haive_control.Policy.{Policy, enforce}
use haive_control.Devices.Rows.{Agents, device_key, device_platform, may_control}
use haive_control.Actions.Plugins.{Plugin, any_command}

pub record Queue : Type 0 where
  pub queued : Map Text (List Text)
  pub disk : Map Text (List Text)

unfoldable pub save_queued : Queue → Queue
save_queued q = record q { disk = q.queued }

unfoldable pub load_queued : Queue → Queue
load_queued q = record q { queued = q.disk }

unfoldable pub pending : Map Text (List Text) → Text → List Text
pending m key = unwrap_or [] (lookup key m)

unfoldable pub queue_action : Queue → Text → Text → Queue
unfolding save_queued pending
queue_action q key cmd =
    save_queued (record q { queued = insert key (pending q.queued key ++ (cmd ∷ [])) q.queued })

unfoldable pub drain_queued_actions : Queue → Text → Queue × List Text
unfolding save_queued pending
drain_queued_actions q key =
    let v = pending q.queued key in
    let q' = record q { queued = remove key q.queued } in
    (if is_empty v then q' else save_queued q', v)

-- What `queue_action_ep` answers.
pub data Queued : Type 0 where
  not_yours : Queued
  by_policy : Text → Queued
  unsupported : Queued
  waits : Queued

unfoldable pub queue_action_ep :
    Policy → List Plugin → Agents → Queue → Option Text → Text → Text → Text → Queue × Queued
unfolding queue_action
queue_action_ep policy plugins agents q user target kind arg =
    if is_empty target || not (may_control user agents target)
    then (q, not_yours)
    else elim (enforce policy kind arg) [
      | some e ↦ (q, by_policy e)
      | none ↦ elim (any_command plugins (device_platform agents target) kind arg) [
        | none ↦ (q, unsupported)
        | some cmd ↦ (queue_action q (device_key target) cmd, waits)
      ]
    ]

-- What happens to the queue: a command is queued, a device's commands are handed out as it connects,
-- the hub starts again.
pub data Step : Type 0 where
  queues : Text → Text → Step
  drains : Text → Step
  restarts : Step

unfoldable pub step : Queue → Step → Queue × List (Text × Text)
unfolding queue_action drain_queued_actions load_queued
step q (queues key cmd) = (queue_action q key cmd, [])
step q (drains key) = let (q', cmds) = drain_queued_actions q key in (q', map (λ c. (key, c)) cmds)
step q restarts = (load_queued q, [])

-- The queue behind the steps, and what was handed out, in order.
unfoldable pub run : Queue → List Step → Queue × List (Text × Text)
unfolding step
run q [] = (q, [])
run q (s ∷ steps) = let (q', out) = step q s in let (q'', more) = run q' steps in (q'', out ++ more)
