-- ===== src/Proxy/Endpoints.antt =====
-- crates/hub/src/main.rs, jobs.rs and capability.rs: `proxy_exec`, `proxy_input`, `proxy_sys`, `start`
-- of a job, and `capability_ep`, on the parsed body. What goes to the device is
-- given as the parts of its JSON; what the device answers is left out.
use haive_control.Prelude.{
  ℕ, Bool, true, false, not, Option, none, some, List, [], ◌∷◌, ◌++◌, Text, text, any, is_empty,
  unwrap_or, filter_some, Map, lookup, strip_prefix, trim_end_matches, ◌==◌, nat_eq, list_eq,
  if◌then◌else◌,
}
use haive_control.Policy.{Policy, enforce}
use haive_control.Audit.{audit, record_access}
use haive_control.Devices.Rows.{Agents, device_key, device_name, device_platform, may_control}
use haive_control.Actions.Plugins.{Plugin, any_command}
use haive_control.Mcp.Gateway.{Logs}

-- What the endpoints read.
pub record Hub : Type 0 where
  pub policy : Policy
  pub plugins : List Plugin
  pub agents : Agents
  pub now : ℕ

pub data Reach : Type 0 where
  nothing : Reach
  exec : Text → Text → Bool → Option Text → Reach
  input : Text → Text → Reach
  job : Text → Text → Option Text → Reach
  grant : Text → Text → Text → Reach
  checks : Text → Text → Reach

pub record Outcome : Type 0 where
  pub logs : Logs
  pub reach : Reach

-- The access of an MCP client and the audit entry, in that order.
unfoldable pub note : Hub → Logs → Option Text → Bool → Bool → Text → Text → Text → Logs
note h l user accessed via_mcp target action detail =
    let who = unwrap_or [] user in
    record {
      accesses =
          if accessed
          then record_access l.accesses h.now (device_key target) action who detail
          else l.accesses;
      audit =
          audit l.audit h.now who (if via_mcp then text "mcp" else text "browser") action
            (device_name h.agents target) detail;
    }

unfoldable pub refuse : Logs → Outcome
refuse l = record { logs = l; reach = nothing }

-- The body of /exec; `timeout` is passed through as it is.
unfoldable pub proxy_exec :
    Hub → Logs → Option Text → Bool → Text → Text → Bool → Option Text → Outcome
unfolding note refuse
proxy_exec h l user via_mcp target cmd detach timeout =
    let kind = if detach then text "launch" else text "exec" in
    let action = if detach then text "launch command" else text "run command" in
    if not (may_control user h.agents target) then refuse l else elim (enforce h.policy kind cmd) [
      | some e ↦ refuse l
      | none ↦ record {
        logs = note h l user via_mcp via_mcp target action cmd;
        reach = exec target cmd detach timeout;
      }
    ]

-- `kind` is the event's type, `ev` the event.
unfoldable pub proxy_input : Hub → Logs → Option Text → Text → Option Text → Text → Outcome
unfolding note refuse
proxy_input h l user target type ev =
    let kind = unwrap_or (text "input") type in
    if not (may_control user h.agents target)
    then refuse l
    else elim (enforce h.policy (text "input") kind) [
      | some e ↦ refuse l
      | none ↦ record {
        logs = note h l user true true target (text "input") kind;
        reach = input target ev;
      }
    ]

-- The branch for `posture` asks the policy nothing; it ends in `run_posture`, on the target and its
-- platform.
unfoldable pub proxy_sys : Hub → Logs → Option Text → Bool → Text → Text → Text → Outcome
unfolding note refuse
proxy_sys h l user via_mcp target kind arg =
    let platform = device_platform h.agents target in
    if not (may_control user h.agents target)
    then refuse l
    else if kind == text "posture"
    then record {
      logs = note h l user true via_mcp target (text "posture") (text "compliance check");
      reach = checks target platform;
    }
    else elim (enforce h.policy kind arg) [
      | some e ↦ refuse l
      | none ↦ elim (any_command h.plugins platform kind arg) [
        | none ↦ refuse l
        | some cmd ↦ record {
          logs =
              note h l user true via_mcp target kind
                (if is_empty arg then cmd else kind ++ (text " " ++ arg));
          reach = exec target cmd false none;
        }
      ]
    ]

-- `start` of jobs.rs.
unfoldable pub start : Hub → Logs → Option Text → Bool → Text → Text → Option Text → Outcome
unfolding note refuse
start h l user via_mcp target cmd cwd =
    if not (may_control user h.agents target)
    then refuse l
    else elim (enforce h.policy (text "launch") cmd) [
      | some e ↦ refuse l
      | none ↦ record {
        logs = note h l user via_mcp via_mcp target (text "start job") cmd;
        reach = job target cmd (filter_some (λ s. not (is_empty s)) cwd);
      }
    ]

unfoldable pub ops : List Text
ops =
    text "exec"
    ∷ text "launch"
    ∷ text "input"
    ∷ text "frame"
    ∷ text "camera"
    ∷ text "download"
    ∷ text "upload"
    ∷ text "shell"
    ∷ []

unfoldable pub is_known_op : Text → Bool
unfolding ops
is_known_op op = any (λ o. o == op) ops

unfoldable pub policy_kind : Text → Text
policy_kind op =
    if op == text "exec"
    then text "exec"
    else if op == text "launch"
    then text "launch"
    else if op == text "input"
    then text "input"
    else if op == text "frame"
    then text "frame"
    else if op == text "camera"
    then text "camera"
    else if op == text "download"
    then text "download"
    else if op == text "upload"
    then text "upload"
    else text "shell"

unfoldable pub grants : Map Text Text
grants =
    (text "exec", text "grant: run command")
    ∷ (text "launch", text "grant: launch command")
    ∷ (text "input", text "grant: input")
    ∷ (text "frame", text "grant: screenshot")
    ∷ (text "camera", text "grant: camera")
    ∷ (text "download", text "grant: download")
    ∷ (text "upload", text "grant: upload")
    ∷ []

unfoldable pub capability_action : Text → Text
unfolding grants
capability_action op = unwrap_or (text "grant: shell") (lookup op grants)

-- The device that the token names.
unfoldable pub capability_device : Text → Text
capability_device target =
    trim_end_matches 47 (unwrap_or target (strip_prefix (text "relay://") target))

unfoldable pub capability_ep : Hub → Logs → Option Text → Bool → Text → Text → Text → Outcome
unfolding note refuse policy_kind capability_action capability_device is_known_op
capability_ep h l user via_mcp target op arg =
    if not (is_known_op op)
    then refuse l
    else if not (may_control user h.agents target)
    then refuse l
    else elim (enforce h.policy (policy_kind op) arg) [
      | some e ↦ refuse l
      | none ↦ record {
        logs = note h l user via_mcp via_mcp target (capability_action op) arg;
        reach = grant (capability_device target) op arg;
      }
    ]
