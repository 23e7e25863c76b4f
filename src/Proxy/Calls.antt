-- ===== src/Proxy/Calls.antt =====
-- crates/hub/src/main.rs and jobs.rs: the requests for an action, and what is to hold of the answer to
-- each.
use haive_control.Prelude.{
  ◌≡◌, ◌⊎◌, Bool, true, false, not, Option, none, some, [], ◌∷◌, ◌++◌, Text, text, take, is_some,
  is_empty, filter_some, unwrap_or, ◌==◌, if◌then◌else◌, nat_eq, list_eq,
}
use haive_control.Policy.{enforce}
use haive_control.Audit.{Event}
use haive_control.Devices.Rows.{device_name, device_platform, may_control}
use haive_control.Actions.Plugins.{any_command}
use haive_control.Mcp.Gateway.{Logs}
use haive_control.Proxy.Endpoints.{
  Hub, Reach, nothing, exec, input, job, grant, checks, Outcome, proxy_exec, proxy_input, proxy_sys,
  start, is_known_op, policy_kind, capability_action, capability_device, capability_ep,
}

-- A request for an action.
pub data Call : Type 0 where
  execs : Bool → Text → Text → Bool → Option Text → Call
  inputs : Text → Option Text → Text → Call
  canned : Bool → Text → Text → Text → Call
  starts : Bool → Text → Text → Option Text → Call
  asks_grant : Bool → Text → Text → Text → Call

unfoldable pub handle : Hub → Logs → Option Text → Call → Outcome
handle h l user (execs via_mcp target cmd detach timeout) =
    proxy_exec h l user via_mcp target cmd detach timeout
handle h l user (inputs target type ev) = proxy_input h l user target type ev
handle h l user (canned via_mcp target kind arg) = proxy_sys h l user via_mcp target kind arg
handle h l user (starts via_mcp target cmd cwd) = start h l user via_mcp target cmd cwd
handle h l user (asks_grant via_mcp target op arg) = capability_ep h l user via_mcp target op arg

-- The device that a request is for, and the action and the detail that the policy is asked about.
abbrev pub target_of : Call → Text
target_of (execs via_mcp target cmd detach timeout) = target
target_of (inputs target type ev) = target
target_of (canned via_mcp target kind arg) = target
target_of (starts via_mcp target cmd cwd) = target
target_of (asks_grant via_mcp target op arg) = target

abbrev pub kind_of : Call → Text
kind_of (execs via_mcp target cmd detach timeout) = if detach then text "launch" else text "exec"
kind_of (inputs target type ev) = text "input"
kind_of (canned via_mcp target kind arg) = kind
kind_of (starts via_mcp target cmd cwd) = text "launch"
kind_of (asks_grant via_mcp target op arg) = policy_kind op

abbrev pub detail_of : Call → Text
detail_of (execs via_mcp target cmd detach timeout) = cmd
detail_of (inputs target type ev) = unwrap_or (text "input") type
detail_of (canned via_mcp target kind arg) = arg
detail_of (starts via_mcp target cmd cwd) = cmd
detail_of (asks_grant via_mcp target op arg) = arg

abbrev pub via_of : Call → Bool
via_of (execs via_mcp target cmd detach timeout) = via_mcp
via_of (inputs target type ev) = true
via_of (canned via_mcp target kind arg) = via_mcp
via_of (starts via_mcp target cmd cwd) = via_mcp
via_of (asks_grant via_mcp target op arg) = via_mcp

-- A compliance check is the one request that the policy is not asked about.
abbrev pub is_posture : Call → Bool
is_posture (canned via_mcp target kind arg) = kind == text "posture"
is_posture _ = false

-- There is no such action: an operation that is unknown, or a kind without a command for the device.
abbrev pub IsUnknown : Hub → Call → Type 0
IsUnknown h (canned via_mcp target kind arg) =
    any_command h.plugins (device_platform h.agents target) kind arg ≡ none
IsUnknown h (asks_grant via_mcp target op arg) = is_known_op op ≡ false
IsUnknown h _ = ⊥

-- The action and the detail that a request is audited with, and what reaches the device.
abbrev pub IsCarriedOut : Hub → Call → Text → Text → Reach → Type 0
IsCarriedOut h (execs via_mcp target cmd detach timeout) action detail reach =
    (action ≡ (if detach then text "launch command" else text "run command"))
    × (detail ≡ cmd)
    × (reach ≡ exec target cmd detach timeout)
IsCarriedOut h (inputs target type ev) action detail reach =
    (action ≡ text "input") × (detail ≡ unwrap_or (text "input") type) × (reach ≡ input target ev)
IsCarriedOut h (canned via_mcp target kind arg) action detail reach =
    (action ≡ kind)
    × (((kind ≡ text "posture")
          × (detail ≡ text "compliance check")
          × (reach ≡ checks target (device_platform h.agents target)))
        ⊎ ((cmd : Text) × (any_command h.plugins (device_platform h.agents target) kind arg
              ≡ some cmd)
            × (detail ≡ (if is_empty arg then cmd else kind ++ (text " " ++ arg)))
            × (reach ≡ exec target cmd false none)))
IsCarriedOut h (starts via_mcp target cmd cwd) action detail reach =
    (action ≡ text "start job")
    × (detail ≡ cmd)
    × (reach ≡ job target cmd (filter_some (λ s. not (is_empty s)) cwd))
IsCarriedOut h (asks_grant via_mcp target op arg) action detail reach =
    (action ≡ capability_action op)
    × (detail ≡ arg)
    × (reach ≡ grant (capability_device target) op arg)

-- The entry of the audit log for a request.
abbrev pub entry : Hub → Option Text → Call → Text → Text → Event
entry h user c action detail = record {
  at = h.now;
  actor = unwrap_or [] user;
  source = if via_of c then text "mcp" else text "browser";
  action = action;
  device = device_name h.agents (target_of c);
  detail = take 180 detail;
}

abbrev pub IsRefused : Hub → Logs → Option Text → Call → Outcome → Type 0
IsRefused h l user c o =
    (o.reach ≡ nothing)
    × (o.logs ≡ l)
    × ((may_control user h.agents (target_of c) ≡ false)
        ⊎ ((is_some (enforce h.policy (kind_of c) (detail_of c)) ≡ true) ⊎ IsUnknown h c))

abbrev pub IsLetThrough : Hub → Logs → Option Text → Call → Outcome → Type 0
IsLetThrough h l user c o =
    (may_control user h.agents (target_of c) ≡ true)
    × ((is_posture c ≡ true) ⊎ (enforce h.policy (kind_of c) (detail_of c) ≡ none))
    × ((action : Text) × (detail : Text) × IsCarriedOut h c action detail o.reach
        × (o.logs.audit.log ≡ take 500 (entry h user c action detail ∷ l.audit.log)))

abbrev pub IsGated : Hub → Logs → Option Text → Call → Outcome → Type 0
IsGated h l user c o = IsRefused h l user c o ⊎ IsLetThrough h l user c o
