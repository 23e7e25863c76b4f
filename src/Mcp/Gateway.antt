-- ===== src/Mcp/Gateway.antt =====
-- crates/hub/src/main.rs: what a request passes before its endpoint: `mcp_auth`, `mcp_is_write`, and
-- the checks of the request handler on /m/ and /x/ paths.
use haive_control.Prelude.{
  ℕ, Bool, true, false, not, ◌&&◌, ◌||◌, Option, none, some, List, [], ◌∷◌, Text, text, any,
  is_empty, unwrap_or, or_else, filter_some, Map, ◌==◌, nat_eq, list_eq, if◌then◌else◌,
}
use haive_control.ConstantTime.{ct_eq}
use haive_control.Audit.{Audit, Access, audit, record_access}
use haive_control.Devices.Rows.{Agents, device_key, device_name, may_control}
use haive_control.Devices.Owners.{Outside, canon_owner}
use haive_control.Mcp.Tokens.{Item, Scoped, resolve}
use haive_control.Mcp.Labels.{mcp_action, action_label, auditable, audit_detail}

-- A request: its path, and the parameters of its query by their names (`query_param`).
pub record Request : Type 0 where
  pub path : Text
  pub param : Text → Option Text

pub data McpAuth : Type 0 where
  denied : McpAuth
  legacy : McpAuth
  scoped : Text → Text → McpAuth

-- MCP_TOKEN, MCP_OWNER, and the hub's stores that the checks read.
pub record Env : Type 0 where
  pub mcp_token : Option Text
  pub mcp_owner : Option Text
  pub sha256 : Text → Text
  pub outside : Outside
  pub owner_tokens : Map Text Text
  pub items : List Item
  pub agents : Agents
  pub now : ℕ

unfoldable pub as_scoped : Option Scoped → McpAuth
as_scoped none = denied
as_scoped (some s) = scoped s.owner s.scope

unfoldable pub mcp_auth : Env → Request → McpAuth
unfolding as_scoped
mcp_auth e r =
    let mtok = unwrap_or [] (r.param (text "mtok")) in
    let t = unwrap_or [] e.mcp_token in
    if is_empty t
    then legacy
    else if ct_eq mtok t
    then legacy
    else as_scoped (resolve e.sha256 e.items mtok e.now)

unfoldable pub read_paths : List Text
read_paths =
    text "/m/agents"
    ∷ text "/m/actions"
    ∷ text "/m/ai-chat"
    ∷ text "/m/ai-plan"
    ∷ text "/m/ai-explain"
    ∷ text "/m/analysis"
    ∷ text "/m/alerts"
    ∷ text "/m/fleet-report"
    ∷ text "/m/inventory-history"
    ∷ text "/m/compliance.csv"
    ∷ text "/m/ca"
    ∷ text "/m/cap-key"
    ∷ text "/m/camera"
    ∷ text "/m/compliance-fleet"
    ∷ text "/m/cve"
    ∷ text "/m/direct"
    ∷ text "/m/download"
    ∷ text "/m/file-status"
    ∷ text "/m/frame"
    ∷ text "/m/geo"
    ∷ text "/m/job/list"
    ∷ text "/m/job/logs"
    ∷ text "/m/plugins"
    ∷ text "/m/scripts"
    ∷ []

unfoldable pub read_kinds : List Text
read_kinds =
    text "posture"
    ∷ text "hardware"
    ∷ text "av"
    ∷ text "encryption"
    ∷ text "firewall"
    ∷ text "processes"
    ∷ text "services"
    ∷ text "network"
    ∷ text "packages"
    ∷ text "updates"
    ∷ text "report"
    ∷ []

unfoldable pub mcp_is_write : Request → Bool
unfolding read_paths read_kinds
mcp_is_write r =
    if any (λ p. p == r.path) read_paths
    then false
    else if r.path == text "/m/sys"
    then not (any (λ k. k == unwrap_or [] (r.param (text "kind"))) read_kinds)
    else true

-- The paths under /m/ that check their target themselves.
unfoldable pub own_check : List Text
own_check =
    text "/m/agents"
    ∷ text "/m/exec"
    ∷ text "/m/job/start"
    ∷ text "/m/input"
    ∷ text "/m/capability"
    ∷ text "/m/sys"
    ∷ text "/m/script"
    ∷ text "/m/script-fleet"
    ∷ text "/m/set-owner"
    ∷ []

-- The owner that a request names.
unfoldable pub named_owner : Env → Request → Option Text
named_owner e r =
    elim (or_else (filter_some (λ o. not (is_empty o)) (r.param (text "owner")))
      (filter_some (λ o. not (is_empty o)) e.mcp_owner)) [
        | none ↦ none
        | some o ↦ some (canon_owner e.outside e.owner_tokens o)
      ]

-- What is logged of a request on its way: the accesses of the devices, and the audit log.
pub record Logs : Type 0 where
  pub accesses : Map Text (List Access)
  pub audit : Audit

-- Stopped with a status, or let through as this owner.
pub data Gate : Type 0 where
  stopped : ℕ → Gate
  passes : Option Text → Logs → Gate

unfoldable pub log_access : Env → Logs → Request → Option Text → Text → Logs
log_access e l r owner target =
    let detail = audit_detail r.path (r.param (text "id")) in
    let who = unwrap_or [] owner in
    record {
      accesses = record_access l.accesses e.now (device_key target) (mcp_action r.path) who detail;
      audit =
          if auditable r.path
          then audit l.audit e.now who (text "mcp") (action_label r.path)
              (device_name e.agents target) detail
          else l.audit;
    }

-- The check of the target, for the owner that the request acts as.
unfoldable pub check_target : Env → Logs → Request → Option Text → Gate
unfolding own_check log_access
check_target e l r owner =
    if any (λ p. p == r.path) own_check then passes owner l else elim (r.param (text "target")) [
      | none ↦ passes owner l
      | some t ↦
          if may_control owner e.agents t
          then passes owner (log_access e l r owner t)
          else stopped 403
    ]

-- The checks of a request under /m/.
unfoldable pub mcp_gate : Env → Logs → Request → Gate
unfolding mcp_auth mcp_is_write named_owner check_target
mcp_gate e l r = elim (mcp_auth e r) [
  | denied ↦ stopped 401
  | legacy ↦ check_target e l r (named_owner e r)
  | scoped owner scope ↦
      if scope == text "read" && mcp_is_write r
      then stopped 403
      else check_target e l r (some (canon_owner e.outside e.owner_tokens owner))
]

-- The checks of a request under /x/, for the signed-in user.
unfoldable pub browser_gate : Env → Audit → Request → Option Text → Option Audit
browser_gate e l r user =
    if r.path == text "/x/exec" || r.path == text "/x/job/start" || r.path == text "/x/set-owner"
    then some l
    else elim (r.param (text "target")) [
      | none ↦ some l
      | some t ↦
          if not (may_control user e.agents t)
          then none
          else if auditable r.path
          then some (
              audit l e.now (unwrap_or [] user) (text "browser") (action_label r.path)
                (device_name e.agents t) (audit_detail r.path (r.param (text "id"))))
          else some l
    ]
