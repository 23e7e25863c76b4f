-- ===== src/Mcp/Labels.antt =====
-- crates/hub/src/main.rs: the names of the actions in the logs (`mcp_action`, `action_label`,
-- `auditable`) and `audit_detail` of jobs.rs.
use haive_control.Prelude.{
  Bool, Option, List, [], ◌∷◌, Text, text, any, or_else, unwrap_or, Map, lookup, strip_prefix,
  reverse, starts_with, ◌==◌, nat_eq, list_eq, if◌then◌else◌,
}

unfoldable pub mcp_actions : Map Text Text
mcp_actions =
    (text "/m/frame", text "screenshot")
    ∷ (text "/m/camera", text "camera")
    ∷ (text "/m/download", text "download")
    ∷ (text "/m/upload", text "upload")
    ∷ (text "/m/update", text "update agent")
    ∷ (text "/m/dissolve", text "dissolve")
    ∷ (text "/m/exec", text "run command")
    ∷ (text "/m/input", text "input")
    ∷ (text "/m/job/start", text "start job")
    ∷ (text "/m/job/stop", text "stop job")
    ∷ []

unfoldable pub mcp_action : Text → Text
unfolding mcp_actions
mcp_action path = unwrap_or (text "access") (lookup path mcp_actions)

-- The path behind /x or /m.
unfoldable pub bare : Text → Text
bare path = unwrap_or path (or_else (strip_prefix (text "/x") path) (strip_prefix (text "/m") path))

unfoldable pub labels : Map Text Text
labels =
    (text "/frame", text "screenshot")
    ∷ (text "/camera", text "camera photo")
    ∷ (text "/stream", text "live screen")
    ∷ (text "/camstream", text "live camera")
    ∷ (text "/exec", text "run command")
    ∷ (text "/input", text "input")
    ∷ (text "/download", text "download file")
    ∷ (text "/upload", text "upload file")
    ∷ (text "/update", text "update agent")
    ∷ (text "/dissolve", text "dissolve agent")
    ∷ (text "/shell/open", text "open shell")
    ∷ (text "/job/start", text "start job")
    ∷ (text "/job/stop", text "stop job")
    ∷ (text "/device-secret/revoke", text "revoke device secret")
    ∷ (text "/vpn/enable", text "enable VPN exit")
    ∷ (text "/vpn/disable", text "disable VPN exit")
    ∷ (text "/vpn/pass", text "issue VPN pass")
    ∷ (text "/vpn/revoke", text "revoke VPN pass")
    ∷ []

unfoldable pub action_label : Text → Text
unfolding bare labels
action_label path = unwrap_or (text "access") (lookup (bare path) labels)

unfoldable pub audited_paths : List Text
audited_paths =
    text "/frame"
    ∷ text "/camera"
    ∷ text "/stream"
    ∷ text "/camstream"
    ∷ text "/download"
    ∷ text "/upload"
    ∷ text "/update"
    ∷ text "/dissolve"
    ∷ text "/shell/open"
    ∷ text "/job/start"
    ∷ text "/job/stop"
    ∷ text "/device-secret/revoke"
    ∷ text "/vpn/enable"
    ∷ text "/vpn/disable"
    ∷ text "/vpn/pass"
    ∷ text "/vpn/revoke"
    ∷ []

unfoldable pub auditable : Text → Bool
unfolding bare audited_paths
auditable path = any (λ p. p == bare path) audited_paths

-- The job's id for a stop, nothing otherwise.
unfoldable pub audit_detail : Text → Option Text → Text
audit_detail path id =
    if starts_with (reverse (text "/job/stop")) (reverse path) then unwrap_or [] id else []
