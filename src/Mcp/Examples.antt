-- ===== src/Mcp/Examples.antt =====
-- A token and a request with it, at a concrete hub; the stand-in for the hash leaves a text as it is.
use haive_control.Prelude.{
  ◌+◌, ◌*◌, ◌≡◌, refl, arith, false, ◌&&◌, none, some, Option, [], ◌∷◌, ◌++◌, Text, text, lookup,
  unwrap_or, ltb, list_beq, ◌==◌, nat_eq, list_eq, if◌then◌else◌, strip_prefix, trim_end_matches,
  trim, is_whitespace,
}
use haive_control.ConstantTime.{ct_eq}
use haive_control.Devices.Rows.{Agent, may_control, device_owner, device_key, owner_at}
use haive_control.Devices.Owners.{canon_owner, owner_alias, resolve_owner_token}
use haive_control.Mcp.Tokens.{
  Item, Scoped, resolve, resolve_in, is_expired, scoped_of, mint, revoke, known_scope, new_secret,
}
use haive_control.Mcp.Labels.{action_label, labels, bare}
use haive_control.Mcp.Gateway.{
  Request, Env, Logs, passes, log_access, mcp_auth, as_scoped, mcp_is_write, read_paths, own_check,
  check_target, mcp_gate,
}
use haive_control.Mcp.Lifetime.{resolve-mint, revoke-IsSpared}
use haive_control.Mcp.Bound.{IsReachable, mcp_gate-IsReachable}

label_bare : action_label (text "/m/vpn/pass") ≡ text "issue VPN pass"
unfolding action_label labels bare strip_prefix list_beq
label_bare = refl

abbrev same : Text → Text
same s = s

resolve-mint_example :
    resolve same
      (mint same [] (text "ann") (text "root") 30 (text "1") (text "2") 1000).0
      (text "mcp_2")
      2000
    ≡ (if ltb (1000 + 30 * 86400) 2000
        then none
        else some (record {
          id = text "mtk_" ++ text "1";
          owner = text "ann";
          scope = known_scope (text "root");
          expires_at = 1000 + 30 * 86400;
        }))
unfolding new_secret mint
resolve-mint_example =
    resolve-mint same [] (text "ann") (text "root") (text "1") (text "2") 30 1000 2000 tt
      (omega arith) (omega arith)

abbrev item : Item
item = record {
  id = some (text "mtk_1");
  owner = some (text "ann");
  scope = some (text "read");
  expires_at = some 0;
  hash = some (text "mcp_2");
  created_at = some 5;
}

revoke-IsSpared_example :
    ((s : Scoped)
      → resolve same (revoke (item ∷ []) (text "mtk_1") (text "ann")).0 (text "mcp_2") 9 ≡ some s
      → (s.id == text "mtk_1" && s.owner == text "ann") ≡ false)
    × ((s : Scoped)
        → (s.owner == text "ann") ≡ false
        → resolve same (item ∷ []) (text "mcp_2") 9 ≡ some s
        → resolve same (revoke (item ∷ []) (text "mtk_1") (text "ann")).0 (text "mcp_2") 9 ≡ some s)
revoke-IsSpared_example =
    revoke-IsSpared same (item ∷ []) (text "mtk_1") (text "ann") (text "mcp_2") 9 refl refl

abbrev agent : Agent
agent = record {
  owner = some (text "ann");
  name = some (text "mac");
  hostname = none;
  platform = none;
  scheme = none;
  ip = none;
  last = 5;
}

abbrev env : Env
env = record {
  mcp_token = some (text "shared");
  mcp_owner = none;
  sha256 = same;
  outside = record { new_v5 = same; to_lowercase = same; aliases = none };
  owner_tokens = [];
  items = item ∷ [];
  agents = (text "relay:a", agent) ∷ [];
  now = 9;
}

abbrev params : Text → Option Text
params k = lookup k (
    (text "mtok", text "mcp_2")
    ∷ (text "owner", text "bob")
    ∷ (text "target", text "relay://a")
    ∷ [])

abbrev frame : Request
frame = record { path = text "/m/frame"; param = params }

abbrev logs : Logs
logs = record { accesses = []; audit = record { log = []; sessions = [] } }

frame_passes :
    mcp_gate env logs frame
    ≡ passes (some (text "ann")) (log_access env logs frame (some (text "ann")) (text "relay://a"))
unfolding mcp_gate mcp_auth as_scoped ct_eq list_beq resolve resolve_in is_expired scoped_of
    mcp_is_write read_paths check_target own_check may_control device_owner device_key owner_at
    strip_prefix trim_end_matches canon_owner owner_alias resolve_owner_token trim is_whitespace
frame_passes = refl

mcp_gate-IsReachable_example :
    (s : Scoped) × (resolve same (item ∷ []) (unwrap_or [] (params (text "mtok"))) 9 ≡ some s)
    × (some (text "ann") ≡ some (canon_owner env.outside [] s.owner))
    × (s.scope ≡ text "read" → mcp_is_write frame ≡ false)
    × IsReachable env frame (some (text "ann"))
unfolding ct_eq list_beq
mcp_gate-IsReachable_example =
    mcp_gate-IsReachable env logs (log_access env logs frame (some (text "ann")) (text "relay://a"))
      frame (some (text "ann")) refl refl frame_passes
