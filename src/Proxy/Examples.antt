-- ===== src/Proxy/Examples.antt =====
-- A device's owner and a stranger, at a concrete hub that denies shutdowns.
use haive_control.Prelude.{
  ◌≡◌, refl, true, false, none, some, [], ◌∷◌, Text, text, Option, lookup, list_beq, nat_eq,
  list_eq, strip_prefix, trim_end_matches, contains_text, starts_with, parse_u64, digits_value,
  without_plus, decimal, digits_from,
}
use haive_control.Policy.{enforce, check, eq_ignore_ascii_case, hay_of}
use haive_control.Devices.Rows.{Agent, may_control, device_owner, device_key, owner_at}
use haive_control.Mcp.Gateway.{Logs}
use haive_control.Proxy.Jobs.{valid_id, numbered, logs_path}
use haive_control.Proxy.Endpoints.{Hub, nothing, exec, proxy_exec, refuse}

abbrev agent : Agent
agent = record {
  owner = some (text "ann");
  name = some (text "mac");
  hostname = none;
  platform = none;
  scheme = none;
  ip = none;
  last = 5;
}

abbrev hub : Hub
hub = record {
  policy = record {
    deny_actions = [];
    deny_patterns = text "Shutdown" ∷ [];
    require_approval = [];
  };
  plugins = [];
  agents = (text "relay:a", agent) ∷ [];
  now = 9;
}

abbrev logs : Logs
logs = record { accesses = []; audit = record { log = []; sessions = [] } }

ann_runs :
    (proxy_exec hub logs (some (text "ann")) true (text "relay://a") (text "ls") false none).reach
    ≡ exec (text "relay://a") (text "ls") false none
unfolding proxy_exec may_control device_owner device_key owner_at strip_prefix trim_end_matches
    enforce check eq_ignore_ascii_case hay_of contains_text starts_with list_beq
ann_runs = refl

ann_denied :
    (proxy_exec hub logs
      (some (text "ann"))
      true
      (text "relay://a")
      (text "shutdown -h")
      false
      none).reach
    ≡ nothing
unfolding proxy_exec may_control device_owner device_key owner_at strip_prefix trim_end_matches
    enforce check eq_ignore_ascii_case hay_of contains_text starts_with list_beq refuse
ann_denied = refl

abbrev params : Text → Option Text
params k = lookup k ((text "id", text "j17a") ∷ (text "max", text "+20") ∷ [])

logs_path_max : logs_path params ≡ some (text "/jobs/logs?id=j17a&max=20")
unfolding logs_path valid_id numbered parse_u64 digits_value without_plus decimal digits_from
    list_beq
logs_path_max = refl

no_smuggling : valid_id (text "j1&max=9") ≡ false
unfolding valid_id
no_smuggling = refl
