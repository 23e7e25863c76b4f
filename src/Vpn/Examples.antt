-- ===== src/Vpn/Examples.antt =====
-- The VPN exits at concrete inputs: one device, one pass, stand-ins for base64 and the hashes.
use haive_control.Prelude.{
  ℕ, ◌≡◌, refl, arith, true, false, Option, none, some, List, [], ◌∷◌, Text, text, list_beq, nat_eq,
  list_eq, if◌then◌else◌,
}
use haive_control.VpnRelay.Frames.{Crypto}
use haive_control.Vpn.Sync.{passes_on, sweep_finish-synced}
use haive_control.Vpn.Defs.{
  keep, set_dirty, flag, save, live, status, is_active, version, Vpn, DevCfg, Pass, switch_off,
  allocate, tunnel_address, epoch,
}
use haive_control.Vpn.Ops.{
  is_ok, sweep_begin, sweep_finish, purge, new_pass, Request, Started, took, refused, issued,
  reported_key, issue_begin, issue_finish, enable_begin, enable_finish, add_pass,
}
use haive_control.Vpn.Calls.{step, Call, switches_off, issues, purges, revokes, run}
use haive_control.Vpn.Saved.{IsSaved, run-IsSaved}
use haive_control.Vpn.Epochs.{IsAbandoned, enable_overtaken}
use haive_control.Vpn.Lost.{IsLost, issue_overtaken}
use haive_control.Vpn.Addresses.{IsOrderly, run-IsOrderly}

abbrev toy : Crypto
toy = record { sha256 = λ m. m; blake2s256 = λ m. m; blake2s_mac = λ k m. some m }

abbrev toy_key : Text → Option (List ℕ)
toy_key k = if list_beq k (text "KEY") then some (1 ∷ 2 ∷ []) else none

abbrev box : Text
box = text "hc-1"

abbrev cfg : DevCfg
cfg = record {
  secret = text "00ff";
  server_public_key = text "KEY";
  enabled_by = text "ann";
  enabled_at = 5;
  dirty = false;
}

abbrev exits : Vpn
exits = record {
  store = record { devices = (box, cfg) ∷ []; passes = []; epochs = []; versions = [] };
  disk_devices = (box, cfg) ∷ [];
  disk_passes = [];
  relay = record { devs = []; sessions = [] };
}

abbrev request : Request
request = record {
  device = box;
  name = text "phone";
  hours = 8;
  public_key = text "PUB";
  user = text "ann";
  id = text "a1";
  preshared_key = text "PSK";
}

abbrev calls : List Call
calls =
    issues request none 100
    ∷ revokes box (text "a1") 120
    ∷ purges 130
    ∷ switches_off box false 140
    ∷ []

run-IsSaved_example : IsSaved (run toy_key toy exits calls)
run-IsSaved_example = run-IsSaved toy_key toy exits calls (refl, refl)

enable_overtaken_example :
    IsAbandoned box (run toy_key toy (switch_off (run toy_key toy exits calls) box true 150).0 []) (
      enable_finish toy_key toy
        (run toy_key toy (switch_off (run toy_key toy exits calls) box true 150).0 [])
        box
        (enable_begin exits box none (text "00ff") (text "ann") 90)
        (took (some (text "KEY")))
        none)
unfolding reported_key list_beq
enable_overtaken_example =
    enable_overtaken toy_key toy exits box (text "KEY") (text "00ff") (text "ann") none none 90 150
      calls [] true (took (some (text "KEY"))) refl

abbrev issued_pass : Pass
issued_pass = new_pass request (tunnel_address 2) 100

abbrev with_pass : Vpn
with_pass = add_pass exits issued_pass

abbrev started : Started
started = record {
  cfg = cfg;
  passes = with_pass.passes;
  epoch = epoch with_pass.store box;
  version = version with_pass.store box;
  owner = none;
}

is_issued : issue_begin exits request none 100 ≡ issued with_pass issued_pass started
unfolding issue_begin allocate list_beq
is_issued = refl

issue_overtaken_example :
    IsLost
      (text "a1")
      (issue_finish
        (run toy_key toy (switch_off (run toy_key toy with_pass []) box false 150).0 [])
        issued_pass
        started
        refused
        none
        160)
      (run toy_key toy
        (issue_finish
          (run toy_key toy (switch_off (run toy_key toy with_pass []) box false 150).0 [])
          issued_pass
          started
          refused
          none
          160).after
        (purges 170 ∷ []))
issue_overtaken_example =
    issue_overtaken toy_key toy exits with_pass request none none 100 150 160 issued_pass started []
      [] (purges 170 ∷ []) false refused is_issued tt tt tt (refl, tt)

run-IsOrderly_example : IsOrderly 200 (run toy_key toy exits calls).passes
run-IsOrderly_example =
    run-IsOrderly toy_key toy 90 200 exits calls
      (omega arith, (omega arith, (omega arith, (omega arith, tt)))) (omega arith)
      (record { apart = tt; few = λ d. omega arith })

abbrev behind : DevCfg
behind = record {
  secret = text "00ff";
  server_public_key = text "KEY";
  enabled_by = text "ann";
  enabled_at = 5;
  dirty = true;
}

abbrev offline : Vpn
offline = record {
  store = record {
    devices = (box, behind) ∷ [];
    passes = issued_pass ∷ [];
    epochs = [];
    versions = [];
  };
  disk_devices = (box, behind) ∷ [];
  disk_passes = issued_pass ∷ [];
  relay = record { devs = []; sessions = [] };
}

sweep_finish-synced_example :
    passes_on box
      (sweep_finish
        (run toy_key toy offline (purges 130 ∷ []))
        box
        (sweep_begin offline box behind none)
        (took none)).passes
    ≡ passes_on box (sweep_begin offline box behind none).passes
unfolding run step purge keep sweep_finish sweep_begin epoch version is_ok save flag set_dirty
    list_beq new_pass live status is_active
sweep_finish-synced_example =
    sweep_finish-synced toy_key toy offline box behind behind cfg none (purges 130 ∷ []) (took none)
      (tt, tt) refl refl refl refl
