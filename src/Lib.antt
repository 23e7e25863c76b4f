-- ===== src/Lib.antt =====
-- The hub of HaiveControl (crates/hub): the parts that decide who reaches a device, and what is sent
-- to it.
--
-- A device dials in to the hub (crates/hub/src/relay.rs, devicesecrets.rs) and takes requests from
-- its tunnel. The hub makes the commands (main.rs), lets a policy refuse them (policy.rs), grants
-- temporary admin on a device (elevation.rs) and, for a device that is a VPN exit, owns the passes of
-- its clients (vpn.rs) and relays their datagrams to it (vpnrelay.rs). Switching an exit off, by
-- hand or with the device's credential, goes from vpn.rs to the relay's table.
--
-- Prelude: shared tests, lists, maps and texts. A `String` is the list of its code points, a
--   `HashMap` or `BTreeMap` an association list, a `Mutex` the state that a function takes and
--   gives back, a clock or random value an argument.
-- ConstantTime: `ct_eq` of relay.rs and vpnrelay.rs.
-- VpnRelay (crates/hub/src/vpnrelay.rs): Frames has the DATA and HELLO frames, `mac1_key` and the
--   hashes as parameters; Table has `Dev`, `Session`, `Relay`, `make_room`, `admit`, `prune`,
--   `set_device` and `remove_device`; Route has `route_in`, by its parts. Room, Trims, Caps,
--   Established, Authentic, Replay, Keys and RoundTrip are proofs.
-- Vpn (crates/hub/src/vpn.rs): Defs has the store and the calls that take its lock once; Ops has
--   `enable_ep`, `issue_ep`, `revoke_ep` and `sweep`, each as the part before its push and the part
--   behind it; Calls lets any of them come in any order. Cases, Weaker, Saved, Epochs, Lost, Sync and
--   Addresses are proofs.
-- Commands (crates/hub/src/main.rs): Args has `shell_arg`, `win_user_arg` and `sanitize_fix_arg`,
--   Table `os_command`, Fixes `fix_command` and the risks, Readonly `is_readonly_cmd`. Skeleton,
--   FixSkeleton and Gate are proofs.
-- Elevation (crates/hub/src/elevation.rs, main.rs): Board has the requests and grants, Endpoints
--   `request_elevation_ep`, `elevation_approve_ep`, `elevation_grant_ep`, `elevation_deny_ep` and
--   `sweep_elevation`. Window, Tidy and Sweep are proofs.
-- Enroll (crates/hub/src/relay.rs, devicesecrets.rs): Tunnels has the registry of tunnels, Secrets
--   the devices' own secrets, Hello `hello_ep` and `revoke_ep`. Takeover is a proof.
-- Policy (crates/hub/src/policy.rs): `check`, `enforce` and `remediation_for`; Denied is a
--   proof.
-- Url (crates/hub/src/main.rs): `query_param`, `query_without`, `percent_decode` and `urlencode`, on
--   bytes. RoundTrip is a proof.
-- Devices (crates/hub/src/main.rs, relay.rs): Rows has the devices' rows, `device_key` and
--   `may_control`; Owners `canon_owner`, the enrollment tokens and `relay_ok`; Fleet `set_owner_ep`,
--   `forget_device` and the queued dissolves; Duplicates `dedup_sweep`. Fresh, Sorted, Groups,
--   Remains, Handover, Strict and Rotation are proofs.
-- Actions (crates/hub/src/main.rs): Plugins has `plugin_command`, Queue the actions queued for offline
--   devices, Schedules the schedules and a round of the scheduler. Exactly, Daily, Round and
--   Armed are proofs.
-- Audit (crates/hub/src/main.rs): Log has `audit`, `touch_session` and `record_mcp_access`, Summary the
--   text of `build_session_summary`, Sweep `session_summary_sweep`. Rings, Written and Once are
--   proofs.
-- Mcp (crates/hub/src/mcptokens.rs, main.rs): Tokens has the MCP tokens, Labels the actions' names,
--   Gateway `mcp_auth`, `mcp_is_write` and the checks of a request before its endpoint. Lifetime and
--   Bound are proofs.
-- Proxy (crates/hub/src/main.rs, jobs.rs, capability.rs): Endpoints has `proxy_exec`, `proxy_input`,
--   `proxy_sys`, `jobs::start` and `capability_ep`, Jobs the paths of requests about a job, Calls
--   the requests with what is to hold of each. Gated is a proof.
-- SecretFile (crates/hub/src/secretfile.rs): Files has files with their modes and what a
--   crash leaves of them, Secret `read_secret`, `write_new_secret` and `replace_secret`. Whole is a proof.
-- Analysis (crates/hub/src/main.rs): Posture has `posture_pass` and `analysis_compliance`, Store
--   `recv_analysis` and `note_inventory`, Updates `auto_update_pass`. Graded is a proof.
-- The Examples files are tests and applications at concrete inputs.
--
-- Every loop goes down a list, and `(2..=254)` is counted down from 253. `decimal` takes fuel, one
-- more than the number, which has fewer digits; and the loop of the scheduler, which goes by an index,
-- takes a step more than there are schedules.
-- Lengths, times and counters are natural numbers; the caps of the source are written out. Bytes
-- are natural numbers, below 256 where a frame is built.
--
-- Parameters: sha256, blake2s and base64 (libraries), what a device answers, the disk's success,
-- `str::to_lowercase`. Not modelled: threads and sockets, the JSON of requests and replies, the
-- dashboard, the AI chat, certificates, reading stores at startup, the monitor's thresholds (they are
-- floating-point numbers), recordings, staged files, and how a browser's user is found.
pub mod Prelude
pub mod ConstantTime
pub mod VpnRelay
pub mod Audit
pub mod Vpn
pub mod Url
pub mod Commands
pub mod Elevation
pub mod Enroll
pub mod Devices
pub mod Policy
pub mod Actions
pub mod Mcp
pub mod Proxy
pub mod SecretFile
pub mod Analysis
