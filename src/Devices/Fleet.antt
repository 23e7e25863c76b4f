-- ===== src/Devices/Fleet.antt =====
-- crates/hub/src/main.rs: the stores that the removal of a device and the change of its owner go
-- through (`forget_device`, `shut_down_vpn_exit`, `set_owner`, `set_owner_ep`, `queue_dissolve`).
use haive_control.Prelude.{
  ℕ, Bool, true, false, not, ◌||◌, Option, none, some, List, [], ◌∷◌, ◌++◌, Text, text, retain,
  is_empty, any, or_else, unwrap_or, is_the, Map, lookup, insert, remove, modify, strip_prefix,
  decimal, ltb, ◌==◌, nat_eq, list_eq, if◌then◌else◌,
}
use haive_control.Vpn.Defs.{Vpn, switch_off}
use haive_control.Enroll.Secrets.{Secrets}
use haive_control.Enroll.Secrets
use haive_control.Audit.{Audit, audit}
use haive_control.Devices.Rows.{
  Agent, Agents, relay_target, device_key, owner_at, device_name, may_control,
}
use haive_control.Devices.Owners.{Outside, Answer, ok, refused, canon_owner}

-- The analysis of a device: its checks' results with their times, and its time.
abbrev pub Analysis : Type 0
Analysis = Map Text (Text × ℕ) × ℕ

-- The stores; `disk_…` is what was last written to the data folder.
pub record Fleet : Type 0 where
  pub agents : Agents
  pub disk_agents : Agents
  pub analysis : Map Text Analysis
  pub disk_analysis : Map Text Analysis
  pub pending : List Text
  pub disk_pending : List Text
  pub overrides : Map Text Text
  pub disk_overrides : Map Text Text
  pub secrets : Secrets
  pub vpn : Vpn
  pub audit : Audit

-- Who did it, from where, and when.
pub record By : Type 0 where
  pub actor : Text
  pub source : Text
  pub now : ℕ

unfoldable pub save_state : Fleet → Fleet
save_state f = record f { disk_agents = f.agents; disk_analysis = f.analysis }

unfoldable pub queue_dissolve : Fleet → Text → Fleet
queue_dissolve f key =
    let p = if any (λ k. k == key) f.pending then f.pending else key ∷ f.pending in
    record f { pending = p; disk_pending = p }

unfoldable pub is_dissolve_pending : Fleet → Text → Bool
is_dissolve_pending f key = any (λ k. k == key) f.pending

unfoldable pub clear_pending_dissolve : Fleet → Text → Fleet × Bool
unfolding is_dissolve_pending
clear_pending_dissolve f key =
    let p = retain (λ k. not (k == key)) f.pending in
    if is_dissolve_pending f key
    then (record f { pending = p; disk_pending = p }, true)
    else (f, false)

-- The audit entry of a shut down exit.
unfoldable pub shut_down_detail : Text → Bool → ℕ → Text
shut_down_detail why was_enabled passes =
    why
    ++ (text ": exit "
        ++ ((if was_enabled then text "disabled" else text "was off")
            ++ (text ", "
                ++ (decimal passes
                    ++ (text " pass"
                        ++ ((if passes == 1 then [] else text "es") ++ text " dropped"))))))

unfoldable pub shut_down_vpn_exit : Fleet → Text → Text → By → Text → Fleet
unfolding shut_down_detail
shut_down_vpn_exit f relay_id device by why =
    let (v, was_enabled, passes) = switch_off f.vpn relay_id true by.now in
    let off = record f { vpn = v } in
    if was_enabled || ltb 0 passes
    then record off {
      audit =
          audit f.audit by.now by.actor by.source (text "shut down VPN exit") device
            (shut_down_detail why was_enabled passes);
    }
    else off

unfoldable pub forget_inventory : Fleet → Text → Fleet
unfolding clear_pending_dissolve save_state
forget_inventory f target =
    let key = device_key target in
    let gone = record f { agents = remove key f.agents; analysis = remove key f.analysis } in
    save_state (clear_pending_dissolve gone key).0

unfoldable pub forget_device : Fleet → Text → By → Text → Fleet
unfolding forget_inventory shut_down_vpn_exit
forget_device f target by why =
    let name = device_name f.agents target in
    let gone = forget_inventory f target in
    elim (relay_target target) [
      | none ↦ gone
      | some id ↦
          if is_empty id
          then gone
          else shut_down_vpn_exit (record gone { secrets = (Secrets.remove gone.secrets id).0 }) id
              name by why
    ]

unfoldable pub with_owner : Text → Agent → Agent
with_owner owner a = record a { owner = if is_empty owner then none else some owner }

unfoldable pub assign : Fleet → Text → Text → Fleet
unfolding with_owner save_state
assign f key owner =
    let m = if is_empty owner then remove key f.overrides else insert key owner f.overrides in
    save_state (record f {
      overrides = m;
      disk_overrides = m;
      agents = modify key (with_owner owner) f.agents;
    })

-- The exit of the device with this key, which got another owner.
unfoldable pub take_exit : Fleet → Text → By → Fleet
unfolding shut_down_vpn_exit
take_exit f key by = elim (strip_prefix (text "relay:") key) [
  | none ↦ f
  | some id ↦
      shut_down_vpn_exit f id (device_name f.agents (text "relay://" ++ id)) by
        (text "device owner changed")
]

unfoldable pub set_owner : Fleet → Text → Text → By → Fleet
unfolding assign take_exit owner_at
set_owner f key owner by =
    let prev = or_else (lookup key f.overrides) (owner_at f.agents key) in
    let f' = assign f key owner in if is_the owner prev then f' else take_exit f' key by

-- `set_owner_ep` for its `target` and `owner`; `tokens` are the enrollment tokens.
unfoldable pub set_owner_ep :
    Outside → Map Text Text → Fleet → Option Text → Text → Option Text → Text → ℕ → Fleet × Answer
unfolding set_owner
set_owner_ep o tokens f user target owner source now =
    let by : By = record { actor = unwrap_or [] user; source = source; now = now } in
    if is_empty target
    then (f, refused 400)
    else if not (may_control user f.agents target)
    then (f, refused 403)
    else elim owner [
      | some w ↦
          if is_empty w
          then (f, refused 400)
          else let c = canon_owner o tokens w in (set_owner f (device_key target) c by, ok c)
      | none ↦
          if is_empty (unwrap_or [] user)
          then (f, refused 409)
          else (set_owner f (device_key target) (unwrap_or [] user) by, ok (unwrap_or [] user))
    ]
