-- ===== src/Vpn/Ops/Sweep.antt =====
-- crates/hub/src/vpn.rs: `sweep` in two parts, the end of `revoke_ep`, and the guards in front of
-- `enable_ep` and `issue_ep`.
use haive_control.Prelude.{
  ℕ, Bool, false, not, ◌&&◌, ◌||◌, Option, none, some, List, [], ◌∷◌, map, Text, ◌==◌, nat_eq,
  list_eq, is_some, is_empty, retain, any, if◌then◌else◌,
}
use haive_control.Vpn.Defs.{
  DevCfg, Pass, Store, Vpn, epoch, version, passes_changed, save, keep, mark_dirty, take_back, flag,
  Revoked,
}
use haive_control.Vpn.Ops.Enable.{device_of, Pushed, is_ok, Started, enable_begin}
use haive_control.Vpn.Ops.Issue.{Request, Issued, denied, issue_begin, ttl_choices_h}

-- `sweep`: what it does before it pushes.
unfoldable pub all_changed : List Text → Store → Store
unfolding passes_changed
all_changed [] s = s
all_changed (d ∷ ds) s = all_changed ds (passes_changed d s)

unfoldable pub purge : Vpn → ℕ → Vpn
unfolding keep all_changed save
purge v t =
    let pruned = map (λ (p : Pass). p.device) (retain (λ p. not (keep t p)) v.passes) in
    let s = all_changed pruned (record (v.store) { passes = retain (keep t) v.passes }) in
    if not (is_empty pruned) then save (record v { store = s }) else record v { store = s }

-- The device's part of the list the sweep goes through.
unfoldable pub sweep_begin : Vpn → Text → DevCfg → Option Text → Started
unfolding version
sweep_begin v device cfg owner = record {
  cfg = cfg;
  passes = v.passes;
  epoch = epoch v.store device;
  version = version v.store device;
  owner = owner;
}

unfoldable pub sweep_finish : Vpn → Text → Started → Pushed → Vpn
unfolding is_ok take_back flag save
sweep_finish v device b pushed =
    if not (epoch v.store device == b.epoch)
    then (if is_ok pushed then (take_back v device).0 else v)
    else if is_ok pushed
    then (if not (version v.store device == b.version) then v else save (flag false device v))
    else v

-- `revoke_ep`, behind its push.
unfoldable pub revoke_finish : Vpn → Text → Revoked → Bool → Vpn
unfolding version
revoke_finish v device r synced =
    if is_some r.cfg && (not synced || not (version v.store device == r.version))
    then mark_dirty v device
    else v

-- The guards in front of the two endpoints: the target, the key, and whether the relay's endpoint
-- is set and the relay runs. `b64` writes a key in base64.
module _ (decode_key : Text → Option (List ℕ)) (b64 : List ℕ → Text) where
  unfoldable pub issue_start : Vpn → Text → Request → Bool → Option Text → ℕ → Issued
  unfolding device_of
  issue_start v target q has_endpoint owner t = elim (device_of target) [
    | none ↦ denied 400
    | some device ↦
        if not (any (λ h. h == q.hours) ttl_choices_h)
        then denied 400
        else elim (decode_key q.public_key) [
          | none ↦ denied 400
          | some key ↦
              if not has_endpoint
              then denied 503
              else issue_begin v (record q { device = device; public_key = b64 key }) owner t
        ]
  ]

-- An error's status code, or the device with what its push carries.
pub data Enabling : Type 0 where
  turned_away : ℕ → Enabling
  enabling : Text → Started → Enabling

unfoldable pub enable_start : Vpn → Text → Bool → Bool → Option Text → Text → Text → ℕ → Enabling
unfolding device_of
enable_start v target has_endpoint running owner secret user t = elim (device_of target) [
  | none ↦ turned_away 400
  | some device ↦
      if not has_endpoint || not running
      then turned_away 503
      else enabling device (enable_begin v device owner secret user t)
]
