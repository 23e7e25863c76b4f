-- ===== src/Vpn/Defs.antt =====
-- crates/hub/src/vpn.rs: passes and the store of the VPN exits (`DevCfg`, `Pass`, `Store`), and the
-- calls that hold its lock once (`allocate`, `owned`, `switch_off`, `revoke`, `mark_dirty`,
-- `take_back`, and the two halves of `sweep`). The time is an argument. A save reaches the disk.
use haive_control.Prelude.{
  ℕ, zero, suc, ◌+◌, ◌-◌, ◌/◌, ◌%◌, Bool, true, false, not, ◌&&◌, ◌||◌, Option, none, some, List,
  [], ◌∷◌, ◌++◌, map, length, Text, text, leb, ltb, ◌==◌, nat_eq, list_eq, is_the, is_some,
  is_empty, unwrap_or, Map, lookup, insert, remove, retain, find, any, count_if, update_first,
  if◌then◌else◌,
}
use haive_control.VpnRelay.Table.{Relay, remove_device}

pub record DevCfg : Type 0 where
  pub secret : Text
  pub server_public_key : Text
  pub enabled_by : Text
  pub enabled_at : ℕ
  pub dirty : Bool

pub record Pass : Type 0 where
  pub id : Text
  pub device : Text
  pub name : Text
  pub owner : Text
  pub public_key : Text
  pub preshared_key : Text
  pub address : Text
  pub created_at : ℕ
  pub expires_at : ℕ
  pub revoked_at : Option ℕ

pub data Status : Type 0 where
  revoked expired active : Status

unfoldable pub status : Pass → ℕ → Status
status p now =
    if is_some p.revoked_at then revoked else if leb p.expires_at now then expired else active

unfoldable pub is_active : Status → Bool
is_active revoked = false
is_active expired = false
is_active active = true

unfoldable pub live : Pass → ℕ → Bool
unfolding status is_active
live p now = is_active (status p now)

pub record Store : Type 0 where
  pub devices : Map Text DevCfg
  pub passes : List Pass
  pub epochs : Map Text ℕ
  pub versions : Map Text ℕ

-- The store with what is around it: vpn.json, and the relay's table.
pub record Vpn : Type 0 where
  pub store : Store
  pub open store use *
  pub disk_devices : Map Text DevCfg
  pub disk_passes : List Pass
  pub relay : Relay

unfoldable pub epoch : Store → Text → ℕ
epoch s device = unwrap_or 0 (lookup device s.epochs)

unfoldable pub version : Store → Text → ℕ
version s device = unwrap_or 0 (lookup device s.versions)

unfoldable pub passes_changed : Text → Store → Store
unfolding version
passes_changed device s = record s { versions = insert device (version s device + 1) s.versions }

unfoldable pub epoch_changed : Text → Store → Store
unfolding epoch
epoch_changed device s = record s { epochs = insert device (epoch s device + 1) s.epochs }

unfoldable pub save : Vpn → Vpn
save v = record v { disk_devices = v.devices; disk_passes = v.passes }

-- `10.77.0.{h}`, for h below 1000.
unfoldable pub tunnel_address : ℕ → Text
tunnel_address h =
    text "10.77.0."
    ++ (if ltb h 10
        then (48 + h) ∷ []
        else if ltb h 100
        then (48 + h / 10) ∷ (48 + h % 10) ∷ []
        else (48 + h / 100) ∷ (48 + h / 10 % 10) ∷ (48 + h % 10) ∷ [])

-- The addresses in use on the device.
unfoldable pub used_addresses : List Pass → Text → ℕ → List Text
unfolding live
used_addresses ps device now =
    map (λ (p : Pass). p.address) (retain (λ p. p.device == device && live p now) ps)

-- `(h..).find(…)` over the `n` hosts from `h`.
unfoldable pub first_free : ℕ → ℕ → List Text → Option Text
unfolding tunnel_address
first_free zero h used = none
first_free (suc n) h used =
    let rest = first_free n (h + 1) used in
    if any (λ a. a == tunnel_address h) used then rest else some (tunnel_address h)

unfoldable pub allocate : List Pass → Text → ℕ → Option Text
unfolding used_addresses first_free
allocate ps device now = first_free 253 2 (used_addresses ps device now)

unfoldable pub owned : Pass → Option Text → Bool
owned p owner = is_empty p.owner || is_the p.owner owner

-- The peers that `push` sends.
unfoldable pub peers : List Pass → Text → Option Text → ℕ → List Pass
unfolding live owned
peers ps device owner t = retain (λ p. p.device == device && (live p t && owned p owner)) ps

-- The closure `keep` of `sweep`; PURGE_AFTER_S.
abbrev pub purge_after_s : ℕ
purge_after_s = 604800

unfoldable pub keep : ℕ → Pass → Bool
unfolding live
keep t p = live p t || ltb (t - unwrap_or p.expires_at p.revoked_at) purge_after_s

-- `iter_mut().filter(…).map(|p| p.revoked_at = Some(t))`.
unfoldable pub revoke_one : Text → ℕ → Pass → Pass
revoke_one device t p =
    if p.device == device && not (is_some p.revoked_at) then record p { revoked_at = some t } else p

unfoldable pub drop_passes_of : Text → List Pass → List Pass
drop_passes_of device ps = retain (λ p. not (p.device == device)) ps

unfoldable pub unrevoked : Text → List Pass → ℕ
unrevoked device ps = count_if (λ p. p.device == device && not (is_some p.revoked_at)) ps

-- `switch_off`: the epoch, the relay, the device and its passes under one lock.
unfoldable pub switch_off : Vpn → Text → Bool → ℕ → Vpn × Bool × ℕ
unfolding epoch_changed passes_changed revoke_one drop_passes_of unrevoked save
switch_off v device drop_passes t =
    let was_enabled = is_some (lookup device v.devices) in
    let s = epoch_changed device v.store in
    let off = passes_changed device (record s { devices = remove device s.devices }) in
    let kept =
      if drop_passes
      then drop_passes_of device off.passes
      else map (revoke_one device t) off.passes in
    let n = if drop_passes then length off.passes - length kept else unrevoked device off.passes in
    let v' : Vpn = record v {
      store = record off { passes = kept };
      relay = remove_device v.relay device;
    } in
    (if was_enabled || not (n == 0) then save v' else v', was_enabled, n)

abbrev pub is_pass : Text → Text → Pass → Bool
is_pass device id p = p.id == id && p.device == device

-- What the push of a revoke needs.
pub record Revoked : Type 0 where
  pub after : Vpn
  pub cfg : Option DevCfg
  pub passes : List Pass
  pub version : ℕ

unfoldable pub set_revoked : ℕ → Pass → Pass
set_revoked t p = if is_some p.revoked_at then p else record p { revoked_at = some t }

unfoldable pub revoke : Vpn → Text → Text → ℕ → Option Revoked
unfolding set_revoked passes_changed save version
revoke v device id t = elim (find (is_pass device id) v.passes) [
  | none ↦ none
  | some p ↦
      let s =
        passes_changed device (record (v.store) {
          passes = update_first (is_pass device id) (set_revoked t) v.passes;
        }) in
      let v' = save (record v { store = s }) in
      some (record {
        after = v';
        cfg = lookup device s.devices;
        passes = s.passes;
        version = version s device;
      })
]

-- A device's flag, written through `get_mut`.
unfoldable pub set_dirty : Bool → Text → Map Text DevCfg → Map Text DevCfg
set_dirty b device m = elim (lookup device m) [
  | none ↦ m
  | some c ↦ insert device (record c { dirty = b }) m
]

unfoldable pub flag : Bool → Text → Vpn → Vpn
unfolding set_dirty
flag b device v = record v { store = record (v.store) { devices = set_dirty b device v.devices } }

unfoldable pub mark_dirty : Vpn → Text → Vpn
unfolding flag save
mark_dirty v device = save (flag true device v)

-- `take_back`; the flag says whether the device is told to disable its exit.
unfoldable pub take_back : Vpn → Text → Vpn × Bool
unfolding flag save
take_back v device =
    if is_some (lookup device v.devices) then (save (flag true device v), false) else (v, true)
