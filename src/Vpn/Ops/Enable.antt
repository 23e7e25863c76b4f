-- ===== src/Vpn/Ops/Enable.antt =====
-- crates/hub/src/vpn.rs: what a push came back with, and `enable_ep` in two parts.
use haive_control.Prelude.{
  ℕ, ◌+◌, ◌*◌, ◌-◌, Bool, true, false, not, ◌&&◌, Option, none, some, List, [], ◌∷◌, Text, text,
  leb, ◌==◌, nat_eq, list_eq, is_some, is_empty, lookup, insert, if◌then◌else◌, strip_prefix,
  trim_end_by,
}
use haive_control.VpnRelay.Frames.{Crypto}
use haive_control.VpnRelay.Table.{Relay, SetResult, ok, err, set_device}
use haive_control.Vpn.Defs.{DevCfg, Pass, Store, Vpn, epoch, version, save, switch_off, take_back}

-- `device_of`, with `relay_target` of main.rs.
unfoldable pub device_of : Text → Option Text
device_of target = elim (strip_prefix (text "relay://") target) [
  | none ↦ none
  | some d ↦ let id = trim_end_by (λ c. c == 47) d in if is_empty id then none else some id
]

unfoldable pub same_owner : Option Text → Option Text → Bool
same_owner none none = true
same_owner none (some b) = false
same_owner (some a) none = false
same_owner (some a) (some b) = a == b

-- `char::to_digit(16)`, and `u8::from_str_radix(.., 16)` on two characters, which takes a `+`.
unfoldable pub hex_digit : ℕ → Option ℕ
hex_digit c =
    if leb 48 c && leb c 57
    then some (c - 48)
    else if leb 97 c && leb c 102
    then some (c - 87)
    else if leb 65 c && leb c 70
    then some (c - 55)
    else none

unfoldable pub hex_byte : ℕ → ℕ → Option ℕ
unfolding hex_digit
hex_byte a b = if a == 43 then hex_digit b else elim (hex_digit a) [
  | none ↦ none
  | some h ↦ elim (hex_digit b) [ none ↦ none | some l ↦ some (h * 16 + l) ]
]

unfoldable pub unhex : Text → List ℕ
unfolding hex_byte
unhex [] = []
unhex (a ∷ []) = []
unhex (a ∷ b ∷ s) = let rest = unhex s in elim (hex_byte a b) [ none ↦ rest | some x ↦ x ∷ rest ]

-- What a push came back with: an error, or the status, with the key it reports.
pub data Pushed : Type 0 where
  refused : Pushed
  took : Option Text → Pushed

unfoldable pub is_ok : Pushed → Bool
is_ok refused = false
is_ok (took k) = true

-- An answer: the state behind it, the status code, and whether the device was told to disable.
pub record Reply : Type 0 where
  pub after : Vpn
  pub code : ℕ
  pub told_off : Bool

unfoldable pub answer : Vpn → ℕ → Reply
answer v code = record { after = v; code = code; told_off = false }

unfoldable pub give_up : Vpn → Text → Reply
unfolding take_back
give_up v device =
    let (v', told) = take_back v device in record { after = v'; code = 409; told_off = told }

-- What `enable_ep` and `sweep` hold on to while they push.
pub record Started : Type 0 where
  pub cfg : DevCfg
  pub passes : List Pass
  pub epoch : ℕ
  pub version : ℕ
  pub owner : Option Text

unfoldable pub new_cfg : Text → Text → ℕ → DevCfg
new_cfg secret user t = record {
  secret = secret;
  server_public_key = [];
  enabled_by = user;
  enabled_at = t;
  dirty = false;
}

unfoldable pub cfg_or : DevCfg → Option DevCfg → DevCfg
cfg_or d none = d
cfg_or d (some c) = c

unfoldable pub enable_begin : Vpn → Text → Option Text → Text → Text → ℕ → Started
unfolding new_cfg cfg_or version
enable_begin v device owner secret user t = record {
  cfg = cfg_or (new_cfg secret user t) (lookup device v.devices);
  passes = v.passes;
  epoch = epoch v.store device;
  version = version v.store device;
  owner = owner;
}

-- base64 and the hashes.
module _ (decode_key : Text → Option (List ℕ)) (c : Crypto) where
  unfoldable pub register_relay : Relay → Text → DevCfg → SetResult
  unfolding unhex
  register_relay r device cfg = elim (decode_key cfg.server_public_key) [
    | none ↦ ok r
    | some pk ↦ set_device c r device (unhex cfg.secret) pk
  ]

  -- The key of the status, if it is one.
  unfoldable pub reported_key : Pushed → Option Text
  reported_key refused = none
  reported_key (took none) = none
  reported_key (took (some k)) = if is_some (decode_key k) then some k else none

  unfoldable pub record_enable : Vpn → Text → DevCfg → ℕ → Reply
  unfolding answer save version
  record_enable v device cfg pushed_version = elim (register_relay v.relay device cfg) [
    | err other ↦ answer v 409
    | ok r ↦
        let cfg' : DevCfg = record cfg { dirty = not (version v.store device == pushed_version) } in
        let s : Store = record (v.store) { devices = insert device cfg' v.devices } in
        answer (save (record v { store = s; relay = r })) 200
  ]

  unfoldable pub enable_finish : Vpn → Text → Started → Pushed → Option Text → Reply
  unfolding answer give_up same_owner
  enable_finish v device b pushed owner_now = elim (reported_key pushed) [
    | none ↦ answer v 502
    | some pk ↦
        let cfg : DevCfg = record b.cfg { server_public_key = pk; dirty = false } in
        if not (same_owner owner_now b.owner)
        then give_up v device
        else if not (epoch v.store device == b.epoch)
        then give_up v device
        else record_enable v device cfg b.version
  ]

-- `disable_ep`, once the device was told.
unfoldable pub disable : Vpn → Text → ℕ → Reply
unfolding answer
disable v device t = answer (switch_off v device false t).0 200
