-- ===== src/Enroll/Hello.antt =====
-- crates/hub/src/devicesecrets.rs: `hello_ep`, which registers a device or refuses it, and
-- `revoke_ep`. The device rows of `relay::hello` are left out; who owns a token, the device's row,
-- a queued dissolve, the random bytes and the disk are arguments, `sha256` is a parameter.
use haive_control.Prelude.{
  ℕ, Bool, true, false, not, ◌&&◌, ◌||◌, Option, none, some, [], Text, is_empty, is_some, unwrap_or,
  ◌==◌, nat_eq, list_eq, if◌then◌else◌,
}
use haive_control.Enroll.Tunnels.{Registry, auth_hash, hello, rebind, drop_tunnel}
use haive_control.Enroll.Secrets.{
  Secrets, other_owner, no_entropy, not_persisted, minted, is_device_secret, verify, owner_of, mint,
  remove,
}

pub record Hub : Type 0 where
  pub registry : Registry
  pub secrets : Secrets

-- A hello: the token and the id of its URL, the id that its payload registers, and `ds=1`.
pub record Incoming : Type 0 where
  pub tok : Text
  pub rid : Text
  pub relay_id : Option Text
  pub asks_secret : Bool

-- What the hub knows beside its tunnels and secrets.
pub record Around : Type 0 where
  pub token_owner : Option Text
  pub authed : Bool
  pub owner_override : Option Text
  pub row_owner : Option Text
  pub dissolving : Bool
  pub random : Option Text
  pub written : Bool
  pub now : ℕ

-- The answer, with the secret in it and the owner recorded for the device, if any.
pub record Answer : Type 0 where
  pub after : Hub
  pub code : ℕ
  pub secret : Option Text
  pub recorded : Option Text

unfoldable pub plain : Hub → ℕ → Option Text → Answer
plain h code recorded = record { after = h; code = code; secret = none; recorded = recorded }

-- `relay::hello` on the hub; a payload without an id registers nothing.
unfoldable pub register : Hub → Option Text → Text → Bool → Hub × Bool
register h none auth rebinds = (h, false)
register h (some id) auth rebinds =
    let (reg, ok) = hello h.registry id auth rebinds in (record h { registry = reg }, ok)

unfoldable pub is_other : Text → Option Text → Bool
is_other owner none = false
is_other owner (some held) = not (held == owner)

unfoldable pub owned_by_other : Hub → Around → Text → Text → Bool
unfolding is_other
owned_by_other h a rid owner =
    is_other owner (owner_of h.secrets rid)
    || is_other owner a.owner_override
    || is_other owner a.row_owner

unfoldable pub same_id : Incoming → Bool
same_id q = not (is_empty q.rid) && unwrap_or [] q.relay_id == q.rid

unfoldable pub mint_for : Incoming → Around → Option Text
unfolding same_id
mint_for q a = if q.asks_secret && same_id q then a.token_owner else none

-- Whether the tunnel may be bound again, or the id is another owner's.
pub data Rebind : Type 0 where
  in_use : Rebind
  may : Bool → Rebind

unfoldable pub rebind_for : Option Text → Option Text → Rebind
rebind_for none held = may false
rebind_for (some o) none = may false
rebind_for (some o) (some held) = if not (held == o) then in_use else may true

module _ (sha256 : Text → Text) where
  unfoldable pub with_secret : Hub → Incoming → Answer
  unfolding register plain same_id
  with_secret h q = elim (verify sha256 h.secrets q.rid q.tok) [
    | none ↦ plain h 401 none
    | some owner ↦
        if not (same_id q)
        then plain h 401 none
        else (let (h', ok) = register h q.relay_id (auth_hash sha256 q.tok) true in
            plain h' 204 (if ok then some owner else none))
  ]

  unfoldable pub issue : Hub → Incoming → Around → Text → Answer
  unfolding plain
  issue h q a owner =
      let (s, m) = mint sha256 h.secrets q.rid owner a.random a.written a.now in
      elim m [
        | minted secret ↦ record {
          after = record {
            registry = (rebind h.registry q.rid (auth_hash sha256 secret)).0;
            secrets = s;
          };
          code = 200;
          secret = some secret;
          recorded = some owner;
        }
        | other_owner ↦ plain h 403 none
        | no_entropy ↦ plain h 204 (some owner)
        | not_persisted ↦ plain (record h { secrets = s }) 204 (some owner)
      ]

  -- Once the owners are settled.
  unfoldable pub enroll : Hub → Incoming → Around → Bool → Answer
  unfolding register plain mint_for
  enroll h q a rebinds =
      let (h', ok) = register h q.relay_id (auth_hash sha256 q.tok) rebinds in
      if not ok then plain h' 403 none else elim (if a.dissolving then none else mint_for q a) [
        | none ↦ plain h' 204 a.token_owner
        | some o ↦ issue h' q a o
      ]

  unfoldable pub with_token : Hub → Incoming → Around → Answer
  unfolding plain owned_by_other mint_for rebind_for
  with_token h q a =
      if a.authed && not (is_some a.token_owner)
      then plain h 403 none
      else if elim a.token_owner [
        | none ↦ false
        | some o ↦ owned_by_other h a (unwrap_or [] q.relay_id) o
      ]
      then plain h 403 none
      else elim (rebind_for (mint_for q a) (owner_of h.secrets q.rid)) [
        | in_use ↦ plain h 403 none
        | may b ↦ enroll h q a b
      ]

  unfoldable pub hello_ep : Hub → Incoming → Around → Answer
  unfolding with_secret with_token
  hello_ep h q a = if is_device_secret q.tok then with_secret h q else with_token h q a

-- `revoke_ep` for a relay device; the shutdown of its VPN exit is `switch_off`.
unfoldable pub revoke_ep : Hub → Text → Hub × Bool
revoke_ep h rid =
    let (s, revoked) = remove h.secrets rid in
    (
      if revoked then record { registry = (drop_tunnel h.registry rid).0; secrets = s } else h,
      revoked,
    )
