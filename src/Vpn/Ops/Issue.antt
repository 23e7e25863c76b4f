-- ===== src/Vpn/Ops/Issue.antt =====
-- crates/hub/src/vpn.rs: `issue_ep` in two parts.
use haive_control.Prelude.{
  ℕ, ◌+◌, ◌*◌, Bool, not, ◌&&◌, ◌||◌, Option, none, some, List, [], ◌∷◌, ◌++◌, Text, text, leb, ltb,
  ◌==◌, nat_eq, list_eq, is_some, is_empty, lookup, retain, any, count_if, update_first,
  if◌then◌else◌, take, trim,
}
use haive_control.Vpn.Defs.{
  Pass, Vpn, live, epoch, version, passes_changed, save, allocate, mark_dirty, flag,
}
use haive_control.Vpn.Ops.Enable.{same_owner, Pushed, is_ok, Reply, answer, give_up, Started}

-- MAX_LIVE_PER_DEVICE and TTL_CHOICES_H.
abbrev pub max_live_per_device : ℕ
max_live_per_device = 20

abbrev pub ttl_choices_h : List ℕ
ttl_choices_h = 1 ∷ 8 ∷ 24 ∷ 72 ∷ 168 ∷ []

-- `char::is_control`: the Unicode category Cc.
unfoldable pub is_control : ℕ → Bool
is_control ch = ltb ch 32 || (leb 127 ch && ltb ch 160)

unfoldable pub pass_name : Text → Text
unfolding is_control
pass_name name =
    let n = take 40 (retain (λ ch. not (is_control ch)) (trim name)) in
    if is_empty n then text "device" else n

-- What the request to `issue_ep` carries, and the random values drawn for it.
pub record Request : Type 0 where
  pub device : Text
  pub name : Text
  pub hours : ℕ
  pub public_key : Text
  pub user : Text
  pub id : Text
  pub preshared_key : Text

abbrev pub same_live : Text → ℕ → Pass → Bool
same_live device t p = p.device == device && live p t

unfoldable pub new_pass : Request → Text → ℕ → Pass
unfolding pass_name
new_pass q address t = record {
  id = q.id;
  device = q.device;
  name = pass_name q.name;
  owner = q.user;
  public_key = q.public_key;
  preshared_key = q.preshared_key;
  address = address;
  created_at = t;
  expires_at = t + q.hours * 3600;
  revoked_at = none;
}

unfoldable pub add_pass : Vpn → Pass → Vpn
unfolding passes_changed save
add_pass v p = save (record v {
  store = passes_changed p.device (record (v.store) { passes = v.passes ++ (p ∷ []) });
})

-- The first half of `issue_ep`, with its key read and written again (`q.public_key`): an error's
-- status code, or the pass with what its push carries.
pub data Issued : Type 0 where
  denied : ℕ → Issued
  issued : Vpn → Pass → Started → Issued

unfoldable pub issue_begin : Vpn → Request → Option Text → ℕ → Issued
unfolding new_pass version
issue_begin v q owner t =
    if not (any (λ h. h == q.hours) ttl_choices_h)
    then denied 400
    else elim (lookup q.device v.devices) [
      | none ↦ denied 409
      | some cfg ↦
          if any (λ p. same_live q.device t p && p.public_key == q.public_key) v.passes
          then denied 409
          else if leb max_live_per_device (count_if (same_live q.device t) v.passes)
          then denied 429
          else elim (allocate v.passes q.device t) [
            | none ↦ denied 503
            | some address ↦
                let p = new_pass q address t in
                let v' = add_pass v p in
                issued v' p (record {
                  cfg = cfg;
                  passes = v'.passes;
                  epoch = epoch v'.store q.device;
                  version = version v'.store q.device;
                  owner = owner;
                })
          ]
    ]

abbrev pub is_unrevoked : Text → Pass → Bool
is_unrevoked id p = p.id == id && not (is_some p.revoked_at)

unfoldable pub stamp : ℕ → Pass → Pass
stamp t p = record p { revoked_at = some t }

unfoldable pub withdraw : Vpn → Text → ℕ → Vpn
unfolding stamp save
withdraw v id t = save (record v {
  store = record (v.store) { passes = update_first (is_unrevoked id) (stamp t) v.passes };
})

-- The second half of `issue_ep`.
unfoldable pub issue_finish : Vpn → Pass → Started → Pushed → Option Text → ℕ → Reply
unfolding is_ok answer give_up same_owner flag
issue_finish v p b pushed owner_now t =
    if not (epoch v.store p.device == b.epoch) || not (same_owner owner_now b.owner)
    then (if is_ok pushed
        then give_up (withdraw v p.id t) p.device
        else answer (withdraw v p.id t) 409)
    else if not (is_ok pushed) || not (version v.store p.device == b.version)
    then answer (mark_dirty v p.device) 201
    else answer v 201
