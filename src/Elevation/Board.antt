-- ===== src/Elevation/Board.antt =====
-- crates/hub/src/elevation.rs: requests for temporary admin and the grants (`submit`, `peek`,
-- `decide`, `add_grant`, `due`, `remove_grant`). The time is an argument.
use haive_control.Prelude.{
  ℕ, ◌+◌, ◌-◌, ◌*◌, Bool, true, not, ◌&&◌, Option, none, some, List, [], ◌∷◌, ◌++◌, Text, text,
  length, take, drop, retain, find, update_first, leb, ltb, ◌==◌, nat_eq, list_eq, if◌then◌else◌,
}

pub record Ask : Type 0 where
  pub id : ℕ
  pub owner : Text
  pub device_key : Text
  pub target : Text
  pub device : Text
  pub user : Text
  pub minutes : ℕ
  pub reason : Text
  pub ts : ℕ
  pub status : Text

pub record Grant : Type 0 where
  pub owner : Text
  pub device_key : Text
  pub target : Text
  pub device : Text
  pub user : Text
  pub granted_at : ℕ
  pub revoke_at : ℕ

-- The requests, the next id, the grants, and the file of the grants.
pub record Board : Type 0 where
  pub requests : List Ask
  pub next_id : ℕ
  pub grants : List Grant
  pub disk_grants : List Grant

unfoldable pub save : Board → Board
save b = record b { disk_grants = b.grants }

abbrev pub is_pending : Ask → Bool
is_pending x = x.status == text "pending"

abbrev pub asks_again : Text → Text → Ask → Bool
asks_again device_key user x = is_pending x && x.device_key == device_key && x.user == user

unfoldable pub newest : ℕ → List Ask → List Ask
newest n r = if ltb n (length r) then drop (length r - n) r else r

unfoldable pub new_ask : ℕ → Text → Text → Text → Text → Text → ℕ → Text → ℕ → Ask
new_ask id owner device_key target device user minutes reason now = record {
  id = id;
  owner = owner;
  device_key = device_key;
  target = target;
  device = device;
  user = user;
  minutes = minutes;
  reason = take 300 reason;
  ts = now;
  status = text "pending";
}

unfoldable pub submit : Board → Text → Text → Text → Text → Text → ℕ → Text → ℕ → Board × Ask
unfolding newest new_ask
submit b owner device_key target device user minutes reason now =
    let req = new_ask b.next_id owner device_key target device user minutes reason now in
    let r = retain (λ x. not (asks_again device_key user x)) b.requests ++ (req ∷ []) in
    (record b { requests = newest 200 r; next_id = b.next_id + 1 }, req)

-- `owner.map(|o| o == x.owner).unwrap_or(true)`.
unfoldable pub in_scope : Option Text → Text → Bool
in_scope none owner = true
in_scope (some o) owner = o == owner

unfoldable pub pending_for : Board → Option Text → List Ask
unfolding in_scope
pending_for b owner = retain (λ x. is_pending x && in_scope owner x.owner) b.requests

abbrev pub decidable : ℕ → Option Text → Ask → Bool
decidable id owner x = x.id == id && is_pending x && in_scope owner x.owner

unfoldable pub peek : Board → ℕ → Option Text → Option Ask
peek b id owner = find (decidable id owner) b.requests

abbrev pub set_status : Text → Ask → Ask
set_status status x = record x { status = status }

unfoldable pub decide : Board → ℕ → Option Text → Text → Board × Option Ask
decide b id owner status = elim (find (decidable id owner) b.requests) [
  | none ↦ (b, none)
  | some x ↦ (
    record b { requests = update_first (decidable id owner) (set_status status) b.requests },
    some (set_status status x),
  )
]

abbrev pub is_grant : Text → Text → Grant → Bool
is_grant device_key user g = g.device_key == device_key && g.user == user

unfoldable pub add_grant : Board → Text → Text → Text → Text → Text → ℕ → ℕ → Board
unfolding save
add_grant b owner device_key target device user minutes now =
    let g : Grant = record {
      owner = owner;
      device_key = device_key;
      target = target;
      device = device;
      user = user;
      granted_at = now;
      revoke_at = now + minutes * 60;
    } in
    save (record b { grants = retain (λ x. not (is_grant device_key user x)) b.grants ++ (g ∷ []) })

unfoldable pub due : Board → ℕ → List Grant
due b now = retain (λ (g : Grant). leb g.revoke_at now) b.grants

unfoldable pub active_for : Board → Option Text → List Grant
unfolding in_scope
active_for b owner = retain (λ (g : Grant). in_scope owner g.owner) b.grants

unfoldable pub remove_grant : Board → Text → Text → Board
unfolding save
remove_grant b device_key user =
    save (record b { grants = retain (λ x. not (is_grant device_key user x)) b.grants })
