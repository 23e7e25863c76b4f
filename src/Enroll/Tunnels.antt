-- ===== src/Enroll/Tunnels.antt =====
-- crates/hub/src/relay.rs: the tunnels of the connected devices, without their threads. A waiting
-- `poll` is the one that finds its queue as it is when the wait ends; a waiting request's channel is
-- what was sent into it. `sha256` is a parameter.
use haive_control.Prelude.{
  ℕ, ◌+◌, ◌-◌, ◌%◌, ◌^◌, Bool, true, false, not, Option, none, some, List, [], ◌∷◌, ◌++◌, Text,
  length, is_empty, is_some, any, Map, lookup, insert, remove, retain, nat_eq, list_eq,
  if◌then◌else◌,
}
use haive_control.ConstantTime.{ct_eq}

pub data Msg : Type 0 where
  head : ℕ → Text → Msg
  chunk : List ℕ → Msg
  end : Msg

pub record Outgoing : Type 0 where
  pub id : ℕ
  pub method : Text
  pub path : Text
  pub content_type : Text
  pub body : Text

-- `pending` has what was sent to each request that still waits.
pub record Tunnel : Type 0 where
  pub queue : List Outgoing
  pub pending : Map ℕ (List Msg)
  pub next_id : ℕ
  pub auth : Text

abbrev pub Registry : Type 0
Registry = Map Text Tunnel

unfoldable pub auth_hash : (Text → Text) → Text → Text
auth_hash sha256 tok = if is_empty tok then [] else sha256 tok

unfoldable pub new_tunnel : Text → Tunnel
new_tunnel auth = record { queue = []; pending = []; next_id = 1; auth = auth }

-- The registry's part of `hello`.
unfoldable pub hello : Registry → Text → Text → Bool → Registry × Bool
unfolding new_tunnel
hello reg id auth rebinds = elim (lookup id reg) [
  | none ↦ (insert id (new_tunnel auth) reg, true)
  | some t ↦
      if ct_eq t.auth auth
      then (reg, true)
      else if not rebinds
      then (reg, false)
      else (insert id (record t { auth = auth }) reg, true)
]

unfoldable pub poll : Registry → Text → Text → Registry × Option Outgoing
poll reg id auth = elim (lookup id reg) [
  | none ↦ (reg, none)
  | some t ↦ if not (ct_eq t.auth auth) then (reg, none) else elim t.queue [
    | [] ↦ (reg, none)
    | o ∷ q ↦ (insert id (record t { queue = q }) reg, some o)
  ]
]

unfoldable pub chunks : List (List ℕ) → List Msg
chunks [] = end ∷ []
chunks (c ∷ cs) = chunk c ∷ chunks cs

-- A reply whose body is read to its end, in the pieces given, while the request still listens; the
-- request that it answers is done then.
unfoldable pub reply_stream :
    Registry → Text → Text → ℕ → ℕ → Text → List (List ℕ) → Registry × Option (List Msg)
unfolding chunks
reply_stream reg id auth req_id status ctype body = elim (lookup id reg) [
  | none ↦ (reg, none)
  | some t ↦ if not (ct_eq t.auth auth) then (reg, none) else elim (lookup req_id t.pending) [
    | none ↦ (reg, none)
    | some sent ↦ (
      insert id (record t { pending = remove req_id t.pending }) reg,
      some (sent ++ (head status ctype ∷ chunks body)),
    )
  ]
]

unfoldable pub rebind : Registry → Text → Text → Registry × Bool
rebind reg id auth = elim (lookup id reg) [
  | none ↦ (reg, false)
  | some t ↦ (insert id (record t { auth = auth }) reg, true)
]

unfoldable pub drop_tunnel : Registry → Text → Registry × Bool
drop_tunnel reg id = (remove id reg, is_some (lookup id reg))

unfoldable pub drop_tunnels_bound_to : Registry → List Text → Registry × ℕ
drop_tunnels_bound_to reg hashes =
    let kept = retain (λ e. not (any (λ h. ct_eq e.1.auth h) hashes)) reg in
    (kept, length reg - length kept)

unfoldable pub is_connected : Registry → Text → Bool
is_connected reg id = is_some (lookup id reg)

-- `request`, up to its wait, with the body in base64.
unfoldable pub request : Registry → Text → Text → Text → Text → Text → Registry × Option ℕ
request reg id method path content_type body = elim (lookup id reg) [
  | none ↦ (reg, none)
  | some t ↦
      let o : Outgoing = record {
        id = t.next_id;
        method = method;
        path = path;
        content_type = content_type;
        body = body;
      } in
      (
        insert id
            (record t {
              queue = t.queue ++ (o ∷ []);
              pending = insert t.next_id [] t.pending;
              next_id = (t.next_id + 1) % 2 ^ 32;
            })
            reg,
        some t.next_id,
      )
]
