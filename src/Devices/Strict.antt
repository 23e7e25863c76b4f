-- ===== src/Devices/Strict.antt =====
-- crates/hub/src/main.rs: what `set_owner_ep` may change (`may_control`, `set_owner`).
use haive_control.Prelude.{
  if-case, ℕ, ◌≡◌, refl, sym, ◌∙◌, inl, inr, ◌⊎◌, true, false, not, Option, some, [], ◌++◌, Text,
  text, arith, is_empty, is_the, or_else, unwrap_or, Map, lookup, modify, lookup-modify,
  strip_prefix, Bool-cases, Option-cases, ◌==◌, ==_iff, nat_eq, list_eq,
}
use haive_control.Devices.Rows.{Agent, Agents, device_key, owner_at, device_name, may_control}
use haive_control.Devices.Owners.{Outside, Answer, canon_owner}
use haive_control.Devices.Fleet.{
  Fleet, By, shut_down_vpn_exit, take_exit, with_owner, assign, save_state, set_owner, set_owner_ep,
}

shut_down-agents :
    (f : Fleet) (id device : Text) (by : By) (why : Text)
    → (shut_down_vpn_exit f id device by why).agents ≡ f.agents
unfolding shut_down_vpn_exit
shut_down-agents f id device by why =
    if-case (λ (x : Fleet). x.agents ≡ f.agents) _ _ _ (λ _. refl) (λ _. refl)

take_exit-agents : (f : Fleet) (key : Text) (by : By) → (take_exit f key by).agents ≡ f.agents
unfolding take_exit
take_exit-agents f key by = elim (Option-cases (strip_prefix (text "relay:") key)) [
  | inl e ↦ rw (e, take_exit) refl
  | inr (id, e) ↦
      rw (e, take_exit)
        (shut_down-agents f id (device_name f.agents (text "relay://" ++ id)) by
          (text "device owner changed"))
]

set_owner-agents :
    (f : Fleet) (key owner : Text) (by : By)
    → (set_owner f key owner by).agents ≡ modify key (with_owner owner) f.agents
unfolding set_owner assign save_state
set_owner-agents f key owner by =
    if-case (λ (x : Fleet). x.agents ≡ modify key (with_owner owner) f.agents)
      (is_the owner (or_else (lookup key f.overrides) (owner_at f.agents key))) (assign f key owner)
      (take_exit (assign f key owner) key by) (λ _. refl)
      (λ _. take_exit-agents (assign f key owner) key by)

pub with_owner-owner : (c : Text) (a : Agent) → is_empty c ≡ false → (with_owner c a).owner ≡ some c
unfolding with_owner
with_owner-owner c a full = rw full refl

-- The row still has an owner: its old one, or it is the target of a caller who may control it.
abbrev pub IsOwned : Option Text → Agents → Text → Text → Text → Agents → Type 0
IsOwned user before target k x after =
    (b : Agent) × (y : Text) × (lookup k after ≡ some b)
    × (b.owner ≡ some y)
    × ((y ≡ x) ⊎ ((k ≡ device_key target) × (may_control user before target ≡ true)))

-- Whatever a caller asks of `set_owner_ep`, a device that has an owner still has one, and another one
-- only if it is the very device that is asked for and the caller may control it; here the owner's name
-- that is asked for does not come out empty.
pub set_owner_ep-IsOwned :
    (o : Outside) (tokens : Map Text Text) (f : Fleet) (user : Option Text) (target : Text)
    (owner : Option Text) (source : Text) (now : ℕ) (k x : Text) (a : Agent)
    → ((w : Text) → owner ≡ some w → is_empty (canon_owner o tokens w) ≡ false)
    → lookup k f.agents ≡ some a
    → a.owner ≡ some x
    → IsOwned user f.agents target k x
        (set_owner_ep o tokens f user target owner source now).0.agents
unfolding set_owner_ep
set_owner_ep-IsOwned o tokens f user target owner source now k x a named here e =
    let P = λ (r : Fleet × Answer). (IsOwned user f.agents target k x r.0.agents) in
    let by : By = record { actor = unwrap_or [] user; source = source; now = now } in
    let same : IsOwned user f.agents target k x f.agents = (a, x, here, e, inl refl) in
    if-case P (is_empty target) _ _ (λ _. same)
      (λ _.
        if-case P (not (may_control user f.agents target)) _ _ (λ _. same)
          (λ may. elim (Option-cases owner) [
            | inl n ↦ rw n (
                if-case P (is_empty (unwrap_or [] user)) _ _ (λ _. same)
                  (λ full. moved by (unwrap_or [] user) full (ground arith)))
            | inr (w, n) ↦ rw n (
                if-case P (is_empty w) _ _ (λ _. same)
                  (λ _. moved by (canon_owner o tokens w) (named w n) (ground arith)))
          ]))
  where
    moved :
        (by : By) (c : Text)
        → is_empty c ≡ false
        → may_control user f.agents target ≡ true
        → IsOwned user f.agents target k x (set_owner f (device_key target) c by).agents
    moved by c full may = rw set_owner-agents (elim (Bool-cases (device_key target == k)) [
      | inl t ↦ (
        with_owner c a,
        c,
        lookup-modify (device_key target) k (with_owner c) a f.agents here ∙ rw t refl,
        with_owner-owner c a full,
        inr (sym ((==_iff (device_key target) k).0 t), may),
      )
      | inr n ↦ (
        a,
        x,
        lookup-modify (device_key target) k (with_owner c) a f.agents here ∙ rw n refl,
        e,
        inl refl,
      )
    ])
