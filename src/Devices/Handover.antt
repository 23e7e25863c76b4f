-- ===== src/Devices/Handover.antt =====
-- crates/hub/src/main.rs and vpn.rs: a device that gets another owner, or is removed (`set_owner`,
-- `forget_device`, `vpn::shut_down`).
use haive_control.Prelude.{
  if-case, ℕ, ◌≡◌, refl, sym, ap, subst, ◌∙◌, inl, inr, Bool, true, false, not, none, some, ◌++◌,
  Text, text, arith, is_empty, is_the, or_else, All, retain, retain-All, lookup, insert, remove,
  modify, lookup-modify, lookup-insert, lookup-remove, strip_prefix-append, Option-cases, ◌==◌,
  ==_refl, nat_eq, list_eq, if◌then◌else◌, any, false-any, In-retain, List,
}
use haive_control.Vpn.Defs.{
  Vpn, Pass, switch_off, drop_passes_of, epoch_changed, passes_changed, save,
}
use haive_control.Enroll.Secrets
use haive_control.Enroll.Secrets.{Secrets}
use haive_control.Devices.Rows.{Agent, relay_target, device_key, owner_at, device_name}
use haive_control.Devices.Fleet.{
  Fleet, By, shut_down_vpn_exit, take_exit, with_owner, assign, save_state, set_owner,
  clear_pending_dissolve, is_dissolve_pending, forget_inventory, forget_device,
}

-- The exit of the device is off, and no pass of it is left.
abbrev pub HasNoExit : Text → Vpn → Type 0
HasNoExit id v =
    (lookup id v.devices ≡ none) × All (λ (p : Pass). not (p.device == id) ≡ true) v.passes

switch_off-HasNoExit : (v : Vpn) (id : Text) (t : ℕ) → HasNoExit id (switch_off v id true t).0
unfolding switch_off drop_passes_of epoch_changed passes_changed save
switch_off-HasNoExit v id t =
    let gone : lookup id (remove id v.devices) ≡ none = rw lookup-remove (rw (==_refl id) refl) in
    let none_left = retain-All (λ (p : Pass). not (p.device == id)) v.passes in
    if-case (HasNoExit id) _ _ _ (λ _. (gone, none_left)) (λ _. (gone, none_left))

shut_down-HasNoExit :
    (f : Fleet) (id device : Text) (by : By) (why : Text)
    → HasNoExit id (shut_down_vpn_exit f id device by why).vpn
unfolding shut_down_vpn_exit
shut_down-HasNoExit f id device by why =
    if-case (λ (x : Fleet). HasNoExit id x.vpn) _ _ _ (λ _. switch_off-HasNoExit f.vpn id by.now)
      (λ _. switch_off-HasNoExit f.vpn id by.now)

-- What a shutdown leaves as it was.
abbrev IsUntouched : Fleet → Fleet → Type 0
IsUntouched f g =
    (g.agents ≡ f.agents)
    × (g.overrides ≡ f.overrides)
    × (g.disk_overrides ≡ f.disk_overrides)
    × (g.disk_agents ≡ f.disk_agents)
    × (g.analysis ≡ f.analysis)
    × (g.secrets ≡ f.secrets)
    × (g.pending ≡ f.pending)
    × (g.disk_analysis ≡ f.disk_analysis)

shut_down-IsUntouched :
    (f : Fleet) (id device : Text) (by : By) (why : Text)
    → IsUntouched f (shut_down_vpn_exit f id device by why)
unfolding shut_down_vpn_exit
shut_down-IsUntouched f id device by why =
    if-case (IsUntouched f) _ _ _ (λ _. (refl, refl, refl, refl, refl, refl, refl, refl))
      (λ _. (refl, refl, refl, refl, refl, refl, refl, refl))

take_exit-relay :
    (f : Fleet) (id : Text) (by : By)
    → take_exit f (text "relay:" ++ id) by
      ≡ shut_down_vpn_exit f id
          (device_name f.agents (text "relay://" ++ id))
          by
          (text "device owner changed")
unfolding take_exit
take_exit-relay f id by = rw (strip_prefix-append (text "relay:") id, take_exit) refl

-- What a device's new owner is noted in.
abbrev pub IsOwnersNow : Text → Text → Fleet → Type 0
IsOwnersNow key owner f =
    (owner_at f.agents key ≡ some owner)
    × (lookup key f.overrides ≡ some owner)
    × (lookup key f.disk_overrides ≡ some owner)
    × (owner_at f.disk_agents key ≡ some owner)

assign-IsOwnersNow :
    (f : Fleet) (key owner : Text) (a : Agent)
    → lookup key f.agents ≡ some a
    → is_empty owner ≡ false
    → IsOwnersNow key owner (assign f key owner)
unfolding assign save_state with_owner owner_at
assign-IsOwnersNow f key owner a here full =
    let row : owner_at (modify key (with_owner owner) f.agents) key ≡ some owner =
      rw (lookup-modify key key (with_owner owner) a f.agents here, owner_at)
        (rw (==_refl key) (rw full refl)) in
    let m = if is_empty owner then remove key f.overrides else insert key owner f.overrides in
    let noted : lookup key m ≡ some owner = rw full (rw lookup-insert (rw (==_refl key) refl)) in
    (row, noted, noted, row)

-- A relay device that is given to another owner by `set_owner` is that owner's from then on, in its
-- row, in the override that its next check-ins go by, and on disk, and the exit that it may have been
-- is off, with none of its passes left.
pub set_owner-handover :
    (f : Fleet) (id owner : Text) (by : By) (a : Agent)
    → lookup (text "relay:" ++ id) f.agents ≡ some a
    → is_empty owner ≡ false
    → is_the owner (
        or_else
          (lookup (text "relay:" ++ id) f.overrides)
          (owner_at f.agents (text "relay:" ++ id)))
      ≡ false
    → let f' = set_owner f (text "relay:" ++ id) owner by in
      IsOwnersNow (text "relay:" ++ id) owner f' × HasNoExit id f'.vpn
unfolding set_owner
set_owner-handover f id owner by a here full changed =
    let key = text "relay:" ++ id in
    let g = assign f key owner in
    let name = device_name g.agents (text "relay://" ++ id) in
    let why = text "device owner changed" in
    let (e1, e2, e3, e4, _, _, _, _) = shut_down-IsUntouched g id name by why in
    let (row, noted, saved, row') = assign-IsOwnersNow f key owner a here full in
    let done : IsOwnersNow key owner (take_exit g key by) × HasNoExit id (take_exit g key by).vpn =
      rw (take_exit-relay g id by) (
        (
          ap (λ x. owner_at x key) e1 ∙ row,
          ap (λ x. lookup key x) e2 ∙ noted,
          ap (λ x. lookup key x) e3 ∙ saved,
          ap (λ x. owner_at x key) e4 ∙ row',
        ),
        shut_down-HasNoExit g id name by why,
      ) in
    rw changed done

-- Nothing is left of the device with this key and relay id.
abbrev pub IsForgotten : Text → Text → Fleet → Type 0
IsForgotten key id f =
    (lookup key f.agents ≡ none)
    × (lookup key f.disk_agents ≡ none)
    × (lookup key f.analysis ≡ none)
    × (lookup key f.disk_analysis ≡ none)
    × (lookup id f.secrets ≡ none)
    × (any (λ k. k == key) f.pending ≡ false)

any-retain_other :
    (key : Text) (ks : List Text) → any (λ k. k == key) (retain (λ k. not (k == key)) ks) ≡ false
any-retain_other key ks =
    false-any (λ k. k == key) (retain (λ k. not (k == key)) ks)
      (λ k i. let (_, n) = In-retain (λ k. not (k == key)) ks k i in ground arith)

removed : (s : Secrets) (id : Text) → lookup id (Secrets.remove s id).0 ≡ none
unfolding Secrets.remove
removed s id = elim (Option-cases (lookup id s)) [
  | inl e ↦ rw (e, Secrets.remove) e
  | inr (x, e) ↦ rw (e, Secrets.remove) (rw lookup-remove (rw (==_refl id) refl))
]

forget_inventory-IsForgotten :
    (f : Fleet) (target id : Text)
    → let g = forget_inventory f target in
      IsForgotten (device_key target) id (record g { secrets = (Secrets.remove g.secrets id).0 })
unfolding forget_inventory save_state clear_pending_dissolve is_dissolve_pending
forget_inventory-IsForgotten f target id =
    let key = device_key target in
    let row : lookup key (remove key f.agents) ≡ none = rw lookup-remove (rw (==_refl key) refl) in
    let seen : lookup key (remove key f.analysis) ≡ none =
      rw lookup-remove (rw (==_refl key) refl) in
    let P = λ (x : Fleet × Bool).
      ((lookup key x.0.agents ≡ none)
        × (lookup key x.0.analysis ≡ none)
        × (any (λ k. k == key) x.0.pending ≡ false)) in
    let cleared =
      if-case P (any (λ k. k == key) f.pending)
        (
          record f {
            agents = remove key f.agents;
            analysis = remove key f.analysis;
            pending = retain (λ k. not (k == key)) f.pending;
            disk_pending = retain (λ k. not (k == key)) f.pending;
          },
          true,
        )
        (record f { agents = remove key f.agents; analysis = remove key f.analysis }, false)
        (λ _. (row, seen, any-retain_other key f.pending)) (λ n. (row, seen, n)) in
    (
      cleared.0,
      cleared.0,
      cleared.1,
      cleared.1,
      removed (forget_inventory f target).secrets id,
      cleared.2,
    )

-- Removing a relay device for good leaves no row and no analysis, in memory or on disk, no secret and
-- no queued dissolve of it; its exit is off, with none of its passes left.
pub forget_device-IsForgotten :
    (f : Fleet) (target id : Text) (by : By) (why : Text)
    → relay_target target ≡ some id
    → is_empty id ≡ false
    → let f' = forget_device f target by why in
      IsForgotten (device_key target) id f' × HasNoExit id f'.vpn
unfolding forget_device forget_inventory save_state clear_pending_dissolve is_dissolve_pending
forget_device-IsForgotten f target id by why e full =
    let key = device_key target in
    let gone = forget_inventory f target in
    let g = record gone { secrets = (Secrets.remove gone.secrets id).0 } in
    let name = device_name f.agents target in
    let (e1, _, _, e4, e5, e6, e7, e8) = shut_down-IsUntouched g id name by why in
    let (row, saved, seen, seen', secret, quiet) = forget_inventory-IsForgotten f target id in
    let forgotten : IsForgotten key id (shut_down_vpn_exit g id name by why) = (
      ap (λ x. lookup key x) e1 ∙ row,
      ap (λ x. lookup key x) e4 ∙ saved,
      ap (λ x. lookup key x) e5 ∙ seen,
      ap (λ x. lookup key x) e8 ∙ seen',
      ap (λ x. lookup id x) e6 ∙ secret,
      ap (λ x. any (λ k. k == key) x) e7 ∙ quiet,
    ) in
    let f'' = shut_down_vpn_exit g id name by why in
    let done : IsForgotten key id f'' × HasNoExit id f''.vpn =
      (forgotten, shut_down-HasNoExit g id name by why) in
    let is : forget_device f target by why ≡ f'' = rw (e, forget_device) (rw full refl) in
    subst (λ x. IsForgotten key id x × HasNoExit id x.vpn) (sym is) done
