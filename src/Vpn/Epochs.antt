-- ===== src/Vpn/Epochs.antt =====
-- crates/hub/src/vpn.rs: the epoch of a device, and what an enable does when a shutdown came in
-- during its push (`enable_ep`, `switch_off`, `take_back`).
use haive_control.Prelude.{
  if-case, ℕ, ◌+◌, ◌≤◌, ◌<◌, ◌≡◌, refl, inl, inr, Bool, true, not, Option, none, some, List, [],
  ◌∷◌, Text, arith, lookup, lookup-insert, ◌==◌, nat_eq, list_eq, ==_iff, Option-cases, is_some,
  if◌then◌else◌, Map, map, retain, is_empty,
}
use haive_control.VpnRelay.Frames.{Crypto}
use haive_control.Vpn.Defs.{
  Pass, DevCfg, Vpn, Store, epoch, switch_off, passes_changed, epoch_changed, save, flag, set_dirty,
  take_back, mark_dirty, keep,
}
use haive_control.Vpn.Ops.{
  Pushed, Reply, enable_begin, enable_finish, reported_key, same_owner, give_up, answer,
  all_changed, purge, withdraw, add_pass,
}
use haive_control.Vpn.Calls.{
  Call, switches_off, revokes, ends_revoke, ends_enable, issues, ends_issue, purges, ends_sweep,
  step, run,
}
use haive_control.Vpn.Cases.{
  enabled, enable_finish-case, issue_finish-case, issue_begin-case, revoke-case, revoke_finish-case,
  sweep_finish-case, take_back-case,
}

-- The device's epoch is at `n` or past it.
abbrev IsPast : Text → ℕ → Vpn → Type 0
IsPast d n v = n ≤ epoch v.store d

epoch_changed_lem :
    (s : Store) (e d : Text)
    → epoch (epoch_changed e s) d ≡ (if e == d then epoch s d + 1 else epoch s d)
unfolding epoch epoch_changed
epoch_changed_lem s e d = ground (arith, lookup-insert e d (epoch s e + 1) s.epochs, ==_iff e d)

switch_off-epoch :
    (v : Vpn) (e d : Text) (drops : Bool) (t : ℕ)
    → epoch (switch_off v e drops t).0.store d
      ≡ (if e == d then epoch v.store d + 1 else epoch v.store d)
unfolding switch_off passes_changed epoch save
switch_off-epoch v e d drops t =
    if-case
      (λ (x : Vpn). epoch x.store d ≡ (if e == d then epoch v.store d + 1 else epoch v.store d)) _ _
      _ (λ _. epoch_changed_lem v.store e d) (λ _. epoch_changed_lem v.store e d)

all_changed-epochs : (ds : List Text) (s : Store) → (all_changed ds s).epochs ≡ s.epochs
unfolding all_changed passes_changed
all_changed-epochs [] s = refl
all_changed-epochs (d ∷ ds) s = all_changed-epochs ds (passes_changed d s)

module _ (d : Text) (n : ℕ) where
  take_back-IsPast : (v : Vpn) (e : Text) → IsPast d n v → IsPast d n (take_back v e).0
  unfolding save flag epoch
  take_back-IsPast v e h = take_back-case (IsPast d n) v e h h

  purge-IsPast : (v : Vpn) (t : ℕ) → IsPast d n v → IsPast d n (purge v t)
  unfolding purge save epoch
  purge-IsPast v t h =
      let ds = map (λ (p : Pass). p.device) (retain (λ p. not (keep t p)) v.passes) in
      let s : Store = record (v.store) { passes = retain (keep t) v.passes } in
      let same : IsPast d n (record v { store = all_changed ds s }) =
        rw (all_changed-epochs ds s) h in
      if-case (IsPast d n) (not (is_empty ds)) _ _ (λ _. same) (λ _. same)

  module _ (dk : Text → Option (List ℕ)) (c : Crypto) where
    step-IsPast : (v : Vpn) (x : Call) → IsPast d n v → IsPast d n (step dk c v x)
    unfolding step save mark_dirty add_pass passes_changed flag give_up answer enabled withdraw
        epoch
    step-IsPast v (switches_off e drops t) h = ground (arith, switch_off-epoch v e d drops t)
    step-IsPast v (revokes e id t) h = revoke-case (IsPast d n) v e id t h h
    step-IsPast v (ends_revoke e r synced) h = revoke_finish-case (IsPast d n) v e r synced h h
    step-IsPast v (ends_enable e b pushed owner) h =
        enable_finish-case dk c (λ r. IsPast d n r.after) v e b pushed owner h
          (take_back-IsPast v e h) (λ _. h) (λ _ _ _ _. h)
    step-IsPast v (issues q owner t) h = issue_begin-case (IsPast d n) v q owner t h (λ _ _ _ _. h)
    step-IsPast v (ends_issue p b pushed owner t) h =
        issue_finish-case (λ r. IsPast d n r.after) v p b pushed owner t
          (λ _. take_back-IsPast (withdraw v p.id t) p.device h) (λ _. h) (λ _. h) (λ _. h)
    step-IsPast v (purges t) h = purge-IsPast v t h
    step-IsPast v (ends_sweep e b pushed) h =
        sweep_finish-case (IsPast d n) v e b pushed h (take_back-IsPast v e h) (λ _ _ _. h)

    run-IsPast : (v : Vpn) (xs : List Call) → IsPast d n v → IsPast d n (run dk c v xs)
    unfolding run
    run-IsPast v [] h = h
    run-IsPast v (x ∷ xs) h = run-IsPast (step dk c v x) xs (step-IsPast v x h)

module _ (dk : Text → Option (List ℕ)) (c : Crypto) where
  -- The device's epoch is past where it was before the shutdown.
  pub shut-epoch_lt :
      (v : Vpn) (d : Text) (xs ys : List Call) (drops : Bool) (t : ℕ)
      → epoch v.store d < epoch (run dk c (switch_off (run dk c v xs) d drops t).0 ys).store d
  shut-epoch_lt v d xs ys drops t =
      let before = run-IsPast d (epoch v.store d) dk c v xs (omega arith) in
      let behind =
        run-IsPast d (epoch v.store d + 1) dk c (switch_off (run dk c v xs) d drops t).0 ys
          (ground (arith, before, switch_off-epoch (run dk c v xs) d d drops t, ==_iff d d)) in
      omega (arith, behind)

abbrev set_to_retry : Option DevCfg → Option DevCfg
set_to_retry none = none
set_to_retry (some cfg) = some (record cfg { dirty = true })

-- Answered 409, with passes and routing as they are, no device added or removed, at most the
-- device's flag set, and the device told to disable if its exit is off.
abbrev pub IsAbandoned : Text → Vpn → Reply → Type 0
IsAbandoned d v r =
    (r.code ≡ 409)
    × (r.after.passes ≡ v.passes)
    × (r.after.relay ≡ v.relay)
    × (lookup d r.after.devices ≡ set_to_retry (lookup d v.devices))
    × (r.told_off ≡ not (is_some (lookup d v.devices)))

pub set_dirty-lookup :
    (d : Text) (m : Map Text DevCfg) (cfg : DevCfg)
    → lookup d m ≡ some cfg
    → lookup d (set_dirty true d m) ≡ some (record cfg { dirty = true })
unfolding set_dirty
set_dirty-lookup d m cfg e = rw (e, set_dirty) (rw (lookup-insert, (==_iff d d).1 refl) refl)

give_up-IsAbandoned : (v : Vpn) (d : Text) → IsAbandoned d v (give_up v d)
unfolding give_up take_back save flag
give_up-IsAbandoned v d = elim (Option-cases (lookup d v.devices)) [
  | inl e ↦ rw e (refl, refl, refl, e, refl)
  | inr (cfg, e) ↦ rw e (refl, refl, refl, set_dirty-lookup d v.devices cfg e, refl)
]

-- An enable that a shutdown of its device overtook, whatever calls came before and behind it, and
-- that then hears a good key, is abandoned.
pub enable_overtaken :
    (dk : Text → Option (List ℕ)) (c : Crypto) (v : Vpn) (d key secret user : Text)
    (owner owner_now : Option Text) (t t' : ℕ) (xs ys : List Call) (drops : Bool) (pushed : Pushed)
    → reported_key dk c pushed ≡ some key
    → IsAbandoned d (run dk c (switch_off (run dk c v xs) d drops t').0 ys) (
        enable_finish dk c
          (run dk c (switch_off (run dk c v xs) d drops t').0 ys)
          d
          (enable_begin v d owner secret user t)
          pushed
          owner_now)
unfolding enable_finish enable_begin
enable_overtaken dk c v d key secret user owner owner_now t t' xs ys drops pushed h =
    let v' = run dk c (switch_off (run dk c v xs) d drops t').0 ys in
    let lost = give_up-IsAbandoned v' d in
    let later = shut-epoch_lt dk c v d xs ys drops t' in
    rw (h, enable_finish)
      (if-case (IsAbandoned d v') (not (same_owner owner_now owner)) _ _ (λ _. lost)
        (λ _.
          if-case (IsAbandoned d v') (not (epoch v'.store d == epoch v.store d)) _ _ (λ _. lost)
            (λ e.
              let same : epoch v'.store d ≡ epoch v.store d = ground arith in
              absurd (omega arith))))
