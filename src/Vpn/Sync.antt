-- ===== src/Vpn/Sync.antt =====
-- crates/hub/src/vpn.rs: the version of a device's passes (`passes_changed`, `sweep`).
use haive_control.Prelude.{
  if-case, ℕ, ◌+◌, ◌-◌, ◌≤◌, ◌<◌, ◌≡◌, refl, sym, ap, ◌∙◌, inl, inr, ◌⊎◌, Bool, true, false, not,
  ◌||◌, Option, some, List, [], ◌∷◌, ◌++◌, Text, arith, ◌==◌, nat_eq, list_eq, ==_iff, Bool-cases,
  is_some, is_empty, any, update_first, length, if◌then◌else◌, map, retain, lookup, lookup-insert,
}
use haive_control.VpnRelay.Frames.{Crypto}
use haive_control.Vpn.Defs.{
  revoke, Pass, DevCfg, Vpn, Store, version, switch_off, drop_passes_of, unrevoked, passes_changed,
  epoch_changed, save, flag, set_dirty, take_back, mark_dirty, keep, revoke_one, set_revoked,
  is_pass, epoch,
}
use haive_control.Vpn.Ops.{
  Started, Pushed, same_owner, give_up, answer, all_changed, purge, add_pass, new_pass, sweep_begin,
  sweep_finish, issue_finish, issue_begin, Request,
}
use haive_control.Vpn.Calls.{
  store_issued, store_revoked, Call, switches_off, revokes, ends_revoke, ends_enable, issues,
  ends_issue, purges, ends_sweep, step, run,
}
use haive_control.Vpn.Epochs.{set_dirty-lookup}
use haive_control.Vpn.Cases.{
  enabled, enable_finish-case, issue_begin-case, issue_finish-case, revoke-case, revoke_finish-case,
  sweep_finish-case, take_back-case,
}

abbrev pub passes_on : Text → List Pass → List Pass
passes_on d ps = retain (λ p. p.device == d) ps

passes_changed_lem :
    (s : Store) (e d : Text)
    → version (passes_changed e s) d ≡ (if e == d then version s d + 1 else version s d)
unfolding version passes_changed
passes_changed_lem s e d =
    ground (arith, lookup-insert e d (version s e + 1) s.versions, ==_iff e d)

module _ (d e : Text) (n : (e == d) ≡ false) where
  drop-same : (ps : List Pass) → passes_on d (drop_passes_of e ps) ≡ passes_on d ps
  unfolding drop_passes_of
  drop-same [] = refl
  drop-same (p ∷ ps) =
      let x = ==_iff p.device d in
      let y = ==_iff p.device e in let z = ==_iff e d in ground (arith, drop-same ps, x, y, z)

  revoke-same : (t : ℕ) (ps : List Pass) → passes_on d (map (revoke_one e t) ps) ≡ passes_on d ps
  unfolding revoke_one
  revoke-same t [] = refl
  revoke-same t (p ∷ ps) =
      let x = ==_iff p.device d in
      let y = ==_iff p.device e in let z = ==_iff e d in ground (arith, revoke-same t ps, x, y, z)

  update-same :
      (id : Text) (t : ℕ) (ps : List Pass)
      → passes_on d (update_first (is_pass e id) (set_revoked t) ps) ≡ passes_on d ps
  unfolding set_revoked
  update-same id t [] = refl
  update-same id t (p ∷ ps) =
      let x = ==_iff p.device d in
      let y = ==_iff p.device e in
      let z = ==_iff e d in ground (arith, update-same id t ps, x, y, z)

add-same :
    (d : Text) (p : Pass)
    → (p.device == d) ≡ false
    → (ps : List Pass) → passes_on d (ps ++ (p ∷ [])) ≡ passes_on d ps
add-same d p n [] = ground arith
add-same d p n (q ∷ ps) = ground (arith, add-same d p n ps)

keep-same :
    (d : Text) (f : Pass → Bool) (ps : List Pass)
    → any (λ x. x == d) (map (λ (p : Pass). p.device) (retain (λ p. not (f p)) ps)) ≡ false
    → passes_on d (retain f ps) ≡ passes_on d ps
keep-same d f [] h = refl
keep-same d f (p ∷ ps) h = ground (arith, keep-same d f ps)

all_changed-version :
    (d : Text) (ds : List Text) (s : Store)
    → (version s d ≤ version (all_changed ds s) d)
      × ((version s d < version (all_changed ds s) d)
          ⊎ ((any (λ x. x == d) ds ≡ false) × (version (all_changed ds s) d ≡ version s d)))
unfolding all_changed
all_changed-version d [] s = (omega arith, inr (refl, refl))
all_changed-version d (e ∷ ds) s =
    let ih = all_changed-version d ds (passes_changed e s) in
    let k = passes_changed_lem s e d in
    elim (Bool-cases (e == d)) [
      | inl x ↦ (ground (arith, ih.0, k), inl (ground (arith, ih.0, k)))
      | inr x ↦ (
        ground (arith, ih.0, k),
        elim ih.1 [
          | inl y ↦ inl (ground (arith, k))
          | inr (y, z) ↦ inr (rw (x, y) refl, ground (arith, k))
        ],
      )
    ]

all_changed-passes : (ds : List Text) (s : Store) → (all_changed ds s).passes ≡ s.passes
unfolding all_changed passes_changed
all_changed-passes [] s = refl
all_changed-passes (d ∷ ds) s = all_changed-passes ds (passes_changed d s)

-- A pass is not withdrawn by the call.
abbrev pub IsQuiet : Vpn → Call → Type 0
IsQuiet v (switches_off e b t) = Unit
IsQuiet v (revokes e id t) = Unit
IsQuiet v (ends_revoke e r synced) = Unit
IsQuiet v (ends_enable e b pushed o) = Unit
IsQuiet v (issues q o t) = Unit
IsQuiet v (ends_issue p b pushed o t) =
    (epoch v.store p.device ≡ b.epoch) × (same_owner o b.owner ≡ true)
IsQuiet v (purges t) = Unit
IsQuiet v (ends_sweep e b pushed) = Unit

module _ (dk : Text → Option (List ℕ)) (c : Crypto) where
  abbrev pub AreQuiet : Vpn → List Call → Type 0
  AreQuiet v [] = Unit
  AreQuiet v (x ∷ xs) = IsQuiet v x × AreQuiet (step dk c v x) xs

module _ (d : Text) (n : ℕ) (ps : List Pass) where
  -- The device's version is past `n`, or is `n` and the device's passes are `ps`.
  abbrev IsSince : Vpn → Type 0
  IsSince v = (n < version v.store d) ⊎ ((n ≡ version v.store d) × (passes_on d v.passes ≡ ps))

  bumped :
      (e : Text) (v : Vpn) (later : ℕ) (qs : List Pass)
      → later ≡ (if e == d then version v.store d + 1 else version v.store d)
      → ((e == d) ≡ false → passes_on d qs ≡ passes_on d v.passes)
      → IsSince v
      → (n < later) ⊎ ((n ≡ later) × (passes_on d qs ≡ ps))
  bumped e v later qs h k (inl i) = inl (ground (arith, h))
  bumped e v later qs h k (inr i) = elim (Bool-cases (e == d)) [
    | inl x ↦ inl (ground (arith, h, i.0))
    | inr x ↦ inr (ground (arith, h, i.0), k x ∙ i.1)
  ]

  same :
      (v w : Vpn)
      → version w.store d ≡ version v.store d
      → w.passes ≡ v.passes
      → IsSince v
      → IsSince w
  same v w h k (inl i) = inl (ground (arith, h))
  same v w h k (inr i) = inr (i.0 ∙ sym h, ap (passes_on d) k ∙ i.1)

  switch_off-IsSince :
      (v : Vpn) (e : Text) (b : Bool) (t : ℕ) → IsSince v → IsSince (switch_off v e b t).0
  unfolding switch_off save epoch_changed
  switch_off-IsSince v e true t i =
      if-case IsSince
        (is_some (lookup e v.devices)
          || not (length v.passes - length (drop_passes_of e v.passes) == 0))
        _ _ (λ _. bumped e v _ _ (passes_changed_lem v.store e d) (λ x. drop-same d e x v.passes) i)
        (λ _. bumped e v _ _ (passes_changed_lem v.store e d) (λ x. drop-same d e x v.passes) i)
  switch_off-IsSince v e false t i =
      if-case IsSince (is_some (lookup e v.devices) || not (unrevoked e v.passes == 0)) _ _
        (λ _. bumped e v _ _ (passes_changed_lem v.store e d) (λ x. revoke-same d e x t v.passes) i)
        (λ _. bumped e v _ _ (passes_changed_lem v.store e d) (λ x. revoke-same d e x t v.passes) i)

  take_back-IsSince : (v : Vpn) (e : Text) → IsSince v → IsSince (take_back v e).0
  unfolding save flag version
  take_back-IsSince v e i = take_back-case IsSince v e i i

  purge-IsSince : (v : Vpn) (t : ℕ) → IsSince v → IsSince (purge v t)
  unfolding purge save
  purge-IsSince v t i =
      let ds = map (λ (p : Pass). p.device) (retain (λ p. not (keep t p)) v.passes) in
      let s : Store = record (v.store) { passes = retain (keep t) v.passes } in
      let w : IsSince (record v { store = all_changed ds s }) =
        elim (all_changed-version d ds s).1 [
          | inl later ↦
              inl (elim i [ inl j ↦ omega (arith, later, j) | inr j ↦ omega (arith, later, j.0) ])
          | inr (none_of, still) ↦ elim i [
            | inl j ↦ inl (omega (arith, still, j))
            | inr j ↦ inr (
              omega (arith, still, j.0),
              rw (all_changed-passes ds s) (keep-same d (keep t) v.passes none_of ∙ j.1),
            )
          ]
        ] in
      if-case IsSince (not (is_empty ds)) _ _ (λ _. w) (λ _. w)

  revoke-IsSince :
      (v : Vpn) (e id : Text) (t : ℕ) → IsSince v → IsSince (store_revoked v (revoke v e id t))
  unfolding save passes_changed
  revoke-IsSince v e id t i =
      revoke-case IsSince v e id t i
        (bumped e v _ _ (passes_changed_lem v.store e d) (λ x. update-same d e x id t v.passes) i)

  issue-IsSince :
      (v : Vpn) (q : Request) (o : Option Text) (t : ℕ)
      → IsSince v
      → IsSince (store_issued v (issue_begin v q o t))
  unfolding add_pass new_pass save
  issue-IsSince v q o t i = issue_begin-case IsSince v q o t i (λ a _ _ _.
      bumped q.device v _ _ (passes_changed_lem v.store q.device d)
        (λ x. add-same d (new_pass q a t) x v.passes) i)

  issue_finish-IsSince :
      (v : Vpn) (p : Pass) (b : Started) (pushed : Pushed) (o : Option Text) (t : ℕ)
      → epoch v.store p.device ≡ b.epoch
      → same_owner o b.owner ≡ true
      → IsSince v
      → IsSince (issue_finish v p b pushed o t).after
  unfolding answer mark_dirty flag save version
  issue_finish-IsSince v p b pushed o t h k i =
      issue_finish-case (λ r. IsSince r.after) v p b pushed o t
        (λ x. absurd (ground (arith, ==_iff (epoch v.store p.device) b.epoch)))
        (λ x. absurd (ground (arith, ==_iff (epoch v.store p.device) b.epoch))) (λ _. i) (λ _. i)

  module _ (dk : Text → Option (List ℕ)) (c : Crypto) where
    step-IsSince : (v : Vpn) (x : Call) → IsQuiet v x → IsSince v → IsSince (step dk c v x)
    unfolding step save mark_dirty flag give_up answer enabled version
    step-IsSince v (switches_off e b t) h i = switch_off-IsSince v e b t i
    step-IsSince v (revokes e id t) h i = revoke-IsSince v e id t i
    step-IsSince v (ends_revoke e r synced) h i = revoke_finish-case IsSince v e r synced i i
    step-IsSince v (ends_enable e b pushed o) h i =
        enable_finish-case dk c (λ r. IsSince r.after) v e b pushed o i (take_back-IsSince v e i)
          (λ _. i) (λ _ _ _ _. i)
    step-IsSince v (issues q o t) h i = issue-IsSince v q o t i
    step-IsSince v (ends_issue p b pushed o t) h i = issue_finish-IsSince v p b pushed o t h.0 h.1 i
    step-IsSince v (purges t) h i = purge-IsSince v t i
    step-IsSince v (ends_sweep e b pushed) h i =
        sweep_finish-case IsSince v e b pushed i (take_back-IsSince v e i) (λ _ _ _. i)

    run-IsSince :
        (v : Vpn) (xs : List Call) → AreQuiet dk c v xs → IsSince v → IsSince (run dk c v xs)
    unfolding run
    run-IsSince v [] h i = i
    run-IsSince v (x ∷ xs) h i = run-IsSince (step dk c v x) xs h.1 (step-IsSince v x h.0 i)

-- A sweep whose push clears the device's retry flag, whatever calls came during the push, none of
-- which withdrew a pass: the device's passes are still those that were pushed.
pub sweep_finish-synced :
    (dk : Text → Option (List ℕ)) (c : Crypto) (v : Vpn) (d : Text) (cfg was now : DevCfg)
    (owner : Option Text) (xs : List Call) (pushed : Pushed)
    → AreQuiet dk c v xs
    → lookup d (run dk c v xs).devices ≡ some was
    → was.dirty ≡ true
    → lookup d (sweep_finish (run dk c v xs) d (sweep_begin v d cfg owner) pushed).devices
      ≡ some now
    → now.dirty ≡ false
    → passes_on d (sweep_finish (run dk c v xs) d (sweep_begin v d cfg owner) pushed).passes
      ≡ passes_on d (sweep_begin v d cfg owner).passes
unfolding sweep_begin save flag
sweep_finish-synced dk c v d cfg was now owner xs pushed quiet h dirty k clean =
    let v' = run dk c v xs in
    let since =
      run-IsSince d (version v.store d) (passes_on d v.passes) dk c v xs quiet (inr (refl, refl)) in
    let P =
      λ (w : Vpn). (lookup d w.devices ≡ some now → passes_on d w.passes ≡ passes_on d v.passes) in
    let still : P v' = λ l. absurd (clash was now (lookup d v'.devices) h l dirty clean) in
    let marked : P (save (flag true d v')) = λ l. absurd (
      clash (record was { dirty = true }) now (lookup d (set_dirty true d v'.devices))
        (set_dirty-lookup d v'.devices was h) l refl clean) in
    sweep_finish-case P v' d (sweep_begin v d cfg owner) pushed still
      (take_back-case P v' d still marked)
      (λ _ e _ _. elim since [ inl l ↦ absurd (omega arith) | inr l ↦ l.1 ]) k
  where
    clash :
        (a b : DevCfg) (o : Option DevCfg)
        → o ≡ some a
        → o ≡ some b
        → a.dirty ≡ true
        → b.dirty ≡ false
        → ⊥
    clash a b o x y t f =
        let e : a ≡ b = cc in let z : a.dirty ≡ b.dirty = ap (λ (w : DevCfg). w.dirty) e in cc
