-- ===== src/Vpn/Weaker.antt =====
-- crates/hub/src/vpn.rs: the passes before and behind a call, for every call but an issue.
use haive_control.Prelude.{
  if-case, ℕ, ◌≡◌, refl, Bool, true, false, not, ◌&&◌, ◌||◌, Option, some, List, [], ◌∷◌, Text,
  ◌==◌, nat_eq, list_eq, is_some, update_first, map, lookup, length, ◌-◌, retain, is_empty,
}
use haive_control.VpnRelay.Frames.{Crypto}
use haive_control.Vpn.Defs.{
  Pass, Vpn, Store, switch_off, drop_passes_of, passes_changed, save, flag, take_back, mark_dirty,
  keep, unrevoked, revoke_one, set_revoked, is_pass,
}
use haive_control.Vpn.Ops.{
  Started, Pushed, issue_finish, give_up, answer, all_changed, purge, withdraw, is_unrevoked, stamp,
}
use haive_control.Vpn.Calls.{
  Call, switches_off, revokes, ends_revoke, ends_enable, issues, ends_issue, purges, ends_sweep,
  step,
}
use haive_control.Vpn.Cases.{
  enabled, enable_finish-case, issue_finish-case, revoke-case, revoke_finish-case,
  sweep_finish-case, take_back-case,
}

pub data Weaker : List Pass → List Pass → Type 0 where
  ended : Weaker [] []
  dropped : {p : Pass} {ps qs : List Pass} → Weaker ps qs → Weaker (p ∷ ps) qs
  kept : {p : Pass} {ps qs : List Pass} → Weaker ps qs → Weaker (p ∷ ps) (p ∷ qs)
  stamped :
      {p : Pass} {ps qs : List Pass} (t : ℕ)
      → Weaker ps qs
      → Weaker (p ∷ ps) (record p { revoked_at = some t } ∷ qs)

Weaker-refl : (ps : List Pass) → Weaker ps ps
Weaker-refl [] = ended
Weaker-refl (p ∷ ps) = kept (Weaker-refl ps)

retain-Weaker : (f : Pass → Bool) (ps : List Pass) → Weaker ps (retain f ps)
retain-Weaker f [] = ended
retain-Weaker f (p ∷ ps) =
    if-case (Weaker (p ∷ ps)) (f p) _ _ (λ _. kept (retain-Weaker f ps))
      (λ _. dropped (retain-Weaker f ps))

map-Weaker : (d : Text) (t : ℕ) (ps : List Pass) → Weaker ps (map (revoke_one d t) ps)
unfolding revoke_one
map-Weaker d t [] = ended
map-Weaker d t (p ∷ ps) =
    if-case (λ q. Weaker (p ∷ ps) (q ∷ map (revoke_one d t) ps))
      (p.device == d && not (is_some p.revoked_at)) _ _ (λ _. stamped t (map-Weaker d t ps))
      (λ _. kept (map-Weaker d t ps))

set-Weaker :
    (d id : Text) (t : ℕ) (ps : List Pass)
    → Weaker ps (update_first (is_pass d id) (set_revoked t) ps)
unfolding set_revoked
set-Weaker d id t [] = ended
set-Weaker d id t (p ∷ ps) =
    if-case (Weaker (p ∷ ps)) (is_pass d id p) _ _
      (λ _.
        if-case (λ q. Weaker (p ∷ ps) (q ∷ ps)) (is_some p.revoked_at) _ _
          (λ _. kept (Weaker-refl ps)) (λ _. stamped t (Weaker-refl ps)))
      (λ _. kept (set-Weaker d id t ps))

stamp-Weaker :
    (id : Text) (t : ℕ) (ps : List Pass) → Weaker ps (update_first (is_unrevoked id) (stamp t) ps)
unfolding stamp
stamp-Weaker id t [] = ended
stamp-Weaker id t (p ∷ ps) =
    if-case (Weaker (p ∷ ps)) (is_unrevoked id p) _ _ (λ _. stamped t (Weaker-refl ps))
      (λ _. kept (stamp-Weaker id t ps))

abbrev WeakerIn : Vpn → Vpn → Type 0
WeakerIn v v' = Weaker v.passes v'.passes

pub switch_off-Weaker :
    (v : Vpn) (d : Text) (b : Bool) (t : ℕ) → Weaker v.passes (switch_off v d b t).0.passes
unfolding switch_off drop_passes_of save passes_changed
switch_off-Weaker v d true t =
    if-case (WeakerIn v)
      (is_some (lookup d v.devices)
        || not (length v.passes - length (drop_passes_of d v.passes) == 0))
      _ _ (λ _. retain-Weaker (λ p. not (p.device == d)) v.passes)
      (λ _. retain-Weaker (λ p. not (p.device == d)) v.passes)
switch_off-Weaker v d false t =
    if-case (WeakerIn v) (is_some (lookup d v.devices) || not (unrevoked d v.passes == 0)) _ _
      (λ _. map-Weaker d t v.passes) (λ _. map-Weaker d t v.passes)

all_changed-passes : (ds : List Text) (s : Store) → (all_changed ds s).passes ≡ s.passes
unfolding all_changed passes_changed
all_changed-passes [] s = refl
all_changed-passes (d ∷ ds) s = all_changed-passes ds (passes_changed d s)

purge-Weaker : (v : Vpn) (t : ℕ) → WeakerIn v (purge v t)
unfolding purge save
purge-Weaker v t =
    let ds = map (λ (p : Pass). p.device) (retain (λ p. not (keep t p)) v.passes) in
    let s : Store = record (v.store) { passes = retain (keep t) v.passes } in
    let less : WeakerIn v (record v { store = all_changed ds s }) =
      rw (all_changed-passes ds s) (retain-Weaker (keep t) v.passes) in
    if-case (WeakerIn v) (not (is_empty ds)) _ _ (λ _. less) (λ _. less)

give_up-Weaker : (v u : Vpn) (d : Text) → WeakerIn v u → WeakerIn v (take_back u d).0
unfolding save flag
give_up-Weaker v u d h = take_back-case (WeakerIn v) u d h h

pub issue_finish-Weaker :
    (v : Vpn) (p : Pass) (b : Started) (pushed : Pushed) (owner : Option Text) (t : ℕ)
    → Weaker v.passes (issue_finish v p b pushed owner t).after.passes
unfolding save mark_dirty flag give_up answer withdraw
issue_finish-Weaker v p b pushed owner t =
    issue_finish-case (λ r. WeakerIn v r.after) v p b pushed owner t
      (λ _. give_up-Weaker v (withdraw v p.id t) p.device (stamp-Weaker p.id t v.passes))
      (λ _. stamp-Weaker p.id t v.passes) (λ _. Weaker-refl v.passes) (λ _. Weaker-refl v.passes)

abbrev pub is_issue : Call → Bool
is_issue (switches_off e drops t) = false
is_issue (revokes e id t) = false
is_issue (ends_revoke e r synced) = false
is_issue (ends_enable e b pushed owner) = false
is_issue (issues q owner t) = true
is_issue (ends_issue p b pushed owner t) = false
is_issue (purges t) = false
is_issue (ends_sweep e b pushed) = false

module _ (dk : Text → Option (List ℕ)) (c : Crypto) where
  pub step-Weaker :
      (v : Vpn) (x : Call) → is_issue x ≡ false → Weaker v.passes (step dk c v x).passes
  unfolding step save mark_dirty passes_changed flag give_up answer enabled
  step-Weaker v (switches_off e drops t) h = switch_off-Weaker v e drops t
  step-Weaker v (revokes e id t) h =
      revoke-case (WeakerIn v) v e id t (Weaker-refl v.passes) (set-Weaker e id t v.passes)
  step-Weaker v (ends_revoke e r synced) h =
      revoke_finish-case (WeakerIn v) v e r synced (Weaker-refl v.passes) (Weaker-refl v.passes)
  step-Weaker v (ends_enable e b pushed owner) h =
      enable_finish-case dk c (λ r. WeakerIn v r.after) v e b pushed owner (Weaker-refl v.passes)
        (give_up-Weaker v v e (Weaker-refl v.passes)) (λ _. Weaker-refl v.passes)
        (λ _ _ _ _. Weaker-refl v.passes)
  step-Weaker v (issues q owner t) h = absurd (cc)
  step-Weaker v (ends_issue p b pushed owner t) h = issue_finish-Weaker v p b pushed owner t
  step-Weaker v (purges t) h = purge-Weaker v t
  step-Weaker v (ends_sweep e b pushed) h =
      sweep_finish-case (WeakerIn v) v e b pushed (Weaker-refl v.passes)
        (give_up-Weaker v v e (Weaker-refl v.passes)) (λ _ _ _. Weaker-refl v.passes)
