-- ===== src/Vpn/Saved.antt =====
-- crates/hub/src/vpn.rs: the store and vpn.json, also where a call saves only if it changed
-- something (`switch_off`, `sweep`, `take_back`).
use haive_control.Prelude.{
  ℕ, ◌-◌, ◌≡◌, refl, sym, ◌∙◌, inl, inr, Bool, true, false, not, ◌||◌, Option, none, List, [], ◌∷◌,
  map, Text, arith, length, retain, lookup, remove, is_empty, is_some, length-retain_le, ◌==◌, Eq,
  nat_eq, list_eq, Bool-cases, if◌then◌else◌, Map,
}
use haive_control.VpnRelay.Frames.{Crypto}
use haive_control.Vpn.Defs.{
  Pass, Vpn, Store, switch_off, revoke_one, drop_passes_of, unrevoked, keep, take_back, mark_dirty,
  save, epoch_changed, passes_changed,
}
use haive_control.Vpn.Ops.{
  Started, Pushed, enable_finish, issue_finish, purge, revoke_finish, give_up, answer, all_changed,
  add_pass, withdraw,
}
use haive_control.Vpn.Cases.{
  revoke_finish-case, enabled, enable_finish-case, issue_finish-case, issue_begin-case, revoke-case,
  sweep_finish-case,
}
use haive_control.Vpn.Calls.{
  Call, switches_off, revokes, ends_revoke, ends_enable, issues, ends_issue, purges, ends_sweep,
  step, run,
}

abbrev pub IsSaved : Vpn → Type 0
IsSaved v = (v.disk_devices ≡ v.devices) × (v.disk_passes ≡ v.passes)

module _ {ℓ κ} {K : Type ℓ} {V : Type κ} ⦃e : Eq K⦄ where
  remove-absent : (k : K) (m : Map K V) → lookup k m ≡ none → remove k m ≡ m
  remove-absent k [] h = refl
  remove-absent k ((j, w) ∷ m) h = ground (arith, remove-absent k m)

module _ {ℓ} {A : Type ℓ} where
  retain-same :
      (p : A → Bool) (xs : List A) → length xs - length (retain p xs) ≡ 0 → retain p xs ≡ xs
  retain-same p [] h = refl
  retain-same p (x ∷ xs) h = ground (arith, retain-same p xs, length-retain_le p xs)

  retain-all : (p : A → Bool) (xs : List A) → retain (λ x. not (p x)) xs ≡ [] → retain p xs ≡ xs
  retain-all p [] h = refl
  retain-all p (x ∷ xs) h = ground (arith, retain-all p xs)

revoke_one-same :
    (d : Text) (t : ℕ) (ps : List Pass) → unrevoked d ps ≡ 0 → map (revoke_one d t) ps ≡ ps
unfolding revoke_one unrevoked
revoke_one-same d t [] h = refl
revoke_one-same d t (p ∷ ps) h = ground (arith, revoke_one-same d t ps)

save_if : (b : Bool) (v : Vpn) → (b ≡ false → IsSaved v) → IsSaved (if b then save v else v)
unfolding save
save_if true v h = (refl, refl)
save_if false v h = h refl

switch_off-IsSaved :
    (v : Vpn) (d : Text) (drops : Bool) (t : ℕ) → IsSaved v → IsSaved (switch_off v d drops t).0
unfolding switch_off drop_passes_of epoch_changed passes_changed
switch_off-IsSaved v d true t s =
    save_if
      (is_some (lookup d v.devices)
        || not (length v.passes - length (drop_passes_of d v.passes) == 0))
      _
      (λ h.
        let gone : lookup d v.devices ≡ none = ground arith in
        let same : length v.passes - length (drop_passes_of d v.passes) ≡ 0 = ground arith in
        (s.0 ∙ sym (remove-absent d v.devices gone), s.1 ∙ sym (retain-same _ v.passes same)))
switch_off-IsSaved v d false t s =
    save_if (is_some (lookup d v.devices) || not (unrevoked d v.passes == 0)) _ (λ h.
      let gone : lookup d v.devices ≡ none = ground arith in
      let same : unrevoked d v.passes ≡ 0 = ground arith in
      (s.0 ∙ sym (remove-absent d v.devices gone), s.1 ∙ sym (revoke_one-same d t v.passes same)))

take_back-IsSaved : (v : Vpn) (d : Text) → IsSaved v → IsSaved (take_back v d).0
unfolding take_back save
take_back-IsSaved v d s = elim (Bool-cases (is_some (lookup d v.devices))) [
  | inl e ↦ rw e (refl, refl)
  | inr e ↦ rw e s
]

give_up-IsSaved : (v : Vpn) (d : Text) → IsSaved v → IsSaved (give_up v d).after
unfolding give_up
give_up-IsSaved v d s = take_back-IsSaved v d s

map-empty : {A B : Type 0} (f : A → B) (xs : List A) → is_empty (map f xs) ≡ true → xs ≡ []
map-empty f [] h = refl
map-empty f (x ∷ xs) h = absurd (cc)

all_changed-stored :
    (ds : List Text) (s : Store)
    → ((all_changed ds s).devices ≡ s.devices) × ((all_changed ds s).passes ≡ s.passes)
unfolding all_changed passes_changed
all_changed-stored [] s = (refl, refl)
all_changed-stored (d ∷ ds) s = all_changed-stored ds (passes_changed d s)

purge-IsSaved : (v : Vpn) (t : ℕ) → IsSaved v → IsSaved (purge v t)
unfolding purge
purge-IsSaved v t s =
    let ds = map (λ (p : Pass). p.device) (retain (λ p. not (keep t p)) v.passes) in
    let a = all_changed-stored ds (record (v.store) { passes = retain (keep t) v.passes }) in
    save_if (not (is_empty ds)) _ (λ h.
      let none_pruned =
        map-empty (λ (p : Pass). p.device) (retain (λ p. not (keep t p)) v.passes) (ground arith) in
      (s.0 ∙ sym a.0, s.1 ∙ sym (a.1 ∙ retain-all (keep t) v.passes none_pruned)))

enable_finish-IsSaved :
    (dk : Text → Option (List ℕ)) (c : Crypto) (v : Vpn) (d : Text) (b : Started) (pushed : Pushed)
    (owner : Option Text)
    → IsSaved v
    → IsSaved (enable_finish dk c v d b pushed owner).after
unfolding answer enabled save
enable_finish-IsSaved dk c v d b pushed owner s =
    enable_finish-case dk c (λ r. IsSaved r.after) v d b pushed owner s (give_up-IsSaved v d s)
      (λ _. s) (λ cfg r e k. (refl, refl))

issue_finish-IsSaved :
    (v : Vpn) (p : Pass) (b : Started) (pushed : Pushed) (owner : Option Text) (t : ℕ)
    → IsSaved v
    → IsSaved (issue_finish v p b pushed owner t).after
unfolding answer withdraw mark_dirty save
issue_finish-IsSaved v p b pushed owner t s =
    issue_finish-case (λ r. IsSaved r.after) v p b pushed owner t
      (λ _. give_up-IsSaved (withdraw v p.id t) p.device (refl, refl)) (λ _. (refl, refl))
      (λ _. (refl, refl)) (λ _. s)

module _ (dk : Text → Option (List ℕ)) (c : Crypto) where
  step-IsSaved : (v : Vpn) (x : Call) → IsSaved v → IsSaved (step dk c v x)
  unfolding step save mark_dirty add_pass revoke_finish
  step-IsSaved v (switches_off d drops t) s = switch_off-IsSaved v d drops t s
  step-IsSaved v (revokes d id t) s = revoke-case IsSaved v d id t s (refl, refl)
  step-IsSaved v (ends_revoke d r synced) s = revoke_finish-case IsSaved v d r synced s (refl, refl)
  step-IsSaved v (ends_enable d b pushed owner) s = enable_finish-IsSaved dk c v d b pushed owner s
  step-IsSaved v (issues q owner t) s =
      issue_begin-case IsSaved v q owner t s (λ a _ _ _. (refl, refl))
  step-IsSaved v (ends_issue p b pushed owner t) s = issue_finish-IsSaved v p b pushed owner t s
  step-IsSaved v (purges t) s = purge-IsSaved v t s
  step-IsSaved v (ends_sweep d b pushed) s =
      sweep_finish-case IsSaved v d b pushed s (take_back-IsSaved v d s) (λ _ _ _. (refl, refl))

  -- Whatever calls come in whatever order, vpn.json holds the devices and the passes of the store
  -- if it did at first.
  pub run-IsSaved : (v : Vpn) (xs : List Call) → IsSaved v → IsSaved (run dk c v xs)
  unfolding run
  run-IsSaved v [] s = s
  run-IsSaved v (x ∷ xs) s = run-IsSaved (step dk c v x) xs (step-IsSaved v x s)
