-- ===== src/Vpn/Lost.antt =====
-- crates/hub/src/vpn.rs: passes whose exit is shut down (`issue_ep`, `switch_off`).
use haive_control.Prelude.{
  if-case, ℕ, ◌<◌, ◌≡◌, refl, ap, subst, inl, inr, Bool, true, false, not, ◌&&◌, ◌||◌, Option, some,
  List, [], ◌∷◌, ◌++◌, Text, arith, ◌==◌, nat_eq, list_eq, ==_iff, Option-cases, is_some, All,
  All-append, map, length, ◌-◌, lookup, any, leb, count_if,
}
use haive_control.VpnRelay.Frames.{Crypto}
use haive_control.Vpn.Defs.{
  allocate, Pass, Vpn, switch_off, drop_passes_of, unrevoked, revoke_one, epoch, save,
  passes_changed,
}
use haive_control.Vpn.Ops.{
  Started, Pushed, Reply, Request, Issued, denied, issued, issue_begin, issue_finish, new_pass,
  add_pass, ttl_choices_h, max_live_per_device, same_live, answer, give_up,
}
use haive_control.Vpn.Calls.{
  Call, switches_off, revokes, ends_revoke, ends_enable, issues, ends_issue, purges, ends_sweep,
  step, run, store_issued,
}
use haive_control.Vpn.Cases.{issue_begin-case, issue_finish-case}
use haive_control.Vpn.Weaker.{
  Weaker, ended, dropped, kept, stamped, step-Weaker, issue_finish-Weaker, is_issue,
}
use haive_control.Vpn.Epochs.{shut-epoch_lt}

Weaker-All :
    (P : Pass → Type 0)
    → ((p : Pass) (t : ℕ) → P p → P (record p { revoked_at = some t }))
    → (ps qs : List Pass) → Weaker ps qs
    → All P ps
    → All P qs
Weaker-All P f _ _ ended a = a
Weaker-All P f _ _ (dropped w) a = Weaker-All P f _ _ w a.1
Weaker-All P f _ _ (kept w) a = (a.0, Weaker-All P f _ _ w a.1)
Weaker-All P f _ _ (stamped t w) a = (f _ t a.0, Weaker-All P f _ _ w a.1)

-- The call issues no pass by this id.
abbrev pub spares : Text → Call → Bool
spares id (switches_off e b t) = true
spares id (revokes e i t) = true
spares id (ends_revoke e r synced) = true
spares id (ends_enable e b pushed owner) = true
spares id (issues q owner t) = not (q.id == id)
spares id (ends_issue p b pushed owner t) = true
spares id (purges t) = true
spares id (ends_sweep e b pushed) = true

-- A pass by this id is on the device; a pass by this id is revoked.
abbrev pub on_device : Text → Text → Pass → Bool
on_device id d p = not (p.id == id) || p.device == d

abbrev pub is_over : Text → Pass → Bool
is_over id p = not (p.id == id) || is_some p.revoked_at

module _ (id : Text) (f : Pass → Bool) (other : (p : Pass) → (p.id == id) ≡ false → f p ≡ true)
    (over : (p : Pass) (t : ℕ) → f p ≡ true → f (record p { revoked_at = some t }) ≡ true)
    (dk : Text → Option (List ℕ)) (c : Crypto) where
  abbrev Holds : Vpn → Type 0
  Holds v = All (λ p. f p ≡ true) v.passes

  issue_begin-All :
      (v : Vpn) (q : Request) (owner : Option Text) (t : ℕ)
      → not (q.id == id) ≡ true
      → Holds v
      → Holds (store_issued v (issue_begin v q owner t))
  unfolding add_pass new_pass save passes_changed
  issue_begin-All v q owner t n a = issue_begin-case Holds v q owner t a (λ addr _ _ _.
      All-append (λ p. f p ≡ true) v.passes (new_pass q addr t ∷ []) a
        (other (new_pass q addr t) (ground arith), tt))

  rest-All : (v : Vpn) (x : Call) → is_issue x ≡ false → Holds v → Holds (step dk c v x)
  rest-All v x h a =
      Weaker-All (λ p. f p ≡ true) over v.passes (step dk c v x).passes (step-Weaker dk c v x h) a

  step-All : (v : Vpn) (x : Call) → spares id x ≡ true → Holds v → Holds (step dk c v x)
  unfolding step
  step-All v (switches_off e b t) n a = rest-All v (switches_off e b t) refl a
  step-All v (revokes e i t) n a = rest-All v (revokes e i t) refl a
  step-All v (ends_revoke e r synced) n a = rest-All v (ends_revoke e r synced) refl a
  step-All v (ends_enable e b pushed owner) n a = rest-All v (ends_enable e b pushed owner) refl a
  step-All v (issues q owner t) n a = issue_begin-All v q owner t n a
  step-All v (ends_issue p b pushed owner t) n a = rest-All v (ends_issue p b pushed owner t) refl a
  step-All v (purges t) n a = rest-All v (purges t) refl a
  step-All v (ends_sweep e b pushed) n a = rest-All v (ends_sweep e b pushed) refl a

  run-All :
      (v : Vpn) (xs : List Call)
      → All (λ x. spares id x ≡ true) xs
      → Holds v
      → Holds (run dk c v xs)
  unfolding run
  run-All v [] n a = a
  run-All v (x ∷ xs) n a = run-All (step dk c v x) xs n.1 (step-All v x n.0 a)

drop_passes_of-is_over :
    (id d : Text) (ps : List Pass)
    → All (λ p. on_device id d p ≡ true) ps
    → All (λ p. is_over id p ≡ true) (drop_passes_of d ps)
unfolding drop_passes_of
drop_passes_of-is_over id d [] a = tt
drop_passes_of-is_over id d (p ∷ ps) a =
    if-case (All (λ p. is_over id p ≡ true)) (not (p.device == d)) _ _
      (λ e. (ground (arith, a.0), drop_passes_of-is_over id d ps a.1))
      (λ _. drop_passes_of-is_over id d ps a.1)

revoke_one-is_over :
    (id d : Text) (t : ℕ) (ps : List Pass)
    → All (λ p. on_device id d p ≡ true) ps
    → All (λ p. is_over id p ≡ true) (map (revoke_one d t) ps)
unfolding revoke_one
revoke_one-is_over id d t [] a = tt
revoke_one-is_over id d t (p ∷ ps) a = (
  if-case (λ q. is_over id q ≡ true) (p.device == d && not (is_some p.revoked_at)) _ _
      (λ _. ground arith) (λ e. ground (arith, a.0)),
  revoke_one-is_over id d t ps a.1,
)

switch_off-is_over :
    (id d : Text) (v : Vpn) (b : Bool) (t : ℕ)
    → All (λ p. on_device id d p ≡ true) v.passes
    → All (λ p. is_over id p ≡ true) (switch_off v d b t).0.passes
unfolding switch_off save passes_changed
switch_off-is_over id d v true t a =
    if-case (λ (w : Vpn). All (λ p. is_over id p ≡ true) w.passes)
      (is_some (lookup d v.devices)
        || not (length v.passes - length (drop_passes_of d v.passes) == 0))
      _ _ (λ _. drop_passes_of-is_over id d v.passes a)
      (λ _. drop_passes_of-is_over id d v.passes a)
switch_off-is_over id d v false t a =
    if-case (λ (w : Vpn). All (λ p. is_over id p ≡ true) w.passes)
      (is_some (lookup d v.devices) || not (unrevoked d v.passes == 0)) _ _
      (λ _. revoke_one-is_over id d t v.passes a) (λ _. revoke_one-is_over id d t v.passes a)

-- What is issued is the new pass, added at the end of the list, under the epoch of that time.
abbrev IsNew : Vpn → Request → ℕ → Issued → Type 0
IsNew v q t (denied code) = Unit
IsNew v q t (issued v' p b) =
    (a : Text) × (p ≡ new_pass q a t)
    × (v' ≡ add_pass v (new_pass q a t))
    × (b.epoch ≡ epoch v'.store q.device)

issue_begin-IsNew :
    (v : Vpn) (q : Request) (owner : Option Text) (t : ℕ) → IsNew v q t (issue_begin v q owner t)
unfolding issue_begin
issue_begin-IsNew v q owner t =
    if-case (IsNew v q t) (not (any (λ h. h == q.hours) ttl_choices_h)) _ _ (λ _. tt)
      (λ _. elim (Option-cases (lookup q.device v.devices)) [
        | inl e ↦ rw e tt
        | inr (cfg, e) ↦ rw e (
            if-case (IsNew v q t)
              (any (λ p. same_live q.device t p && p.public_key == q.public_key) v.passes) _ _
              (λ _. tt)
              (λ _.
                if-case (IsNew v q t)
                  (leb max_live_per_device (count_if (same_live q.device t) v.passes)) _ _ (λ _. tt)
                  (λ _. elim (Option-cases (allocate v.passes q.device t)) [
                    | inl i ↦ rw i tt
                    | inr (a, i) ↦ rw i (a, refl, refl, refl)
                  ])))
      ])

-- The passes behind a shutdown, and behind whatever comes later.
run-is_over :
    (dk : Text → Option (List ℕ)) (c : Crypto) (id : Text) (v : Vpn) (xs : List Call)
    → All (λ x. spares id x ≡ true) xs
    → All (λ p. is_over id p ≡ true) v.passes
    → All (λ p. is_over id p ≡ true) (run dk c v xs).passes
run-is_over dk c id v xs n a =
    run-All id (is_over id) (λ p h. ground arith) (λ p t h. ground arith) dk c v xs n a

shut-is_over :
    (dk : Text → Option (List ℕ)) (c : Crypto) (id d : Text) (v : Vpn) (xs ys : List Call)
    (b : Bool) (t : ℕ)
    → All (λ x. spares id x ≡ true) xs
    → All (λ x. spares id x ≡ true) ys
    → All (λ p. on_device id d p ≡ true) v.passes
    → All (λ p. is_over id p ≡ true) (run dk c (switch_off (run dk c v xs) d b t).0 ys).passes
shut-is_over dk c id d v xs ys b t sx sy a = run-is_over dk c id _ ys sy (
    switch_off-is_over id d (run dk c v xs) b t
      (run-All id (on_device id d) (λ p h. ground arith) (λ p u h. ground arith) dk c v xs sx a))

finish-is_over :
    (id : Text) (v : Vpn) (p : Pass) (b : Started) (pushed : Pushed) (owner : Option Text) (t : ℕ)
    → All (λ p. is_over id p ≡ true) v.passes
    → All (λ p. is_over id p ≡ true) (issue_finish v p b pushed owner t).after.passes
finish-is_over id v p b pushed owner t a =
    Weaker-All (λ p. is_over id p ≡ true) (λ p u h. ground arith) v.passes _
      (issue_finish-Weaker v p b pushed owner t) a

finish-code :
    (v : Vpn) (p : Pass) (b : Started) (pushed : Pushed) (owner : Option Text) (t : ℕ)
    → b.epoch < epoch v.store p.device
    → (issue_finish v p b pushed owner t).code ≡ 409
unfolding give_up answer
finish-code v p b pushed owner t h =
    issue_finish-case (λ r. r.code ≡ 409) v p b pushed owner t (λ _. refl) (λ _. refl)
      (λ e. absurd (omega arith)) (λ e. absurd (omega arith))

add-on_device :
    (id d : Text) (ps : List Pass) (p : Pass)
    → All (λ x. not (x.id == id) ≡ true) ps
    → p.device ≡ d
    → All (λ x. on_device id d x ≡ true) (ps ++ (p ∷ []))
add-on_device id d [] p n e = (ground (arith, ==_iff p.device d), tt)
add-on_device id d (x ∷ ps) p n e = (ground (arith, n.0), add-on_device id d ps p n.1 e)

-- The issue is answered 409, and no pass by its id is live behind it.
abbrev pub IsLost : Text → Reply → Vpn → Type 0
IsLost id r later = (r.code ≡ 409) × All (λ p. is_over id p ≡ true) later.passes

-- A pass whose device was shut down during the push of its issue is lost: the issue is answered
-- 409, and behind any later calls every pass by its id, if there still is one, is revoked. The id
-- is new when the issue comes, and none of the other calls issues a pass by it.
pub issue_overtaken :
    (dk : Text → Option (List ℕ)) (c : Crypto) (v v' : Vpn) (q : Request)
    (owner owner_now : Option Text) (t t' t'' : ℕ) (p : Pass) (b : Started) (xs ys zs : List Call)
    (drops : Bool) (pushed : Pushed)
    → issue_begin v q owner t ≡ issued v' p b
    → All (λ x. not (x.id == q.id) ≡ true) v.passes
    → All (λ x. spares q.id x ≡ true) xs
    → All (λ x. spares q.id x ≡ true) ys
    → All (λ x. spares q.id x ≡ true) zs
    → let r =
        issue_finish
          (run dk c (switch_off (run dk c v' xs) q.device drops t').0 ys)
          p
          b
          pushed
          owner_now
          t'' in
      IsLost q.id r (run dk c r.after zs)
unfolding new_pass add_pass save passes_changed
issue_overtaken dk c v v' q owner owner_now t t' t'' p b xs ys zs drops pushed h new sx sy sz =
    let (a, is_new, added, began) = subst (IsNew v q t) h (issue_begin-IsNew v q owner t) in
    let device : p.device ≡ q.device = ap (λ (x : Pass). x.device) is_new in
    let here : All (λ x. on_device q.id q.device x ≡ true) v'.passes =
      rw added (add-on_device q.id q.device v.passes (new_pass q a t) new refl) in
    let shut = run dk c (switch_off (run dk c v' xs) q.device drops t').0 ys in
    let past = shut-epoch_lt dk c v' q.device xs ys drops t' in
    (
      finish-code shut p b pushed owner_now t'' (rw (device, began) past),
      run-is_over dk c q.id (issue_finish shut p b pushed owner_now t'').after zs sz (
          finish-is_over q.id shut p b pushed owner_now t''
            (shut-is_over dk c q.id q.device v' xs ys drops t' sx sy here)),
    )
