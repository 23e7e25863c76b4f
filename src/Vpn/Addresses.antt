-- ===== src/Vpn/Addresses.antt =====
-- crates/hub/src/vpn.rs: addresses, keys and number of a device's live passes (`allocate`,
-- `issue_ep`).
use haive_control.Prelude.{
  ℕ, zero, suc, ◌+◌, ◌≤◌, ◌≡◌, refl, subst, inl, inr, Bool, true, false, ◌&&◌, ◌||◌, Option, some,
  List, [], ◌∷◌, ◌++◌, Text, arith, ◌==◌, nat_eq, list_eq, ==_iff, Bool-cases, All, All-append, any,
  leb, count_if, if◌then◌else◌,
}
use haive_control.VpnRelay.Frames.{Crypto}
use haive_control.Vpn.Defs.{
  allocate, first_free, used_addresses, tunnel_address, status, is_active, Pass, Vpn, live, save,
  passes_changed,
}
use haive_control.Vpn.Ops.{Request, issue_begin, new_pass, add_pass, max_live_per_device, same_live}
use haive_control.Vpn.Calls.{
  Call, switches_off, revokes, ends_revoke, ends_enable, issues, ends_issue, purges, ends_sweep,
  step, run, store_issued,
}
use haive_control.Vpn.Cases.{issue_begin-case}
use haive_control.Vpn.Weaker.{Weaker, ended, dropped, kept, stamped, step-Weaker, is_issue}

-- Two passes that are live on one device at `t` and share an address or a key.
abbrev pub clash : ℕ → Pass → Pass → Bool
clash t p q =
    live p t
    && live q t
    && p.device == q.device
    && (p.address == q.address || p.public_key == q.public_key)

abbrev pub HasNoClash : ℕ → List Pass → Type 0
HasNoClash t [] = Unit
HasNoClash t (p ∷ ps) = All (λ q. clash t p q ≡ false) ps × HasNoClash t ps

pub record IsOrderly (t : ℕ) (ps : List Pass) : Type 0 where
  pub apart : HasNoClash t ps
  pub few : (d : Text) → count_if (same_live d t) ps ≤ max_live_per_device

-- A pass that is live later was live before; a revoked one is not live.
live-later : (p : Pass) (t u : ℕ) → t ≤ u → live p u ≡ true → live p t ≡ true
unfolding live status is_active
live-later p t u h l = ground arith

live-revoked : (p : Pass) (s t : ℕ) → live (record p { revoked_at = some s }) t ≡ false
unfolding live status is_active
live-revoked p s t = refl

later-All :
    (t u : ℕ) (p : Pass) (ps : List Pass)
    → t ≤ u
    → All (λ q. clash t p q ≡ false) ps
    → All (λ q. clash u p q ≡ false) ps
later-All t u p [] h a = tt
later-All t u p (q ∷ ps) h a =
    (ground (arith, live-later p t u h, live-later q t u h, a.0), later-All t u p ps h a.1)

later-HasNoClash : (t u : ℕ) (ps : List Pass) → t ≤ u → HasNoClash t ps → HasNoClash u ps
later-HasNoClash t u [] h a = tt
later-HasNoClash t u (p ∷ ps) h a = (later-All t u p ps h a.0, later-HasNoClash t u ps h a.1)

later-count_le :
    (t u : ℕ) (d : Text) (ps : List Pass)
    → t ≤ u
    → count_if (same_live d u) ps ≤ count_if (same_live d t) ps
later-count_le t u d [] h = omega arith
later-count_le t u d (p ∷ ps) h = ground (arith, later-count_le t u d ps h, live-later p t u h)

pub later-IsOrderly : (t u : ℕ) (ps : List Pass) → t ≤ u → IsOrderly t ps → IsOrderly u ps
later-IsOrderly t u ps h o = record {
  apart = later-HasNoClash t u ps h o.apart;
  few = λ d. omega (arith, later-count_le t u d ps h, o.few d);
}

Weaker-All :
    (t : ℕ) (p : Pass) (ps qs : List Pass)
    → Weaker ps qs
    → All (λ q. clash t p q ≡ false) ps
    → All (λ q. clash t p q ≡ false) qs
Weaker-All t p _ _ ended a = a
Weaker-All t p _ _ (dropped w) a = Weaker-All t p _ _ w a.1
Weaker-All t p _ _ (kept w) a = (a.0, Weaker-All t p _ _ w a.1)
Weaker-All t p (x ∷ _) _ (stamped s w) a =
    (ground (arith, live-revoked x s t), Weaker-All t p _ _ w a.1)

stamped-All :
    (t s : ℕ) (p : Pass) (ps : List Pass)
    → All (λ q. clash t (record p { revoked_at = some s }) q ≡ false) ps
stamped-All t s p [] = tt
stamped-All t s p (q ∷ ps) = (ground (arith, live-revoked p s t), stamped-All t s p ps)

Weaker-HasNoClash : (t : ℕ) (ps qs : List Pass) → Weaker ps qs → HasNoClash t ps → HasNoClash t qs
Weaker-HasNoClash t _ _ ended a = a
Weaker-HasNoClash t _ _ (dropped w) a = Weaker-HasNoClash t _ _ w a.1
Weaker-HasNoClash t (p ∷ _) _ (kept w) a = (Weaker-All t p _ _ w a.0, Weaker-HasNoClash t _ _ w a.1)
Weaker-HasNoClash t (p ∷ _) _ (stamped s w) a = (stamped-All t s p _, Weaker-HasNoClash t _ _ w a.1)

Weaker-count_le :
    (t : ℕ) (d : Text) (ps qs : List Pass)
    → Weaker ps qs
    → count_if (same_live d t) qs ≤ count_if (same_live d t) ps
Weaker-count_le t d _ _ ended = omega arith
Weaker-count_le t d (p ∷ ps) qs (dropped w) = ground (arith, Weaker-count_le t d ps qs w)
Weaker-count_le t d (p ∷ ps) (_ ∷ qs) (kept w) = ground (arith, Weaker-count_le t d ps qs w)
Weaker-count_le t d (p ∷ ps) (_ ∷ qs) (stamped s w) =
    ground (arith, Weaker-count_le t d ps qs w, live-revoked p s t)

Weaker-IsOrderly : (t : ℕ) (ps qs : List Pass) → Weaker ps qs → IsOrderly t ps → IsOrderly t qs
Weaker-IsOrderly t ps qs w o = record {
  apart = Weaker-HasNoClash t ps qs w o.apart;
  few = λ d. omega (arith, Weaker-count_le t d ps qs w, o.few d);
}

-- The address found is not in use.
first_free-unused :
    (n h : ℕ) (used : List Text) (a : Text)
    → first_free n h used ≡ some a
    → any (λ x. x == a) used ≡ false
unfolding first_free
first_free-unused zero h used a e = absurd (cc)
first_free-unused (suc n) h used a e = elim (Bool-cases (any (λ x. x == tunnel_address h) used)) [
  | inl k ↦ first_free-unused n (h + 1) used a (rw k at e)
  | inr k ↦
      let found : some (tunnel_address h) ≡ some a = rw k at e in
      let same : tunnel_address h ≡ a = cc in
      subst (λ (b : Text). any (λ x. x == b) used ≡ false) same k
]

-- A pass with an address not in use and a key not in use clashes with none.
add-All :
    (t : ℕ) (p : Pass) (ps : List Pass)
    → any (λ x. x == p.address) (used_addresses ps p.device t) ≡ false
    → any (λ q. same_live p.device t q && q.public_key == p.public_key) ps ≡ false
    → All (λ q. clash t q p ≡ false) ps
unfolding used_addresses
add-All t p [] a k = tt
add-All t p (q ∷ ps) a k = elim (Bool-cases (q.device == p.device && live q t)) [
  | inl e ↦
      let a' : (q.address == p.address || any (λ x. x == p.address) (used_addresses ps p.device t))
          ≡ false =
        rw e at a in
      (ground arith, add-All t p ps (ground arith) (ground arith))
  | inr e ↦
      let a' : any (λ x. x == p.address) (used_addresses ps p.device t) ≡ false = rw e at a in
      (ground arith, add-All t p ps a' (ground arith))
]

add-HasNoClash :
    (t : ℕ) (ps : List Pass) (p : Pass)
    → HasNoClash t ps
    → All (λ q. clash t q p ≡ false) ps
    → HasNoClash t (ps ++ (p ∷ []))
add-HasNoClash t [] p h a = (tt, tt)
add-HasNoClash t (q ∷ ps) p h a =
    (All-append (λ x. clash t q x ≡ false) ps (p ∷ []) h.0 (a.0, tt), add-HasNoClash t ps p h.1 a.1)

add-count :
    (t : ℕ) (d : Text) (ps : List Pass) (p : Pass)
    → count_if (same_live d t) (ps ++ (p ∷ []))
      ≡ count_if (same_live d t) ps + (if same_live d t p then 1 else 0)
add-count t d [] p = ground arith
add-count t d (q ∷ ps) p = ground (arith, add-count t d ps p)

add-few :
    (t : ℕ) (d : Text) (ps : List Pass) (p : Pass)
    → leb max_live_per_device (count_if (same_live p.device t) ps) ≡ false
    → count_if (same_live d t) ps ≤ max_live_per_device
    → count_if (same_live d t) (ps ++ (p ∷ [])) ≤ max_live_per_device
add-few t d ps p k h = elim (Bool-cases (p.device == d)) [
  | inl e ↦
      let same = (==_iff p.device d).0 e in
      let k' : leb max_live_per_device (count_if (same_live d t) ps) ≡ false =
        subst (λ (x : Text). leb max_live_per_device (count_if (same_live x t) ps) ≡ false) same
          k in
      ground (arith, add-count t d ps p)
  | inr e ↦ ground (arith, add-count t d ps p)
]

issue_begin-IsOrderly :
    (v : Vpn) (q : Request) (owner : Option Text) (t : ℕ)
    → IsOrderly t v.passes
    → IsOrderly t (store_issued v (issue_begin v q owner t)).passes
unfolding add_pass new_pass save passes_changed allocate
issue_begin-IsOrderly v q owner t o =
    issue_begin-case (λ (w : Vpn). IsOrderly t w.passes) v q owner t o
      (λ a k n i. record {
        apart = add-HasNoClash t v.passes (new_pass q a t) o.apart (
            add-All t (new_pass q a t) v.passes
              (first_free-unused 253 2 (used_addresses v.passes q.device t) a i) k);
        few = λ d. add-few t d v.passes (new_pass q a t) n (o.few d);
      })

-- The time behind a call: an issue's own, else what it was.
abbrev pub clock : ℕ → Call → ℕ
clock t (switches_off e b u) = t
clock t (revokes e i u) = t
clock t (ends_revoke e r synced) = t
clock t (ends_enable e b pushed owner) = t
clock t (issues q owner u) = u
clock t (ends_issue p b pushed owner u) = t
clock t (purges u) = t
clock t (ends_sweep e b pushed) = t

-- No issue comes before the time of an earlier one.
abbrev pub IsInOrder : ℕ → List Call → Type 0
IsInOrder t [] = Unit
IsInOrder t (x ∷ xs) = (t ≤ clock t x) × IsInOrder (clock t x) xs

abbrev pub end_time : ℕ → List Call → ℕ
end_time t [] = t
end_time t (x ∷ xs) = end_time (clock t x) xs

module _ (dk : Text → Option (List ℕ)) (c : Crypto) where
  rest-IsOrderly :
      (t : ℕ) (v : Vpn) (x : Call)
      → is_issue x ≡ false
      → IsOrderly t v.passes
      → IsOrderly t (step dk c v x).passes
  rest-IsOrderly t v x h o =
      Weaker-IsOrderly t v.passes (step dk c v x).passes (step-Weaker dk c v x h) o

  step-IsOrderly :
      (t : ℕ) (v : Vpn) (x : Call)
      → t ≤ clock t x
      → IsOrderly t v.passes
      → IsOrderly (clock t x) (step dk c v x).passes
  unfolding step
  step-IsOrderly t v (switches_off e b u) h o = rest-IsOrderly t v (switches_off e b u) refl o
  step-IsOrderly t v (revokes e i u) h o = rest-IsOrderly t v (revokes e i u) refl o
  step-IsOrderly t v (ends_revoke e r synced) h o =
      rest-IsOrderly t v (ends_revoke e r synced) refl o
  step-IsOrderly t v (ends_enable e b pushed owner) h o =
      rest-IsOrderly t v (ends_enable e b pushed owner) refl o
  step-IsOrderly t v (issues q owner u) h o =
      issue_begin-IsOrderly v q owner u (later-IsOrderly t u v.passes h o)
  step-IsOrderly t v (ends_issue p b pushed owner u) h o =
      rest-IsOrderly t v (ends_issue p b pushed owner u) refl o
  step-IsOrderly t v (purges u) h o = rest-IsOrderly t v (purges u) refl o
  step-IsOrderly t v (ends_sweep e b pushed) h o = rest-IsOrderly t v (ends_sweep e b pushed) refl o

  -- Whatever calls come, with no issue before the time of an earlier one: if at first no two live
  -- passes of a device share an address or a key, and none has over 20, so it is behind the calls,
  -- at any time from the last issue on.
  pub run-IsOrderly :
      (t u : ℕ) (v : Vpn) (xs : List Call)
      → IsInOrder t xs
      → end_time t xs ≤ u
      → IsOrderly t v.passes
      → IsOrderly u (run dk c v xs).passes
  unfolding run
  run-IsOrderly t u v [] i h o = later-IsOrderly t u v.passes h o
  run-IsOrderly t u v (x ∷ xs) i h o =
      run-IsOrderly (clock t x) u (step dk c v x) xs i.1 h (step-IsOrderly t v x i.0 o)
