-- ===== src/VpnRelay/Trims.antt =====
-- The sessions before and behind making room (crates/hub/src/vpnrelay.rs, `make_room` and `admit`).
use haive_control.Prelude.{
  ℕ, ◌≤◌, ◌<◌, ◌≡◌, refl, ap, ◌∙◌, inl, inr, Bool, true, false, some, List, arith, lookup, count_if,
  count_if-remove_le, HasDistinctKeys, remove-HasDistinctKeys, In-lookup, lookup-remove, ==_iff,
}
use haive_control.VpnRelay.Frames.{IpAddr, SocketAddr, addr_eq, ip_eq}
use haive_control.VpnRelay.Table.{
  Session, Sessions, expired, make_room, and_then, admit, same_ip, same_device, any_session,
  max_sessions, max_sessions_per_device, max_sessions_per_ip,
}
use haive_control.VpnRelay.Room.{Evicted, make_room-Evicted, make_room-count_lt}

-- `m'` is `m` less some sessions that were unanswered or expired.
pub record Trims (now : ℕ) (m m' : Sessions) : Type 0 where
  pub shrinks : (p : SocketAddr × Session → Bool) → count_if p m' ≤ count_if p m
  pub distinct : HasDistinctKeys m'
  pub keeps :
      (a : SocketAddr) (s : Session)
      → lookup a m ≡ some s
      → s.answered ≡ true
      → expired s now ≡ false
      → lookup a m' ≡ some s

Trims-refl : {now : ℕ} {m : Sessions} → HasDistinctKeys m → Trims now m m
Trims-refl d = record { shrinks = λ p. omega arith; distinct = d; keeps = λ a s h _ _. h }

Trims-trans : {now : ℕ} {m n o : Sessions} → Trims now m n → Trims now n o → Trims now m o
Trims-trans s t = record {
  shrinks = λ p. omega (arith, s.shrinks p, t.shrinks p);
  distinct = t.distinct;
  keeps = λ a x h u v. t.keeps a x (s.keeps a x h u v) u v;
}

Evicted-Trims :
    (of : SocketAddr × Session → Bool) (now : ℕ) (m m' : Sessions)
    → HasDistinctKeys m
    → Evicted of now m m'
    → Trims now m m'
unfolding expired
Evicted-Trims of now m m' d (inl e) = rw e (Trims-refl d)
Evicted-Trims of now m m' d (inr (v, e, (w, i, o, x))) = rw e (record {
  shrinks = λ p. count_if-remove_le p v m;
  distinct = remove-HasDistinctKeys v m d;
  keeps = λ a s h u y. ground (arith, lookup-remove v a m, In-lookup v w m d i, ==_iff v a);
})

pub make_room-Trims :
    (m : Sessions) (of : SocketAddr × Session → Bool) (limit now : ℕ)
    → HasDistinctKeys m
    → Trims now m (make_room m of limit now).0
make_room-Trims m of limit now d = Evicted-Trims of now m _ d (make_room-Evicted m of limit now)

and_then-Trims :
    (now : ℕ) (m : Sessions) (x : Sessions × Bool) (f : Sessions → Sessions × Bool)
    → Trims now m x.0
    → ((n : Sessions) → HasDistinctKeys n → Trims now n (f n).0)
    → Trims now m (and_then x f).0
unfolding and_then
and_then-Trims now m (n, true) f t g = Trims-trans t (g n t.distinct)
and_then-Trims now m (n, false) f t g = t

pub admit-Trims :
    (m : Sessions) (ip : IpAddr) (device : List ℕ) (now : ℕ)
    → HasDistinctKeys m
    → Trims now m (admit m ip device now).0
unfolding admit
admit-Trims m ip device now d =
    and_then-Trims now m
      (and_then (make_room m (same_ip ip) max_sessions_per_ip now)
        (λ n. make_room n (same_device device) max_sessions_per_device now))
      (λ n. make_room n any_session max_sessions now)
      (and_then-Trims now m (make_room m (same_ip ip) max_sessions_per_ip now)
        (λ n. make_room n (same_device device) max_sessions_per_device now)
        (make_room-Trims m (same_ip ip) max_sessions_per_ip now d)
        λ n dn. make_room-Trims n (same_device device) max_sessions_per_device now dn)
      λ n dn. make_room-Trims n any_session max_sessions now dn

and_then-true :
    (x : Sessions × Bool) (f : Sessions → Sessions × Bool)
    → (and_then x f).1 ≡ true
    → (x.1 ≡ true) × (and_then x f ≡ f x.0)
unfolding and_then
and_then-true (n, true) f h = (refl, refl)
and_then-true (n, false) f h = absurd (cc)

-- Whoever is admitted finds each of the three groups under its cap.
pub admit-count_lt :
    (m : Sessions) (ip : IpAddr) (device : List ℕ) (now : ℕ)
    → HasDistinctKeys m
    → count_if (same_ip ip) m ≤ max_sessions_per_ip
    → count_if (same_device device) m ≤ max_sessions_per_device
    → count_if any_session m ≤ max_sessions
    → (admit m ip device now).1 ≡ true
    → (count_if (same_ip ip) (admit m ip device now).0 < max_sessions_per_ip)
      × (count_if (same_device device) (admit m ip device now).0 < max_sessions_per_device)
      × (count_if any_session (admit m ip device now).0 < max_sessions)
unfolding admit
admit-count_lt m ip device now d h1 h2 h3 ok =
    let m1 = make_room m (same_ip ip) max_sessions_per_ip now in
    let f = λ (n : Sessions). make_room n (same_device device) max_sessions_per_device now in
    let g = λ (n : Sessions). make_room n any_session max_sessions now in
    let (ok2, e3) = and_then-true (and_then m1 f) g ok in
    let (ok1, e2) = and_then-true m1 f ok2 in
    let t1 = make_room-Trims m (same_ip ip) max_sessions_per_ip now d in
    let t2 = make_room-Trims m1.0 (same_device device) max_sessions_per_device now t1.distinct in
    let n2 = (f m1.0).0 in
    let t3 = make_room-Trims n2 any_session max_sessions now t2.distinct in
    let c1 = make_room-count_lt m (same_ip ip) max_sessions_per_ip now h1 ok1 in
    let c2 =
      make_room-count_lt m1.0 (same_device device) max_sessions_per_device now
        (omega (arith, t1.shrinks (same_device device))) (rw e2 at ok2) in
    let e : and_then (and_then m1 f) g ≡ g n2 = e3 ∙ ap (λ (x : Sessions × Bool). g x.0) e2 in
    let ok3 : (g n2).1 ≡ true = rw e at ok in
    let c3 =
      make_room-count_lt n2 any_session max_sessions now
        (omega (arith, t1.shrinks any_session, t2.shrinks any_session)) ok3 in
    rw e (
      omega (arith, t2.shrinks (same_ip ip), t3.shrinks (same_ip ip)),
      omega (arith, t3.shrinks (same_device device)),
      c3,
    )
