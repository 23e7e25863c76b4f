-- ===== src/VpnRelay/Caps.antt =====
-- The session caps of crates/hub/src/vpnrelay.rs (MAX_SESSIONS_PER_IP, MAX_SESSIONS_PER_DEVICE,
-- MAX_SESSIONS) as an invariant of the relay's table.
use haive_control.Prelude.{
  ℕ, ◌≤◌, ◌<◌, ◌≡◌, refl, ap, inl, inr, Bool, not, ◌&&◌, some, List, arith, ◌==◌, lookup, insert,
  remove, retain, count_if, count_if-remove_le, count_if-retain_le, count_if-insert,
  count_if-insert_same, HasDistinctKeys, remove-HasDistinctKeys, retain-HasDistinctKeys,
  insert-HasDistinctKeys, Bool-cases, Option-cases, ==_iff, leb, ltb, ◌-◌, nat_eq, list_eq,
}
use haive_control.VpnRelay.Frames.{
  Crypto, IpAddr, SocketAddr, addr_eq, ip_eq, magic, t_hello, wireguard_type, decode_data,
}
use haive_control.VpnRelay.Table.{
  Session, Sessions, Relay, expired, session_ttl, admit, same_ip, same_device, any_session,
  max_sessions, max_sessions_per_device, max_sessions_per_ip, prune, remove_device,
}
use haive_control.VpnRelay.Trims.{Trims, admit-Trims, admit-count_lt}
use haive_control.VpnRelay.Route.{
  fresh, take_slot, pin, deliver, route_in, route_hello, route_data, route_client, target, sender,
  begins, second,
}

-- No IP, no device and no table holds more sessions than its cap, and no address has two.
pub record IsCapped (m : Sessions) : Type 0 where
  pub per_ip : (ip : IpAddr) → count_if (same_ip ip) m ≤ max_sessions_per_ip
  pub per_device : (d : List ℕ) → count_if (same_device d) m ≤ max_sessions_per_device
  pub total : count_if any_session m ≤ max_sessions
  pub distinct : HasDistinctKeys m

Trims-IsCapped : {now : ℕ} {m m' : Sessions} → IsCapped m → Trims now m m' → IsCapped m'
Trims-IsCapped v t = record {
  per_ip = λ ip. omega (arith, v.per_ip ip, t.shrinks (same_ip ip));
  per_device = λ d. omega (arith, v.per_device d, t.shrinks (same_device d));
  total = omega (arith, v.total, t.shrinks any_session);
  distinct = t.distinct;
}

remove-IsCapped : (a : SocketAddr) (m : Sessions) → IsCapped m → IsCapped (remove a m)
remove-IsCapped a m v = record {
  per_ip = λ ip. omega (arith, v.per_ip ip, count_if-remove_le (same_ip ip) a m);
  per_device = λ d. omega (arith, v.per_device d, count_if-remove_le (same_device d) a m);
  total = omega (arith, v.total, count_if-remove_le any_session a m);
  distinct = remove-HasDistinctKeys a m v.distinct;
}

retain-IsCapped :
    (p : SocketAddr × Session → Bool) (m : Sessions) → IsCapped m → IsCapped (retain p m)
retain-IsCapped p m v = record {
  per_ip = λ ip. omega (arith, v.per_ip ip, count_if-retain_le (same_ip ip) p m);
  per_device = λ d. omega (arith, v.per_device d, count_if-retain_le (same_device d) p m);
  total = omega (arith, v.total, count_if-retain_le any_session p m);
  distinct = retain-HasDistinctKeys p m v.distinct;
}

-- A session that is written again for its device keeps every count.
rewrite-IsCapped :
    (a : SocketAddr) (s t : Session) (m : Sessions)
    → lookup a m ≡ some t
    → s.device ≡ t.device
    → IsCapped m
    → IsCapped (insert a s m)
rewrite-IsCapped a s t m h e v = record {
  per_ip = λ ip. rw (count_if-insert_same (same_ip ip) a s t m h refl) (v.per_ip ip);
  per_device = λ d.
      let same : same_device d (a, s) ≡ same_device d (a, t) = ap (λ (x : List ℕ). x == d) e in
      rw (count_if-insert_same (same_device d) a s t m h same) (v.per_device d);
  total = rw (count_if-insert_same any_session a s t m h refl) v.total;
  distinct = insert-HasDistinctKeys a s m v.distinct;
}

newcomer-IsCapped :
    (a : SocketAddr) (id : List ℕ) (now : ℕ) (m : Sessions)
    → IsCapped m
    → count_if (same_ip a.ip) m < max_sessions_per_ip
    → count_if (same_device id) m < max_sessions_per_device
    → count_if any_session m < max_sessions
    → IsCapped (insert a (fresh id now) m)
newcomer-IsCapped a id now m v p q r = record {
  per_ip = λ ip.
      ground (arith, count_if-insert (same_ip ip) a (fresh id now) m, v.per_ip ip, ==_iff a.ip ip);
  per_device = λ d.
      ground
        (arith, count_if-insert (same_device d) a (fresh id now) m, v.per_device d, ==_iff id d);
  total = omega (arith, count_if-insert any_session a (fresh id now) m);
  distinct = insert-HasDistinctKeys a (fresh id now) m v.distinct;
}

take_slot-IsCapped :
    (r : Relay) (from : SocketAddr) (id : List ℕ) (now : ℕ)
    → IsCapped r.sessions
    → IsCapped (take_slot r from id now).0.sessions
unfolding take_slot
take_slot-IsCapped r from id now v =
    let m = remove from r.sessions in
    let w = remove-IsCapped from r.sessions v in
    let t = admit-Trims m from.ip id now w.distinct in
    let u = Trims-IsCapped w t in
    elim (Bool-cases (admit m from.ip id now).1) [
      | inl ok ↦ rw ok (
          let c =
            admit-count_lt m from.ip id now w.distinct (w.per_ip from.ip) (w.per_device id) w.total
              ok in
          newcomer-IsCapped from id now (admit m from.ip id now).0 u c.0 c.1 c.2)
      | inr full ↦ rw full u
    ]

pin-IsCapped :
    (r : Relay) (from : SocketAddr) (id : List ℕ) (now : ℕ)
    → IsCapped r.sessions
    → IsCapped (pin r from id now).0.sessions
unfolding pin
pin-IsCapped r from id now v = elim (Option-cases (lookup from r.sessions)) [
  | inl e ↦ rw (e, pin) (take_slot-IsCapped r from id now v)
  | inr (s, e) ↦
      rw (e, pin)
        (elim (Bool-cases (s.device == id)) [
          | inl t ↦ rw t (rewrite-IsCapped from (record s { last = now }) s r.sessions e refl v)
          | inr f ↦ rw f (take_slot-IsCapped r from id now v)
        ])
]

deliver-IsCapped :
    (r : Relay) (id : List ℕ) (client : SocketAddr) (payload : List ℕ) (now : ℕ)
    → IsCapped r.sessions
    → IsCapped (deliver r id client payload now).0.sessions
unfolding deliver
deliver-IsCapped r id client payload now v = elim (Option-cases (lookup client r.sessions)) [
  | inl e ↦ rw (e, deliver) v
  | inr (s, e) ↦
      rw (e, deliver)
        (elim (Bool-cases (s.device == id && ltb (now - s.last) session_ttl)) [
          | inl t ↦ rw t (rewrite-IsCapped client _ s r.sessions e refl v)
          | inr f ↦ rw f v
        ])
]

-- HELLOs change no session.
pub sessions-route_hello :
    (c : Crypto) (r : Relay) (pkt : List ℕ) (from : SocketAddr) (now wall : ℕ)
    → (route_hello c r pkt from now wall).0.sessions ≡ r.sessions
unfolding route_hello
sessions-route_hello c r pkt from now wall = ground arith

route_data-IsCapped :
    (r : Relay) (pkt : List ℕ) (from : SocketAddr) (now : ℕ)
    → IsCapped r.sessions
    → IsCapped (route_data r pkt from now).0.sessions
unfolding route_data
route_data-IsCapped r pkt from now v = elim (Option-cases (decode_data pkt)) [
  | inl e ↦ rw (e, route_data) v
  | inr ((client, payload), e) ↦
      rw (e, route_data)
        (elim (Option-cases (sender r.devs from)) [
          | inl n ↦ rw (n, route_data) v
          | inr ((id, d), n) ↦ rw (n, route_data) (deliver-IsCapped r id client payload now v)
        ])
]

route_client-IsCapped :
    (c : Crypto) (r : Relay) (t : ℕ) (pkt : List ℕ) (from : SocketAddr) (now : ℕ)
    → IsCapped r.sessions
    → IsCapped (route_client c r t pkt from now).0.sessions
unfolding route_client
route_client-IsCapped c r t pkt from now v = elim (Option-cases (target c r t pkt from now)) [
  | inl e ↦ rw (e, route_client) v
  | inr (id, e) ↦
      rw (e, route_client)
        (elim (Bool-cases (pin r from id now).1) [
          | inl t ↦ rw t (pin-IsCapped r from id now v)
          | inr f ↦ rw f (pin-IsCapped r from id now v)
        ])
]

-- Whatever datagram comes in, from wherever, no cap is exceeded.
pub route_in-IsCapped :
    (c : Crypto) (r : Relay) (pkt : List ℕ) (from : SocketAddr) (now wall : ℕ)
    → IsCapped r.sessions
    → IsCapped (route_in c r pkt from now wall).0.sessions
unfolding route_in
route_in-IsCapped c r pkt from now wall v = elim (Bool-cases (begins pkt magic)) [
  | inl m ↦ rw m (elim (Bool-cases (second pkt t_hello)) [
    | inl h ↦ rw (h, sessions-route_hello c r pkt from now wall) v
    | inr d ↦ rw d (route_data-IsCapped r pkt from now v)
  ])
  | inr w ↦ rw w (elim (Option-cases (wireguard_type pkt)) [
    | inl e ↦ rw (e, route_in) v
    | inr (t, e) ↦
        rw (e, route_in)
          (elim (Bool-cases (leb 1 t && leb t 4)) [
            | inl g ↦ rw g (route_client-IsCapped c r t pkt from now v)
            | inr b ↦ rw b v
          ])
  ])
]

pub prune-IsCapped : (r : Relay) (now : ℕ) → IsCapped r.sessions → IsCapped (prune r now).sessions
unfolding prune
prune-IsCapped r now v = retain-IsCapped (λ e. not (expired e.1 now)) r.sessions v

pub remove_device-IsCapped :
    (r : Relay) (id : List ℕ) → IsCapped r.sessions → IsCapped (remove_device r id).sessions
unfolding remove_device
remove_device-IsCapped r id v = retain-IsCapped (λ e. not (e.1.device == id)) r.sessions v
