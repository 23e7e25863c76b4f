-- ===== src/VpnRelay/Established.antt =====
-- The sessions of answered clients under other datagrams (crates/hub/src/vpnrelay.rs, `make_room`
-- to `route_in`).
use haive_control.Prelude.{
  ℕ, ◌-◌, ◌≡◌, ◌≢◌, refl, ap, inl, inr, Bool, true, false, ◌&&◌, ◌||◌, some, List, arith, ◌==◌,
  nat_eq, list_eq, lookup, insert, remove, lookup-insert, lookup-remove, HasDistinctKeys,
  remove-HasDistinctKeys, Bool-cases, Option-cases, ==_iff, leb, ltb,
}
use haive_control.VpnRelay.Frames.{
  Crypto, SocketAddr, addr_eq, magic, t_hello, wireguard_type, decode_data,
}
use haive_control.VpnRelay.Table.{Session, Sessions, Relay, expired, session_ttl, admit}
use haive_control.VpnRelay.Trims.{admit-Trims}
use haive_control.VpnRelay.Route.{
  fresh, take_slot, pin, deliver, route_in, route_data, route_client, target, sender, begins,
  second, is_answer,
}
use haive_control.VpnRelay.Caps.{sessions-route_hello}

-- The session `s` of `a` is still there: pinned to its device, answered, and no older.
pub record Holds (a : SocketAddr) (s : Session) (m : Sessions) : Type 0 where
  pub now_as : Session
  pub found : lookup a m ≡ some now_as
  pub device : now_as.device ≡ s.device
  pub last : now_as.last ≡ s.last
  pub answered : now_as.answered ≡ true

Holds-found :
    {a : SocketAddr} {s : Session} {m : Sessions}
    → lookup a m ≡ some s
    → s.answered ≡ true
    → Holds a s m
Holds-found {s = s} e t = record { now_as = s; found = e; device = refl; last = refl; answered = t }

module _ (a from : SocketAddr) (other : a ≢ from) (s : Session) (now : ℕ) (r : Relay)
    (distinct : HasDistinctKeys r.sessions) (there : lookup a r.sessions ≡ some s)
    (established : s.answered ≡ true) (fresh_enough : expired s now ≡ false) where
  take_slot-Holds : (id : List ℕ) → Holds a s (take_slot r from id now).0.sessions
  unfolding take_slot
  take_slot-Holds id =
      let m = remove from r.sessions in
      let t = admit-Trims m from.ip id now (remove-HasDistinctKeys from r.sessions distinct) in
      let e : lookup a m ≡ some s =
        ground (arith, lookup-remove from a r.sessions, ==_iff from a) in
      let k = t.keeps a s e established fresh_enough in
      elim (Bool-cases (admit m from.ip id now).1) [
        | inl ok ↦ rw ok (
            Holds-found
              (ground (
                arith,
                k,
                lookup-insert from a (fresh id now) (admit m from.ip id now).0,
                ==_iff from a,
              ))
              established)
        | inr full ↦ rw full (Holds-found k established)
      ]

  pin-Holds : (id : List ℕ) → Holds a s (pin r from id now).0.sessions
  unfolding pin
  pin-Holds id = elim (Option-cases (lookup from r.sessions)) [
    | inl e ↦ rw (e, pin) (take_slot-Holds id)
    | inr (x, e) ↦
        rw (e, pin)
          (elim (Bool-cases (x.device == id)) [
            | inl t ↦ rw t (
                Holds-found
                  (ground (
                    arith,
                    lookup-insert from a (record x { last = now }) r.sessions,
                    ==_iff from a,
                  ))
                  established)
            | inr f ↦ rw f (take_slot-Holds id)
          ])
  ]

  route_client-Holds :
      (c : Crypto) (t : ℕ) (pkt : List ℕ) → Holds a s (route_client c r t pkt from now).0.sessions
  unfolding route_client
  route_client-Holds c t pkt = elim (Option-cases (target c r t pkt from now)) [
    | inl e ↦ rw (e, route_client) (Holds-found there established)
    | inr (id, e) ↦
        rw (e, route_client)
          (elim (Bool-cases (pin r from id now).1) [
            | inl u ↦ rw u (pin-Holds id)
            | inr u ↦ rw u (pin-Holds id)
          ])
  ]

  -- Hearing from the device again leaves the session as it is, or marks it answered.
  answered-Holds :
      (client : SocketAddr) (x : Session) (b : Bool)
      → lookup client r.sessions ≡ some x
      → Holds a s (insert client (record x { answered = b || x.answered }) r.sessions)
  answered-Holds client x b e = elim (Bool-cases (client == a)) [
    | inl q ↦
        let same : x ≡ s = ground (arith, ==_iff client a) in
        let law = lookup-insert client a (record x { answered = b || x.answered }) r.sessions in
        record {
          now_as = record x { answered = b || x.answered };
          found = ground arith;
          device = ap (λ (y : Session). y.device) same;
          last = ap (λ (y : Session). y.last) same;
          answered = ground arith;
        }
    | inr n ↦
        Holds-found
          (ground
            (arith, lookup-insert client a (record x { answered = b || x.answered }) r.sessions))
          established
  ]

  deliver-Holds :
      (id : List ℕ) (client : SocketAddr) (payload : List ℕ)
      → Holds a s (deliver r id client payload now).0.sessions
  unfolding deliver
  deliver-Holds id client payload = elim (Option-cases (lookup client r.sessions)) [
    | inl e ↦ rw (e, deliver) (Holds-found there established)
    | inr (x, e) ↦
        rw (e, deliver)
          (elim (Bool-cases (x.device == id && ltb (now - x.last) session_ttl)) [
            | inl t ↦ rw t (answered-Holds client x (is_answer payload) e)
            | inr f ↦ rw f (Holds-found there established)
          ])
  ]

  route_data-Holds : (pkt : List ℕ) → Holds a s (route_data r pkt from now).0.sessions
  unfolding route_data
  route_data-Holds pkt = elim (Option-cases (decode_data pkt)) [
    | inl e ↦ rw (e, route_data) (Holds-found there established)
    | inr ((client, payload), e) ↦
        rw (e, route_data)
          (elim (Option-cases (sender r.devs from)) [
            | inl n ↦ rw (n, route_data) (Holds-found there established)
            | inr ((id, d), n) ↦ rw (n, route_data) (deliver-Holds id client payload)
          ])
  ]

  -- A datagram from any other address, a flood of handshakes included, leaves the session of an
  -- answered client that has not expired: same device, same time of its last packet, answered.
  pub route_in-Holds :
      (c : Crypto) (pkt : List ℕ) (wall : ℕ) → Holds a s (route_in c r pkt from now wall).0.sessions
  unfolding route_in
  route_in-Holds c pkt wall = elim (Bool-cases (begins pkt magic)) [
    | inl m ↦ rw m (elim (Bool-cases (second pkt t_hello)) [
      | inl h ↦ rw (h, sessions-route_hello c r pkt from now wall) (Holds-found there established)
      | inr d ↦ rw d (route_data-Holds pkt)
    ])
    | inr w ↦ rw w (elim (Option-cases (wireguard_type pkt)) [
      | inl e ↦ rw (e, route_in) (Holds-found there established)
      | inr (t, e) ↦
          rw (e, route_in)
            (elim (Bool-cases (leb 1 t && leb t 4)) [
              | inl g ↦ rw g (route_client-Holds c t pkt)
              | inr b ↦ rw b (Holds-found there established)
            ])
    ])
  ]
