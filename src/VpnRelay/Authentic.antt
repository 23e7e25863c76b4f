-- ===== src/VpnRelay/Authentic.antt =====
-- Who may steer the relay (crates/hub/src/vpnrelay.rs): replayed HELLOs, frames of devices, and
-- server keys (`verify_hello`, `route_in`, `set_device`).
use haive_control.Prelude.{
  ℕ, ◌-◌, ◌≤◌, ◌<◌, ◌≡◌, refl, ap, ◌∙◌, ◌⊎◌, inl, inr, ◌&&◌, ◌||◌, Option, none, some, List, [],
  ◌∷◌, arith, ◌==◌, nat_eq, list_eq, lookup, find, is_the, lookup-insert, Bool-cases, Option-cases,
  ==_iff, leb, ltb, In, find-In, is_the→eq,
}
use haive_control.VpnRelay.Frames.{
  Crypto, SocketAddr, addr_eq, magic, t_hello, wireguard_type, decode_data, verify_hello,
}
use haive_control.VpnRelay.Table.{Dev, Devs, Session, Relay, session_ttl, clock_skew_ms}
use haive_control.VpnRelay.Route.{
  deliver, route_in, route_hello, route_data, accept_hello, sender, begins, second, secret_for,
  abs_diff, take_slot, pin, route_client, target,
}

-- What a relayed frame needs: its sender is a device, at its current address, and the addressee
-- has a session with that device that is not stale.
pub record IsSolicited (r : Relay) (from dst : SocketAddr) (now : ℕ) : Type 0 where
  pub id : List ℕ
  pub dev : Dev
  pub session : Session
  pub is_device : In (id, dev) r.devs
  pub at_its_address : dev.addr ≡ some from
  pub has_session : lookup dst r.sessions ≡ some session
  pub with_it : session.device ≡ id
  pub not_stale : now - session.last < session_ttl

deliver-cases :
    (r : Relay) (id : List ℕ) (client : SocketAddr) (payload : List ℕ) (now : ℕ)
    → ((deliver r id client payload now).1 ≡ [])
      ⊎ ((s : Session) × (lookup client r.sessions ≡ some s)
          × (s.device ≡ id)
          × (now - s.last < session_ttl)
          × ((deliver r id client payload now).1 ≡ (client, payload) ∷ []))
unfolding deliver
deliver-cases r id client payload now = elim (Option-cases (lookup client r.sessions)) [
  | inl e ↦ inl (rw (e, deliver))
  | inr (s, e) ↦ elim (Bool-cases (s.device == id && ltb (now - s.last) session_ttl)) [
    | inl t ↦ inr (s, e, ground (arith, ==_iff s.device id), ground arith, rw (e, deliver, t))
    | inr f ↦ inl (rw (e, deliver, f))
  ]
]

In-one :
    (a b : SocketAddr) (p q : List ℕ)
    → In {A = SocketAddr × List ℕ} (a, p) ((b, q) ∷ [])
    → (b ≡ a) × (q ≡ p)
In-one a b p q (inl e) =
    (ap (λ (x : SocketAddr × List ℕ). x.0) e, ap (λ (x : SocketAddr × List ℕ). x.1) e)
In-one a b p q (inr h) = absurd h

-- The relay reflects nothing: a DATA frame goes only to a client that is talking to the very
-- device that sent it from its current address, and carries that frame's payload.
pub route_data-IsSolicited :
    (r : Relay) (pkt : List ℕ) (from dst : SocketAddr) (payload : List ℕ) (now : ℕ)
    → In (dst, payload) (route_data r pkt from now).1
    → IsSolicited r from dst now × (decode_data pkt ≡ some (dst, payload))
unfolding route_data sender
route_data-IsSolicited r pkt from dst payload now h = elim (Option-cases (decode_data pkt)) [
  | inl e ↦ absurd (rw (e, route_data) at h)
  | inr ((client, body), e) ↦ elim (Option-cases (find (λ x. is_the from x.1.addr) r.devs)) [
    | inl n ↦ absurd (rw (e, n, route_data) at h)
    | inr ((id, d), n) ↦
        let k : In (dst, payload) (deliver r id client body now).1 = rw (e, n, route_data) at h in
        elim (deliver-cases r id client body now) [
          | inl z ↦ absurd (rw z at k)
          | inr (s, there, mine, recent, z) ↦
              let f = find-In (λ (x : List ℕ × Dev). is_the from x.1.addr) r.devs (id, d) n in
              let at = is_the→eq from d.addr f.1 in
              let same = In-one dst client payload body (rw z at k) in
              (
                record {
                  id = id;
                  dev = d;
                  session = s;
                  is_device = f.0;
                  at_its_address = at;
                  has_session = rw (← same.0) there;
                  with_it = mine;
                  not_stale = recent;
                },
                rw (← same.0, ← same.1) e,
              )
        ]
  ]
]

-- A device as it was, or as a HELLO of its own left it.
abbrev pub LaterAt : Option Dev → Option Dev → Type 0
LaterAt none none = Unit
LaterAt (some d) (some d') =
    (d.last_ts ≤ d'.last_ts) × (d'.secret ≡ d.secret) × (d'.mac1_key ≡ d.mac1_key)
LaterAt none (some d) = ⊥
LaterAt (some d) none = ⊥

abbrev pub Later : Devs → Devs → Type 0
Later m m' = (id : List ℕ) → LaterAt (lookup id m) (lookup id m')

pub LaterAt-refl : (o : Option Dev) → LaterAt o o
LaterAt-refl none = tt
LaterAt-refl (some d) = (omega arith, refl, refl)

pub LaterAt-trans : (o p q : Option Dev) → LaterAt o p → LaterAt p q → LaterAt o q
LaterAt-trans none none none h k = tt
LaterAt-trans none none (some d) h k = k
LaterAt-trans none (some d) q h k = absurd h
LaterAt-trans (some d) none q h k = absurd h
LaterAt-trans (some d) (some e) none h k = k
LaterAt-trans (some d) (some e) (some f) h k = (omega arith, k.1 ∙ h.1, k.2 ∙ h.2)

accept_hello-Later :
    (r : Relay) (id : List ℕ) (ts : ℕ) (from : SocketAddr) (now wall : ℕ)
    → Later r.devs (accept_hello r id ts from now wall).0.devs
unfolding accept_hello
accept_hello-Later r id ts from now wall j = elim (Option-cases (lookup id r.devs)) [
  | inl e ↦ rw (e, accept_hello) (LaterAt-refl (lookup j r.devs))
  | inr (d, e) ↦
      rw (e, accept_hello)
        (elim (Bool-cases (leb ts d.last_ts || ltb clock_skew_ms (abs_diff ts wall))) [
          | inl t ↦ rw t (LaterAt-refl (lookup j r.devs))
          | inr f ↦
              rw (f, lookup-insert)
                (elim (Bool-cases (id == j)) [
                  | inl q ↦ rw (q, ← (==_iff id j).0 q, e) (ground arith, refl, refl)
                  | inr n ↦ rw n (LaterAt-refl (lookup j r.devs))
                ])
        ])
]

pub route_hello-Later :
    (c : Crypto) (r : Relay) (pkt : List ℕ) (from : SocketAddr) (now wall : ℕ)
    → Later r.devs (route_hello c r pkt from now wall).0.devs
unfolding route_hello
route_hello-Later c r pkt from now wall j =
    elim (Option-cases (verify_hello c pkt (secret_for r.devs))) [
      | inl e ↦ rw (e, route_hello) (LaterAt-refl (lookup j r.devs))
      | inr ((id, ts), e) ↦ rw (e, route_hello) (accept_hello-Later r id ts from now wall j)
    ]

deliver-devs :
    (r : Relay) (id : List ℕ) (client : SocketAddr) (payload : List ℕ) (now : ℕ)
    → (deliver r id client payload now).0.devs ≡ r.devs
unfolding deliver
deliver-devs r id client payload now = ground arith

take_slot-devs :
    (r : Relay) (from : SocketAddr) (id : List ℕ) (now : ℕ)
    → (take_slot r from id now).0.devs ≡ r.devs
unfolding take_slot
take_slot-devs r from id now = ground arith

pin-devs :
    (r : Relay) (from : SocketAddr) (id : List ℕ) (now : ℕ) → (pin r from id now).0.devs ≡ r.devs
unfolding pin
pin-devs r from id now = ground (arith, take_slot-devs r from id now)

route_data-devs :
    (r : Relay) (pkt : List ℕ) (from : SocketAddr) (now : ℕ)
    → (route_data r pkt from now).0.devs ≡ r.devs
unfolding route_data
route_data-devs r pkt from now = elim (Option-cases (decode_data pkt)) [
  | inl e ↦ rw (e, route_data)
  | inr ((client, payload), e) ↦
      rw (e, route_data)
        (elim (Option-cases (sender r.devs from)) [
          | inl n ↦ rw (n, route_data)
          | inr ((id, d), n) ↦ rw (n, route_data) (deliver-devs r id client payload now)
        ])
]

route_client-devs :
    (c : Crypto) (r : Relay) (t : ℕ) (pkt : List ℕ) (from : SocketAddr) (now : ℕ)
    → (route_client c r t pkt from now).0.devs ≡ r.devs
unfolding route_client
route_client-devs c r t pkt from now = elim (Option-cases (target c r t pkt from now)) [
  | inl e ↦ rw (e, route_client)
  | inr (id, e) ↦
      rw (e, route_client)
        (elim (Bool-cases (pin r from id now).1) [
          | inl u ↦ rw u (pin-devs r from id now)
          | inr u ↦ rw u (pin-devs r from id now)
        ])
]

-- No datagram takes a device away, sets its clock back, or changes its secret or its key.
pub route_in-Later :
    (c : Crypto) (r : Relay) (pkt : List ℕ) (from : SocketAddr) (now wall : ℕ)
    → Later r.devs (route_in c r pkt from now wall).0.devs
unfolding route_in
route_in-Later c r pkt from now wall j = elim (Bool-cases (begins pkt magic)) [
  | inl m ↦ rw m (elim (Bool-cases (second pkt t_hello)) [
    | inl h ↦ rw h (route_hello-Later c r pkt from now wall j)
    | inr d ↦ rw (d, route_data-devs r pkt from now) (LaterAt-refl (lookup j r.devs))
  ])
  | inr w ↦ rw w (elim (Option-cases (wireguard_type pkt)) [
    | inl e ↦ rw (e, route_in) (LaterAt-refl (lookup j r.devs))
    | inr (t, e) ↦
        rw (e, route_in)
          (elim (Bool-cases (leb 1 t && leb t 4)) [
            | inl g ↦ rw (g, route_client-devs c r t pkt from now) (LaterAt-refl (lookup j r.devs))
            | inr b ↦ rw b (LaterAt-refl (lookup j r.devs))
          ])
  ])
]
