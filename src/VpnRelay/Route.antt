-- ===== src/VpnRelay/Route.antt =====
-- crates/hub/src/vpnrelay.rs: `route_in`, what one datagram turns into.
use haive_control.Prelude.{
  ℕ, ◌+◌, ◌-◌, Bool, true, false, ◌&&◌, ◌||◌, Option, none, some, List, [], ◌∷◌, leb, ltb, ◌==◌,
  nat_eq, list_eq, is_the, is_some, lookup, insert, remove, retain, find, if◌then◌else◌,
}
use haive_control.VpnRelay.Frames.{
  Crypto, SocketAddr, addr_eq, magic, t_hello, t_ack, to_be, wireguard_type, initiation_matches,
  encode_data, decode_data, verify_hello,
}
use haive_control.VpnRelay.Table.{
  Dev, Session, Relay, Devs, device_ttl, session_ttl, clock_skew_ms, admit,
}

-- The datagrams that go out.
abbrev pub Out : Type 0
Out = List (SocketAddr × List ℕ)

-- `pkt.get(i) == Some(&b)` for the first two bytes.
unfoldable pub begins : List ℕ → ℕ → Bool
begins [] b = false
begins (x ∷ xs) b = x == b

unfoldable pub second : List ℕ → ℕ → Bool
unfolding begins
second [] b = false
second (x ∷ xs) b = begins xs b

-- `abs_diff`.
abbrev pub abs_diff : ℕ → ℕ → ℕ
abs_diff a b = a - b + (b - a)

unfoldable pub secret_for : Devs → List ℕ → Option (List ℕ)
secret_for devs id = elim (lookup id devs) [ none ↦ none | some d ↦ some d.secret ]

-- An authentic HELLO of device `id`. (`none`: `get_mut(&id).unwrap()` cannot fail, for the secret
-- was that device's.)
unfoldable pub accept_hello : Relay → List ℕ → ℕ → SocketAddr → ℕ → ℕ → Relay × Out
accept_hello r id ts from now wall = elim (lookup id r.devs) [
  | none ↦ (r, [])
  | some dev ↦ if leb ts dev.last_ts || ltb clock_skew_ms (abs_diff ts wall) then (r, []) else (
    record r {
      devs = insert id (record dev { last_ts = ts; addr = some from; last_seen = some now }) r.devs;
    },
    (from, magic ∷ t_ack ∷ to_be 8 ts) ∷ [],
  )
]

unfoldable pub route_hello : Crypto → Relay → List ℕ → SocketAddr → ℕ → ℕ → Relay × Out
unfolding accept_hello secret_for
route_hello c r pkt from now wall = elim (verify_hello c pkt (secret_for r.devs)) [
  | none ↦ (r, [])
  | some (id, ts) ↦ accept_hello r id ts from now wall
]

-- `matches!(payload.first(), Some(2 | 4))`.
unfoldable pub is_answer : List ℕ → Bool
unfolding begins
is_answer payload = begins payload 2 || begins payload 4

-- A DATA frame of the device `id` to `client`.
unfoldable pub deliver : Relay → List ℕ → SocketAddr → List ℕ → ℕ → Relay × Out
unfolding is_answer
deliver r id client payload now = elim (lookup client r.sessions) [
  | none ↦ (r, [])
  | some s ↦
      if s.device == id && ltb (now - s.last) session_ttl
      then (
        record r {
          sessions =
              insert client (record s { answered = is_answer payload || s.answered }) r.sessions;
        },
        (client, payload) ∷ [],
      )
      else (r, [])
]

unfoldable pub sender : Devs → SocketAddr → Option (List ℕ × Dev)
sender devs from = find (λ e. is_the from e.1.addr) devs

unfoldable pub route_data : Relay → List ℕ → SocketAddr → ℕ → Relay × Out
unfolding deliver sender
route_data r pkt from now = elim (decode_data pkt) [
  | none ↦ (r, [])
  | some (client, payload) ↦ elim (sender r.devs from) [
    | none ↦ (r, [])
    | some (id, d) ↦ deliver r id client payload now
  ]
]

-- The closure `live` of `route_in`.
unfoldable pub live : Dev → ℕ → Bool
live d now =
    is_some d.addr && (elim d.last_seen [ none ↦ false | some t ↦ ltb (now - t) device_ttl ])

unfoldable pub only_live : List (List ℕ × Dev) → ℕ → Option (List ℕ)
unfolding live
only_live [] now = none
only_live ((id, d) ∷ []) now = if live d now then some id else none
only_live ((id, d) ∷ e ∷ es) now = none

-- The device that a client's packet of type `t` is for.
unfoldable pub target : Crypto → Relay → ℕ → List ℕ → SocketAddr → ℕ → Option (List ℕ)
unfolding only_live
target c r t pkt from now =
    if t == 1
    then only_live (retain (λ e. initiation_matches c pkt e.1.mac1_key) r.devs) now
    else elim (lookup from r.sessions) [
      | none ↦ none
      | some s ↦ if ltb (now - s.last) session_ttl then some s.device else none
    ]

abbrev pub fresh : List ℕ → ℕ → Session
fresh id now = record { device = id; last = now; answered = false }

-- A newcomer's slot, or `none` if it is turned away.
unfoldable pub take_slot : Relay → SocketAddr → List ℕ → ℕ → Relay × Bool
take_slot r from id now =
    let (m, room) = admit (remove from r.sessions) from.ip id now in
    if room
    then (record r { sessions = insert from (fresh id now) m }, true)
    else (record r { sessions = m }, false)

unfoldable pub pin : Relay → SocketAddr → List ℕ → ℕ → Relay × Bool
unfolding take_slot
pin r from id now = elim (lookup from r.sessions) [
  | none ↦ take_slot r from id now
  | some s ↦
      if s.device == id
      then (record r { sessions = insert from (record s { last = now }) r.sessions }, true)
      else take_slot r from id now
]

-- The packet, framed for the device. (`addr.unwrap()` cannot fail, for the device is live.)
unfoldable pub forward : Devs → List ℕ → SocketAddr → List ℕ → ℕ → Out
unfolding live
forward devs id from pkt now = elim (lookup id devs) [
  | none ↦ []
  | some d ↦
      if live d now
      then (elim d.addr [ none ↦ [] | some a ↦ (a, encode_data from pkt) ∷ [] ])
      else []
]

unfoldable pub route_client : Crypto → Relay → ℕ → List ℕ → SocketAddr → ℕ → Relay × Out
unfolding target pin forward
route_client c r t pkt from now = elim (target c r t pkt from now) [
  | none ↦ (r, [])
  | some id ↦
      let (r', pinned) = pin r from id now in
      if pinned then (r', forward r'.devs id from pkt now) else (r', [])
]

unfoldable pub route_in : Crypto → Relay → List ℕ → SocketAddr → ℕ → ℕ → Relay × Out
unfolding begins second route_hello route_data route_client wireguard_type
route_in c r pkt from now wall =
    if begins pkt magic
    then (if second pkt t_hello
        then route_hello c r pkt from now wall
        else route_data r pkt from now)
    else elim (wireguard_type pkt) [
      | none ↦ (r, [])
      | some t ↦ if leb 1 t && leb t 4 then route_client c r t pkt from now else (r, [])
    ]
