-- ===== src/VpnRelay/Replay.antt =====
-- A captured HELLO (crates/hub/src/vpnrelay.rs, `route_in`, `set_device`, `remove_device`; the loop
-- of `start`).
use mathlib.Core.Path.{fun_ext}
use haive_control.Prelude.{
  ℕ, ◌≤◌, ◌≡◌, ◌≢◌, refl, ap, ◌∙◌, inl, inr, Bool, true, false, ◌||◌, Option, none, some, List, [],
  ◌∷◌, arith, ==_iff, nat_eq, list_eq, lookup, if◌then◌else◌, lookup-insert, Bool-cases,
  Option-cases, leb, ltb,
}
use haive_control.VpnRelay.Frames.{Crypto, SocketAddr, addr_eq, verify_hello}
use haive_control.VpnRelay.Table.{Dev, Devs, Relay, clock_skew_ms, prune}
use haive_control.VpnRelay.Route.{Out, route_in, route_hello, accept_hello, secret_for, abs_diff}
use haive_control.VpnRelay.Authentic.{
  LaterAt, Later, LaterAt-refl, LaterAt-trans, route_in-Later, route_hello-Later,
}

-- A datagram: its bytes, its source, and the two clocks when it came in.
pub record Datagram : Type 0 where
  pub bytes : List ℕ
  pub from : SocketAddr
  pub at : ℕ
  pub wall : ℕ

-- The relay behind some datagrams, with a prune before each one if the loop makes it.
unfoldable pub serve : Crypto → Relay → List (Bool × Datagram) → Relay
serve c r [] = r
serve c r ((pruning, d) ∷ ds) =
    serve c (route_in c (if pruning then prune r d.at else r) d.bytes d.from d.at d.wall).0 ds

serve-Later :
    (c : Crypto) (r : Relay) (ds : List (Bool × Datagram)) → Later r.devs (serve c r ds).devs
unfolding serve prune
serve-Later c r [] j = LaterAt-refl (lookup j r.devs)
serve-Later c r ((true, d) ∷ ds) j =
    let r' = route_in c (prune r d.at) d.bytes d.from d.at d.wall in
    LaterAt-trans (lookup j r.devs) (lookup j r'.0.devs) (lookup j (serve c r'.0 ds).devs)
      (route_in-Later c (prune r d.at) d.bytes d.from d.at d.wall j) (serve-Later c r'.0 ds j)
serve-Later c r ((false, d) ∷ ds) j =
    let r' = route_in c r d.bytes d.from d.at d.wall in
    LaterAt-trans (lookup j r.devs) (lookup j r'.0.devs) (lookup j (serve c r'.0 ds).devs)
      (route_in-Later c r d.bytes d.from d.at d.wall j) (serve-Later c r'.0 ds j)

secret-Later :
    (o o' : Option Dev)
    → LaterAt o o'
    → (elim o' as (λ _. Option (List ℕ)) [ none ↦ none | some d ↦ some d.secret ])
      ≡ (elim o as (λ _. Option (List ℕ)) [ none ↦ none | some d ↦ some d.secret ])
secret-Later none none h = refl
secret-Later none (some d) h = absurd h
secret-Later (some d) none h = absurd h
secret-Later (some d) (some d') h = ap some h.1

secret_for-Later : (m m' : Devs) → Later m m' → secret_for m' ≡ secret_for m
unfolding secret_for
secret_for-Later m m' h = fun_ext (λ id. secret-Later (lookup id m) (lookup id m') (h id))

-- The device's clock is at `ts` or behind it.
abbrev HasSeen : Option Dev → ℕ → Type 0
HasSeen none ts = ⊥
HasSeen (some d) ts = ts ≤ d.last_ts

HasSeen-Later : (o o' : Option Dev) (ts : ℕ) → HasSeen o ts → LaterAt o o' → HasSeen o' ts
HasSeen-Later none o' ts s h = absurd s
HasSeen-Later (some d) none ts s h = absurd h
HasSeen-Later (some d) (some d') ts s h = omega arith

accept_hello-HasSeen :
    (r : Relay) (id : List ℕ) (ts : ℕ) (from : SocketAddr) (now wall : ℕ)
    → (accept_hello r id ts from now wall).1 ≢ []
    → HasSeen (lookup id (accept_hello r id ts from now wall).0.devs) ts
unfolding accept_hello
accept_hello-HasSeen r id ts from now wall h = elim (Option-cases (lookup id r.devs)) [
  | inl e ↦ absurd (h (rw (e, accept_hello)))
  | inr (d, e) ↦ elim (Bool-cases (leb ts d.last_ts || ltb clock_skew_ms (abs_diff ts wall))) [
    | inl t ↦ absurd (h (rw (e, accept_hello, t)))
    | inr f ↦ rw (e, accept_hello) (rw f (rw (lookup-insert, (==_iff id id).1 refl) (omega arith)))
  ]
]

accept_hello-refused :
    (r : Relay) (id : List ℕ) (ts : ℕ) (from : SocketAddr) (now wall : ℕ)
    → HasSeen (lookup id r.devs) ts
    → accept_hello r id ts from now wall ≡ (r, [])
unfolding accept_hello
accept_hello-refused r id ts from now wall s = elim (Option-cases (lookup id r.devs)) [
  | inl e ↦ rw (e, accept_hello)
  | inr (d, e) ↦ let k : ts ≤ d.last_ts = rw e at s in rw (e, accept_hello) (ground arith)
]

refused_again :
    (c : Crypto) (m : Devs) (r : Relay) (pkt id : List ℕ) (ts : ℕ) (from : SocketAddr)
    (now wall : ℕ)
    → verify_hello c pkt (secret_for m) ≡ some (id, ts)
    → secret_for r.devs ≡ secret_for m
    → HasSeen (lookup id r.devs) ts
    → route_hello c r pkt from now wall ≡ (r, [])
unfolding route_hello
refused_again c m r pkt id ts from now wall e same seen =
    let v : verify_hello c pkt (secret_for r.devs) ≡ some (id, ts) = rw same e in
    rw (v, route_hello) (accept_hello-refused r id ts from now wall seen)

route_hello-accept :
    (c : Crypto) (r : Relay) (pkt id : List ℕ) (ts : ℕ) (from : SocketAddr) (now wall : ℕ)
    → verify_hello c pkt (secret_for r.devs) ≡ some (id, ts)
    → route_hello c r pkt from now wall ≡ accept_hello r id ts from now wall
unfolding route_hello
route_hello-accept c r pkt id ts from now wall e = rw (e, route_hello)

route_hello-forged :
    (c : Crypto) (r : Relay) (pkt : List ℕ) (from : SocketAddr) (now wall : ℕ)
    → verify_hello c pkt (secret_for r.devs) ≡ none
    → route_hello c r pkt from now wall ≡ (r, [])
unfolding route_hello
route_hello-forged c r pkt from now wall e = rw (e, route_hello)

-- Once a HELLO was answered, the same bytes get no answer and change nothing, from any address, at
-- any time, and whatever datagrams came in between.
pub hello_replay :
    (c : Crypto) (r : Relay) (pkt : List ℕ) (from from' : SocketAddr) (now now' wall wall' : ℕ)
    (between : List (Bool × Datagram))
    → (route_hello c r pkt from now wall).1 ≢ []
    → let later : Relay = serve c (route_hello c r pkt from now wall).0 between in
      route_hello c later pkt from' now' wall' ≡ (later, [])
hello_replay c r pkt from from' now now' wall wall' between h =
    elim (Option-cases (verify_hello c pkt (secret_for r.devs))) [
      | inl e ↦
          absurd (h (ap (λ (x : Relay × Out). x.1) (route_hello-forged c r pkt from now wall e)))
      | inr ((id, ts), e) ↦
          let step = route_hello-accept c r pkt id ts from now wall e in
          let r1 = (route_hello c r pkt from now wall).0 in
          let r2 = serve c r1 between in
          let first : HasSeen (lookup id r1.devs) ts =
            rw step (accept_hello-HasSeen r id ts from now wall (rw step at h)) in
          let on : Later r1.devs r2.devs = serve-Later c r1 between in
          refused_again c r.devs r2 pkt id ts from' now' wall' e
            (secret_for-Later r1.devs r2.devs on
              ∙ secret_for-Later r.devs r1.devs (route_hello-Later c r pkt from now wall))
            (HasSeen-Later (lookup id r1.devs) (lookup id r2.devs) ts first (on id))
    ]
