-- ===== src/VpnRelay/Keys.antt =====
-- Server keys and caps through any history of the relay's calls (crates/hub/src/vpnrelay.rs:
-- `set_device`, `remove_device`, `route_in`, `prune`).
use haive_control.Prelude.{
  ℕ, ◌≡◌, refl, sym, ◌∙◌, inl, inr, not, ◌&&◌, Option, none, some, List, [], ◌∷◌, arith, ◌==◌,
  ==_iff, nat_eq, list_eq, lookup, insert, remove, find, find-none, lookup-In, if◌then◌else◌,
  lookup-insert, lookup-remove, Bool-cases, Option-cases,
}
use haive_control.VpnRelay.Frames.{Crypto, addr_eq, mac1_key}
use haive_control.VpnRelay.Table.{
  Dev, Devs, Relay, SetResult, ok, err, set_device, remove_device, prune, unwrap_dev, new_dev,
}
use haive_control.VpnRelay.Route.{route_in}
use haive_control.VpnRelay.Authentic.{LaterAt, Later, route_in-Later}
use haive_control.VpnRelay.Caps.{
  IsCapped, route_in-IsCapped, prune-IsCapped, remove_device-IsCapped,
}
use haive_control.VpnRelay.Replay.{Datagram}

-- A server key stands for one device.
abbrev pub HasOwnKeys : Devs → Type 0
HasOwnKeys m =
    (i j : List ℕ) (d e : Dev)
    → lookup i m ≡ some d
    → lookup j m ≡ some e
    → d.mac1_key ≡ e.mac1_key
    → i ≡ j

insert-HasOwnKeys :
    (id key : List ℕ) (new : Dev) (m : Devs)
    → new.mac1_key ≡ key
    → find (λ e. not (e.0 == id) && e.1.mac1_key == key) m ≡ none
    → HasOwnKeys m
    → HasOwnKeys (insert id new m)
insert-HasOwnKeys id key new m k absent own i j d e p q same =
    let p' : (if id == i then some new else lookup i m) ≡ some d = rw lookup-insert at p in
    let q' : (if id == j then some new else lookup j m) ≡ some e = rw lookup-insert at q in
    elim (Bool-cases (id == i)) [
      | inl t ↦ elim (Bool-cases (id == j)) [
        | inl u ↦ sym ((==_iff id i).0 t) ∙ (==_iff id j).0 u
        | inr u ↦
            let b : lookup j m ≡ some e = ground arith in
            let g =
              find-none (λ (x : List ℕ × Dev). not (x.0 == id) && x.1.mac1_key == key) m (j, e)
                absent (lookup-In j e m b) in
            absurd (ground (arith, ==_iff id j, ==_iff j id, ==_iff e.mac1_key key))
      ]
      | inr t ↦ elim (Bool-cases (id == j)) [
        | inl u ↦
            let b : lookup i m ≡ some d = ground arith in
            let g =
              find-none (λ (x : List ℕ × Dev). not (x.0 == id) && x.1.mac1_key == key) m (i, d)
                absent (lookup-In i d m b) in
            absurd (ground (arith, ==_iff id i, ==_iff i id, ==_iff d.mac1_key key))
        | inr u ↦ own i j d e (ground arith) (ground arith) same
      ]
    ]

set_device-HasOwnKeys :
    (c : Crypto) (r r' : Relay) (id secret key : List ℕ)
    → set_device c r id secret key ≡ ok r'
    → HasOwnKeys r.devs
    → HasOwnKeys r'.devs × (r'.sessions ≡ r.sessions)
unfolding set_device
set_device-HasOwnKeys c r r' id secret key h own =
    elim (Option-cases
      (find (λ (e : List ℕ × Dev). not (e.0 == id) && e.1.mac1_key == mac1_key c key) r.devs)) [
        | inl n ↦
            let d = unwrap_dev (new_dev (mac1_key c key)) (lookup id r.devs) in
            let new : Dev = record d { secret = secret; mac1_key = mac1_key c key } in
            let k : ok (record r { devs = insert id new r.devs }) ≡ ok r' =
              rw (n, set_device) at h in
            let q : record r { devs = insert id new r.devs } ≡ r' = cc in
            rw (← q) (insert-HasOwnKeys id (mac1_key c key) new r.devs refl n own, refl)
        | inr (e, n) ↦ absurd (let k : err e.0 ≡ ok r' = rw (n, set_device) at h in cc)
      ]

remove-HasOwnKeys : (id : List ℕ) (m : Devs) → HasOwnKeys m → HasOwnKeys (remove id m)
remove-HasOwnKeys id m own i j d e p q same =
    own i j d e (ground (arith, lookup-remove id i m)) (ground (arith, lookup-remove id j m)) same

-- What a later device was.
Later-earlier :
    (o o' : Option Dev) (d' : Dev)
    → LaterAt o o'
    → o' ≡ some d'
    → (d : Dev) × (o ≡ some d) × (d'.mac1_key ≡ d.mac1_key)
Later-earlier none none d' h e = absurd (cc)
Later-earlier none (some x) d' h e = absurd h
Later-earlier (some x) none d' h e = absurd h
Later-earlier (some x) (some y) d' h e = (x, refl, ground (arith, h.2))

Later-HasOwnKeys : (m m' : Devs) → Later m m' → HasOwnKeys m → HasOwnKeys m'
Later-HasOwnKeys m m' l own i j d e p q same =
    let (d1, p1, k1) = Later-earlier (lookup i m) (lookup i m') d (l i) p in
    let (e1, q1, k2) = Later-earlier (lookup j m) (lookup j m') e (l j) q in
    own i j d1 e1 p1 q1 (sym k1 ∙ same ∙ k2)

-- The calls that change the relay's table.
pub data Call : Type 0 where
  registers : List ℕ → List ℕ → List ℕ → Call
  removes : List ℕ → Call
  prunes : ℕ → Call
  receives : Datagram → Call

-- A registration that is refused changes nothing.
abbrev pub settled : Relay → SetResult → Relay
settled r (ok r') = r'
settled r (err other) = r

unfoldable pub apply : Crypto → Relay → Call → Relay
apply c r (registers id secret key) = settled r (set_device c r id secret key)
apply c r (removes id) = remove_device r id
apply c r (prunes now) = prune r now
apply c r (receives d) = (route_in c r d.bytes d.from d.at d.wall).0

unfoldable pub run : Crypto → Relay → List Call → Relay
unfolding apply
run c r [] = r
run c r (x ∷ xs) = run c (apply c r x) xs

-- `Relay::default()`.
abbrev pub empty_relay : Relay
empty_relay = record { devs = []; sessions = [] }

pub record IsSound (r : Relay) : Type 0 where
  pub capped : IsCapped r.sessions
  pub own_keys : HasOwnKeys r.devs

registers-IsSound :
    (c : Crypto) (r : Relay) (id secret key : List ℕ) (x : SetResult)
    → set_device c r id secret key ≡ x
    → IsSound r
    → IsSound (settled r x)
registers-IsSound c r id secret key (ok r') e v =
    let (own, same) = set_device-HasOwnKeys c r r' id secret key e v.own_keys in
    record { capped = rw same v.capped; own_keys = own }
registers-IsSound c r id secret key (err other) e v = v

prune-devs : (r : Relay) (now : ℕ) → (prune r now).devs ≡ r.devs
unfolding prune
prune-devs r now = refl

remove_device-devs : (r : Relay) (id : List ℕ) → (remove_device r id).devs ≡ remove id r.devs
unfolding remove_device
remove_device-devs r id = refl

apply-IsSound : (c : Crypto) (r : Relay) (x : Call) → IsSound r → IsSound (apply c r x)
unfolding apply
apply-IsSound c r (registers id secret key) v =
    registers-IsSound c r id secret key (set_device c r id secret key) refl v
apply-IsSound c r (removes id) v = record {
  capped = remove_device-IsCapped r id v.capped;
  own_keys = rw remove_device-devs (remove-HasOwnKeys id r.devs v.own_keys);
}
apply-IsSound c r (prunes now) v = record {
  capped = prune-IsCapped r now v.capped;
  own_keys = rw prune-devs v.own_keys;
}
apply-IsSound c r (receives d) v = record {
  capped = route_in-IsCapped c r d.bytes d.from d.at d.wall v.capped;
  own_keys = Later-HasOwnKeys r.devs _ (route_in-Later c r d.bytes d.from d.at d.wall) v.own_keys;
}

-- Whatever calls are made of the relay from its start, and whatever datagrams come in: no IP has
-- over 64 sessions, no device over 256, the table at most 4096, no address has two sessions, and no
-- two devices share a server key.
pub run-IsSound : (c : Crypto) (r : Relay) (xs : List Call) → IsSound r → IsSound (run c r xs)
unfolding run
run-IsSound c r [] v = v
run-IsSound c r (x ∷ xs) v = run-IsSound c (apply c r x) xs (apply-IsSound c r x v)

-- The table that the relay starts with is sound.
pub empty-IsSound : IsSound empty_relay
empty-IsSound = record {
  capped = record {
    per_ip = λ ip. omega arith;
    per_device = λ d. omega arith;
    total = omega arith;
    distinct = tt;
  };
  own_keys = λ i j d e p q same. absurd (cc);
}
