-- ===== src/VpnRelay/Table.antt =====
-- crates/hub/src/vpnrelay.rs: the relay's table (`Dev`, `Session`, `Relay`), its caps (`make_room`,
-- `admit`) and its upkeep (`prune`, `set_device`, `remove_device`, `device_status`).
-- An `Instant` is a number of milliseconds; `duration_since` stops at 0, as in the source.
use haive_control.Prelude.{
  ℕ, suc, ◌-◌, Bool, true, false, not, ◌&&◌, ◌||◌, Option, none, some, List, [], ◌∷◌, leb, ltb,
  ◌==◌, nat_eq, list_eq, is_some, Map, lookup, insert, remove, retain, find, count_if,
  if◌then◌else◌,
}
use haive_control.VpnRelay.Frames.{Crypto, IpAddr, SocketAddr, ip_eq, addr_eq, mac1_key}

-- DEVICE_TTL, SESSION_TTL, PENDING_TTL, MAX_SESSIONS, MAX_SESSIONS_PER_DEVICE,
-- MAX_SESSIONS_PER_IP and CLOCK_SKEW_MS.
abbrev pub device_ttl : ℕ
device_ttl = 35000

abbrev pub session_ttl : ℕ
session_ttl = 180000

abbrev pub pending_ttl : ℕ
pending_ttl = 10000

abbrev pub max_sessions : ℕ
max_sessions = 4096

abbrev pub max_sessions_per_device : ℕ
max_sessions_per_device = 256

abbrev pub max_sessions_per_ip : ℕ
max_sessions_per_ip = 64

abbrev pub clock_skew_ms : ℕ
clock_skew_ms = 120000

pub record Dev : Type 0 where
  pub secret : List ℕ
  pub mac1_key : List ℕ
  pub addr : Option SocketAddr
  pub last_ts : ℕ
  pub last_seen : Option ℕ

pub record Session : Type 0 where
  pub device : List ℕ
  pub last : ℕ
  pub answered : Bool

abbrev pub Sessions : Type 0
Sessions = Map SocketAddr Session

abbrev pub Devs : Type 0
Devs = Map (List ℕ) Dev

pub record Relay : Type 0 where
  pub devs : Devs
  pub sessions : Sessions

unfoldable pub expired : Session → ℕ → Bool
expired s now = leb (if s.answered then session_ttl else pending_ttl) (now - s.last)

unfoldable pub prune : Relay → ℕ → Relay
unfolding expired
prune r now = record r { sessions = retain (λ e. not (expired e.1 now)) r.sessions }

-- `victim.is_none_or(|(_, t)| s.last < t)`.
unfoldable pub staler : Session → Option (SocketAddr × ℕ) → Bool
staler s none = true
staler s (some (a, t)) = ltb s.last t

-- The loop of `make_room`: the sessions counted so far, and the one to evict.
unfoldable pub scan :
    (SocketAddr × Session → Bool)
    → ℕ
    → Sessions
    → ℕ
    → Option (SocketAddr × ℕ)
    → ℕ × Option (SocketAddr × ℕ)
unfolding staler expired
scan of now [] n victim = (n, victim)
scan of now ((a, s) ∷ m) n victim = scan of now m (if of (a, s) then suc n else n) (
    if of (a, s) && ((not s.answered || expired s now) && staler s victim)
    then some (a, s.last)
    else victim)

-- The room that is made by an eviction, if there is one to evict.
unfoldable pub evict : Sessions → Option (SocketAddr × ℕ) → Sessions × Bool
evict m none = (m, false)
evict m (some (a, t)) = (remove a m, is_some (lookup a m))

unfoldable pub make_room : Sessions → (SocketAddr × Session → Bool) → ℕ → ℕ → Sessions × Bool
unfolding scan evict
make_room m of cap now =
    let (n, victim) = scan of now m 0 none in if ltb n cap then (m, true) else evict m victim

-- The three groups that are capped.
abbrev pub same_ip : IpAddr → SocketAddr × Session → Bool
same_ip ip e = e.0.ip == ip

abbrev pub same_device : List ℕ → SocketAddr × Session → Bool
same_device device e = e.1.device == device

abbrev pub any_session : SocketAddr × Session → Bool
any_session e = true

-- `a && b` where each part may change the sessions.
unfoldable pub and_then : Sessions × Bool → (Sessions → Sessions × Bool) → Sessions × Bool
and_then (m, true) f = f m
and_then (m, false) f = (m, false)

unfoldable pub admit : Sessions → IpAddr → List ℕ → ℕ → Sessions × Bool
admit m ip device now =
    and_then
      (and_then (make_room m (same_ip ip) max_sessions_per_ip now)
        (λ m'. make_room m' (same_device device) max_sessions_per_device now))
      (λ m'. make_room m' any_session max_sessions now)

abbrev pub new_dev : List ℕ → Dev
new_dev key = record { secret = []; mac1_key = key; addr = none; last_ts = 0; last_seen = none }

abbrev pub unwrap_dev : Dev → Option Dev → Dev
unwrap_dev d none = d
unwrap_dev d (some e) = e

pub data SetResult : Type 0 where
  ok : Relay → SetResult
  err : List ℕ → SetResult

-- The result names the other device that has the key.
unfoldable pub set_device : Crypto → Relay → List ℕ → List ℕ → List ℕ → SetResult
set_device c r id secret server_pubkey =
    let key = mac1_key c server_pubkey in
    elim (find (λ e. not (e.0 == id) && e.1.mac1_key == key) r.devs) [
      | some e ↦ err e.0
      | none ↦
          let d = unwrap_dev (new_dev key) (lookup id r.devs) in
          ok (record r { devs = insert id (record d { secret = secret; mac1_key = key }) r.devs })
    ]

unfoldable pub remove_device : Relay → List ℕ → Relay
remove_device r id = record {
  devs = remove id r.devs;
  sessions = retain (λ e. not (e.1.device == id)) r.sessions;
}

unfoldable pub device_status : Relay → List ℕ → ℕ → Bool × ℕ
device_status r id now =
    let connected : Bool = elim (lookup id r.devs) [
      | none ↦ false
      | some d ↦ elim d.last_seen [ none ↦ false | some t ↦ ltb (now - t) device_ttl ]
    ] in
    (connected, count_if (λ e. e.1.device == id && ltb (now - e.1.last) session_ttl) r.sessions)
