-- ===== src/Devices/Examples.antt =====
-- Two rows of one host and an owner's tokens, at concrete times; the stand-in for the hash leaves a
-- text as it is.
use haive_control.Prelude.{
  ℕ, ◌≡◌, ◌≤◌, refl, inl, inr, true, false, none, some, Option, [], ◌∷◌, Text, text, lookup,
  list_beq, ==_iff, ◌==◌, nat_eq, list_eq, starts_with, strip_prefix, split_once, second_part,
  before, trim_end_matches, trim, is_whitespace, HasDistinctKeys, All, In, is_empty,
}
use haive_control.ConstantTime.{ct_eq}
use haive_control.Enroll.Tunnels.{Tunnel, Registry, auth_hash}
use haive_control.Enroll.Secrets.{is_device_secret}
use haive_control.Vpn.Defs.{Vpn, switch_off}
use haive_control.Devices.Rows.{
  Agent, relay_target, device_key, owner_at, device_owner, may_control, elapsed,
}
use haive_control.Devices.Owners.{
  Outside, Tokens, rand_token, rotate_enroll_token, relay_ok, canon_owner, owner_alias,
  resolve_owner_token,
}
use haive_control.Devices.Fleet.{Fleet, By, set_owner, set_owner_ep, forget_device}
use haive_control.Devices.Duplicates.{is_stale, age_of, dedup_hostnames, dedup_sweep}
use haive_control.Devices.Fresh.{dedup_sweep-fresh}
use haive_control.Devices.Remains.{HasRow, dedup_hostnames-freshest, dedup_sweep-HasRow}
use haive_control.Devices.Rotation.{rotate-locks_out, rotate-spares}
use haive_control.Devices.Strict.{IsOwned, set_owner_ep-IsOwned}
use haive_control.Devices.Handover.{
  IsOwnersNow, HasNoExit, IsForgotten, set_owner-handover, forget_device-IsForgotten,
}

device_key_lan : device_key (text "http://10.0.0.7:8080/x") ≡ text "10.0.0.7"
unfolding device_key strip_prefix second_part split_once before
device_key_lan = refl

device_key_relay : device_key (text "relay://hc-1/") ≡ text "relay:hc-1"
unfolding device_key strip_prefix trim_end_matches
device_key_relay = refl

abbrev row : ℕ → Agent
row last = record {
  owner = some (text "ann");
  name = some (text "mac");
  hostname = some (text "mac.lan");
  platform = some (text "macos");
  scheme = some (text "relay");
  ip = some (text "a");
  last = last;
}

abbrev no_exits : Vpn
no_exits = record {
  store = record { devices = []; passes = []; epochs = []; versions = [] };
  disk_devices = [];
  disk_passes = [];
  relay = record { devs = []; sessions = [] };
}

-- An old row and a fresh one, 20 and 1 seconds before the time below.
abbrev fleet : Fleet
fleet = record {
  agents = (text "relay:a", row 40000000000) ∷ (text "relay:hc-1", row 99000000000) ∷ [];
  disk_agents = [];
  analysis = [];
  disk_analysis = [];
  pending = text "relay:a" ∷ [];
  disk_pending = text "relay:a" ∷ [];
  overrides = [];
  disk_overrides = [];
  secrets = [];
  vpn = no_exits;
  audit = record { log = []; sessions = [] };
}

abbrev time : ℕ
time = 100000000000

fleet-HasDistinctKeys : HasDistinctKeys fleet.agents
unfolding list_beq
fleet-HasDistinctKeys = (refl, (refl, tt))

dedup_sweep-fresh_example :
    lookup (text "relay:hc-1") (dedup_sweep fleet time).agents ≡ some (row 99000000000)
unfolding list_beq is_stale elapsed
dedup_sweep-fresh_example =
    dedup_sweep-fresh time (text "relay:hc-1") (row 99000000000) refl fleet fleet-HasDistinctKeys
      refl

dedup_hostnames-freshest_example :
    (j : Text) × (b : Agent) × (lookup j (dedup_hostnames fleet time).agents ≡ some b)
    × (b.hostname ≡ some (text "mac.lan"))
    × (age_of time b ≤ age_of time (row 40000000000))
unfolding list_beq
dedup_hostnames-freshest_example =
    dedup_hostnames-freshest time fleet (text "mac.lan") (text "relay:a") (row 40000000000)
      fleet-HasDistinctKeys refl refl refl

dedup_sweep-HasRow_example : HasRow (text "mac.lan") (dedup_sweep fleet time).agents
unfolding list_beq
dedup_sweep-HasRow_example =
    dedup_sweep-HasRow time fleet (text "mac.lan") fleet-HasDistinctKeys refl
      (text "relay:a", row 40000000000, refl, refl)

abbrev same : Text → Text
same s = s

abbrev tokens : Tokens
tokens = record {
  tokens = (text "htok_1", text "ann") ∷ (text "htok_2", text "bob") ∷ [];
  disk = [];
}

abbrev tunnel : Text → Tunnel
tunnel auth = record { queue = []; pending = []; next_id = 1; auth = auth }

abbrev tunnels : Registry
tunnels = (text "a", tunnel (text "htok_1")) ∷ (text "b", tunnel (text "htok_2")) ∷ []

tokens-HasDistinctKeys : HasDistinctKeys tokens.tokens
unfolding list_beq
tokens-HasDistinctKeys = (refl, (refl, tt))

rotate-locks_out_example :
    (relay_ok same
        (some (text "shared"))
        []
        (rotate_enroll_token same tokens tunnels (text "ann") (text "3")).0.tokens
        (text "a")
        (text "htok_1")
      ≡ false)
    × All
        (λ (e : Text × Tunnel). ct_eq e.1.auth (auth_hash same (text "htok_1")) ≡ false)
        (rotate_enroll_token same tokens tunnels (text "ann") (text "3")).1
unfolding list_beq rand_token is_device_secret starts_with ct_eq
rotate-locks_out_example =
    rotate-locks_out same tokens tunnels (text "ann") (text "3") tokens-HasDistinctKeys
      (text "htok_1") (text "shared") (text "a") [] refl refl refl refl refl

others :
    (old : Text)
    → In (old, text "ann") tokens.tokens
    → ct_eq (text "htok_2") (auth_hash same old) ≡ false
unfolding auth_hash ct_eq list_beq
others old (inl e) = let e' : text "htok_1" ≡ old = cc in rw (← e') refl
others old (inr (inl e)) =
    let e' : text "bob" ≡ text "ann" = cc in
    let k : (text "bob" == text "ann") ≡ true = (==_iff (text "bob") (text "ann")).1 e' in
    absurd (cc)
others old (inr (inr i)) = elim i [ ]

rotate-spares_example :
    (lookup
        (text "htok_2")
        (rotate_enroll_token same tokens tunnels (text "ann") (text "3")).0.tokens
      ≡ some (text "bob"))
    × (lookup (text "b") (rotate_enroll_token same tokens tunnels (text "ann") (text "3")).1
        ≡ some (tunnel (text "htok_2")))
unfolding list_beq rand_token
rotate-spares_example =
    rotate-spares same tokens tunnels (text "ann") (text "3") tokens-HasDistinctKeys (text "htok_2")
      (text "bob") (text "b") (tunnel (text "htok_2")) (refl, (refl, tt)) refl refl refl refl others

abbrev outside : Outside
outside = record { new_v5 = same; to_lowercase = same; aliases = none }

-- A name of blanks comes out empty, and the device is left without an owner.
blank_unclaims :
    owner_at
      (set_owner_ep outside [] fleet
        (some (text "ann"))
        (text "relay://a")
        (some (text " "))
        (text "browser")
        7).0.agents
      (text "relay:a")
    ≡ none
unfolding owner_at set_owner_ep list_beq device_key strip_prefix trim_end_matches may_control
    canon_owner owner_alias trim is_whitespace device_owner resolve_owner_token set_owner switch_off
blank_unclaims = refl

abbrev to_bob : Option Text
to_bob = some (text "bob")

bob_named : (w : Text) → to_bob ≡ some w → is_empty (canon_owner outside [] w) ≡ false
unfolding canon_owner owner_alias trim is_whitespace resolve_owner_token list_beq
bob_named w e = let e' : text "bob" ≡ w = cc in rw (← e') refl

set_owner_ep-IsOwned_example :
    IsOwned
      (some (text "ann"))
      fleet.agents
      (text "relay://a")
      (text "relay:a")
      (text "ann")
      (set_owner_ep outside [] fleet
        (some (text "ann"))
        (text "relay://a")
        to_bob
        (text "browser")
        7).0.agents
unfolding list_beq
set_owner_ep-IsOwned_example =
    set_owner_ep-IsOwned outside [] fleet (some (text "ann")) (text "relay://a") to_bob
      (text "browser") 7 (text "relay:a") (text "ann") (row 40000000000) bob_named refl refl

abbrev by_ann : By
by_ann = record { actor = text "ann"; source = text "browser"; now = 7 }

set_owner-handover_example :
    IsOwnersNow (text "relay:a") (text "bob") (set_owner fleet (text "relay:a") (text "bob") by_ann)
    × HasNoExit (text "a") (set_owner fleet (text "relay:a") (text "bob") by_ann).vpn
unfolding list_beq owner_at
set_owner-handover_example =
    set_owner-handover fleet (text "a") (text "bob") by_ann (row 40000000000) refl refl refl

forget_device-IsForgotten_example :
    IsForgotten
      (device_key (text "relay://a"))
      (text "a")
      (forget_device fleet (text "relay://a") by_ann (text "removed"))
    × HasNoExit (text "a") (forget_device fleet (text "relay://a") by_ann (text "removed")).vpn
unfolding relay_target strip_prefix trim_end_matches
forget_device-IsForgotten_example =
    forget_device-IsForgotten fleet (text "relay://a") (text "a") by_ann (text "removed") refl refl
