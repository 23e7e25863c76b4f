-- ===== src/VpnRelay/Examples.antt =====
-- The relay at concrete inputs: one device, one phone, a stand-in for the hashes.
use haive_control.Prelude.{
  ℕ, zero, suc, ◌+◌, ◌%◌, ◌≡◌, ◌≢◌, refl, ap, true, some, List, [], ◌∷◌, ◌++◌, arith, text, inl,
  length, list_beq,
}
use haive_control.ConstantTime.{ct_eq}
use haive_control.VpnRelay.Frames.{
  Crypto, SocketAddr, v4, addr_eq, addr_beq, ip_beq, magic, t_hello, to_be, from_be, hmac_sha256,
  verify_hello, decode_data, encode_data, is_utf8,
}
use haive_control.VpnRelay.Table.{Dev, Session, Relay, expired}
use haive_control.VpnRelay.Route.{route_hello, route_data, route_in}
use haive_control.VpnRelay.RoundTrip.{decode_data-encode_data}
use haive_control.VpnRelay.Authentic.{IsSolicited, route_data-IsSolicited}
use haive_control.VpnRelay.Replay.{serve, hello_replay}
use haive_control.VpnRelay.Established.{Holds, route_in-Holds}
use haive_control.VpnRelay.Keys.{
  registers, removes, prunes, run, empty_relay, IsSound, run-IsSound, empty-IsSound,
}

abbrev repeat : ℕ → ℕ → List ℕ
repeat zero b = []
repeat (suc n) b = b ∷ repeat n b

abbrev sum : List ℕ → ℕ
sum [] = 0
sum (b ∷ bs) = b + sum bs

-- Not a hash: the bytes' sum, repeated.
abbrev toy : Crypto
toy = record {
  sha256 = λ m. repeat 32 (sum m % 256);
  blake2s256 = λ m. repeat 32 (sum m % 256);
  blake2s_mac = λ k m. some (repeat 16 ((sum k + sum m) % 256));
}

abbrev phone : SocketAddr
phone = record { ip = v4 (203 ∷ 0 ∷ 113 ∷ 5 ∷ []); port = 55555 }

abbrev exit_addr : SocketAddr
exit_addr = record { ip = v4 (198 ∷ 51 ∷ 100 ∷ 9 ∷ []); port = 40000 }

abbrev exit : Dev
exit = record {
  secret = text "s3cret";
  mac1_key = repeat 32 7;
  addr = some exit_addr;
  last_ts = 1000;
  last_seen = some 5000;
}

abbrev talking : Session
talking = record { device = text "hc-1"; last = 5000; answered = true }

abbrev table : Relay
table = record { devs = (text "hc-1", exit) ∷ []; sessions = (phone, talking) ∷ [] }

abbrev hello_frame : List ℕ → List ℕ → ℕ → List ℕ
hello_frame id secret ts =
    let body = magic ∷ t_hello ∷ (to_be 8 ts ++ (length id ∷ id)) in
    body ++ hmac_sha256 toy secret body

decode_data-encode_data_example :
    decode_data (encode_data phone (2 ∷ 0 ∷ 0 ∷ [])) ≡ some (phone, 2 ∷ 0 ∷ 0 ∷ [])
decode_data-encode_data_example =
    decode_data-encode_data phone (2 ∷ 0 ∷ 0 ∷ []) (record { octets = refl; port = omega arith })

route_data_runs :
    (route_data table (encode_data phone (2 ∷ 9 ∷ [])) exit_addr 6000).1 ≡ (phone, 2 ∷ 9 ∷ []) ∷ []
unfolding route_data encode_data decode_data addr_beq ip_beq list_beq from_be
route_data_runs = refl

route_data-IsSolicited_example :
    IsSolicited table exit_addr phone 6000
    × (decode_data (encode_data phone (2 ∷ 9 ∷ [])) ≡ some (phone, 2 ∷ 9 ∷ []))
unfolding route_data encode_data decode_data addr_beq ip_beq list_beq from_be
route_data-IsSolicited_example =
    route_data-IsSolicited table (encode_data phone (2 ∷ 9 ∷ [])) exit_addr phone (2 ∷ 9 ∷ []) 6000
      (inl refl)

hello_answered :
    (route_hello toy table (hello_frame (text "hc-1") (text "s3cret") 2000) exit_addr 6000 2500).1
    ≢ []
unfolding route_hello verify_hello hmac_sha256 ct_eq is_utf8 from_be to_be list_beq
hello_answered h = cc

hello_replay_example :
    route_hello toy
      (serve toy
        (route_hello toy table
          (hello_frame (text "hc-1") (text "s3cret") 2000)
          exit_addr
          6000
          2500).0
        [])
      (hello_frame (text "hc-1") (text "s3cret") 2000)
      phone
      7000
      2600
    ≡ (
      serve toy
          (route_hello toy table
            (hello_frame (text "hc-1") (text "s3cret") 2000)
            exit_addr
            6000
            2500).0
          [],
      [],
    )
hello_replay_example =
    hello_replay toy table (hello_frame (text "hc-1") (text "s3cret") 2000) exit_addr phone 6000
      7000 2500 2600 [] hello_answered

route_in-Holds_example :
    Holds phone talking (route_in toy table (1 ∷ 0 ∷ 0 ∷ 0 ∷ []) exit_addr 6000 2500).0.sessions
unfolding expired addr_beq ip_beq list_beq
route_in-Holds_example =
    route_in-Holds phone exit_addr (λ e. omega (arith, ap (λ (a : SocketAddr). a.port) e)) talking
      6000 table (refl, tt) refl refl refl toy (1 ∷ 0 ∷ 0 ∷ 0 ∷ []) 2500

run-IsSound_example : IsSound (
    run toy empty_relay (
      registers (text "hc-1") (text "s3cret") (repeat 32 7)
      ∷ prunes 10
      ∷ removes (text "hc-1")
      ∷ []))
run-IsSound_example =
    run-IsSound toy empty_relay
      (registers (text "hc-1") (text "s3cret") (repeat 32 7)
        ∷ prunes 10
        ∷ removes (text "hc-1")
        ∷ [])
      empty-IsSound
