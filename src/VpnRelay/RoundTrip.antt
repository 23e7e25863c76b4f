-- ===== src/VpnRelay/RoundTrip.antt =====
-- DATA frames of crates/hub/src/vpnrelay.rs: `encode_data` with `decode_data`.
use haive_control.Prelude.{
  ℕ, zero, suc, ◌+◌, ◌<◌, ◌≡◌, refl, ap, true, some, List, [], ◌∷◌, ◌++◌, arith, length, take, drop,
  leb, nat_eq, length-append,
}
use haive_control.VpnRelay.Frames.{
  IpAddr, v4, v6, SocketAddr, from_be, to_be, encode_ip, encode_data, decode_rest, decode_ip,
  decode_data,
}

-- What every `SocketAddr` of the source satisfies: the octets of its family, and a `u16` port.
abbrev pub ip_bytes : IpAddr → ℕ
ip_bytes (v4 octets) = 4
ip_bytes (v6 octets) = 16

abbrev pub octets_of : IpAddr → List ℕ
octets_of (v4 octets) = octets
octets_of (v6 octets) = octets

pub record IsAddr (a : SocketAddr) : Type 0 where
  pub octets : length (octets_of a.ip) ≡ ip_bytes a.ip
  pub port : a.port < 65536

take-append {ℓ} : {A : Type ℓ} (xs ys : List A) (n : ℕ) → length xs ≡ n → take n (xs ++ ys) ≡ xs
take-append [] ys zero h = refl
take-append [] ys (suc n) h = absurd (omega arith)
take-append (x ∷ xs) ys zero h = absurd (omega arith)
take-append (x ∷ xs) ys (suc n) h = ap (◌∷◌ x) (take-append xs ys n (omega arith))

drop-append {ℓ} : {A : Type ℓ} (xs ys : List A) (n : ℕ) → length xs ≡ n → drop n (xs ++ ys) ≡ ys
drop-append [] ys zero h = refl
drop-append [] ys (suc n) h = absurd (omega arith)
drop-append (x ∷ xs) ys zero h = absurd (omega arith)
drop-append (x ∷ xs) ys (suc n) h = drop-append xs ys n (omega arith)

decode_rest-port :
    (ip : IpAddr) (port : ℕ) (payload : List ℕ)
    → port < 65536
    → decode_rest ip (to_be 2 port ++ payload) ≡ some (record { ip = ip; port = port }, payload)
unfolding decode_rest to_be from_be
decode_rest-port ip port payload h = ground arith

length-to_be_two : (x : ℕ) → length (to_be 2 x) ≡ 2
unfolding to_be
length-to_be_two x = refl

long_enough :
    (octets payload : List ℕ) (port n : ℕ)
    → length octets ≡ n
    → leb (n + 2) (length (octets ++ (to_be 2 port ++ payload))) ≡ true
long_enough octets payload port n l = ground (
  arith,
  length-append octets (to_be 2 port ++ payload),
  length-append (to_be 2 port) payload,
  length-to_be_two port,
)

decode_ip-v4 :
    (octets : List ℕ) (port : ℕ) (payload : List ℕ)
    → length octets ≡ 4
    → port < 65536
    → decode_ip 4 (octets ++ (to_be 2 port ++ payload))
      ≡ some (record { ip = v4 octets; port = port }, payload)
unfolding decode_ip
decode_ip-v4 octets port payload l h =
    rw
      (
        long_enough octets payload port 4 l,
        take-append octets (to_be 2 port ++ payload) 4 l,
        drop-append octets (to_be 2 port ++ payload) 4 l,
      )
      (decode_rest-port (v4 octets) port payload h)

decode_ip-v6 :
    (octets : List ℕ) (port : ℕ) (payload : List ℕ)
    → length octets ≡ 16
    → port < 65536
    → decode_ip 6 (octets ++ (to_be 2 port ++ payload))
      ≡ some (record { ip = v6 octets; port = port }, payload)
unfolding decode_ip
decode_ip-v6 octets port payload l h =
    rw
      (
        long_enough octets payload port 16 l,
        take-append octets (to_be 2 port ++ payload) 16 l,
        drop-append octets (to_be 2 port ++ payload) 16 l,
      )
      (decode_rest-port (v6 octets) port payload h)

decode_data-of_parts :
    (ip : IpAddr) (port : ℕ) (payload : List ℕ)
    → length (octets_of ip) ≡ ip_bytes ip
    → port < 65536
    → decode_data (encode_data (record { ip = ip; port = port }) payload)
      ≡ some (record { ip = ip; port = port }, payload)
unfolding decode_data encode_data encode_ip
decode_data-of_parts (v4 octets) port payload l h = decode_ip-v4 octets port payload l h
decode_data-of_parts (v6 octets) port payload l h = decode_ip-v6 octets port payload l h

-- A frame for any address with any payload is read back as that address and that payload.
pub decode_data-encode_data :
    (a : SocketAddr) (payload : List ℕ)
    → IsAddr a
    → decode_data (encode_data a payload) ≡ some (a, payload)
decode_data-encode_data a payload v = decode_data-of_parts a.ip a.port payload v.octets v.port
