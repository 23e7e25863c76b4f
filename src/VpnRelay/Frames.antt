-- ===== src/VpnRelay/Frames.antt =====
-- crates/hub/src/vpnrelay.rs: the wire format (`hmac_sha256`, `initiation_matches`, `encode_data`,
-- `decode_data`, `verify_hello`). Bytes are numbers; a device id is its UTF-8 bytes.
-- The hashes of the sha2 and blake2 crates are the parameter `Crypto`.
use Prim.Native.Nat.{bit_xor}
use haive_control.Prelude.{
  ℕ, zero, suc, ◌+◌, ◌*◌, ◌/◌, ◌%◌, ◌^◌, ◌≡◌, Bool, true, false, ◌&&◌, ◌||◌, Option, none, some,
  List, [], ◌∷◌, ◌++◌, arith, length, take, drop, leb, ltb, ◌==◌, Eq, nat_eq, list_eq, text,
  if◌then◌else◌, not, ◌↔◌, ==_iff,
}
use haive_control.ConstantTime.{ct_eq}

pub record Crypto : Type 0 where
  pub sha256 : List ℕ → List ℕ
  pub blake2s256 : List ℕ → List ℕ
  -- A keyed BLAKE2s MAC; `none` on a key of a length that it does not take.
  pub blake2s_mac : List ℕ → List ℕ → Option (List ℕ)

pub data IpAddr : Type 0 where
  v4 : List ℕ → IpAddr
  v6 : List ℕ → IpAddr

pub record SocketAddr : Type 0 where
  pub ip : IpAddr
  pub port : ℕ

unfoldable pub ip_beq : IpAddr → IpAddr → Bool
ip_beq (v4 a) (v4 b) = a == b
ip_beq (v4 a) (v6 b) = false
ip_beq (v6 a) (v4 b) = false
ip_beq (v6 a) (v6 b) = a == b

pub ip_beq_iff : (a b : IpAddr) → (ip_beq a b ≡ true) ↔ (a ≡ b)
unfolding ip_beq
ip_beq_iff (v4 a) (v4 b) = ground (arith, ==_iff a b)
ip_beq_iff (v4 a) (v6 b) = ground arith
ip_beq_iff (v6 a) (v4 b) = ground arith
ip_beq_iff (v6 a) (v6 b) = ground (arith, ==_iff a b)

instance abbrev pub ip_eq : Eq IpAddr
ip_eq = record { equal = ip_beq; equal_iff = ip_beq_iff }

unfoldable pub addr_beq : SocketAddr → SocketAddr → Bool
addr_beq a b = a.ip == b.ip && a.port == b.port

pub addr_beq_iff : (a b : SocketAddr) → (addr_beq a b ≡ true) ↔ (a ≡ b)
unfolding addr_beq
addr_beq_iff a b = ground (arith, ==_iff a.ip b.ip)

instance abbrev pub addr_eq : Eq SocketAddr
addr_eq = record { equal = addr_beq; equal_iff = addr_beq_iff }

-- MAGIC, T_HELLO, T_ACK, T_DATA.
abbrev pub magic : ℕ
magic = 0xF0

abbrev pub t_hello : ℕ
t_hello = 1

abbrev pub t_ack : ℕ
t_ack = 2

abbrev pub t_data : ℕ
t_data = 3

-- `from_be_bytes`, and `to_be_bytes` of a number that takes `n` bytes.
unfoldable pub from_be : ℕ → List ℕ → ℕ
from_be acc [] = acc
from_be acc (b ∷ bs) = from_be (acc * 256 + b) bs

unfoldable pub to_be : ℕ → ℕ → List ℕ
to_be zero x = []
to_be (suc n) x = x / 256 ^ n % 256 ∷ to_be n x

-- `Iterator::zip` with an exclusive or, as the key is mixed into a pad.
xor_into : ℕ → List ℕ → ℕ → List ℕ
xor_into pad k zero = []
xor_into pad [] (suc n) = bit_xor pad 0 ∷ xor_into pad [] n
xor_into pad (b ∷ k) (suc n) = bit_xor pad b ∷ xor_into pad k n

unfoldable pub hmac_sha256 : Crypto → List ℕ → List ℕ → List ℕ
unfolding xor_into
hmac_sha256 c key msg =
    let k = if ltb 64 (length key) then take 32 (c.sha256 key) else key in
    let inner = c.sha256 (xor_into 0x36 k 64 ++ msg) in c.sha256 (xor_into 0x5c k 64 ++ inner)

unfoldable pub mac1_key : Crypto → List ℕ → List ℕ
mac1_key c server_pubkey = c.blake2s256 (text "mac1----" ++ server_pubkey)

-- The four bytes that a WireGuard packet begins with: its type and three zeros.
unfoldable pub wireguard_type : List ℕ → Option ℕ
wireguard_type (t ∷ a ∷ b ∷ c ∷ rest) = if a == 0 && (b == 0 && c == 0) then some t else none
wireguard_type _ = none

unfoldable pub initiation_matches : Crypto → List ℕ → List ℕ → Bool
unfolding wireguard_type
initiation_matches c pkt key =
    if not (length pkt == 148) then false else elim (wireguard_type pkt) [
      | none ↦ false
      | some t ↦ t == 1 && (elim (c.blake2s_mac key (take 116 pkt)) [
        | none ↦ false
        | some m ↦ ct_eq m (take 16 (drop 116 pkt))
      ])
    ]

unfoldable pub encode_ip : IpAddr → List ℕ
encode_ip (v4 octets) = 4 ∷ octets
encode_ip (v6 octets) = 6 ∷ octets

unfoldable pub encode_data : SocketAddr → List ℕ → List ℕ
unfolding encode_ip to_be
encode_data client payload =
    magic ∷ t_data ∷ (encode_ip client.ip ++ (to_be 2 client.port ++ payload))

-- The port and the payload behind the address.
unfoldable pub decode_rest : IpAddr → List ℕ → Option (SocketAddr × List ℕ)
decode_rest ip (hi ∷ lo ∷ payload) =
    some (record { ip = ip; port = from_be 0 (hi ∷ lo ∷ []) }, payload)
decode_rest ip _ = none

unfoldable pub decode_ip : ℕ → List ℕ → Option (SocketAddr × List ℕ)
unfolding decode_rest
decode_ip fam rest =
    if fam == 4 && leb 6 (length rest)
    then decode_rest (v4 (take 4 rest)) (drop 4 rest)
    else if fam == 6 && leb 18 (length rest)
    then decode_rest (v6 (take 16 rest)) (drop 16 rest)
    else none

unfoldable pub decode_data : List ℕ → Option (SocketAddr × List ℕ)
unfolding decode_ip
decode_data (m ∷ t ∷ fam ∷ rest) = if m == magic && t == t_data then decode_ip fam rest else none
decode_data _ = none

-- `str::from_utf8` succeeds: the number of continuation bytes that are due, and the range of the next.
unfoldable pub utf8_next : ℕ → ℕ → ℕ → ℕ → Option (ℕ × ℕ × ℕ)
utf8_next (suc due) lo hi b = if leb lo b && leb b hi then some (due, 0x80, 0xBF) else none
utf8_next zero lo hi b =
    if ltb b 0x80
    then some (0, 0x80, 0xBF)
    else if leb 0xC2 b && leb b 0xDF
    then some (1, 0x80, 0xBF)
    else if b == 0xE0
    then some (2, 0xA0, 0xBF)
    else if b == 0xED
    then some (2, 0x80, 0x9F)
    else if leb 0xE1 b && leb b 0xEF
    then some (2, 0x80, 0xBF)
    else if b == 0xF0
    then some (3, 0x90, 0xBF)
    else if leb 0xF1 b && leb b 0xF3
    then some (3, 0x80, 0xBF)
    else if b == 0xF4
    then some (3, 0x80, 0x8F)
    else none

unfoldable pub utf8_from : ℕ → ℕ → ℕ → List ℕ → Bool
unfolding utf8_next
utf8_from due lo hi [] = due == 0
utf8_from due lo hi (b ∷ bs) = elim (utf8_next due lo hi b) [
  | none ↦ false
  | some (d, l, h) ↦ utf8_from d l h bs
]

unfoldable pub is_utf8 : List ℕ → Bool
unfolding utf8_from
is_utf8 = utf8_from 0 0x80 0xBF

-- The part of a HELLO behind its two type bytes, once its length is known to fit.
unfoldable pub hello_body : List ℕ → ℕ → List ℕ
hello_body f idlen = take (11 + idlen) f

unfoldable pub verify_hello : Crypto → List ℕ → (List ℕ → Option (List ℕ)) → Option (List ℕ × ℕ)
unfolding hello_body
verify_hello c (m ∷ t ∷ rest) secret_for =
    let f = m ∷ t ∷ rest in
    let ts = from_be 0 (take 8 rest) in
    let idlen = from_be 0 (take 1 (drop 8 rest)) in
    let id = take idlen (drop 9 rest) in
    if ltb (length f) 43 || not (m == magic && t == t_hello)
    then none
    else if not (length f == 11 + idlen + 32)
    then none
    else if not (is_utf8 id)
    then none
    else elim (secret_for id) [
      | none ↦ none
      | some secret ↦
          if ct_eq (hmac_sha256 c secret (hello_body f idlen)) (drop (11 + idlen) f)
          then some (id, ts)
          else none
    ]
verify_hello c _ secret_for = none
