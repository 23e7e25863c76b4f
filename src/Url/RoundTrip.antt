-- ===== src/Url/RoundTrip.antt =====
-- crates/hub/src/main.rs: `percent_decode` behind `urlencode`.
use haive_control.Prelude.{
  ℕ, ◌+◌, ◌*◌, ◌/◌, ◌%◌, ◌≡◌, ◌<◌, refl, ap, ◌∙◌, inl, inr, true, false, some, List, [], ◌∷◌, arith,
  All, Bool-cases, ◌==◌, nat_eq,
}
use haive_control.Vpn.Ops.{hex_digit, hex_byte}
use haive_control.Url.{plain, percent_decode, is_unreserved, hex_upper, urlencode}

hex_digit-hex_upper : (n : ℕ) → n < 16 → hex_digit (hex_upper n) ≡ some n
unfolding hex_digit hex_upper
hex_digit-hex_upper n h = ground arith

no_plus : (n : ℕ) → n < 16 → (hex_upper n == 43) ≡ false
unfolding hex_upper
no_plus n h = ground arith

hex_byte-hex_upper : (b : ℕ) → b < 256 → hex_byte (hex_upper (b / 16)) (hex_upper (b % 16)) ≡ some b
unfolding hex_byte
hex_byte-hex_upper b h =
    let high : b / 16 < 16 = omega arith in
    let low : b % 16 < 16 = omega arith in
    let whole : b / 16 * 16 + b % 16 ≡ b = omega arith in
    rw (no_plus (b / 16) high)
      (rw (hex_digit-hex_upper (b / 16) high, hex_digit-hex_upper (b % 16) low) (ap some whole))

decode-plain :
    (c : ℕ) (s : List ℕ) → (c == 37) ≡ false → percent_decode (c ∷ s) ≡ plain c ∷ percent_decode s
unfolding percent_decode
decode-plain c [] n = refl
decode-plain c (a ∷ []) n = refl
decode-plain c (a ∷ b ∷ s) n = rw n refl

decode-byte :
    (b : ℕ) (s : List ℕ)
    → b < 256
    → percent_decode (37 ∷ hex_upper (b / 16) ∷ hex_upper (b % 16) ∷ s) ≡ b ∷ percent_decode s
unfolding percent_decode
decode-byte b s small = rw (hex_byte-hex_upper b small) refl

is_unreserved-plain : (b : ℕ) → is_unreserved b ≡ true → ((b == 37) ≡ false) × ((b == 43) ≡ false)
unfolding is_unreserved
is_unreserved-plain b t = (ground (arith, t), ground (arith, t))

-- Decoding what `urlencode` makes of bytes, each below 256, gives these bytes back.
pub percent_decode-urlencode :
    (bs : List ℕ) → All (λ b. b < 256) bs → percent_decode (urlencode bs) ≡ bs
unfolding urlencode percent_decode
percent_decode-urlencode [] small = refl
percent_decode-urlencode (b ∷ bs) (small, rest) =
    let ih = percent_decode-urlencode bs rest in
    elim (Bool-cases (is_unreserved b)) [
      | inl t ↦ rw t (
          decode-plain b (urlencode bs) (is_unreserved-plain b t).0
          ∙ (rw (is_unreserved-plain b t).1 (ap (λ l. b ∷ l) ih)))
      | inr n ↦ rw n (decode-byte b (urlencode bs) small ∙ ap (λ l. b ∷ l) ih)
    ]
