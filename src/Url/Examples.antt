-- ===== src/Url/Examples.antt =====
-- Queries at concrete texts.
use haive_control.Prelude.{
  ◌≡◌, refl, arith, some, [], ◌∷◌, text, strip_prefix, starts_with, second_part, split_once, before,
  split_from, join, nat_eq, list_eq,
}
use haive_control.Vpn.Ops.{hex_byte, hex_digit}
use haive_control.Url.{percent_decode, urlencode, value_in, query_param, query_without}
use haive_control.Url.RoundTrip.{percent_decode-urlencode}

param_decoded :
    query_param (text "/m/sys?kind=av&arg=a%20b+c%2") (text "arg") ≡ some (text "a b c%2")
unfolding query_param value_in percent_decode hex_byte hex_digit strip_prefix second_part split_once
    before split_from
param_decoded = refl

-- A plus sign counts as a digit's sign.
plus_is_taken : percent_decode (text "%+f") ≡ 15 ∷ []
unfolding percent_decode hex_byte hex_digit
plus_is_taken = refl

param_dropped : query_without (text "/x?target=a&&to=b&target=c") (text "target") ≡ text "to=b"
unfolding query_without starts_with second_part split_once before split_from join strip_prefix
param_dropped = refl

percent_decode-urlencode_example :
    percent_decode (urlencode (37 ∷ 200 ∷ 43 ∷ 65 ∷ [])) ≡ 37 ∷ 200 ∷ 43 ∷ 65 ∷ []
percent_decode-urlencode_example =
    percent_decode-urlencode (37 ∷ 200 ∷ 43 ∷ 65 ∷ [])
      (omega arith, (omega arith, (omega arith, (omega arith, tt))))
