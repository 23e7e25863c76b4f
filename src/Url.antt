-- ===== src/Url.antt =====
-- crates/hub/src/main.rs: the query of a request's URL (`query_param`, `query_without`,
-- `percent_decode`, `urlencode`). A URL comes in as ASCII, so a text is the list of its bytes; what
-- `String::from_utf8_lossy` makes of the decoded bytes is left out.
mod RoundTrip
mod Examples
use haive_control.Prelude.{
  ℕ, ◌+◌, ◌/◌, ◌%◌, Bool, not, ◌&&◌, ◌||◌, Option, none, some, List, [], ◌∷◌, ◌++◌, Text, text,
  retain, leb, ltb, is_empty, starts_with, strip_prefix, second_part, split_from, join, ◌==◌,
  nat_eq, if◌then◌else◌,
}
use haive_control.Vpn.Ops.{hex_byte}

abbrev pub plain : ℕ → ℕ
plain c = if c == 43 then 32 else c

-- A percent sign and the two bytes behind it are one byte, if `u8::from_str_radix` takes them.
unfoldable pub percent_decode : List ℕ → List ℕ
percent_decode [] = []
percent_decode (c ∷ []) = plain c ∷ []
percent_decode (c ∷ a ∷ []) = plain c ∷ plain a ∷ []
percent_decode (c ∷ a ∷ b ∷ s) =
    let behind = percent_decode s in
    let rest = percent_decode (a ∷ b ∷ s) in
    if c == 37
    then elim (hex_byte a b) [ none ↦ plain c ∷ rest | some n ↦ n ∷ behind ]
    else plain c ∷ rest

unfoldable pub is_unreserved : ℕ → Bool
is_unreserved b =
    (leb 65 b && leb b 90)
    || ((leb 97 b && leb b 122)
        || ((leb 48 b && leb b 57) || (b == 45 || (b == 95 || (b == 46 || b == 126)))))

-- A digit of `{b:02X}`.
unfoldable pub hex_upper : ℕ → ℕ
hex_upper n = if ltb n 10 then 48 + n else 55 + n

unfoldable pub urlencode : List ℕ → Text
unfolding is_unreserved hex_upper
urlencode [] = []
urlencode (b ∷ s) =
    let rest = urlencode s in
    if is_unreserved b then b ∷ rest else 37 ∷ hex_upper (b / 16) ∷ hex_upper (b % 16) ∷ rest

-- The first value of the key among the parts of the query.
unfoldable pub value_in : Text → List Text → Option (List ℕ)
unfolding percent_decode
value_in key [] = none
value_in key (kv ∷ kvs) =
    let rest = value_in key kvs in
    elim (strip_prefix (key ++ text "=") kv) [ none ↦ rest | some v ↦ some (percent_decode v) ]

unfoldable pub query_param : Text → Text → Option (List ℕ)
unfolding value_in
query_param url key = elim (second_part (text "?") url) [
  | none ↦ none
  | some q ↦ value_in key (split_from 38 [] q)
]

unfoldable pub query_without : Text → Text → Text
query_without url drop = elim (second_part (text "?") url) [
  | none ↦ []
  | some q ↦ join (text "&") (
      retain (λ kv. not (starts_with (drop ++ text "=") kv) && not (is_empty kv))
        (split_from 38 [] q))
]
