-- ===== src/Prelude/Split.antt =====
-- Texts taken apart at a separator, numbers written in decimal, and the order of texts.
use Prim.Native.Nat.{ℕ, zero, suc, ◌+◌, ◌-◌, ◌*◌, ◌/◌, ◌%◌, ◌^◌}
use mathlib.Core.Bool.{Bool, true, false, ◌&&◌, ◌||◌}
use mathlib.Core.List.{List, [], ◌∷◌, ◌++◌, reverse}
use mathlib.Core.Option.{Option, none, some}
use haive_control.Prelude.Tests.{◌==◌, ltb, leb, filter_some, if◌then◌else◌, nat_eq}
use haive_control.Prelude.Lists.{length}
use haive_control.Prelude.Texts.{Text, is_empty, starts_with, strip_prefix, trim_end_by}

-- `split` at a character, with the letters of the current part in front, backwards.
unfoldable pub split_from : ℕ → Text → Text → List Text
split_from d acc [] = reverse acc ∷ []
split_from d acc (c ∷ s) =
    let rest = split_from d (if c == d then [] else c ∷ acc) s in
    if c == d then reverse acc ∷ rest else rest

-- `str::split_once`.
unfoldable pub split_once : Text → Text → Option (Text × Text)
unfolding strip_prefix
split_once sep [] = none
split_once sep (c ∷ s) =
    let rest = split_once sep s in
    elim (strip_prefix sep (c ∷ s)) [
      | some r ↦ some ([], r)
      | none ↦ elim rest [ none ↦ none | some (a, b) ↦ some (c ∷ a, b) ]
    ]

-- `split(sep).next()`: what stands in front of the first separator.
unfoldable pub before : Text → Text → Text
unfolding split_once
before sep s = elim (split_once sep s) [ none ↦ s | some (a, b) ↦ a ]

-- `split(sep).nth(1)`.
unfoldable pub second_part : Text → Text → Option Text
unfolding before
second_part sep s = elim (split_once sep s) [ none ↦ none | some (a, b) ↦ some (before sep b) ]

-- `trim_end_matches` of a character.
unfoldable pub trim_end_matches : ℕ → Text → Text
trim_end_matches d s = trim_end_by (λ c. c == d) s

-- The decimal digits of a number, on fuel; a number is below 10 to itself and one.
unfoldable pub digits_from : ℕ → ℕ → Text → Text
digits_from zero n acc = acc
digits_from (suc f) n acc =
    let rest = digits_from f (n / 10) ((48 + n % 10) ∷ acc) in
    if ltb n 10 then (48 + n) ∷ acc else rest

-- `format!("{n}")`.
unfoldable pub decimal : ℕ → Text
unfolding digits_from
decimal n = digits_from (suc n) n []

-- `<` of texts: code points are ordered as their UTF-8 bytes.
unfoldable pub text_ltb : Text → Text → Bool
text_ltb [] [] = false
text_ltb [] (d ∷ t) = true
text_ltb (c ∷ s) [] = false
text_ltb (c ∷ s) (d ∷ t) = ltb c d || (c == d && text_ltb s t)

-- `join` of `Vec<String>`.
unfoldable pub join : Text → List Text → Text
join sep [] = []
join sep (x ∷ []) = x
join sep (x ∷ y ∷ xs) = x ++ (sep ++ join sep (y ∷ xs))

-- `parse::<u64>`: a plus sign is taken; what is 2 to the 64th or more is not.
unfoldable pub digits_value : ℕ → Text → Option ℕ
digits_value n [] = some n
digits_value n (c ∷ s) =
    let rest = digits_value (n * 10 + (c - 48)) s in if leb 48 c && leb c 57 then rest else none

unfoldable pub without_plus : Text → Text
without_plus [] = []
without_plus (c ∷ s) = if c == 43 then s else c ∷ s

unfoldable pub parse_u64 : Text → Option ℕ
unfolding digits_value without_plus
parse_u64 s =
    let t = without_plus s in
    if is_empty t then none else filter_some (λ n. ltb n (2 ^ 64)) (digits_value 0 t)

-- `str::replace` of a text, behind what a match still covers.
unfoldable pub replace_from : Text → Text → ℕ → Text → Text
unfolding starts_with
replace_from needle new skip [] = []
replace_from needle new (suc skip) (c ∷ s) = replace_from needle new skip s
replace_from needle new zero (c ∷ s) =
    let behind = replace_from needle new (length needle - 1) s in
    let rest = replace_from needle new zero s in
    if starts_with needle (c ∷ s) then new ++ behind else c ∷ rest

unfoldable pub replace_text : Text → Text → Text → Text
unfolding replace_from
replace_text needle new s = replace_from needle new 0 s

-- What a `u64` keeps of a number in a release build.
abbrev pub wrap : ℕ → ℕ
wrap n = n % 2 ^ 64
