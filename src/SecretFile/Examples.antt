-- ===== src/SecretFile/Examples.antt =====
-- A secret replaced in two pieces.
use haive_control.Prelude.{
  ℕ, ◌≡◌, refl, ◌⊎◌, true, none, some, Option, [], ◌∷◌, List, Text, text, take, lookup, list_beq,
  nat_eq, list_eq,
}
use haive_control.SecretFile.Files.{Files, run, crash}
use haive_control.SecretFile.Secret.{is_exposed, read_secret, secret, replace_ops, replace_secret}
use haive_control.SecretFile.Whole.{whole, Result, replace_ops-whole, replace_secret-Result}

abbrev files : Files
files = (text "t.json", record { mode = 0o644; content = text "old"; synced = true }) ∷ []

abbrev third : Option ℕ
third = some 3

abbrev pieces : List Text
pieces = text "ne" ∷ text "w" ∷ []

tightened : read_secret files (text "t.json") true true ≡ (
  (text "t.json", record { mode = 0o600; content = text "old"; synced = true }) ∷ [],
  secret (text "old"),
)
unfolding read_secret is_exposed list_beq
tightened = refl

-- A crash that empties what is not synced.
abbrev emptied : Text → Text → Text
emptied path content = []

abbrev after : ℕ → Files
after n = run files (take n (replace_ops (text "t.json") (text ".tmp") pieces))

replace_ops-whole_example :
    ((lookup (text "t.json") (after 5) ≡ lookup (text "t.json") files)
      ⊎ (lookup (text "t.json") (after 5) ≡ some (whole pieces)))
    × ((lookup (text "t.json") (crash emptied (after 5))
          ≡ lookup (text "t.json") (crash emptied files))
        ⊎ (lookup (text "t.json") (crash emptied (after 5)) ≡ some (whole pieces)))
unfolding list_beq
replace_ops-whole_example =
    replace_ops-whole files (text "t.json") (text ".tmp") pieces 5 emptied refl

replace_secret-Result_example :
    Result files
      (text "t.json")
      (text ".tmp")
      pieces
      (replace_secret files (text "t.json") (text ".tmp") pieces third)
    × (third ≡ none
        → lookup (text ".tmp") files ≡ none
        → (replace_secret files (text "t.json") (text ".tmp") pieces third).1 ≡ true)
unfolding list_beq
replace_secret-Result_example =
    replace_secret-Result files (text "t.json") (text ".tmp") pieces third refl
