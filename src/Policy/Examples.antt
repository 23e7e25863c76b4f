-- ===== src/Policy/Examples.antt =====
-- A policy at a concrete command.
use haive_control.Prelude.{
  ◌≡◌, ◌↔◌, refl, true, [], ◌∷◌, text, is_some, list_beq, nat_eq, starts_with, contains_text,
}
use haive_control.Policy.{Policy, enforce}
use haive_control.Policy.Denied.{IsDenied, enforce-IsDenied}

abbrev no_wipe : Policy
no_wipe = record {
  deny_actions = [];
  deny_patterns = text "rm -RF" ∷ [];
  require_approval = text "exec" ∷ [];
}

wipe_refused : is_some (enforce no_wipe (text "exec") (text "sudo rm -rf /")) ≡ true
unfolding enforce contains_text starts_with list_beq
wipe_refused = refl

enforce-IsDenied_example :
    (is_some (enforce no_wipe (text "exec") (text "sudo rm -rf /")) ≡ true)
    ↔ IsDenied no_wipe (text "exec") (text "sudo rm -rf /")
enforce-IsDenied_example = enforce-IsDenied no_wipe (text "exec") (text "sudo rm -rf /")
