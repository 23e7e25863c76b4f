-- ===== src/Analysis/Examples.antt =====
-- Reports of one device, at concrete texts; the stand-in for `to_lowercase` does so in ASCII.
use haive_control.Prelude.{
  ◌≡◌, refl, true, none, some, [], ◌∷◌, text, to_ascii_lowercase, contains_text, starts_with,
  is_whitespace, join, list_beq, decimal, digits_from, nat_eq, list_eq,
}
use haive_control.Commands.Readonly.{split_whitespace, words_from}
use haive_control.Analysis.Posture.{
  Sections, posture_pass, grade, checks, item_of, analysis_compliance, cell, csv_line, doubled,
  line_count,
}
use haive_control.Analysis.Updates.{
  Row, needs_update, target_of, stale_of, stale_rows, push_stale, auto_update_pass,
}
use haive_control.Analysis.Graded.{IsGraded, analysis_compliance-IsGraded}

firewall_spaces :
    posture_pass to_ascii_lowercase (text "firewall") (text "State                 ON") ≡ true
unfolding posture_pass split_whitespace words_from is_whitespace join contains_text starts_with
    list_beq
firewall_spaces = refl

-- A disk that is not encrypted passes.
decrypted_passes :
    posture_pass to_ascii_lowercase
      (text "encryption")
      (text "Percentage Encrypted: 0.0% Protection Off")
    ≡ true
unfolding posture_pass split_whitespace words_from is_whitespace join contains_text starts_with
    list_beq
decrypted_passes = refl

abbrev sections : Sections
sections =
    (text "encryption", (text "FileVault is On.", 5))
    ∷ (text "av", (text "assessments enabled", 5))
    ∷ []

half_graded :
    csv_line to_ascii_lowercase (text "a\"b") (text "macos") sections
    ≡ text "\"a\"\"b\",\"macos\",C,50,PASS,n/a,PASS,n/a\n"
unfolding csv_line analysis_compliance checks item_of cell grade doubled decimal digits_from
    posture_pass split_whitespace words_from is_whitespace join contains_text starts_with list_beq
    line_count
half_graded = refl

abbrev row : Row
row = record {
  agent_version = some (text "1.0");
  platform = some (text "linux");
  arch = none;
  scheme = some (text "relay");
  ip = some (text "a");
  port = 0;
}

-- The second row of a device waits for five minutes.
pushed_once :
    (auto_update_pass (text "auto") (text "1.1") [] 1000 (row ∷ row ∷ [])).1
    ≡ record { target = text "relay://a"; platform = text "linux"; arch = [] } ∷ []
unfolding auto_update_pass stale_rows stale_of needs_update target_of push_stale list_beq
pushed_once = refl

analysis_compliance-IsGraded_example :
    IsGraded to_ascii_lowercase sections (analysis_compliance to_ascii_lowercase sections)
analysis_compliance-IsGraded_example = analysis_compliance-IsGraded to_ascii_lowercase sections
