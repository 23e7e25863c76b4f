-- ===== src/Analysis/Posture.antt =====
-- crates/hub/src/main.rs: the security checks of a device and their grade (`posture_pass`, `grade`,
-- `analysis_compliance`, `compliance_export_ep`). `str::to_lowercase` is a parameter.
use haive_control.Prelude.{
  ℕ, ◌+◌, ◌*◌, Bool, false, not, ◌&&◌, ◌||◌, none, some, List, [], ◌∷◌, ◌++◌, map, Text, text,
  count_if, leb, is_some, contains_text, Map, lookup, decimal, join, find, ◌==◌, nat_eq, list_eq,
  if◌then◌else◌,
}
use haive_control.Commands.Readonly.{split_whitespace}

-- `str::lines`, counted: a line end behind the last line adds none.
unfoldable pub line_count : Text → ℕ
line_count [] = 0
line_count (c ∷ []) = 1
line_count (c ∷ d ∷ s) = if c == 10 then 1 + line_count (d ∷ s) else line_count (d ∷ s)

unfoldable pub posture_pass : (Text → Text) → Text → Text → Bool
unfolding split_whitespace join line_count
posture_pass to_lowercase kind out =
    let n = join (text " ") (split_whitespace (to_lowercase out)) in
    let has = λ (s : Text). contains_text s n in
    if kind == text "encryption"
    then has (text "filevault is on")
      || (has (text "protection on")
          || (has (text "percentage encrypted: 100") || has (text "crypt")))
    else if kind == text "firewall"
    then (has (text "state on") && not (has (text "state off")))
      || (has (text "state = 1")
          || (has (text "firewall is enabled")
              || (has (text "status: active") || has (text "ufw is active"))))
    else if kind == text "av"
    then has (text "antivirusenabled : true")
      || (has (text "realtimeprotectionenabled : true") || has (text "assessments enabled"))
    else if kind == text "updates"
    then has (text "no new software")
      || (has (text "no applicable")
          || (has (text "no installed package") || leb (line_count out) 2))
    else false

unfoldable pub grade : ℕ → Text
grade score =
    if leb 90 score
    then text "A"
    else if leb 75 score
    then text "B"
    else if leb 50 score
    then text "C"
    else if leb 25 score
    then text "D"
    else text "F"

-- A device's sections, each with its text and its time.
abbrev pub Sections : Type 0
Sections = Map Text (Text × ℕ)

pub record Item : Type 0 where
  pub check : Text
  pub kind : Text
  pub pass : Bool
  pub have : Bool

pub record Compliance : Type 0 where
  pub score : ℕ
  pub grade : Text
  pub checks : List Item

unfoldable pub checks : List (Text × Text)
checks =
    (text "disk encryption", text "encryption")
    ∷ (text "firewall", text "firewall")
    ∷ (text "antivirus", text "av")
    ∷ (text "OS updates", text "updates")
    ∷ []

unfoldable pub item_of : (Text → Text) → Sections → Text × Text → Item
item_of to_lowercase sections (label, k) = record {
  check = label;
  kind = k;
  pass = elim (lookup k sections) [ none ↦ false | some (s, at) ↦ posture_pass to_lowercase k s ];
  have = is_some (lookup k sections);
}

-- A fourth of the checks is 25 in the hundred, which the source rounds to.
unfoldable pub analysis_compliance : (Text → Text) → Sections → Compliance
unfolding item_of checks
analysis_compliance to_lowercase sections =
    let items = map (item_of to_lowercase sections) checks in
    let score = count_if (λ (i : Item). i.pass) items * 25 in
    record { score = score; grade = grade score; checks = items }

unfoldable pub cell : Compliance → Text → Text
cell c kind = elim (find (λ (i : Item). i.kind == kind) c.checks) [
  | none ↦ text "n/a"
  | some i ↦ if i.pass then text "PASS" else if i.have then text "FAIL" else text "n/a"
]

-- A text in quotes, with its own quotes doubled.
unfoldable pub doubled : Text → Text
doubled [] = []
doubled (c ∷ s) = let rest = doubled s in if c == 34 then 34 ∷ 34 ∷ rest else c ∷ rest

abbrev pub quoted : Text → Text
quoted s = 34 ∷ (doubled s ++ (34 ∷ []))

-- A line of the export.
unfoldable pub csv_line : (Text → Text) → Text → Text → Sections → Text
unfolding analysis_compliance cell
csv_line to_lowercase name platform sections =
    let c = analysis_compliance to_lowercase sections in
    join (text ",") (
      quoted name
      ∷ quoted platform
      ∷ c.grade
      ∷ decimal c.score
      ∷ map (λ (x : Text × Text). cell c x.1) checks)
    ++ (10 ∷ [])
