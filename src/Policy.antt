-- ===== src/Policy.antt =====
-- crates/hub/src/policy.rs: the policy that every write action passes. The file, read anew on every
-- check, is an argument, parsed. Denied has the law, Examples its tests.
mod Denied
mod Examples
use haive_control.Prelude.{
  Bool, true, false, not, ◌&&◌, ◌||◌, Option, none, some, List, [], ◌∷◌, ◌++◌, Text, text, find,
  any, is_empty, is_some, contains_text, to_ascii_lowercase, unwrap_or, Map, lookup, ◌==◌, nat_eq,
  list_eq, if◌then◌else◌,
}

pub record Policy : Type 0 where
  pub deny_actions : List Text
  pub deny_patterns : List Text
  pub require_approval : List Text

pub data Decision : Type 0 where
  allow : Decision
  deny : Text → Decision
  need_approval : Text → Decision

unfoldable pub eq_ignore_ascii_case : Text → Text → Bool
eq_ignore_ascii_case a b = to_ascii_lowercase a == to_ascii_lowercase b

-- A pattern that is not empty and stands in the text.
abbrev pub matches : Text → Text → Bool
matches hay pat = not (is_empty pat) && contains_text (to_ascii_lowercase pat) hay

unfoldable pub hay_of : Text → Text → Text
hay_of kind detail = to_ascii_lowercase kind ++ (text " " ++ to_ascii_lowercase detail)

unfoldable pub check : Policy → Text → Text → Decision
unfolding eq_ignore_ascii_case hay_of
check p kind detail =
    let k = to_ascii_lowercase kind in
    if any (λ a. eq_ignore_ascii_case a k) p.deny_actions
    then deny (text "action '" ++ (kind ++ text "' is blocked by hub policy"))
    else elim (find (matches (hay_of kind detail)) p.deny_patterns) [
      | some pat ↦ deny (text "command blocked by hub policy (matched '" ++ (pat ++ text "')"))
      | none ↦
          if any (λ a. eq_ignore_ascii_case a k) p.require_approval
          then need_approval (text "action '" ++ (kind ++ text "' requires approval by hub policy"))
          else allow
    ]

-- `Ok` is `none`, an error its reason.
unfoldable pub enforce : Policy → Text → Text → Option Text
unfolding check
enforce p kind detail = elim (check p kind detail) [
  | deny r ↦ some r
  | allow ↦ none
  | need_approval r ↦ none
]

-- An entry of the file's remediations, as parsed.
pub record Entry : Type 0 where
  pub kind : Option Text
  pub arg : Option Text
  pub auto : Option Bool

pub record Remediation : Type 0 where
  pub kind : Text
  pub arg : Text
  pub auto : Bool

unfoldable pub remediation_for : Map Text Entry → Text → Option Remediation
remediation_for m checked = elim (lookup checked m) [
  | none ↦ none
  | some r ↦ elim r.kind [
    | none ↦ none
    | some kind ↦
        if is_empty kind
        then none
        else some (record { kind = kind; arg = unwrap_or [] r.arg; auto = unwrap_or false r.auto })
  ]
]
