-- ===== src/Analysis/Updates.antt =====
-- crates/hub/src/main.rs: the pass that updates agents (`needs_update`, `auto_update_pass`). A time is
-- its second; whether a device takes an update is an argument.
use haive_control.Prelude.{
  ℕ, ◌-◌, Bool, false, not, Option, none, some, List, [], ◌∷◌, ◌++◌, Text, text, ltb, unwrap_or,
  is_the, Map, lookup, insert, decimal, ◌==◌, nat_eq, list_eq, if◌then◌else◌,
}

-- What the pass reads of a row.
pub record Row : Type 0 where
  pub agent_version : Option Text
  pub platform : Option Text
  pub arch : Option Text
  pub scheme : Option Text
  pub ip : Option Text
  pub port : ℕ

pub record Stale : Type 0 where
  pub target : Text
  pub platform : Text
  pub arch : Text

unfoldable pub needs_update : Text → Text → Bool
needs_update reported served = not (reported == served)

unfoldable pub target_of : Row → Text
target_of r =
    let ip = unwrap_or [] r.ip in
    if is_the (text "relay") r.scheme
    then text "relay://" ++ ip
    else unwrap_or (text "http") r.scheme ++ (text "://" ++ (ip ++ (text ":" ++ decimal r.port)))

unfoldable pub stale_of : Text → Row → Option Stale
unfolding needs_update target_of
stale_of served r = elim r.agent_version [
  | none ↦ none
  | some ver ↦ if not (needs_update ver served) then none else elim r.platform [
    | none ↦ none
    | some platform ↦
        some (record { target = target_of r; platform = platform; arch = unwrap_or [] r.arch })
  ]
]

unfoldable pub stale_rows : Text → List Row → List Stale
unfolding stale_of
stale_rows served [] = []
stale_rows served (r ∷ rows) =
    let rest = stale_rows served rows in
    elim (stale_of served r) [ none ↦ rest | some s ↦ s ∷ rest ]

-- The last pushes by their targets; what is pushed, in order.
unfoldable pub push_stale : Map Text ℕ → ℕ → List Stale → Map Text ℕ × List Stale
push_stale cd now [] = (cd, [])
push_stale cd now (s ∷ stale) =
    let recent : Bool = elim (lookup s.target cd) [ none ↦ false | some t ↦ ltb (now - t) 300 ] in
    let skipped = push_stale cd now stale in
    let (cd', pushed) = push_stale (insert s.target now cd) now stale in
    if recent then skipped else (cd', s ∷ pushed)

-- `setting` is agent_update.
unfoldable pub auto_update_pass : Text → Text → Map Text ℕ → ℕ → List Row → Map Text ℕ × List Stale
unfolding stale_rows push_stale
auto_update_pass setting served cd now rows =
    if not (setting == text "auto") then (cd, []) else push_stale cd now (stale_rows served rows)
