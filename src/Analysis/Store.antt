-- ===== src/Analysis/Store.antt =====
-- crates/hub/src/main.rs: the sections that agents push (`recv_analysis`) and the changes of the
-- installed packages (`note_inventory`). sha256 and the time are arguments.
use haive_control.Prelude.{
  ℕ, ◌-◌, Bool, false, not, ◌&&◌, Option, none, some, List, [], ◌∷◌, ◌++◌, Text, text, length, drop,
  is_empty, is_some, unwrap_or, byte_len, Map, lookup, insert, ◌==◌, nat_eq, list_eq, if◌then◌else◌,
}
use haive_control.Analysis.Posture.{Sections}

pub record Change : Type 0 where
  pub ts : ℕ
  pub size : ℕ

-- The sections of the devices with their times, the last hash of their packages, and the changes.
pub record Store : Type 0 where
  pub analysis : Map Text (Sections × ℕ)
  pub hashes : Map Text Text
  pub history : Map Text (List Change)

-- `while v.len() > 100 { v.remove(0) }`.
unfoldable pub last_100 : List Change → List Change
last_100 v = drop (length v - 100) v

unfoldable pub is_changed : Option Text → Text → Bool
is_changed none h = false
is_changed (some prev) h = not (prev == h)

unfoldable pub note_inventory : (Text → Text) → Store → ℕ → Text → Text → Store
unfolding last_100 is_changed
note_inventory sha256 st now key packages =
    let h = sha256 packages in
    let noted = record st { hashes = insert key h st.hashes } in
    let e : Change = record { ts = now; size = byte_len packages } in
    if is_changed (lookup key st.hashes) h
    then record noted {
      history = insert key (last_100 (unwrap_or [] (lookup key st.history) ++ (e ∷ []))) st.history;
    }
    else noted

-- The sections of the body that are texts, each put in with the time.
unfoldable pub merged : ℕ → List (Text × Text) → Sections → Sections
merged now [] s = s
merged now ((k, v) ∷ sections) s = merged now sections (insert k (v, now) s)

-- `none` is a body without an id; the flag is `want_full`.
unfoldable pub recv_analysis :
    (Text → Text) → Store → ℕ → Text → Bool → List (Text × Text) → Option (Store × Bool)
unfolding note_inventory merged
recv_analysis sha256 st now rid full sections =
    if is_empty rid
    then none
    else let key = text "relay:" ++ rid in
      let existed = is_some (lookup key st.analysis) in
      let (old, time) = unwrap_or ([], now) (lookup key st.analysis) in
      let new = merged now sections old in
      let stored = record st { analysis = insert key (new, now) st.analysis } in
      some (
        elim (lookup (text "packages") new) [
          | none ↦ stored
          | some (packages, at) ↦ note_inventory sha256 stored now key packages
        ],
        not existed && not full,
      )
