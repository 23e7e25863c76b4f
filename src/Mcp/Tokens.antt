-- ===== src/Mcp/Tokens.antt =====
-- crates/hub/src/mcptokens.rs: `mint`, `resolve`, `revoke` and `list`, on the parsed file. The time,
-- the random hex digits and sha256 are arguments.
use haive_control.Prelude.{
  ℕ, ◌+◌, ◌*◌, Bool, true, false, not, ◌&&◌, ◌||◌, Option, none, some, List, [], ◌∷◌, ◌++◌, Text,
  text, length, retain, is_empty, is_the, ltb, unwrap_or, wrap, ◌==◌, nat_eq, list_eq,
  if◌then◌else◌,
}

-- An entry of mcp-tokens.json.
pub record Item : Type 0 where
  pub id : Option Text
  pub owner : Option Text
  pub scope : Option Text
  pub expires_at : Option ℕ
  pub hash : Option Text
  pub created_at : Option ℕ

pub record Scoped : Type 0 where
  pub id : Text
  pub owner : Text
  pub scope : Text
  pub expires_at : ℕ

unfoldable pub is_expired : ℕ → ℕ → Bool
is_expired now exp = not (exp == 0) && ltb exp now

unfoldable pub scoped_of : Item → Scoped
scoped_of t = record {
  id = unwrap_or [] t.id;
  owner = unwrap_or [] t.owner;
  scope = unwrap_or (text "read") t.scope;
  expires_at = unwrap_or 0 t.expires_at;
}

-- The loop of `resolve`.
unfoldable pub resolve_in : Text → ℕ → List Item → Option Scoped
unfolding is_expired scoped_of
resolve_in h now [] = none
resolve_in h now (t ∷ items) =
    let rest = resolve_in h now items in
    if is_the h t.hash
    then if is_expired now (unwrap_or 0 t.expires_at) then none else some (scoped_of t)
    else rest

unfoldable pub resolve : (Text → Text) → List Item → Text → ℕ → Option Scoped
unfolding resolve_in
resolve sha256 items secret now =
    if is_empty secret then none else resolve_in (sha256 secret) now items

unfoldable pub known_scope : Text → Text
known_scope scope = if scope == text "write" || scope == text "admin" then scope else text "read"

unfoldable pub expiry : ℕ → ℕ → ℕ
expiry ttl_days now = if ttl_days == 0 then 0 else wrap (now + wrap (ttl_days * 86400))

unfoldable pub new_secret : Text → Text
new_secret hex = text "mcp_" ++ hex

unfoldable pub new_item : (Text → Text) → Text → Text → ℕ → Text → Text → ℕ → Item
unfolding known_scope expiry new_secret
new_item sha256 owner scope ttl_days hex_id hex_secret now = record {
  id = some (text "mtk_" ++ hex_id);
  owner = some owner;
  scope = some (known_scope scope);
  expires_at = some (expiry ttl_days now);
  hash = some (sha256 (new_secret hex_secret));
  created_at = some now;
}

unfoldable pub mint :
    (Text → Text) → List Item → Text → Text → ℕ → Text → Text → ℕ → List Item × Text
unfolding new_item
mint sha256 items owner scope ttl_days hex_id hex_secret now = (
  items ++ (new_item sha256 owner scope ttl_days hex_id hex_secret now ∷ []),
  new_secret hex_secret,
)

abbrev pub is_owned : Text → Text → Item → Bool
is_owned id owner t = is_the id t.id && is_the owner t.owner

unfoldable pub revoke : List Item → Text → Text → List Item × Bool
revoke items id owner =
    let kept = retain (λ t. not (is_owned id owner t)) items in
    if not (length kept == length items) then (kept, true) else (items, false)

unfoldable pub list : List Item → Text → List Item
list items owner = retain (λ (t : Item). is_the owner t.owner) items
