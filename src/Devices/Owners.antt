-- ===== src/Devices/Owners.antt =====
-- crates/hub/src/main.rs: an owner's name (`canon_owner`, `owner_alias`) and the enrollment tokens
-- (`enroll_token_for`, `rotate_enroll_token`, `relay_ok`). The random bytes, in hex, are an argument.
use haive_control.Prelude.{
  ℕ, Bool, true, not, ◌||◌, Option, none, some, List, [], ◌∷◌, ◌++◌, map, Text, text, retain, find,
  is_empty, is_some, any, Map, lookup, insert, trim, split_from, split_once, ◌==◌, nat_eq, list_eq,
  if◌then◌else◌,
}
use haive_control.ConstantTime.{ct_eq}
use haive_control.Enroll.Tunnels.{Registry, auth_hash, drop_tunnels_bound_to}
use haive_control.Enroll.Secrets.{Secrets, is_device_secret, verify}

-- What the hub takes from its libraries and its environment: `Uuid::new_v5` over a URL's namespace,
-- `str::to_lowercase`, and OWNER_ALIAS.
pub record Outside : Type 0 where
  pub new_v5 : Text → Text
  pub to_lowercase : Text → Text
  pub aliases : Option Text

unfoldable pub owner_id : Outside → Text → Text
owner_id o email = o.new_v5 (o.to_lowercase (trim email))

-- The first pair of OWNER_ALIAS for this id.
unfoldable pub alias_in : Text → List Text → Option Text
alias_in id [] = none
alias_in id (pair ∷ pairs) =
    let rest = alias_in id pairs in
    elim (split_once (text "=") pair) [
      | none ↦ rest
      | some (from, to) ↦ if trim from == id then some (trim to) else rest
    ]

unfoldable pub owner_alias : Outside → Text → Text
unfolding alias_in
owner_alias o id = elim o.aliases [
  | none ↦ id
  | some m ↦ elim (alias_in id (split_from 44 [] m)) [ none ↦ id | some to ↦ to ]
]

-- `resolve_owner_token`.
unfoldable pub resolve_owner_token : Map Text Text → Text → Option Text
resolve_owner_token tokens tok = lookup tok tokens

unfoldable pub canon_owner : Outside → Map Text Text → Text → Text
unfolding owner_id owner_alias resolve_owner_token
canon_owner o tokens s =
    let t = trim s in
    owner_alias o (elim (resolve_owner_token tokens t) [
      | some owner ↦ owner
      | none ↦ if any (λ c. c == 64) t then owner_id o t else t
    ])

-- The tokens and owner_tokens.json.
pub record Tokens : Type 0 where
  pub tokens : Map Text Text
  pub disk : Map Text Text

unfoldable pub rand_token : Text → Text
rand_token hex = text "htok_" ++ hex

unfoldable pub add_token : Tokens → Text → Text → Tokens
add_token t tok owner = let m = insert tok owner t.tokens in record { tokens = m; disk = m }

unfoldable pub enroll_token_for : Tokens → Text → Text → Tokens × Text
unfolding add_token rand_token
enroll_token_for t owner hex = elim (find (λ (e : Text × Text). e.1 == owner) t.tokens) [
  | some (tok, o) ↦ (t, tok)
  | none ↦ (add_token t (rand_token hex) owner, rand_token hex)
]

-- An owner's tokens, hashed; and the others.
abbrev pub is_of : Text → Text × Text → Bool
is_of owner (tok, o) = o == owner

unfoldable pub removed_hashes : (Text → Text) → Tokens → Text → List Text
removed_hashes sha256 t owner =
    map (λ (e : Text × Text). auth_hash sha256 e.0) (retain (is_of owner) t.tokens)

unfoldable pub rotate_enroll_token :
    (Text → Text) → Tokens → Registry → Text → Text → Tokens × Registry × Text
unfolding add_token rand_token removed_hashes
rotate_enroll_token sha256 t reg owner hex =
    let kept = retain (λ e. not (is_of owner e)) t.tokens in
    (
      add_token (record t { tokens = kept }) (rand_token hex) owner,
      (drop_tunnels_bound_to reg (removed_hashes sha256 t owner)).0,
      rand_token hex,
    )

-- `relay_ok` for the request's `tok` and `id`, with RELAY_TOKEN.
unfoldable pub relay_ok : (Text → Text) → Option Text → Secrets → Map Text Text → Text → Text → Bool
unfolding resolve_owner_token
relay_ok sha256 relay_token secrets tokens id tok =
    if is_device_secret tok then is_some (verify sha256 secrets id tok) else elim relay_token [
      | none ↦ true
      | some t ↦ is_empty t || (ct_eq tok t || is_some (resolve_owner_token tokens tok))
    ]

-- What an endpoint answers.
pub data Answer : Type 0 where
  ok : Text → Answer
  refused : ℕ → Answer

unfoldable pub enroll_token_ep :
    (Text → Text) → Tokens → Registry → Option Text → Bool → Text → Tokens × Registry × Answer
unfolding enroll_token_for rotate_enroll_token
enroll_token_ep sha256 t reg none rotates hex = (t, reg, refused 200)
enroll_token_ep sha256 t reg (some owner) rotates hex =
    if is_empty owner
    then (t, reg, refused 200)
    else if rotates
    then (let (t', reg', tok) = rotate_enroll_token sha256 t reg owner hex in (t', reg', ok tok))
    else (let (t', tok) = enroll_token_for t owner hex in (t', reg, ok tok))
