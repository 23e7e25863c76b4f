-- ===== src/Mcp/Lifetime.antt =====
-- crates/hub/src/mcptokens.rs: a token from `mint` to `revoke`.
use haive_control.Prelude.{
  if-case, ℕ, suc, ◌+◌, ◌*◌, ◌^◌, ◌≡◌, ◌<◌, ◌≤◌, refl, sym, ap, subst, ◌∙◌, inl, inr, Bool, true,
  false, not, ◌&&◌, Option, none, some, List, [], ◌∷◌, ◌++◌, Text, text, arith, length,
  length-retain_le, retain, is_empty, is_the, ltb, unwrap_or, wrap, All, Bool-cases, ◌==◌, ==_iff,
  ==_refl, nat_eq, list_eq, list_beq, if◌then◌else◌,
}
use haive_control.Mcp.Tokens.{
  Item, Scoped, is_expired, scoped_of, resolve_in, resolve, known_scope, expiry, new_secret,
  new_item, mint, is_owned, revoke,
}

resolve_in-append :
    (h : Text) (now : ℕ) (items : List Item) (x : Item)
    → All (λ (t : Item). is_the h t.hash ≡ false) items
    → is_the h x.hash ≡ true
    → resolve_in h now (items ++ (x ∷ []))
      ≡ (if is_expired now (unwrap_or 0 x.expires_at) then none else some (scoped_of x))
unfolding resolve_in
resolve_in-append h now [] x none_other mine = rw mine refl
resolve_in-append h now (t ∷ items) x (other, others) mine =
    rw other (resolve_in-append h now items x others mine)

-- A token that was minted for a time resolves, until that time is over, to the owner and the scope it
-- was minted for, and to nobody from then on; no other token has the same hash, and the time stays in
-- 64 bits.
pub resolve-mint :
    (sha256 : Text → Text) (items : List Item) (owner scope hex_id hex_secret : Text)
    (ttl_days now later : ℕ)
    → All (λ (t : Item). is_the (sha256 (new_secret hex_secret)) t.hash ≡ false) items
    → 1 ≤ ttl_days
    → now + ttl_days * 86400 < 2 ^ 64
    → let (items', secret) = mint sha256 items owner scope ttl_days hex_id hex_secret now in
      resolve sha256 items' secret later ≡ (
        if ltb (now + ttl_days * 86400) later
        then none
        else some (record {
          id = text "mtk_" ++ hex_id;
          owner = owner;
          scope = known_scope scope;
          expires_at = now + ttl_days * 86400;
        }))
unfolding resolve mint new_item new_secret scoped_of is_expired expiry
resolve-mint sha256 items owner scope hex_id hex_secret ttl_days now later others some_days small =
    let x = new_item sha256 owner scope ttl_days hex_id hex_secret now in
    let found =
      resolve_in-append (sha256 (new_secret hex_secret)) later items x others
        (==_refl (sha256 (new_secret hex_secret))) in
    let exp : expiry ttl_days now ≡ now + ttl_days * 86400 =
      expiry-small ttl_days now some_days small in
    let far : (now + ttl_days * 86400 == 0) ≡ false = ground arith in found ∙ rw exp (rw far refl)
  where
    expiry-small :
        (ttl_days now : ℕ)
        → 1 ≤ ttl_days
        → now + ttl_days * 86400 < 2 ^ 64
        → expiry ttl_days now ≡ now + ttl_days * 86400
    expiry-small ttl_days now some_days small =
        let some_days' : (ttl_days == 0) ≡ false = ground arith in
        let inner : wrap (ttl_days * 86400) ≡ ttl_days * 86400 = omega arith in
        let outer : wrap (now + ttl_days * 86400) ≡ now + ttl_days * 86400 = omega arith in
        rw some_days' (rw inner outer)

-- A token is unlike the one revoked.
abbrev IsSpared : Text → Text → Option Scoped → Type 0
IsSpared id owner o = (s : Scoped) → o ≡ some s → (s.id == id && s.owner == owner) ≡ false

unwrap_or-is_the :
    (id : Text) (o : Option Text) → is_empty id ≡ false → (unwrap_or [] o == id) ≡ is_the id o
unfolding list_beq
unwrap_or-is_the [] o full = absurd (cc)
unwrap_or-is_the (c ∷ id) none full = refl
unwrap_or-is_the (c ∷ id) (some x) full = refl

unlike :
    (id owner : Text) (t : Item) (s : Scoped)
    → is_empty id ≡ false
    → is_empty owner ≡ false
    → is_owned id owner t ≡ false
    → some (scoped_of t) ≡ some s
    → (s.id == id && s.owner == owner) ≡ false
unfolding scoped_of
unlike id owner t s full full' n e =
    let same : scoped_of t ≡ s = ground arith in
    subst (λ (x : Scoped). (x.id == id && x.owner == owner) ≡ false) same
      (rw (unwrap_or-is_the id t.id full, unwrap_or-is_the owner t.owner full') n)

resolve_in-IsSpared :
    (id owner h : Text) (now : ℕ) (items : List Item)
    → is_empty id ≡ false
    → is_empty owner ≡ false
    → IsSpared id owner (resolve_in h now (retain (λ t. not (is_owned id owner t)) items))
unfolding resolve_in
resolve_in-IsSpared id owner h now [] full full' = λ s e. absurd (cc)
resolve_in-IsSpared id owner h now (t ∷ items) full full' =
    let rest = resolve_in-IsSpared id owner h now items full full' in
    elim (Bool-cases (is_owned id owner t)) [
      | inl o ↦ rw o rest
      | inr n ↦ rw n (
          if-case (IsSpared id owner) (is_the h t.hash) _ _
            (λ _.
              if-case (IsSpared id owner) (is_expired now (unwrap_or 0 t.expires_at)) none
                (some (scoped_of t)) (λ _ s e. absurd (cc))
                (λ _ s e. unlike id owner t s full full' n e))
            (λ _. rest))
    ]

length-revoke :
    (id owner : Text) (items : List Item)
    → length (retain (λ t. not (is_owned id owner t)) items) ≡ length items
    → retain (λ t. not (is_owned id owner t)) items ≡ items
length-revoke id owner [] e = refl
length-revoke id owner (t ∷ items) e = elim (Bool-cases (is_owned id owner t)) [
  | inl o ↦
      let fewer = length-retain_le (λ t. not (is_owned id owner t)) items in
      let e' : length (retain (λ t. not (is_owned id owner t)) items) ≡ suc (length items) =
        rw o at e in
      absurd (omega arith)
  | inr n ↦ rw n (
      ap (λ l. t ∷ l)
        (length-revoke id owner items (
          let e' : suc (length (retain (λ t. not (is_owned id owner t)) items))
              ≡ suc (length items) =
            rw n at e in
          omega arith)))
]

revoke-kept :
    (id owner : Text) (items : List Item)
    → (revoke items id owner).0 ≡ retain (λ t. not (is_owned id owner t)) items
unfolding revoke
revoke-kept id owner items =
    let kept = retain (λ t. not (is_owned id owner t)) items in
    if-case (λ (x : List Item × Bool). x.0 ≡ kept) (not (length kept == length items)) (kept, true)
      (items, false) (λ _. refl)
      (λ n.
        sym (length-revoke id owner items (ground (arith, ==_iff (length kept) (length items)))))

resolve_in-others :
    (id owner h : Text) (now : ℕ) (items : List Item) (s : Scoped)
    → is_empty owner ≡ false
    → (s.owner == owner) ≡ false
    → resolve_in h now items ≡ some s
    → resolve_in h now (retain (λ t. not (is_owned id owner t)) items) ≡ some s
unfolding resolve_in scoped_of
resolve_in-others id owner h now [] s full other e = absurd (cc)
resolve_in-others id owner h now (t ∷ items) s full other e = elim (Bool-cases (is_the h t.hash)) [
  | inl m ↦
      let e' : (if is_expired now (unwrap_or 0 t.expires_at) then none else some (scoped_of t))
          ≡ some s =
        rw m at e in
      elim (Bool-cases (is_expired now (unwrap_or 0 t.expires_at))) [
        | inl x ↦ let n : none ≡ some s = rw x at e' in absurd (cc)
        | inr x ↦
            let e'' : some (scoped_of t) ≡ some s = rw x at e' in
            let same : s ≡ scoped_of t = ground arith in
            let stays : is_the owner t.owner ≡ false =
              sym (unwrap_or-is_the owner t.owner full)
              ∙ subst (λ (y : Scoped). (y.owner == owner) ≡ false) same other in
            let spared : is_owned id owner t ≡ false = ground arith in rw spared (rw m (rw x e''))
      ]
  | inr m ↦
      let ih = resolve_in-others id owner h now items s full other (rw m at e) in
      if-case (λ l. resolve_in h now l ≡ some s) (not (is_owned id owner t)) _ _ (λ _. rw m ih)
        (λ _. ih)
]

-- Behind the revocation of an owner's token by its id, no secret resolves to that token at any time,
-- and a secret that resolved to another owner still does.
pub revoke-IsSpared :
    (sha256 : Text → Text) (items : List Item) (id owner secret : Text) (now : ℕ)
    → is_empty id ≡ false
    → is_empty owner ≡ false
    → let items' = (revoke items id owner).0 in
      ((s : Scoped)
        → resolve sha256 items' secret now ≡ some s
        → (s.id == id && s.owner == owner) ≡ false)
      × ((s : Scoped)
          → (s.owner == owner) ≡ false
          → resolve sha256 items secret now ≡ some s
          → resolve sha256 items' secret now ≡ some s)
unfolding resolve
revoke-IsSpared sha256 items id owner secret now full full' =
    rw (revoke-kept id owner items) (elim (Bool-cases (is_empty secret)) [
      | inl b ↦ rw b ((λ s e. absurd (cc)), (λ s n e. e))
      | inr b ↦ rw b (
        resolve_in-IsSpared id owner (sha256 secret) now items full full',
        (λ s n e. resolve_in-others id owner (sha256 secret) now items s full' n e),
      )
    ])
