-- ===== src/Enroll/Takeover.antt =====
-- crates/hub/src/devicesecrets.rs and relay.rs: what a hello does to a tunnel that is there.
use haive_control.Prelude.{
  if-case, ℕ, ◌≡◌, refl, sym, ap, subst, ◌∙◌, inl, inr, ◌⊎◌, Bool, true, false, not, ◌&&◌, ◌||◌,
  Option, none, some, [], Text, is_empty, is_some, unwrap_or, arith, lookup, lookup-insert,
  Bool-cases, Option-cases, ◌==◌, ==_iff, nat_eq, list_eq, if◌then◌else◌,
}
use haive_control.ConstantTime.{ct_eq}
use haive_control.Enroll.Tunnels.{Tunnel, Registry, auth_hash, hello, rebind}
use haive_control.Enroll.Secrets.{
  Secrets, Minted, other_owner, no_entropy, not_persisted, minted, is_device_secret, verify,
  owner_of, mint,
}
use haive_control.Enroll.Hello.{
  Hub, Incoming, Around, Answer, plain, register, same_id, mint_for, owned_by_other, Rebind, in_use,
  may, rebind_for, with_secret, issue, enroll, with_token, hello_ep,
}

hello-kept :
    (reg : Registry) (j auth : Text) (b : Bool) (id : Text) (t : Tunnel)
    → lookup id reg ≡ some t
    → (j ≡ id → b ≡ true → ct_eq t.auth auth ≡ true)
    → lookup id (hello reg j auth b).0 ≡ some t
unfolding hello
hello-kept reg j auth b id t h ok = elim (Bool-cases (j == id)) [
  | inl e ↦
      let same = (==_iff j id).0 e in
      let here : lookup j reg ≡ some t = rw same h in
      rw (here, hello)
        (if-case (λ (x : Registry × Bool). lookup id x.0 ≡ some t) (ct_eq t.auth auth) _ _ (λ _. h)
          (λ n.
            if-case (λ (x : Registry × Bool). lookup id x.0 ≡ some t) (not b) _ _ (λ _. h)
              (λ y. let c = ok same (ground arith) in absurd (ground arith))))
  | inr e ↦ elim (Option-cases (lookup j reg)) [
    | inl n ↦ rw (n, hello) (rw lookup-insert (rw e h))
    | inr (u, n) ↦
        rw (n, hello)
          (if-case (λ (x : Registry × Bool). lookup id x.0 ≡ some t) (ct_eq u.auth auth) _ _
            (λ _. h)
            (λ _.
              if-case (λ (x : Registry × Bool). lookup id x.0 ≡ some t) (not b) _ _ (λ _. h)
                (λ _. rw lookup-insert (rw e h))))
  ]
]

hello-ok :
    (reg : Registry) (auth : Text) (b : Bool) (id : Text) (t : Tunnel)
    → lookup id reg ≡ some t
    → (hello reg id auth b).1 ≡ true
    → (ct_eq t.auth auth || b) ≡ true
unfolding hello
hello-ok reg auth b id t h =
    rw (h, hello)
      (if-case (λ (x : Registry × Bool). (x.1 ≡ true → (ct_eq t.auth auth || b) ≡ true))
        (ct_eq t.auth auth) _ _ (λ y _. ground arith)
        (λ _.
          if-case (λ (x : Registry × Bool). (x.1 ≡ true → (ct_eq t.auth auth || b) ≡ true)) (not b)
            _ _ (λ _ k. absurd (cc)) (λ y _. ground arith)))

register-kept :
    (h : Hub) (r : Option Text) (auth : Text) (b : Bool) (id : Text) (t : Tunnel)
    → lookup id h.registry ≡ some t
    → (r ≡ some id → b ≡ true → ct_eq t.auth auth ≡ true)
    → lookup id (register h r auth b).0.registry ≡ some t
unfolding register
register-kept h none auth b id t k ok = k
register-kept h (some j) auth b id t k ok =
    hello-kept h.registry j auth b id t k (λ e y. ok (ap some e) y)

register-secrets :
    (h : Hub) (r : Option Text) (auth : Text) (b : Bool)
    → (register h r auth b).0.secrets ≡ h.secrets
unfolding register
register-secrets h none auth b = refl
register-secrets h (some j) auth b = refl

same_id-id : (q : Incoming) → same_id q ≡ true → q.relay_id ≡ some q.rid
unfolding same_id
same_id-id q h = elim (Option-cases q.relay_id) [
  | inl e ↦
      let k : (not (is_empty q.rid) && [] == q.rid) ≡ true = rw e at h in
      let empty : [] ≡ q.rid = (==_iff [] q.rid).0 (ground arith) in
      let full : is_empty q.rid ≡ false = ground arith in
      let none_left : is_empty {A = ℕ} [] ≡ false = rw (sym empty) at full in absurd (cc)
  | inr (j, e) ↦
      let k : (not (is_empty q.rid) && j == q.rid) ≡ true = rw e at h in
      e ∙ ap some ((==_iff j q.rid).0 (ground arith))
]

rebind-kept :
    (reg : Registry) (j auth id : Text) (t : Tunnel)
    → lookup id reg ≡ some t
    → (j == id) ≡ false
    → lookup id (rebind reg j auth).0 ≡ some t
unfolding rebind
rebind-kept reg j auth id t h n = elim (Option-cases (lookup j reg)) [
  | inl e ↦ rw (e, rebind) h
  | inr (u, e) ↦ rw (e, rebind) (rw lookup-insert (rw n h))
]

mint_for-same :
    (q : Incoming) (a : Around) (b : Bool) (o : Text)
    → (if b then none else mint_for q a) ≡ some o
    → (same_id q ≡ true) × (a.token_owner ≡ some o)
unfolding mint_for
mint_for-same q a true o h = absurd (cc)
mint_for-same q a false o h = elim (Bool-cases (q.asks_secret && same_id q)) [
  | inl e ↦ let k : a.token_owner ≡ some o = rw (e, mint_for) at h in (ground arith, k)
  | inr e ↦ let k : none ≡ some o = rw (e, mint_for) at h in absurd (cc)
]

-- The tunnel may be bound again only for a token of the owner of the id's secret.
rebind_for-owner :
    (q : Incoming) (a : Around) (held : Option Text) (b : Bool)
    → rebind_for (mint_for q a) held ≡ may b
    → b ≡ true
    → (o : Text) × (same_id q ≡ true) × (a.token_owner ≡ some o) × (held ≡ some o)
unfolding rebind_for
rebind_for-owner q a held b h y = elim (Option-cases (mint_for q a)) [
  | inl e ↦ let k : may false ≡ may b = rw (e, rebind_for) at h in absurd (cc)
  | inr (o, e) ↦
      let s = mint_for-same q a false o e in
      elim (Option-cases held) [
        | inl f ↦ let k : may false ≡ may b = rw (e, f, rebind_for) at h in absurd (cc)
        | inr (p, f) ↦ elim (Bool-cases (p == o)) [
          | inl g ↦ (o, s.0, s.1, f ∙ ap some ((==_iff p o).0 g))
          | inr g ↦
              let k : (if not (p == o) then in_use else may true) ≡ may b =
                rw (e, f, rebind_for) at h in
              let k' : in_use ≡ may b = rw g at k in absurd (cc)
        ]
      ]
]

Rebind-cases : (x : Rebind) → (x ≡ in_use) ⊎ ((b : Bool) × (x ≡ may b))
Rebind-cases in_use = inl refl
Rebind-cases (may b) = inr (b, refl)

module _ (sha256 : Text → Text) (h : Hub) (q : Incoming) (a : Around) (id : Text) (t : Tunnel)
    (here : lookup id h.registry ≡ some t) (unbound : ct_eq t.auth (auth_hash sha256 q.tok) ≡ false)
    (unknown : verify sha256 h.secrets id q.tok ≡ none)
    (stranger : (o : Text) → a.token_owner ≡ some o → owner_of h.secrets id ≡ some o → ⊥) where
  abbrev Kept : Answer → Type 0
  Kept x = lookup id x.after.registry ≡ some t

  with_secret-Kept : Kept (with_secret sha256 h q)
  unfolding with_secret plain
  with_secret-Kept = elim (Option-cases (verify sha256 h.secrets q.rid q.tok)) [
    | inl e ↦ rw (e, with_secret) here
    | inr (o, e) ↦
        rw (e, with_secret)
          (if-case Kept (not (same_id q)) _ _ (λ _. here)
            (λ s. register-kept h q.relay_id (auth_hash sha256 q.tok) true id t here (λ r _.
              let same : some q.rid ≡ some id = sym (same_id-id q (ground arith)) ∙ r in
              let rid : q.rid ≡ id = cc in
              let known : verify sha256 h.secrets id q.tok ≡ some o =
                subst (λ x. verify sha256 h.secrets x q.tok ≡ some o) rid e in
              absurd (cc))))
  ]

  issue-Kept :
      (h' : Hub) (o : Text)
      → lookup id h'.registry ≡ some t
      → (q.rid == id) ≡ false
      → Kept (issue sha256 h' q a o)
  unfolding issue plain
  issue-Kept h' o k n = minted-kept (mint sha256 h'.secrets q.rid o a.random a.written a.now)
    where
      minted-kept :
          (x : Secrets × Minted)
          → Kept (elim x.1 [
            | minted secret ↦ record {
              after = record {
                registry = (rebind h'.registry q.rid (auth_hash sha256 secret)).0;
                secrets = x.0;
              };
              code = 200;
              secret = some secret;
              recorded = some o;
            }
            | other_owner ↦ plain h' 403 none
            | no_entropy ↦ plain h' 204 (some o)
            | not_persisted ↦ plain (record h' { secrets = x.0 }) 204 (some o)
          ])
      minted-kept (s, minted secret) =
          rebind-kept h'.registry q.rid (auth_hash sha256 secret) id t k n
      minted-kept (s, other_owner) = k
      minted-kept (s, no_entropy) = k
      minted-kept (s, not_persisted) = k

  -- The payload's id is the tunnel's only if the hello is refused.
  registered-other :
      (b : Bool)
      → (q.relay_id ≡ some id → b ≡ true → ⊥)
      → (register h q.relay_id (auth_hash sha256 q.tok) b).1 ≡ true
      → q.relay_id ≡ some id
      → ⊥
  unfolding register
  registered-other b never ok r =
      let ok' : (register h (some id) (auth_hash sha256 q.tok) b).1 ≡ true =
        subst (λ x. (register h x (auth_hash sha256 q.tok) b).1 ≡ true) r ok in
      let y = hello-ok h.registry (auth_hash sha256 q.tok) b id t here ok' in never r (ground arith)

  enroll-Kept : (b : Bool) → (q.relay_id ≡ some id → b ≡ true → ⊥) → Kept (enroll sha256 h q a b)
  unfolding enroll plain
  enroll-Kept b never =
      let reg = register h q.relay_id (auth_hash sha256 q.tok) b in
      let k =
        register-kept h q.relay_id (auth_hash sha256 q.tok) b id t here
          (λ r y. absurd (never r y)) in
      if-case Kept (not reg.1) _ _ (λ _. k)
        (λ ok. elim (Option-cases (if a.dissolving then none else mint_for q a)) [
          | inl e ↦ rw e k
          | inr (o, e) ↦ rw e (
              issue-Kept reg.0 o k (elim (Bool-cases (q.rid == id)) [
                | inl s ↦
                    let same = (mint_for-same q a a.dissolving o e).0 in
                    absurd (
                      registered-other b never (ground arith)
                        (same_id-id q same ∙ ap some ((==_iff q.rid id).0 s)))
                | inr s ↦ s
              ]))
        ])

  with_token-Kept : Kept (with_token sha256 h q a)
  unfolding with_token plain
  with_token-Kept =
      if-case Kept (a.authed && not (is_some a.token_owner)) _ _ (λ _. here)
        (λ _.
          if-case Kept
            (elim a.token_owner [
              | none ↦ false
              | some o ↦ owned_by_other h a (unwrap_or [] q.relay_id) o
            ])
            _ _ (λ _. here)
            (λ _. elim (Rebind-cases (rebind_for (mint_for q a) (owner_of h.secrets q.rid))) [
              | inl e ↦ rw e here
              | inr (b, e) ↦ rw e (
                  enroll-Kept b (λ r y.
                    let (o, s, token, held) =
                      rebind_for-owner q a (owner_of h.secrets q.rid) b e y in
                    let same : some q.rid ≡ some id = sym (same_id-id q s) ∙ r in
                    let rid : q.rid ≡ id = cc in
                    stranger o token (subst (λ x. owner_of h.secrets x ≡ some o) rid held)))
            ]))

  -- A device's tunnel stays as it is, its binding included, whatever hello comes with a token that
  -- the tunnel is not bound to, that is not the device's own secret, and that is not a token of the
  -- owner to whom the device's secret was issued.
  pub hello_ep-kept : lookup id (hello_ep sha256 h q a).after.registry ≡ some t
  unfolding hello_ep
  hello_ep-kept =
      if-case Kept (is_device_secret q.tok) _ _ (λ _. with_secret-Kept) (λ _. with_token-Kept)
