-- ===== src/Devices/Rotation.antt =====
-- crates/hub/src/main.rs: the rotation of an owner's enrollment token (`rotate_enroll_token`), with
-- `relay_ok` and the tunnels.
use haive_control.Prelude.{
  ◌≡◌, refl, subst, ◌∙◌, Bool, false, not, none, some, Text, arith, retain, is_empty, any,
  any-false, false-any, All, In-All, In, map-In, In-map, In-retain, retain-In, lookup,
  lookup-insert, lookup-retain, lookup-In, HasDistinctKeys, ◌==◌, ==_iff, ==_refl, nat_eq, list_eq,
  if◌then◌else◌,
}
use haive_control.ConstantTime.{ct_eq}
use haive_control.Enroll.Tunnels.{Tunnel, Registry, auth_hash, drop_tunnels_bound_to}
use haive_control.Enroll.Secrets.{Secrets, is_device_secret}
use haive_control.Devices.Owners.{
  Tokens, rand_token, add_token, is_of, removed_hashes, rotate_enroll_token, relay_ok,
  resolve_owner_token,
}

module _ (sha256 : Text → Text) (t : Tokens) (reg : Registry) (owner hex : Text)
    (d : HasDistinctKeys t.tokens) where
  abbrev after : Tokens
  after = (rotate_enroll_token sha256 t reg owner hex).0

  abbrev tunnels : Registry
  tunnels = (rotate_enroll_token sha256 t reg owner hex).1

  resolve-after :
      (tok o : Text)
      → lookup tok t.tokens ≡ some o
      → (rand_token hex == tok) ≡ false
      → lookup tok after.tokens ≡ (if o == owner then none else some o)
  unfolding rotate_enroll_token add_token
  resolve-after tok o h n =
      rw lookup-insert
        (rw n (lookup-retain (λ e. not (is_of owner e)) tok t.tokens d ∙ rw h (ground arith)))

  hash-removed :
      (tok : Text)
      → lookup tok t.tokens ≡ some owner
      → In (auth_hash sha256 tok) (removed_hashes sha256 t owner)
  unfolding removed_hashes
  hash-removed tok h =
      map-In (λ (e : Text × Text). auth_hash sha256 e.0) (retain (is_of owner) t.tokens)
        (tok, owner)
        (retain-In (is_of owner) t.tokens (tok, owner) (lookup-In tok owner t.tokens h)
          (==_refl owner))

  -- After a rotation an old token of the owner, where RELAY_TOKEN is set to something else, is refused
  -- by the relay, and no tunnel is bound to it any more.
  pub rotate-locks_out :
      (tok relay_token id : Text) (secrets : Secrets)
      → lookup tok t.tokens ≡ some owner
      → (rand_token hex == tok) ≡ false
      → is_device_secret tok ≡ false
      → is_empty relay_token ≡ false
      → ct_eq tok relay_token ≡ false
      → (relay_ok sha256 (some relay_token) secrets after.tokens id tok ≡ false)
        × All (λ (e : Text × Tunnel). ct_eq e.1.auth (auth_hash sha256 tok) ≡ false) tunnels
  unfolding relay_ok resolve_owner_token rotate_enroll_token drop_tunnels_bound_to
  rotate-locks_out tok relay_token id secrets h n plain set other =
      let gone : lookup tok after.tokens ≡ none =
        resolve-after tok owner h n ∙ rw (==_refl owner) refl in
      let bound : Text × Tunnel → Bool =
        λ e. any (λ h. ct_eq e.1.auth h) (removed_hashes sha256 t owner) in
      (
        rw (plain, set, other, gone) refl,
        In-All (λ (e : Text × Tunnel). ct_eq e.1.auth (auth_hash sha256 tok) ≡ false) tunnels
            (λ e i.
              let (_, free) = In-retain (λ e. not (bound e)) reg e i in
              let free' : bound e ≡ false = ground arith in
              any-false (λ h. ct_eq e.1.auth h) (removed_hashes sha256 t owner)
                (auth_hash sha256 tok) free' (hash-removed tok h)),
      )

  -- A rotation leaves another owner's token as it was, and every tunnel that is bound to none of the
  -- owner's old tokens.
  pub rotate-spares :
      (tok o id : Text) (u : Tunnel)
      → HasDistinctKeys reg
      → lookup tok t.tokens ≡ some o
      → (o == owner) ≡ false
      → (rand_token hex == tok) ≡ false
      → lookup id reg ≡ some u
      → ((old : Text) → In (old, owner) t.tokens → ct_eq u.auth (auth_hash sha256 old) ≡ false)
      → (lookup tok after.tokens ≡ some o) × (lookup id tunnels ≡ some u)
  unfolding rotate_enroll_token drop_tunnels_bound_to removed_hashes
  rotate-spares tok o id u dr h other n there unbound =
      let stays : lookup tok after.tokens ≡ some o = resolve-after tok o h n ∙ rw other refl in
      let free =
        false-any (λ h. ct_eq u.auth h) (removed_hashes sha256 t owner)
          (λ x i.
            let ((old, p), kept, e) =
              In-map (λ (e : Text × Text). auth_hash sha256 e.0) (retain (is_of owner) t.tokens) x
                i in
            let (in_all, of) = In-retain (is_of owner) t.tokens (old, p) kept in
            let mine : p ≡ owner = (==_iff p owner).0 of in
            subst (λ y. ct_eq u.auth y ≡ false) e
              (unbound old (subst (λ y. In (old, y) t.tokens) mine in_all))) in
      (
        stays,
        lookup-retain (λ e. not (any (λ h. ct_eq e.1.auth h) (removed_hashes sha256 t owner))) id
              reg dr
            ∙ rw there (rw free refl),
      )
