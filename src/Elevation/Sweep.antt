-- ===== src/Elevation/Sweep.antt =====
-- crates/hub/src/main.rs: what `sweep_elevation` leaves.
use haive_control.Prelude.{
  ℕ, ◌≡◌, refl, subst, inl, inr, Bool, true, false, not, ◌&&◌, ◌||◌, List, [], ◌∷◌, Text, text,
  arith, In, leb, ==_iff, nat_eq, list_eq, Bool-cases, Option-cases, if-case, In-retain, retain-In,
  is_some, unwrap_or, strip_prefix, starts_with,
}
use haive_control.Commands.Table.{os_command}
use haive_control.Elevation.Board.{Grant, Board, remove_grant, due, is_grant, save}
use haive_control.Elevation.Endpoints.{Done, sweep_elevation, revoke_all, revoke_due}

-- A grant that a sweep can take back now: its account name is refused, or its device is connected or
-- enrolled through the relay.
abbrev pub can_revoke : (Text → Bool) → Grant → Bool
can_revoke online g =
    not (is_some (os_command (text "windows") (text "revoke_admin") g.user))
    || online (unwrap_or g.device_key (strip_prefix (text "relay:") g.device_key))
    || starts_with (text "relay:") g.device_key

module _ (lower : Text → Text) (exec : Text → Text → Text) (online : Text → Bool) where
  -- One step takes grants away only.
  abbrev Fewer : List Grant → List Grant → Type 0
  Fewer before after = (g : Grant) → In g after → In g before

  remove_grant-Fewer : (b : Board) (k u : Text) → Fewer b.grants (remove_grant b k u).grants
  unfolding remove_grant save
  remove_grant-Fewer b k u g h = (In-retain (λ x. not (is_grant k u x)) b.grants g h).0

  revoke_due-Fewer :
      (d : Done) (g : Grant) → Fewer d.after.grants (revoke_due lower exec online d g).after.grants
  unfolding revoke_due
  revoke_due-Fewer d g =
      let P = λ (x : Done). Fewer d.after.grants x.after.grants in
      let gone = remove_grant-Fewer d.after g.device_key g.user in
      elim (Option-cases (os_command (text "windows") (text "revoke_admin") g.user)) [
        | inl f ↦ rw (f, revoke_due) gone
        | inr (cmd, f) ↦
            rw (f, revoke_due)
              (if-case P
                (online (unwrap_or g.device_key (strip_prefix (text "relay:") g.device_key))) _ _
                (λ _. gone)
                (λ _.
                  if-case P (starts_with (text "relay:") g.device_key) _ _ (λ _. gone)
                    (λ _ x h. h)))
      ]

  -- The grant that was treated is gone if it can be revoked.
  removed : (b : Board) (g : Grant) → In g (remove_grant b g.device_key g.user).grants → ⊥
  unfolding remove_grant save
  removed b g h =
      let k = (In-retain (λ x. not (is_grant g.device_key g.user x)) b.grants g h).1 in
      let here : is_grant g.device_key g.user g ≡ true =
        rw ((==_iff g.device_key g.device_key).1 refl, (==_iff g.user g.user).1 refl) refl in
      ground arith

  revoke_due-gone :
      (d : Done) (g : Grant)
      → In g (revoke_due lower exec online d g).after.grants
      → can_revoke online g ≡ false
  unfolding revoke_due
  revoke_due-gone d g =
      let P = λ (x : Done).
        (In g x.after.grants
          → (online (unwrap_or g.device_key (strip_prefix (text "relay:") g.device_key))
              || starts_with (text "relay:") g.device_key)
            ≡ false) in
      elim (Option-cases (os_command (text "windows") (text "revoke_admin") g.user)) [
        | inl f ↦ rw (f, revoke_due) (λ h. absurd (removed d.after g h))
        | inr (cmd, f) ↦
            rw (f, revoke_due)
              (if-case P
                (online (unwrap_or g.device_key (strip_prefix (text "relay:") g.device_key))) _ _
                (λ _ h. absurd (removed d.after g h))
                (λ a.
                  if-case P (starts_with (text "relay:") g.device_key) _ _
                    (λ _ h. absurd (removed d.after g h)) (λ c h. rw (a, c) refl)))
      ]

  revoke_all-Fewer :
      (d : Done) (gs : List Grant)
      → Fewer d.after.grants (revoke_all lower exec online d gs).after.grants
  unfolding revoke_all
  revoke_all-Fewer d [] x h = h
  revoke_all-Fewer d (g ∷ gs) x h =
      revoke_due-Fewer d g x (revoke_all-Fewer (revoke_due lower exec online d g) gs x h)

  revoke_all-gone :
      (d : Done) (gs : List Grant) (g : Grant)
      → In g gs
      → In g (revoke_all lower exec online d gs).after.grants
      → can_revoke online g ≡ false
  unfolding revoke_all
  revoke_all-gone d [] g i h = elim i [ ]
  revoke_all-gone d (x ∷ gs) g (inl e) h =
      let k = revoke_all-Fewer (revoke_due lower exec online d x) gs g h in
      revoke_due-gone d g
        (subst (λ (y : Grant). In g (revoke_due lower exec online d y).after.grants) e k)
  revoke_all-gone d (x ∷ gs) g (inr i) h =
      revoke_all-gone (revoke_due lower exec online d x) gs g i h

  -- Every grant that a sweep leaves was there before, and is not due or cannot be revoked now: its
  -- account name is good, and its device neither connected nor enrolled through the relay.
  pub sweep_elevation-swept :
      (b : Board) (now : ℕ) (g : Grant)
      → In g (sweep_elevation lower exec online b now).after.grants
      → In g b.grants × ((leb g.revoke_at now && can_revoke online g) ≡ false)
  unfolding sweep_elevation due
  sweep_elevation-swept b now g h =
      let start : Done = record { after = b; sent = []; queued = []; ok = true } in
      let before = revoke_all-Fewer start (due b now) g h in
      (
        before,
        elim (Bool-cases (leb g.revoke_at now)) [
          | inl e ↦ rw e (
              revoke_all-gone start (due b now) g
                (retain-In (λ (x : Grant). leb x.revoke_at now) b.grants g before e) h)
          | inr e ↦ rw e refl
        ],
      )
