-- ===== src/Elevation/Tidy.antt =====
-- crates/hub/src/main.rs: the board of elevation.rs behind any requests, approvals, grants, refusals
-- and sweeps.
use haive_control.Prelude.{
  ℕ, ◌≤◌, ◌≡◌, refl, inl, inr, Bool, false, not, ◌||◌, Option, none, some, List, [], ◌∷◌, ◌++◌,
  Text, text, arith, length, find, update_first, count_if, All, All-In, find-In, ◌==◌, nat_eq,
  list_eq, Option-cases, if-case, list_beq, unwrap_or, trim, is_empty, strip_prefix, starts_with,
}
use haive_control.Commands.Table.{os_command}
use haive_control.Elevation.Board.{
  Ask, Grant, Board, peek, decide, due, asks_again, decidable, set_status,
}
use haive_control.Elevation.Endpoints.{
  Asked, Done, request_elevation, elevation_approve, elevation_grant, elevation_deny,
  sweep_elevation, revoke_all, revoke_due, refuse, clamp_minutes, asking_user, elevation_failure,
}
use haive_control.Elevation.Window.{
  IsWindow, IsTidy, submit-IsTidy, add_grant-IsTidy, remove_grant-IsTidy,
}

clamp_minutes-IsWindow : (m : ℕ) → IsWindow (clamp_minutes m)
unfolding clamp_minutes
clamp_minutes-IsWindow m = (ground arith, ground arith)

update-length :
    (p : Ask → Bool) (s : Text) (xs : List Ask)
    → length (update_first p (set_status s) xs) ≡ length xs
update-length p s [] = refl
update-length p s (x ∷ xs) = ground (arith, update-length p s xs)

update-short :
    (p : Ask → Bool) (s : Text) (xs : List Ask)
    → All (λ (x : Ask). IsWindow x.minutes) xs
    → All (λ (x : Ask). IsWindow x.minutes) (update_first p (set_status s) xs)
update-short p s [] a = tt
update-short p s (x ∷ xs) a =
    if-case (All (λ (x : Ask). IsWindow x.minutes)) (p x) _ _ (λ _. (a.0, a.1))
      (λ _. (a.0, update-short p s xs a.1))

update-count_le :
    (p : Ask → Bool) (s k u : Text) (xs : List Ask)
    → (s == text "pending") ≡ false
    → count_if (asks_again k u) (update_first p (set_status s) xs) ≤ count_if (asks_again k u) xs
update-count_le p s k u [] h = omega arith
update-count_le p s k u (x ∷ xs) h =
    if-case (λ (ys : List Ask). count_if (asks_again k u) ys ≤ count_if (asks_again k u) (x ∷ xs))
      (p x) _ _ (λ _. ground arith) (λ _. ground (arith, update-count_le p s k u xs h))

decide-IsTidy :
    (b : Board) (id : ℕ) (o : Option Text) (s : Text)
    → (s == text "pending") ≡ false
    → IsTidy b
    → IsTidy (decide b id o s).0
unfolding decide
decide-IsTidy b id o s h i = elim (Option-cases (find (decidable id o) b.requests)) [
  | inl e ↦ rw (e, decide) i
  | inr (x, e) ↦
      rw (e, decide)
        (record {
          few = rw (update-length (decidable id o) s b.requests) i.few;
          one_ask = λ k u.
              omega (arith, i.one_ask k u, update-count_le (decidable id o) s k u b.requests h);
          short = update-short (decidable id o) s b.requests i.short;
          one_grant = i.one_grant;
          windows = i.windows;
          stored = i.stored;
        })
]

request_elevation-IsTidy :
    (b : Board) (q : Asked) (now : ℕ) → IsTidy b → IsTidy (request_elevation b q now).0
unfolding request_elevation
request_elevation-IsTidy b q now i =
    let P = λ (x : Board × Option Ask). IsTidy x.0 in
    if-case P (is_empty q.rid) _ _ (λ _. i)
      (λ _. elim (Option-cases q.owner) [
        | inl e ↦ rw e i
        | inr (o, e) ↦ rw e (
            if-case P (is_empty o) _ _ (λ _. i)
              (λ _.
                if-case P (is_empty (asking_user q)) _ _ (λ _. i)
                  (λ _.
                    submit-IsTidy b o (text "relay:" ++ q.rid) (text "relay://" ++ q.rid) q.device
                      (asking_user q) (clamp_minutes (unwrap_or 30 q.minutes)) (trim q.reason) now
                      (clamp_minutes-IsWindow (unwrap_or 30 q.minutes)) i)))
      ])

approved-decided : (text "approved" == text "pending") ≡ false
unfolding list_beq
approved-decided = refl

denied-decided : (text "denied" == text "pending") ≡ false
unfolding list_beq
denied-decided = refl

-- The minutes given, clamped, or those there were.
minutes-IsWindow :
    (o : Option ℕ) (d : ℕ) → IsWindow d → IsWindow (elim o [ none ↦ d | some m ↦ clamp_minutes m ])
minutes-IsWindow none d h = h
minutes-IsWindow (some m) d h = clamp_minutes-IsWindow m

peek-IsWindow :
    (b : Board) (id : ℕ) (o : Option Text) (r : Ask)
    → peek b id o ≡ some r
    → IsTidy b
    → IsWindow r.minutes
unfolding peek
peek-IsWindow b id o r h i =
    All-In (λ (x : Ask). IsWindow x.minutes) b.requests r i.short
      (find-In (decidable id o) b.requests r h).0

module _ (lower : Text → Text) (exec : Text → Text → Text) (online : Text → Bool) where
  approve-IsTidy :
      (b : Board) (id : ℕ) (m : Option ℕ) (o : Option Text) (now : ℕ)
      → IsTidy b
      → IsTidy (elevation_approve lower exec online b id m o now).after
  unfolding elevation_approve refuse
  approve-IsTidy b id m o now i =
      let P = λ (d : Done). IsTidy d.after in
      elim (Option-cases (peek b id o)) [
        | inl e ↦ rw (e, elevation_approve) i
        | inr (r, e) ↦
            elim (Option-cases (os_command (text "windows") (text "grant_admin") r.user)) [
              | inl f ↦ rw (e, elevation_approve) (rw f i)
              | inr (cmd, f) ↦
                  rw (e, elevation_approve)
                    (rw f (
                      if-case P (elevation_failure lower exec online (exec r.target cmd)) _ _
                        (λ _. i)
                        (λ _.
                          add_grant-IsTidy (decide b id o (text "approved")).0 r.owner r.device_key
                            r.target r.device r.user _ now
                            (minutes-IsWindow m r.minutes (peek-IsWindow b id o r e i))
                            (decide-IsTidy b id o (text "approved") approved-decided i))))
            ]
      ]

  grant-IsTidy :
      (b : Board) (allowed : Bool) (t k d a o : Text) (m : Option ℕ) (now : ℕ)
      → IsTidy b
      → IsTidy (elevation_grant lower exec online b allowed t k d a o m now).after
  unfolding elevation_grant refuse
  grant-IsTidy b allowed t k d a o m now i =
      let P = λ (d : Done). IsTidy d.after in
      if-case P (is_empty t || not allowed) _ _ (λ _. i)
        (λ _.
          if-case P (is_empty a) _ _ (λ _. i)
            (λ _. elim (Option-cases (os_command (text "windows") (text "grant_admin") a)) [
              | inl f ↦ rw f i
              | inr (cmd, f) ↦ rw f (
                  if-case P (elevation_failure lower exec online (exec t cmd)) _ _ (λ _. i)
                    (λ _.
                      add_grant-IsTidy b o k t d a _ now
                        (minutes-IsWindow m 60 (omega arith, omega arith)) i))
            ]))

  revoke_due-IsTidy :
      (d : Done) (g : Grant) → IsTidy d.after → IsTidy (revoke_due lower exec online d g).after
  unfolding revoke_due
  revoke_due-IsTidy d g i =
      let P = λ (d : Done). IsTidy d.after in
      let gone = remove_grant-IsTidy d.after g.device_key g.user i in
      elim (Option-cases (os_command (text "windows") (text "revoke_admin") g.user)) [
        | inl f ↦ rw (f, revoke_due) gone
        | inr (cmd, f) ↦
            rw (f, revoke_due)
              (if-case P
                (online (unwrap_or g.device_key (strip_prefix (text "relay:") g.device_key))) _ _
                (λ _. gone)
                (λ _.
                  if-case P (starts_with (text "relay:") g.device_key) _ _ (λ _. gone) (λ _. i)))
      ]

  revoke_all-IsTidy :
      (d : Done) (gs : List Grant)
      → IsTidy d.after
      → IsTidy (revoke_all lower exec online d gs).after
  unfolding revoke_all
  revoke_all-IsTidy d [] i = i
  revoke_all-IsTidy d (g ∷ gs) i =
      revoke_all-IsTidy (revoke_due lower exec online d g) gs (revoke_due-IsTidy d g i)

  pub data Event : Type 0 where
    asks : Asked → ℕ → Event
    approves : ℕ → Option ℕ → Option Text → ℕ → Event
    grants : Bool → Text → Text → Text → Text → Text → Option ℕ → ℕ → Event
    denies : ℕ → Option Text → Event
    sweeps : ℕ → Event

  unfoldable pub handle : Board → Event → Board
  handle b (asks q now) = (request_elevation b q now).0
  handle b (approves id m o now) = (elevation_approve lower exec online b id m o now).after
  handle b (grants allowed t k d a o m now) =
      (elevation_grant lower exec online b allowed t k d a o m now).after
  handle b (denies id o) = (elevation_deny lower exec online b id o).after
  handle b (sweeps now) = (sweep_elevation lower exec online b now).after

  unfoldable pub handle_all : Board → List Event → Board
  handle_all b [] = b
  handle_all b (e ∷ es) = handle_all (handle b e) es

  handle-IsTidy : (b : Board) (e : Event) → IsTidy b → IsTidy (handle b e)
  unfolding handle elevation_deny sweep_elevation
  handle-IsTidy b (asks q now) i = request_elevation-IsTidy b q now i
  handle-IsTidy b (approves id m o now) i = approve-IsTidy b id m o now i
  handle-IsTidy b (grants allowed t k d a o m now) i = grant-IsTidy b allowed t k d a o m now i
  handle-IsTidy b (denies id o) i = decide-IsTidy b id o (text "denied") denied-decided i
  handle-IsTidy b (sweeps now) i = revoke_all-IsTidy _ (due b now) i

  -- Whatever events come, a tidy board stays tidy: at most 200 requests, one pending request and one
  -- grant for a device and user, each for between a minute and eight hours, and the grants on disk.
  pub handle_all-IsTidy : (b : Board) (es : List Event) → IsTidy b → IsTidy (handle_all b es)
  unfolding handle_all
  handle_all-IsTidy b [] i = i
  handle_all-IsTidy b (e ∷ es) i = handle_all-IsTidy (handle b e) es (handle-IsTidy b e i)
