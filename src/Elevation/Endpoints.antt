-- ===== src/Elevation/Endpoints.antt =====
-- crates/hub/src/main.rs: the endpoints for temporary admin (`request_elevation_ep`,
-- `elevation_approve_ep`, `elevation_grant_ep`, `elevation_deny_ep`) and `sweep_elevation`. What a
-- device answers to a command, which devices are connected and `str::to_lowercase` are parameters;
-- the commands sent and queued are listed. Each endpoint is one step. A notice to the user and the
-- audit log are left out.
use haive_control.Prelude.{
  ℕ, Bool, true, false, not, ◌||◌, Option, none, some, List, [], ◌∷◌, ◌++◌, Text, text, trim, leb,
  is_empty, is_some, unwrap_or, strip_prefix, starts_with, contains_text, or_else, nat_eq, list_eq,
  if◌then◌else◌,
}
use haive_control.Commands.Table.{os_command}
use haive_control.Elevation.Board.{
  Ask, Grant, Board, submit, peek, decide, add_grant, remove_grant, due,
}

-- `clamp(1, 480)`.
unfoldable pub clamp_minutes : ℕ → ℕ
clamp_minutes m = if leb m 1 then 1 else if leb 480 m then 480 else m

-- What a request carries, with the device's record.
pub record Asked : Type 0 where
  pub rid : Text
  pub owner : Option Text
  pub minutes : Option ℕ
  pub reason : Text
  pub user : Option Text
  pub session_user : Option Text
  pub recorded_user : Option Text
  pub device : Text

unfoldable pub asking_user : Asked → Text
asking_user q = unwrap_or [] (
    or_else
      (or_else
        (elim q.user [ none ↦ none | some u ↦ if is_empty (trim u) then none else some (trim u) ])
        q.session_user)
      q.recorded_user)

unfoldable pub request_elevation : Board → Asked → ℕ → Board × Option Ask
unfolding clamp_minutes asking_user
request_elevation b q now = if is_empty q.rid then (b, none) else elim q.owner [
  | none ↦ (b, none)
  | some o ↦
      if is_empty o
      then (b, none)
      else if is_empty (asking_user q)
      then (b, none)
      else (let (b', r) =
            submit b o (text "relay:" ++ q.rid) (text "relay://" ++ q.rid) q.device (asking_user q)
              (clamp_minutes (unwrap_or 30 q.minutes)) (trim q.reason) now in
          (b', some r))
]

-- What an endpoint leaves: the board, the commands sent to devices and those queued for them, each
-- with its target, and whether it answered ok.
pub record Done : Type 0 where
  pub after : Board
  pub sent : List (Text × Text)
  pub queued : List (Text × Text)
  pub ok : Bool

unfoldable pub refuse : Board → List (Text × Text) → Done
refuse b sent = record { after = b; sent = sent; queued = []; ok = false }

module _ (to_lowercase : Text → Text) (exec_output : Text → Text → Text)
    (is_connected : Text → Bool) where
  -- `elevation_failure(..).is_some()`.
  unfoldable pub elevation_failure : Text → Bool
  elevation_failure out =
      let l = to_lowercase (trim out) in
      contains_text (text "access is denied") l
      || contains_text (text "system error 5") l
      || is_empty l
      || contains_text (text "unreachable") l

  unfoldable pub elevation_approve : Board → ℕ → Option ℕ → Option Text → ℕ → Done
  unfolding refuse clamp_minutes
  elevation_approve b id minutes user now = elim (peek b id user) [
    | none ↦ refuse b []
    | some r ↦ elim (os_command (text "windows") (text "grant_admin") r.user) [
      | none ↦ refuse b []
      | some cmd ↦
          let m : ℕ = elim minutes [ none ↦ r.minutes | some m ↦ clamp_minutes m ] in
          if elevation_failure (exec_output r.target cmd)
          then refuse b ((r.target, cmd) ∷ [])
          else record {
            after =
                add_grant (decide b id user (text "approved")).0 r.owner r.device_key r.target
                  r.device r.user m now;
            sent = (r.target, cmd) ∷ [];
            queued = [];
            ok = true;
          }
    ]
  ]

  -- An administrator's own grant: whether `may_control` let the caller through, the target with
  -- its key and name, the account, and the owner.
  unfoldable pub elevation_grant :
      Board → Bool → Text → Text → Text → Text → Text → Option ℕ → ℕ → Done
  unfolding refuse clamp_minutes
  elevation_grant b allowed target device_key device account owner minutes now =
      if is_empty target || not allowed
      then refuse b []
      else if is_empty account
      then refuse b []
      else elim (os_command (text "windows") (text "grant_admin") account) [
        | none ↦ refuse b []
        | some cmd ↦
            let m : ℕ = elim minutes [ none ↦ 60 | some m ↦ clamp_minutes m ] in
            if elevation_failure (exec_output target cmd)
            then refuse b ((target, cmd) ∷ [])
            else record {
              after = add_grant b owner device_key target device account m now;
              sent = (target, cmd) ∷ [];
              queued = [];
              ok = true;
            }
      ]

  unfoldable pub elevation_deny : Board → ℕ → Option Text → Done
  unfolding refuse
  elevation_deny b id user =
      let (b', r) = decide b id user (text "denied") in
      record { after = b'; sent = []; queued = []; ok = is_some r }

  -- A grant whose window has elapsed.
  unfoldable pub revoke_due : Done → Grant → Done
  revoke_due d g = elim (os_command (text "windows") (text "revoke_admin") g.user) [
    | none ↦ record d { after = remove_grant d.after g.device_key g.user }
    | some cmd ↦
        let agent_id = unwrap_or g.device_key (strip_prefix (text "relay:") g.device_key) in
        if is_connected agent_id
        then record d {
          after = remove_grant d.after g.device_key g.user;
          sent = d.sent ++ ((g.target, cmd) ∷ []);
        }
        else if starts_with (text "relay:") g.device_key
        then record d {
          after = remove_grant d.after g.device_key g.user;
          queued = d.queued ++ ((g.device_key, cmd) ∷ []);
        }
        else d
  ]

  unfoldable pub revoke_all : Done → List Grant → Done
  unfolding revoke_due
  revoke_all d [] = d
  revoke_all d (g ∷ gs) = revoke_all (revoke_due d g) gs

  unfoldable pub sweep_elevation : Board → ℕ → Done
  unfolding revoke_all
  sweep_elevation b now =
      revoke_all (record { after = b; sent = []; queued = []; ok = true }) (due b now)
