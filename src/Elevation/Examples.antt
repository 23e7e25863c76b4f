-- ===== src/Elevation/Examples.antt =====
-- Temporary admin at concrete inputs: one request, one grant, a device that answers.
use haive_control.Prelude.{
  ◌≡◌, refl, arith, Bool, false, ◌&&◌, none, some, [], ◌∷◌, Text, text, In, inl, leb, list_beq,
  nat_eq, list_eq, starts_with, strip_prefix, trim, is_whitespace,
}
use haive_control.Commands.Table.{os_command}
use haive_control.Commands.Args.{win_user_arg}
use haive_control.Elevation.Board.{Grant, Board, due}
use haive_control.Elevation.Endpoints.{Asked, sweep_elevation}
use haive_control.Elevation.Tidy.{asks, approves, sweeps, handle_all, handle_all-IsTidy}
use haive_control.Elevation.Window.{IsTidy}
use haive_control.Elevation.Sweep.{can_revoke, sweep_elevation-swept}

abbrev answers : Text → Text → Text
answers target cmd = text "The command completed successfully."

abbrev same : Text → Text
same s = s

abbrev nobody : Text → Bool
nobody id = false

abbrev empty : Board
empty = record { requests = []; next_id = 1; grants = []; disk_grants = [] }

abbrev asked : Asked
asked = record {
  rid = text "hc-1";
  owner = some (text "ann");
  minutes = some 900;
  reason = text "driver";
  user = some (text "bob");
  session_user = none;
  recorded_user = none;
  device = text "desk";
}

abbrev grant : Grant
grant = record {
  owner = text "ann";
  device_key = text "http://10.0.0.7";
  target = text "http://10.0.0.7";
  device = text "desk";
  user = text "bob";
  granted_at = 100;
  revoke_at = 160;
}

abbrev one : Board
one = record { requests = []; next_id = 1; grants = grant ∷ []; disk_grants = grant ∷ [] }

handle_all-IsTidy_example : IsTidy (
    handle_all same answers nobody empty
      (asks asked 50 ∷ approves 1 none (some (text "ann")) 60 ∷ sweeps 90 ∷ []))
handle_all-IsTidy_example =
    handle_all-IsTidy same answers nobody empty
      (asks asked 50 ∷ approves 1 none (some (text "ann")) 60 ∷ sweeps 90 ∷ [])
      (record {
        few = omega arith;
        one_ask = λ k u. omega arith;
        short = tt;
        one_grant = λ k u. omega arith;
        windows = tt;
        stored = refl;
      })

sweep_elevation-swept_example :
    In grant one.grants × ((leb 160 200 && can_revoke nobody grant) ≡ false)
unfolding sweep_elevation due list_beq os_command win_user_arg starts_with strip_prefix trim
    is_whitespace
sweep_elevation-swept_example = sweep_elevation-swept same answers nobody one 200 grant (inl refl)
