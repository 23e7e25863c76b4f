-- ===== src/Vpn/Calls.antt =====
-- crates/hub/src/vpn.rs: the calls that may come in any order, and the store behind some of them.
-- A second half may come with anything its first half could have held on to.
use haive_control.Prelude.{ℕ, Bool, Option, none, some, List, [], ◌∷◌, Text}
use haive_control.VpnRelay.Frames.{Crypto}
use haive_control.Vpn.Defs.{Pass, Vpn, Revoked, switch_off, revoke}
use haive_control.Vpn.Ops.{
  Started, Pushed, Request, Issued, denied, issued, enable_finish, issue_begin, issue_finish, purge,
  sweep_finish, revoke_finish,
}

pub data Call : Type 0 where
  switches_off : Text → Bool → ℕ → Call
  revokes : Text → Text → ℕ → Call
  ends_revoke : Text → Revoked → Bool → Call
  ends_enable : Text → Started → Pushed → Option Text → Call
  issues : Request → Option Text → ℕ → Call
  ends_issue : Pass → Started → Pushed → Option Text → ℕ → Call
  purges : ℕ → Call
  ends_sweep : Text → Started → Pushed → Call

unfoldable pub store_issued : Vpn → Issued → Vpn
store_issued v (denied code) = v
store_issued v (issued v' p b) = v'

unfoldable pub store_revoked : Vpn → Option Revoked → Vpn
store_revoked v none = v
store_revoked v (some r) = r.after

module _ (decode_key : Text → Option (List ℕ)) (c : Crypto) where
  unfoldable pub step : Vpn → Call → Vpn
  step v (switches_off d drops t) = (switch_off v d drops t).0
  step v (revokes d id t) = store_revoked v (revoke v d id t)
  step v (ends_revoke d r synced) = revoke_finish v d r synced
  step v (ends_enable d b pushed owner) = (enable_finish decode_key c v d b pushed owner).after
  step v (issues q owner t) = store_issued v (issue_begin v q owner t)
  step v (ends_issue p b pushed owner t) = (issue_finish v p b pushed owner t).after
  step v (purges t) = purge v t
  step v (ends_sweep d b pushed) = sweep_finish v d b pushed

  unfoldable pub run : Vpn → List Call → Vpn
  run v [] = v
  run v (x ∷ xs) = run (step v x) xs
