-- ===== src/Audit/Log.antt =====
-- crates/hub/src/main.rs: `audit`, `touch_session` and `record_mcp_access`.
use haive_control.Prelude.{
  ℕ, ◌-◌, Bool, false, ◌||◌, List, [], ◌∷◌, Text, text, take, leb, is_empty, unwrap_or, Map, lookup,
  insert, ◌==◌, nat_eq, list_eq, if◌then◌else◌,
}

-- `AuditEvent`.
pub record Event : Type 0 where
  pub at : ℕ
  pub actor : Text
  pub source : Text
  pub action : Text
  pub device : Text
  pub detail : Text

pub record Session : Type 0 where
  pub start : ℕ
  pub last : ℕ
  pub summarized : Bool

-- The audit log, newest first, and the sessions by their operator.
pub record Audit : Type 0 where
  pub log : List Event
  pub sessions : Map Text Session

abbrev pub session_idle : ℕ
session_idle = 1800

abbrev pub is_idle : ℕ → Session → Bool
is_idle now e = leb session_idle (now - e.last)

unfoldable pub new_session : ℕ → Session
new_session now = record { start = now; last = now; summarized = false }

unfoldable pub touch_session : ℕ → Text → Map Text Session → Map Text Session
unfolding new_session
touch_session now actor s =
    let e = unwrap_or (new_session now) (lookup actor s) in
    let e' = if e.summarized || is_idle now e then new_session now else e in
    insert actor (record e' { last = now }) s

unfoldable pub push_event : List Event → Event → List Event
push_event log e = take 500 (e ∷ log)

unfoldable pub audit : Audit → ℕ → Text → Text → Text → Text → Text → Audit
unfolding touch_session push_event
audit a now actor source action device detail =
    let e : Event = record {
      at = now;
      actor = actor;
      source = source;
      action = action;
      device = device;
      detail = take 180 detail;
    } in
    record {
      log = push_event a.log e;
      sessions =
          if source == text "summary" then a.sessions else touch_session now actor a.sessions;
    }

-- `AccessEvent`, and the events of each device, newest first.
pub record Access : Type 0 where
  pub when : ℕ
  pub action : Text
  pub owner : Text
  pub detail : Text

-- `record_mcp_access` for the device of this key.
unfoldable pub record_access :
    Map Text (List Access) → ℕ → Text → Text → Text → Text → Map Text (List Access)
record_access m now key action owner detail =
    if is_empty key
    then m
    else let e : Access = record {
      when = now;
      action = action;
      owner = owner;
      detail = take 180 detail;
    } in
      insert key (take 50 (e ∷ unwrap_or [] (lookup key m))) m
