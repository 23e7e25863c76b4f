-- ===== src/Proxy/Gated.antt =====
-- crates/hub/src/main.rs and jobs.rs: what an action passes before it reaches its device.
use haive_control.Prelude.{nat_eq, list_eq}
