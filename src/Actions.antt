-- ===== src/Actions.antt =====
-- crates/hub/src/main.rs: actions that wait: those queued for a device that is offline, and the
-- schedules. Plugins has the commands that plugins add; Exactly, Round, Armed and Daily are proofs.
pub mod Plugins
mod Queue
mod Schedules
mod Exactly
mod Daily
mod Round
mod Armed
mod Examples
