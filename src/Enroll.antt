-- ===== src/Enroll.antt =====
-- crates/hub/src/relay.rs and devicesecrets.rs: who may register a device and use its tunnel.
pub mod Tunnels
pub mod Secrets
pub mod Hello
pub mod Takeover
mod Examples
