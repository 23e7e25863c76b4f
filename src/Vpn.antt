-- ===== src/Vpn.antt =====
-- crates/hub/src/vpn.rs: the passes of the VPN exits.
pub mod Defs
pub mod Ops
pub mod Calls
pub mod Cases
pub mod Saved
pub mod Epochs
pub mod Weaker
pub mod Lost
pub mod Addresses
pub mod Sync
mod Examples
