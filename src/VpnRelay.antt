-- ===== src/VpnRelay.antt =====
-- crates/hub/src/vpnrelay.rs: the UDP relay of the VPN exit. `Frames` is the wire format, `Table`
-- the relay's state, `Route` what a datagram turns into; the others are proofs.
pub mod Frames
pub mod Table
pub mod Room
pub mod Trims
pub mod Caps
pub mod Established
pub mod Authentic
pub mod Replay
pub mod Keys
pub mod RoundTrip
mod Examples
pub mod Route
