-- ===== src/Vpn/Ops.antt =====
-- crates/hub/src/vpn.rs: the endpoints that push to a device with the lock released. Each is two
-- functions, the part before its push and the part behind it; what a push gave, the device's
-- owner, the random values and the time are arguments, and so are base64 and the relay's hashes.
mod Enable
mod Issue
mod Sweep
unfoldable pub use Enable.*
unfoldable pub use Issue.*
unfoldable pub use Sweep.*
