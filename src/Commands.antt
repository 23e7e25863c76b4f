-- ===== src/Commands.antt =====
-- crates/hub/src/main.rs: the commands that the hub makes for a device.
pub mod Args
pub mod Table
pub mod Fixes
pub mod Skeleton
pub mod Readonly
pub mod Gate
pub mod FixSkeleton
mod Examples
