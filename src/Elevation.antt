-- ===== src/Elevation.antt =====
-- crates/hub/src/elevation.rs, and the endpoints of main.rs: temporary local admin.
pub mod Board
pub mod Endpoints
pub mod Window
pub mod Tidy
pub mod Sweep
mod Examples
