-- ===== src/Analysis.antt =====
-- crates/hub/src/main.rs: what the devices' agents report of themselves. Posture has the checks and
-- the grade, Store the sections that agents push and the history of installed packages, Updates the
-- pass that updates agents. Graded is a proof.
mod Posture
mod Store
mod Updates
mod Graded
mod Examples
