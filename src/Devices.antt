-- ===== src/Devices.antt =====
-- crates/hub/src/main.rs and relay.rs: the rows of the devices (`Agents`), who may control a device,
-- its owner, its removal, and the removal of duplicate rows. Rows has the rows, Owners an owner's
-- name and the enrollment tokens, Fleet the stores that a device's removal or handover goes through,
-- Duplicates `dedup_sweep`. Fresh, Remains, Handover, Strict and Rotation are proofs.
pub mod Rows
pub mod Owners
pub mod Fleet
mod Duplicates
mod Fresh
mod Sorted
mod Groups
mod Remains
mod Handover
mod Strict
mod Rotation
mod Examples
