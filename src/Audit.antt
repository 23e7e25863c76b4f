-- ===== src/Audit.antt =====
-- crates/hub/src/main.rs: the audit log, the access log of the MCP clients, and the sessions of the
-- operators with their summaries. An `Instant` is its second, an argument. Summary has the text of a
-- session's summary; Rings, Written and Once are proofs, Examples their tests.
mod Log
mod Summary
mod Sweep
mod Rings
mod Written
mod Once
mod Examples
unfoldable pub use Log.*
unfoldable pub use Summary.*
unfoldable pub use Sweep.*
