-- ===== src/Mcp.antt =====
-- crates/hub/src/mcptokens.rs and main.rs: the tokens of MCP clients, and what their requests pass
-- before an endpoint sees them. Tokens has the store, Labels the names of actions, Gateway the
-- checks. Lifetime and Bound are proofs.
pub mod Tokens
pub mod Labels
pub mod Gateway
mod Lifetime
mod Bound
mod Examples
