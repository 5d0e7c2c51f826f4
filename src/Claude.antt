-- ===== src/Claude.antt =====
-- The answers of the Messages API of Claude: crates/provider-protocol/src/claude.
pub mod Event
pub mod Blocks
pub mod Items
pub mod Convert
pub mod Stream
pub mod Client
pub mod Replay
pub mod Sample
mod Tests
