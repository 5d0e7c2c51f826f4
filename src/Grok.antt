-- ===== src/Grok.antt =====
-- The replay of a conversation to Grok: crates/provider-drivers/src/grok/replay.rs.
pub mod Items
pub mod Cache
pub mod Stream
pub mod References
pub mod Body
pub mod Prepare
pub mod Kept
pub mod Valid
pub mod Own
pub mod Spared
pub mod Stored
pub mod Clean
pub mod Resolved
pub mod Sent
pub mod Paired
pub mod Complete
mod Tests
