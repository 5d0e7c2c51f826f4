-- ===== src/Usage.antt =====
-- provider-core's usage vocabulary: crates/provider-core/src/usage.
pub mod Token
pub mod Cache
pub mod Contract
pub mod Raw
pub mod Normalize
