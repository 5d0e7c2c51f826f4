-- ===== src/Runtime.antt =====
-- The account runtime, which calls the upstream of an account: crates/provider-runtime/src/runtime.rs.
pub mod Entry
mod Tests
