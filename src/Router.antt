-- ===== src/Router.antt =====
-- The routing of a request to an account: crates/provider-runtime/src/router.rs.
pub mod Bindings
pub mod Accounts
pub mod Candidates
pub mod RoundRobin
pub mod Routes
pub mod Updates
pub mod Choice
pub mod Found
pub mod Guards
pub mod Eligibility
pub mod Continuation
pub mod Fairness
pub mod Removal
mod Tests
