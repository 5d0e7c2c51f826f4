-- ===== src/Tracking.antt =====
-- What is recorded of a request and its attempts: crates/provider-usage/src.
pub mod Status
pub mod Price
pub mod Attempt
pub mod Once
pub mod Returns
pub mod Finish
mod Tests
