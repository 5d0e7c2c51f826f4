-- ===== src/Cost.antt =====
-- provider-usage's prices and costs: crates/provider-usage/src.
pub mod Money
pub mod Price
pub mod Nonneg
pub mod Pricing
pub mod Observed
pub mod Maximum
