-- ===== src/Usage/Contract.antt =====
-- The usage contract fixed for an attempt: crates/provider-core/src/usage/contract.rs.
-- Versions are `u16` values that the code only copies.
use provider_core.Prelude.{ℕ, Bool}
use provider_core.Usage.Cache.{CacheCapability, CacheEligibility, CacheReportingExpectation}

pub data TotalSource : Type 0 where
  reported : TotalSource
  derived_sum : ℕ → TotalSource
  unavailable : TotalSource

pub record TokenInclusionRules : Type 0 where
  pub input_includes_cache : Bool
  pub input_categories_mutually_exclusive : Bool
  pub reasoning_included_in_output : Bool
  pub reasoning_applicable : Bool
  pub audio_applicable : Bool
  pub cache_write_applicable : Bool
  pub missing_cache_read_means_zero : Bool
  pub total_source : TotalSource

pub data PricingContextBasis : Type 0 where
  effective_input unknown : PricingContextBasis

pub data PricingMode : Type 0 where
  default unknown : PricingMode

pub record UsageContractSnapshot : Type 0 where
  pub contract_version : ℕ
  pub normalization_version : ℕ
  pub inclusion : TokenInclusionRules
  pub cache_capability : CacheCapability
  pub cache_eligibility : CacheEligibility
  pub cache_reporting_expectation : CacheReportingExpectation
  pub pricing_context_basis : PricingContextBasis
  pub pricing_mode : PricingMode
