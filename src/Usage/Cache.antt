-- ===== src/Usage/Cache.antt =====
-- Cache dimensions: crates/provider-core/src/usage/cache.rs.
use provider_core.Prelude.{zero, suc, Bool, true, false, ◌&&◌}
use provider_core.Usage.Token.{TokenMetric, provider_reported}

pub data CacheCapability : Type 0 where
  supported unsupported unknown : CacheCapability

pub data CacheEligibility : Type 0 where
  eligible not_requested not_applicable unknown : CacheEligibility

pub data CacheReportingExpectation : Type 0 where
  expected not_expected unknown : CacheReportingExpectation

pub data CacheHit : Type 0 where
  hit miss excluded : CacheHit

unfoldable pub hit_from_cache_read : TokenMetric → CacheHit
hit_from_cache_read (provider_reported (suc n)) = hit
hit_from_cache_read (provider_reported zero) = miss
hit_from_cache_read _ = excluded

abbrev is_supported : CacheCapability → Bool
is_supported supported = true
is_supported _ = false

abbrev is_eligible : CacheEligibility → Bool
is_eligible eligible = true
is_eligible _ = false

abbrev is_expected : CacheReportingExpectation → Bool
is_expected expected = true
is_expected _ = false

unfoldable pub counts_in_reporting_coverage :
    CacheCapability → CacheEligibility → CacheReportingExpectation → Bool
counts_in_reporting_coverage capability eligibility expectation =
    is_supported capability && is_eligible eligibility && is_expected expectation
