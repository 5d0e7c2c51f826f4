-- ===== src/Usage/Normalize/Tests.antt =====
-- Runs of the normalization, and its theorems at concrete responses.
use provider_core.Prelude.{ℕ, ◌≡◌, refl, true, false, none, some, arith, ap, insert_once, contains}
use provider_core.Prelude.Int.{pos}
use provider_core.Usage.Token.{
  known_value, provider_reported, derived_from_reported, field_conflict,
  NormalizationWarning-discrete,
}
use provider_core.Usage.Cache
use provider_core.Usage.Contract.{UsageContractSnapshot, TokenInclusionRules}
use provider_core.Usage.Contract
use provider_core.Usage.Raw.{RawUsageFields}
use provider_core.Usage.Normalize.{
  normalize_usage, classify, normalize_cache_read, normalize_input, cache_readable, check_total,
  total_reconciles, normalize_total, push_unique, push_billable_tokens,
}
use provider_core.Usage.Normalize.Inputs.{Partition, normalize_usage-Partition}
use provider_core.Usage.Normalize.Range.{FitI64, FitU64, normalize_usage-FitU64}
use provider_core.Usage.Normalize.Conflicts.{warns, conflicts, normalize_usage-conflicts}

-- A contract like codex's: the input includes the cache, and the provider reports a total.
abbrev inclusive : UsageContractSnapshot
inclusive = record {
  contract_version = 1;
  normalization_version = 1;
  inclusion = record {
    input_includes_cache = true;
    input_categories_mutually_exclusive = false;
    reasoning_included_in_output = true;
    reasoning_applicable = true;
    audio_applicable = false;
    cache_write_applicable = false;
    missing_cache_read_means_zero = false;
    total_source = Contract.TotalSource.reported;
  };
  cache_capability = Cache.CacheCapability.supported;
  cache_eligibility = Cache.CacheEligibility.eligible;
  cache_reporting_expectation = Cache.CacheReportingExpectation.expected;
  pricing_context_basis = Contract.PricingContextBasis.effective_input;
  pricing_mode = Contract.PricingMode.default;
}

-- A response with 100 input tokens, 40 of them cached, and 7 output tokens.
abbrev response : ℕ → RawUsageFields
response total = record {
  input = some (pos 100);
  cache_read = some (pos 40);
  cache_write = none;
  output = some (pos 7);
  reasoning = some (pos 2);
  input_audio = none;
  output_audio = none;
  image_input = none;
  image_output = none;
  total = some (pos total);
}

uncached_rest :
    (normalize_usage (some (response 107)) inclusive).uncached_input_tokens
    ≡ derived_from_reported 60 1
unfolding normalize_usage classify normalize_cache_read normalize_input cache_readable
uncached_rest = refl

effective_input :
    (normalize_usage (some (response 107)) inclusive).effective_input_tokens ≡ provider_reported 100
unfolding normalize_usage classify normalize_input
effective_input = refl

-- 100 + 7 is not 120.
wrong_total : warns (normalize_usage (some (response 120)) inclusive).warnings field_conflict ≡ true
unfolding normalize_usage classify normalize_cache_read normalize_input cache_readable check_total
    total_reconciles normalize_total push_unique push_billable_tokens insert_once contains
    NormalizationWarning-discrete
wrong_total = refl

normalize_usage-Partition_example :
    let o = normalize_usage (some (response 107)) inclusive in
    Partition inclusive.inclusion o.cache_read_input_tokens o.cache_write_input_tokens 60 100
normalize_usage-Partition_example =
    normalize_usage-Partition (response 107) inclusive 60 100 (ap known_value uncached_rest)
      (ap known_value effective_input)

response-FitI64 : FitI64 (response 107)
response-FitI64 = omega arith

normalize_usage-FitU64_example : FitU64 (normalize_usage (some (response 107)) inclusive)
normalize_usage-FitU64_example = normalize_usage-FitU64 (response 107) inclusive response-FitI64

wrong_total-FitI64 : FitI64 (response 120)
wrong_total-FitI64 = omega arith

normalize_usage-conflicts_example :
    let o = normalize_usage (some (response 120)) inclusive in
    warns o.warnings field_conflict ≡ conflicts (response 120) inclusive o
normalize_usage-conflicts_example =
    normalize_usage-conflicts (response 120) inclusive wrong_total-FitI64
