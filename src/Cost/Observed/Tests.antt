-- ===== src/Cost/Observed/Tests.antt =====
-- Runs of the observed cost, and its theorems at a concrete response.
use provider_core.Prelude.{◌≡◌, ◌≢◌, refl, true, false, none, some, [], ◌∷◌, arith, All, contains}
use provider_core.Prelude.Int.{pos, ◌+ℤ◌, ◌*ℤ◌}
use provider_core.Usage.Token.{
  provider_reported, derived_from_reported, not_applicable, ProviderUsageObservation,
}
use provider_core.Usage.Cache
use provider_core.Usage.Contract.{UsageContractSnapshot}
use provider_core.Usage.Contract
use provider_core.Usage.Normalize.Range.{FitU64}
use provider_core.Cost.Money.{checked_add, component_cost_atoms}
use provider_core.Cost.Price.{
  ComponentPrices, InlinePriceRecord, ProviderModelPricingSource, model_v2, prices_for_context,
  last_passed, resolved,
}
use provider_core.Cost.Observed.{
  components, reasoning_to_price, price_component, price_known, price_count, price_unknown,
  tally_one, tally_all, push_if, final_reasons, conclude, complete_for_observed_catalog_components,
  CostStatus, compute_observed_catalog_cost,
}
use provider_core.Cost.Observed.Exact.{exact_total, compute_observed_catalog_cost-exact}
use provider_core.Cost.Observed.Complete.{
  IsSettled, IsClear, compute_observed_catalog_cost_complete,
}
use provider_core.Cost.Observed.Overflow.{AreModest, compute_observed_catalog_cost-available}

abbrev contract : UsageContractSnapshot
contract = record {
  contract_version = 1;
  normalization_version = 1;
  inclusion = record {
    input_includes_cache = true;
    input_categories_mutually_exclusive = false;
    reasoning_included_in_output = true;
    reasoning_applicable = true;
    audio_applicable = false;
    cache_write_applicable = false;
    missing_cache_read_means_zero = false;
    total_source = Contract.TotalSource.reported;
  };
  cache_capability = Cache.CacheCapability.supported;
  cache_eligibility = Cache.CacheEligibility.eligible;
  cache_reporting_expectation = Cache.CacheReportingExpectation.expected;
  pricing_context_basis = Contract.PricingContextBasis.effective_input;
  pricing_mode = Contract.PricingMode.default;
}

-- 100 input tokens, 40 of them cached, and 7 output tokens.
abbrev usage : ProviderUsageObservation
usage = record {
  uncached_input_tokens = derived_from_reported 60 1;
  cache_read_input_tokens = provider_reported 40;
  cache_write_input_tokens = not_applicable;
  effective_input_tokens = provider_reported 100;
  output_tokens = provider_reported 7;
  reasoning_tokens = provider_reported 2;
  input_audio_tokens = not_applicable;
  output_audio_tokens = not_applicable;
  total_tokens = provider_reported 107;
  pricing_context_tokens = provider_reported 100;
  billable = [];
  warnings = [];
}

-- USD 2.50 for input, 0.25 for a cache read and 10 for output, per million tokens.
abbrev prices : ComponentPrices
prices = record {
  uncached_input_per_million = some (pos 250_000_000);
  cache_read_per_million = some (pos 25_000_000);
  cache_write_per_million = none;
  output_per_million = some (pos 1_000_000_000);
  reasoning_per_million = none;
  input_audio_per_million = none;
  output_audio_per_million = none;
}

abbrev price_record : InlinePriceRecord
price_record = model_v2 (record {
  format_version = 2;
  source = ProviderModelPricingSource.manual;
  prices = prices;
  tiers = record { threshold_tokens = 200_000; prices = prices } ∷ [];
})

total_run :
    (compute_observed_catalog_cost usage contract (resolved price_record)).total_known
    ≡ pos 23_000_000_000
unfolding compute_observed_catalog_cost components reasoning_to_price price_component price_known
    price_count price_unknown tally_one tally_all conclude checked_add component_cost_atoms
    prices_for_context last_passed ◌+ℤ◌ ◌*ℤ◌
total_run = refl

status_run :
    (compute_observed_catalog_cost usage contract (resolved price_record)).status
    ≡ complete_for_observed_catalog_components
unfolding compute_observed_catalog_cost components reasoning_to_price price_component price_known
    price_count price_unknown tally_one tally_all conclude final_reasons push_if checked_add
    component_cost_atoms prices_for_context last_passed ◌+ℤ◌ ◌*ℤ◌ contains
status_run = refl

complete_is_available : complete_for_observed_catalog_components ≢ CostStatus.unavailable
complete_is_available = λ e. absurd (cc e)

is_available :
    (compute_observed_catalog_cost usage contract (resolved price_record)).status
    ≢ CostStatus.unavailable
is_available = rw status_run complete_is_available

compute_observed_catalog_cost-exact_example :
    (compute_observed_catalog_cost usage contract (resolved price_record)).total_known
    ≡ exact_total (components usage contract (prices_for_context price_record (some 100)))
compute_observed_catalog_cost-exact_example =
    compute_observed_catalog_cost-exact usage contract price_record is_available

compute_observed_catalog_cost_complete_example :
    IsClear usage contract price_record
    × All IsSettled (components usage contract (prices_for_context price_record (some 100)))
compute_observed_catalog_cost_complete_example =
    compute_observed_catalog_cost_complete usage contract price_record status_run

usage-FitU64 : FitU64 usage
usage-FitU64 = omega arith

prices-AreModest : AreModest (prices_for_context price_record (some 100))
unfolding prices_for_context last_passed
prices-AreModest = record {
  uncached_input = omega arith;
  cache_read = omega arith;
  cache_write = tt;
  output = omega arith;
  reasoning = tt;
  input_audio = tt;
  output_audio = tt;
}

compute_observed_catalog_cost-available_example :
    (compute_observed_catalog_cost usage contract (resolved price_record)).status
    ≢ CostStatus.unavailable
compute_observed_catalog_cost-available_example =
    compute_observed_catalog_cost-available usage contract price_record usage-FitU64
      prices-AreModest
