-- ===== src/Cost/Maximum/Tests.antt =====
-- The quota bound at a concrete request and response.
use provider_core.Prelude.{◌≡◌, refl, true, false, none, some, [], ◌∷◌, arith}
use provider_core.Prelude.Int.{pos, ◌≤ℤ◌, ◌*ℤ◌, ◌+ℤ◌}
use provider_core.Prelude.Results.{ok}
use provider_core.Usage.Token.{
  provider_reported, derived_from_reported, not_applicable, ProviderUsageObservation,
}
use provider_core.Usage.Cache
use provider_core.Usage.Contract.{UsageContractSnapshot}
use provider_core.Usage.Contract
use provider_core.Cost.Money.{checked_add, component_cost_atoms}
use provider_core.Cost.Price.{ProviderModelPricingSource}
use provider_core.Cost.Pricing.{
  ProviderModelPricingRecord, model_price_resolution, parse_unit_price, parse_optional_price,
  component_prices_from_model_pricing, context_price_tiers_from_model_pricing,
}
use provider_core.Cost.Observed.{reasoning_to_price, compute_observed_catalog_cost}
use provider_core.Cost.Maximum.{
  compute_maximum_text_request_cost, input_cost, output_cost, maximum_cost_for_prices,
  maximum_over_tiers, maximum_for_attempts, input_rate, raise_rate, add_if, checked_add_component,
  cache_read_can_apply,
}
use provider_core.Cost.Maximum.Rates.{Within}
use provider_core.Cost.Maximum.Bound.{counts, maximum-bounds-observed}

abbrev contract : UsageContractSnapshot
contract = record {
  contract_version = 1;
  normalization_version = 1;
  inclusion = record {
    input_includes_cache = true;
    input_categories_mutually_exclusive = false;
    reasoning_included_in_output = true;
    reasoning_applicable = true;
    audio_applicable = false;
    cache_write_applicable = false;
    missing_cache_read_means_zero = false;
    total_source = Contract.TotalSource.reported;
  };
  cache_capability = Cache.CacheCapability.supported;
  cache_eligibility = Cache.CacheEligibility.eligible;
  cache_reporting_expectation = Cache.CacheReportingExpectation.expected;
  pricing_context_basis = Contract.PricingContextBasis.effective_input;
  pricing_mode = Contract.PricingMode.default;
}

abbrev usage : ProviderUsageObservation
usage = record {
  uncached_input_tokens = derived_from_reported 60 1;
  cache_read_input_tokens = provider_reported 40;
  cache_write_input_tokens = not_applicable;
  effective_input_tokens = provider_reported 100;
  output_tokens = provider_reported 7;
  reasoning_tokens = provider_reported 2;
  input_audio_tokens = not_applicable;
  output_audio_tokens = not_applicable;
  total_tokens = provider_reported 107;
  pricing_context_tokens = provider_reported 100;
  billable = [];
  warnings = [];
}

-- "2.5" for input, "0.25" for a cache read and "10" for output.
abbrev pricing : ProviderModelPricingRecord
pricing = record {
  source = ProviderModelPricingSource.manual;
  pricing = record {
    input = some (b'2' ∷ b'.' ∷ b'5' ∷ []);
    output = some (b'1' ∷ b'0' ∷ []);
    cache_read = some (b'0' ∷ b'.' ∷ b'2' ∷ b'5' ∷ []);
    cache_write = none;
    reasoning = none;
    input_audio = none;
    output_audio = none;
    tiers = [];
  };
}

-- 100 input tokens and at most 10 output tokens, twice.
maximum_run :
    compute_maximum_text_request_cost pricing.pricing contract 100 10 2 ≡ ok (pos 70_000_000_000)
unfolding compute_maximum_text_request_cost component_prices_from_model_pricing
    context_price_tiers_from_model_pricing parse_optional_price parse_unit_price
    maximum_for_attempts maximum_over_tiers maximum_cost_for_prices input_cost output_cost
    input_rate raise_rate add_if checked_add_component cache_read_can_apply checked_add
    component_cost_atoms ◌+ℤ◌ ◌*ℤ◌
maximum_run = refl

usage-Within : Within (counts usage contract) contract 100 10
unfolding reasoning_to_price cache_read_can_apply
usage-Within = record {
  input = omega arith;
  output = omega arith;
  reasoning = omega arith;
  reads = λ h. refl;
  writes = λ h. ground arith;
  thinks = λ h. ground arith;
}

maximum-bounds-observed_example :
    (compute_observed_catalog_cost usage contract
      (model_price_resolution (some pricing))).total_known
    ≤ℤ pos 70_000_000_000
maximum-bounds-observed_example =
    maximum-bounds-observed pricing contract 100 10 2 usage (pos 70_000_000_000) usage-Within refl
      refl maximum_run
