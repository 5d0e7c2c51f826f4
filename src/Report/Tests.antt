-- ===== src/Report/Tests.antt =====
-- The report of a concrete attempt.
use provider_core.Prelude.{◌≡◌, refl, none, some, true, false, [], ◌∷◌}
use provider_core.Prelude.Int.{pos}
use provider_core.Usage.Token.{
  provider_reported, derived_from_reported, not_applicable, ProviderUsageObservation,
}
use provider_core.Usage.Cache
use provider_core.Usage.Contract
use provider_core.Cost.Price.{
  ComponentPrices, ProviderModelPricingSource, InlinePriceRecord, model_v2, resolved,
}
use provider_core.Cost.Money.{UnitPrice}
use provider_core.Cost.Observed.{not_dispatched_cost}
use provider_core.Tracking.Status.{response_observed, complete}
use provider_core.Tracking.Attempt.{AttemptFacts}
use provider_core.Tracking.Attempt
use provider_core.Tracking.Price
use provider_core.Report.{
  Agrees, selected_prices, selected_tier_threshold, last_threshold, threshold_for,
  selected_prices-Agrees,
}

abbrev usage : ProviderUsageObservation
usage = record {
  uncached_input_tokens = derived_from_reported 299_960 1;
  cache_read_input_tokens = provider_reported 40;
  cache_write_input_tokens = not_applicable;
  effective_input_tokens = provider_reported 300_000;
  output_tokens = provider_reported 7;
  reasoning_tokens = provider_reported 2;
  input_audio_tokens = not_applicable;
  output_audio_tokens = not_applicable;
  total_tokens = provider_reported 300_007;
  pricing_context_tokens = provider_reported 300_000;
  billable = [];
  warnings = [];
}

abbrev input_price : UnitPrice → ComponentPrices
input_price price = record {
  uncached_input_per_million = some price;
  cache_read_per_million = none;
  cache_write_per_million = none;
  output_per_million = none;
  reasoning_per_million = none;
  input_audio_per_million = none;
  output_audio_per_million = none;
}

-- USD 1, and USD 2 above 200,000 tokens.
abbrev two_prices : InlinePriceRecord
two_prices = model_v2 (record {
  format_version = 2;
  source = ProviderModelPricingSource.manual;
  prices = input_price (pos 100_000_000);
  tiers = record { threshold_tokens = 200_000; prices = input_price (pos 200_000_000) } ∷ [];
})

abbrev attempt : AttemptFacts
attempt = record {
  request_id = b'r' ∷ [];
  sequence = 1;
  provider = Price.ProviderKind.codex;
  account_id = b'a' ∷ [];
  credential_identity_revision = 1;
  configured_model = none;
  provider_reported_model = none;
  started_at_ms = 10;
  first_token_at_ms = some 20;
  completed_at_ms = 30;
  outcome = Attempt.AttemptOutcome.succeeded;
  failover_reason = none;
  dispatch_evidence = response_observed;
  tracking = complete;
  contract = record {
    contract_version = 1;
    normalization_version = 1;
    inclusion = record {
      input_includes_cache = true;
      input_categories_mutually_exclusive = false;
      reasoning_included_in_output = true;
      reasoning_applicable = true;
      audio_applicable = false;
      cache_write_applicable = false;
      missing_cache_read_means_zero = false;
      total_source = Contract.TotalSource.reported;
    };
    cache_capability = Cache.CacheCapability.supported;
    cache_eligibility = Cache.CacheEligibility.eligible;
    cache_reporting_expectation = Cache.CacheReportingExpectation.expected;
    pricing_context_basis = Contract.PricingContextBasis.effective_input;
    pricing_mode = Contract.PricingMode.default;
  };
  observation = usage;
  price = resolved two_prices;
  cost = not_dispatched_cost;
}

threshold_shown : selected_tier_threshold attempt ≡ some 200_000
unfolding selected_tier_threshold threshold_for last_threshold
threshold_shown = refl

selected_prices-Agrees_example :
    Agrees two_prices (some 300_000) (selected_tier_threshold attempt) (selected_prices attempt)
selected_prices-Agrees_example = selected_prices-Agrees attempt two_prices refl
