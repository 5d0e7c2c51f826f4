-- ===== src/Cost/Pricing/Tests.antt =====
-- The tiers of a saved price at a concrete context, and the price of a concrete text.
use provider_core.Prelude.{ℕ, ◌≡◌, refl, trim, none, some, [], ◌∷◌, Text}
use provider_core.Prelude.Int.{pos}
use provider_core.Cost.Money.{UnitPrice}
use provider_core.Cost.Price.{
  ProviderModelPricingSource, ComponentPrices, ModelInlinePriceRecordV2, model_v2, resolved,
  prices_for_context,
}
use provider_core.Cost.Pricing.{
  ProviderModelPricingRecord, ProviderModelPricingTier, model_price_resolution, parse_unit_price,
  parse_optional_price, component_prices_from_model_pricing, context_price_tiers_from_model_pricing,
}
use provider_core.Cost.Pricing.Exact.{Denotes, parse_unit_price-Denotes}
use provider_core.Cost.Pricing.Tiers.{Selects, prices_for_context-Selects}

-- A tier that sets a price for the input only.
abbrev tier_of : ℕ → Text → ProviderModelPricingTier
tier_of threshold input = record {
  threshold_tokens = threshold;
  input = some input;
  output = none;
  cache_read = none;
  cache_write = none;
  reasoning = none;
  input_audio = none;
  output_audio = none;
}

-- "1", "2" above 200,000 tokens and "4.5" above 400,000 tokens.
abbrev saved : ProviderModelPricingRecord
saved = record {
  source = ProviderModelPricingSource.manual;
  pricing = record {
    input = some (b'1' ∷ []);
    output = none;
    cache_read = none;
    cache_write = none;
    reasoning = none;
    input_audio = none;
    output_audio = none;
    tiers = tier_of 200_000 (b'2' ∷ []) ∷ tier_of 400_000 (b'4' ∷ b'.' ∷ b'5' ∷ []) ∷ [];
  };
}

abbrev input_price : UnitPrice → ComponentPrices
input_price price = record {
  uncached_input_per_million = some price;
  cache_read_per_million = none;
  cache_write_per_million = none;
  output_per_million = none;
  reasoning_per_million = none;
  input_audio_per_million = none;
  output_audio_per_million = none;
}

abbrev parsed : ModelInlinePriceRecordV2
parsed = record {
  format_version = 2;
  source = ProviderModelPricingSource.manual;
  prices = input_price (pos 100_000_000);
  tiers =
      record { threshold_tokens = 200_000; prices = input_price (pos 200_000_000) }
      ∷ record { threshold_tokens = 400_000; prices = input_price (pos 450_000_000) }
      ∷ [];
}

saved-parsed : model_price_resolution (some saved) ≡ resolved (model_v2 parsed)
unfolding model_price_resolution component_prices_from_model_pricing
    context_price_tiers_from_model_pricing parse_optional_price parse_unit_price
saved-parsed = refl

-- A threshold itself is not above the threshold.
at_threshold : prices_for_context (model_v2 parsed) (some 400_000) ≡ input_price (pos 200_000_000)
unfolding prices_for_context
at_threshold = refl

prices_for_context-Selects_example :
    Selects parsed.prices parsed.tiers 300_000 (prices_for_context (model_v2 parsed) (some 300_000))
prices_for_context-Selects_example = prices_for_context-Selects saved parsed 300_000 saved-parsed

-- " 2.5", with a space that is trimmed.
abbrev two_and_half : Text
two_and_half = b' ' ∷ b'2' ∷ b'.' ∷ b'5' ∷ []

two_and_half-parsed : parse_unit_price two_and_half ≡ some (pos 250_000_000)
unfolding parse_unit_price
two_and_half-parsed = refl

parse_unit_price-Denotes_example : Denotes (trim two_and_half) (pos 250_000_000)
parse_unit_price-Denotes_example =
    parse_unit_price-Denotes two_and_half (pos 250_000_000) two_and_half-parsed
