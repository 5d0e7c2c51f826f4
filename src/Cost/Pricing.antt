-- ===== src/Cost/Pricing.antt =====
-- Saved model prices and their decimal texts: crates/provider-usage/src/catalog.rs, lines 306-358,
-- 381-386 and 617-666, and `ProviderModelPricing` of crates/provider-core/src/model.rs. A text is
-- the list of its code points.
pub mod Exact
pub mod Nonneg
pub mod Tiers
pub mod Tests
use provider_core.Prelude.{
  ℕ, zero, suc, ◌+◌, ◌-◌, ◌*◌, Bool, true, false, ◌&&◌, ◌||◌, Option, none, some, List, [], ◌∷◌,
  ◌++◌, if◌then◌else◌, ltb, leb, ◌==◌, is_none, is_some_and, is_empty, length, Text, trim,
}
use provider_core.Prelude.Int.{ℤ, pos}
use provider_core.Cost.Money.{UnitPrice, price_scale, i128_bound}
use provider_core.Cost.Price.{
  ComponentPrices, ContextPriceTier, ProviderModelPricingSource, ModelInlinePriceRecordV2, model_v2,
  PriceResolution, resolved, model_mapping_missing, catalog_entry_invalid,
}

infixl 5 ◌>>=◌
abbrev pub ◌>>=◌ {ℓ κ} : {A : Type ℓ} {B : Type κ} → Option A → (A → Option B) → Option B
none >>= f = none
some a >>= f = f a

-- The bytes of a text, as `str::len` counts them.
utf8_len : Text → ℕ
utf8_len [] = 0
utf8_len (c ∷ s) =
    (if ltb c 0x80 then 1 else if ltb c 0x800 then 2 else if ltb c 0x10000 then 3 else 4)
    + utf8_len s

pub record Parts : Type 0 where
  pub integer : Text
  pub fraction : Text

-- `split_once('.')`, with the whole text and "" where there is no point.
split_point : Text → Parts
split_point [] = record { integer = []; fraction = [] }
split_point (c ∷ s) =
    let rest = split_point s in
    if c == b'.'
    then record { integer = []; fraction = s }
    else record rest { integer = c ∷ rest.integer }

abbrev pub is_ascii_digit : ℕ → Bool
is_ascii_digit c = leb b'0' c && leb c b'9'

pub all_digits : Text → Bool
all_digits [] = true
all_digits (c ∷ s) = is_ascii_digit c && all_digits s

abbrev checked_pos : ℕ → Option ℕ
checked_pos n = if ltb n i128_bound then some n else none

-- `scaled.checked_mul(10)?.checked_add(…)?` for each digit.
push_digits : ℕ → Text → Option ℕ
push_digits scaled [] = some scaled
push_digits scaled (c ∷ s) = do
  tens ← checked_pos (scaled * 10)
  sum ← checked_pos (tens + (c - b'0'))
  push_digits sum s

-- The fraction is aligned to the scale.
align : ℕ → ℕ → Option ℕ
align zero scaled = some scaled
align (suc rounds) scaled = do tens ← checked_pos (scaled * 10); align rounds tens

abbrev pub max_price_literal : ℕ
max_price_literal = 32

parse_parts : Parts → Option UnitPrice
unfolding all_digits push_digits align
parse_parts p =
    if is_empty p.integer && is_empty p.fraction
    then none
    else if all_digits p.integer && all_digits p.fraction
    then (if ltb price_scale (length p.fraction) then none else (do
      digits ← push_digits 0 (p.integer ++ p.fraction)
      scaled ← align (price_scale - length p.fraction) digits
      some (pos scaled)))
    else none

unfoldable pub parse_unit_price : Text → Option UnitPrice
unfolding trim utf8_len split_point parse_parts
parse_unit_price text =
    let t = trim text in
    if is_empty t || ltb max_price_literal (utf8_len t) then none else parse_parts (split_point t)

pub record ProviderModelPricingTier : Type 0 where
  pub threshold_tokens : ℕ
  pub input : Option Text
  pub output : Option Text
  pub cache_read : Option Text
  pub cache_write : Option Text
  pub reasoning : Option Text
  pub input_audio : Option Text
  pub output_audio : Option Text

pub record ProviderModelPricing : Type 0 where
  pub input : Option Text
  pub output : Option Text
  pub cache_read : Option Text
  pub cache_write : Option Text
  pub reasoning : Option Text
  pub input_audio : Option Text
  pub output_audio : Option Text
  pub tiers : List ProviderModelPricingTier

pub record ProviderModelPricingRecord : Type 0 where
  pub source : ProviderModelPricingSource
  pub pricing : ProviderModelPricing

pricing_is_empty : ProviderModelPricing → Bool
pricing_is_empty p =
    is_none p.input
    && is_none p.output
    && is_none p.cache_read
    && is_none p.cache_write
    && is_none p.reasoning
    && is_none p.input_audio
    && is_none p.output_audio

unfoldable pub parse_optional_price : Option Text → Option (Option UnitPrice)
unfolding parse_unit_price
parse_optional_price none = some none
parse_optional_price (some value) = do price ← parse_unit_price value; some (some price)

unfoldable pub component_prices_from_model_pricing : ProviderModelPricing → Option ComponentPrices
unfolding pricing_is_empty
component_prices_from_model_pricing p = if pricing_is_empty p then none else (do
  input ← parse_optional_price p.input
  output ← parse_optional_price p.output
  cache_read ← parse_optional_price p.cache_read
  cache_write ← parse_optional_price p.cache_write
  reasoning ← parse_optional_price p.reasoning
  input_audio ← parse_optional_price p.input_audio
  output_audio ← parse_optional_price p.output_audio
  some (record {
    uncached_input_per_million = input;
    cache_read_per_million = cache_read;
    cache_write_per_million = cache_write;
    output_per_million = output;
    reasoning_per_million = reasoning;
    input_audio_per_million = input_audio;
    output_audio_per_million = output_audio;
  }))

component_prices_from_model_tier : ProviderModelPricingTier → Option ComponentPrices
component_prices_from_model_tier tier = component_prices_from_model_pricing (record {
  input = tier.input;
  output = tier.output;
  cache_read = tier.cache_read;
  cache_write = tier.cache_write;
  reasoning = tier.reasoning;
  input_audio = tier.input_audio;
  output_audio = tier.output_audio;
  tiers = [];
})

abbrev pub max_safe_integer : ℕ
max_safe_integer = 9_007_199_254_740_991

-- The loop of `context_price_tiers_from_model_pricing`, from the previous threshold on.
tiers_from : Option ℕ → List ProviderModelPricingTier → Option (List ContextPriceTier)
tiers_from previous [] = some []
tiers_from previous (tier ∷ tiers) =
    let rest = tiers_from (some tier.threshold_tokens) tiers in
    if ltb max_safe_integer tier.threshold_tokens
    then none
    else if is_some_and previous (λ p. leb tier.threshold_tokens p)
    then none
    else (do
      prices ← component_prices_from_model_tier tier
      later ← rest
      some (record { threshold_tokens = tier.threshold_tokens; prices = prices } ∷ later))

unfoldable pub context_price_tiers_from_model_pricing :
    ProviderModelPricing → Option (List ContextPriceTier)
unfolding tiers_from component_prices_from_model_tier
context_price_tiers_from_model_pricing p = tiers_from none p.tiers

-- `model_price_resolution` of crates/provider-usage/src/tracking.rs.
resolve_parsed :
    ProviderModelPricingSource
    → Option ComponentPrices
    → Option (List ContextPriceTier)
    → PriceResolution
resolve_parsed source (some prices) (some tiers) =
    resolved
      (model_v2 (record { format_version = 2; source = source; prices = prices; tiers = tiers }))
resolve_parsed source _ _ = catalog_entry_invalid

unfoldable pub model_price_resolution : Option ProviderModelPricingRecord → PriceResolution
unfolding resolve_parsed
model_price_resolution none = model_mapping_missing
model_price_resolution (some p) =
    resolve_parsed p.source (component_prices_from_model_pricing p.pricing)
      (context_price_tiers_from_model_pricing p.pricing)
