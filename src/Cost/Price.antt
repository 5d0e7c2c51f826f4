-- ===== src/Cost/Price.antt =====
-- Price resolution stored with an attempt: crates/provider-usage/src/price.rs.
use Prim.Native.String.{String}
use provider_core.Prelude.{
  ℕ, Bool, false, not, Option, none, some, List, [], ◌∷◌, if◌then◌else◌, ltb, is_empty, is_some,
}
use provider_core.Cost.Money.{UnitPrice}

pub record ComponentPrices : Type 0 where
  pub uncached_input_per_million : Option UnitPrice
  pub cache_read_per_million : Option UnitPrice
  pub cache_write_per_million : Option UnitPrice
  pub output_per_million : Option UnitPrice
  pub reasoning_per_million : Option UnitPrice
  pub input_audio_per_million : Option UnitPrice
  pub output_audio_per_million : Option UnitPrice

pub record ContextPriceTier : Type 0 where
  pub threshold_tokens : ℕ
  pub prices : ComponentPrices

pub data ProviderModelPricingSource : Type 0 where
  catalog manual : ProviderModelPricingSource

pub record CatalogInlinePriceRecordV1 : Type 0 where
  pub format_version : ℕ
  pub parser_version : ℕ
  pub catalog_revision : String
  pub catalog_provider_id : String
  pub catalog_model_id : String
  pub mapping_revision : ℕ
  pub prices : ComponentPrices
  pub context_tier : Option ContextPriceTier
  pub selected_tier : Option String
  pub unmodeled_billable_component : Bool
  pub unmodeled_pricing_rule : Bool

pub record ModelInlinePriceRecordV2 : Type 0 where
  pub format_version : ℕ
  pub source : ProviderModelPricingSource
  pub prices : ComponentPrices
  pub tiers : List ContextPriceTier

pub data InlinePriceRecord : Type 0 where
  catalog_v1 : CatalogInlinePriceRecordV1 → InlinePriceRecord
  model_v2 : ModelInlinePriceRecordV2 → InlinePriceRecord

abbrev pub prices : InlinePriceRecord → ComponentPrices
prices (catalog_v1 record_v1) = record_v1.prices
prices (model_v2 record_v2) = record_v2.prices

abbrev pub context_tier : InlinePriceRecord → Option ContextPriceTier
context_tier (catalog_v1 record_v1) = record_v1.context_tier
context_tier (model_v2 record_v2) = none

abbrev pub has_context_tiers : InlinePriceRecord → Bool
has_context_tiers (catalog_v1 record_v1) = is_some record_v1.context_tier
has_context_tiers (model_v2 record_v2) = not (is_empty record_v2.tiers)

-- The prices of a tier that the context passes, else the base prices.
abbrev pub tier_prices : ComponentPrices → ℕ → Option ContextPriceTier → ComponentPrices
tier_prices base context_tokens none = base
tier_prices base context_tokens (some tier) =
    if ltb tier.threshold_tokens context_tokens then tier.prices else base

-- `take_while(|tier| context_tokens > tier.threshold_tokens).last().map_or(base, …)`
unfoldable pub last_passed : ComponentPrices → ℕ → List ContextPriceTier → ComponentPrices
last_passed base context_tokens [] = base
last_passed base context_tokens (tier ∷ tiers) =
    let rest = last_passed tier.prices context_tokens tiers in
    if ltb tier.threshold_tokens context_tokens then rest else base

unfoldable pub prices_for_context : InlinePriceRecord → Option ℕ → ComponentPrices
unfolding last_passed
prices_for_context r none = prices r
prices_for_context (catalog_v1 record_v1) (some context_tokens) =
    tier_prices record_v1.prices context_tokens record_v1.context_tier
prices_for_context (model_v2 record_v2) (some context_tokens) =
    last_passed record_v2.prices context_tokens record_v2.tiers

abbrev pub unmodeled_billable_component : InlinePriceRecord → Bool
unmodeled_billable_component (catalog_v1 record_v1) = record_v1.unmodeled_billable_component
unmodeled_billable_component (model_v2 record_v2) = false

abbrev pub unmodeled_pricing_rule : InlinePriceRecord → Bool
unmodeled_pricing_rule (catalog_v1 record_v1) = record_v1.unmodeled_pricing_rule
unmodeled_pricing_rule (model_v2 record_v2) = false

pub data PriceResolution : Type 0 where
  resolved : InlinePriceRecord → PriceResolution
  catalog_unavailable provider_mapping_missing model_mapping_missing : PriceResolution
  cost_missing catalog_entry_invalid : PriceResolution
  pricing_rule_unsupported pricing_rule_conflict : PriceResolution
