-- ===== src/Tracking/Price.antt =====
-- The price of an attempt: `resolve_attempt_price`, `resolve_pricing_alias` and `model_disagrees`
-- of crates/provider-usage/src/tracking.rs. The saved prices of the provider and those of the
-- catalog's snapshot are maps by the exact name of a model.
use provider_core.Prelude.{
  Bool, true, false, not, ◌&&◌, ◌||◌, Option, none, some, [], ◌∷◌, ◌++◌, if◌then◌else◌, is_empty,
  holds, Text, Text-discrete, trim,
}
use provider_core.Cost.Price.{
  ProviderModelPricingSource, PriceResolution, resolved, model_mapping_missing,
}
use provider_core.Cost.Pricing.{
  ProviderModelPricing, ProviderModelPricingRecord, model_price_resolution,
}

abbrev pub ProviderModelPricingLookup : Type 0
ProviderModelPricingLookup = Text → Option ProviderModelPricingRecord

abbrev pub CatalogSnapshot : Type 0
CatalogSnapshot = Text → Option ProviderModelPricing

pub data ProviderKind : Type 0 where
  grok codex antigravity openai_compatible anthropic_compatible : ProviderKind

abbrev pub Priced : Type 0
Priced = PriceResolution × Bool

-- `map(str::trim).filter(|name| !name.is_empty())`
abbrev pub name_of : Option Text → Option Text
name_of none = none
name_of (some name) = if is_empty (trim name) then none else some (trim name)

abbrev exact : Option ProviderModelPricingLookup → Text → Option ProviderModelPricingRecord
exact none model = none
exact (some pricing) model = pricing model

abbrev from_catalog : Option ProviderModelPricing → Option ProviderModelPricingRecord
from_catalog none = none
from_catalog (some pricing) =
    some (record { source = ProviderModelPricingSource.catalog; pricing = pricing })

abbrev catalog_exact : Option CatalogSnapshot → Text → Option ProviderModelPricingRecord
catalog_exact none model = none
catalog_exact (some snapshot) model = from_catalog (snapshot model)

-- The provider's own price, else the catalog's.
abbrev or_else :
    Option ProviderModelPricingRecord
    → Option ProviderModelPricingRecord
    → Option ProviderModelPricingRecord
or_else none b = b
or_else (some a) b = some a

abbrev pub price_named :
    Option ProviderModelPricingLookup
    → Option CatalogSnapshot
    → Text
    → Option ProviderModelPricingRecord
price_named provider catalog model = or_else (exact provider model) (catalog_exact catalog model)

abbrev alias_price : PriceResolution → Option ProviderModelPricingRecord → Priced
alias_price route_price none = (route_price, false)
alias_price route_price (some pricing) = (model_price_resolution (some pricing), false)

unfoldable pub resolve_pricing_alias :
    PriceResolution
    → Option Text
    → Option ProviderModelPricingLookup
    → Option CatalogSnapshot
    → Priced
resolve_pricing_alias route_price pricing_model_alias provider catalog =
    elim (name_of pricing_model_alias) [
      | none ↦ (route_price, false)
      | some alias ↦ alias_price route_price (price_named provider catalog alias)
    ]

abbrev pub is_resolved : PriceResolution → Bool
is_resolved (resolved r) = true
is_resolved _ = false

abbrev pub is_mapping_missing : PriceResolution → Bool
is_mapping_missing model_mapping_missing = true
is_mapping_missing _ = false

abbrev reported_price : Option ProviderModelPricingRecord → Priced → Priced
reported_price none fallback = fallback
reported_price (some pricing) fallback =
    (model_price_resolution (some pricing), is_resolved (model_price_resolution (some pricing)))

abbrev price_reported :
    Option Text → Option ProviderModelPricingLookup → Option CatalogSnapshot → Priced → Priced
price_reported none provider catalog fallback = fallback
price_reported (some model) provider catalog fallback =
    reported_price (price_named provider catalog model) fallback

unfoldable pub resolve_attempt_price :
    PriceResolution
    → Option Text
    → Option Text
    → Option ProviderModelPricingLookup
    → Option CatalogSnapshot
    → Priced
unfolding resolve_pricing_alias
resolve_attempt_price route_price reported alias provider catalog =
    if is_mapping_missing route_price
    then price_reported (name_of reported) provider catalog
        (resolve_pricing_alias route_price alias provider catalog)
    else (route_price, false)

abbrev pub build_suffix : Text
build_suffix = b'-' ∷ b'b' ∷ b'u' ∷ b'i' ∷ b'l' ∷ b'd' ∷ []

abbrev same_name : Text → Text → Bool
same_name a b = holds (Text-discrete a b)

abbrev is_grok : ProviderKind → Bool
is_grok grok = true
is_grok _ = false

-- `reported.strip_suffix("-build") == Some(configured)`
unfoldable pub reported_model_matches : ProviderKind → Text → Text → Bool
reported_model_matches provider configured reported =
    same_name configured reported
    || is_grok provider && same_name reported (configured ++ build_suffix)

unfoldable pub model_disagrees : ProviderKind → Option Text → Option Text → Bool
unfolding reported_model_matches
model_disagrees provider (some configured) (some reported) =
    not (reported_model_matches provider (trim configured) (trim reported))
model_disagrees provider _ _ = false
