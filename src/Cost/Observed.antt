-- ===== src/Cost/Observed.antt =====
-- The observed catalog cost of an attempt: crates/provider-usage/src/cost.rs, lines 136-377.
pub mod Exact
pub mod Complete
pub mod Overflow
mod Tests
use provider_core.Prelude.{
  ℕ, zero, suc, Bool, true, false, not, ◌&&◌, ◌||◌, Option, none, some, List, [], ◌∷◌, map,
  if◌then◌else◌, is_some, is_none, is_empty, insert_once, contains,
}
use provider_core.Prelude.Int.{ℤ, pos}
use provider_core.Usage.Token.{
  TokenMetric, not_applicable, known_value, NormalizationWarning, provider_model_mismatch,
  field_conflict, NormalizationWarning-discrete, ProviderUsageObservation,
}
use provider_core.Usage.Contract.{PricingMode, UsageContractSnapshot}
use provider_core.Cost.Money.{UnitPrice, UsdAtoms, checked_add, component_cost_atoms}
use provider_core.Cost.Price.{
  ComponentPrices, InlinePriceRecord, prices_for_context, has_context_tiers, unmodeled_pricing_rule,
  PriceResolution, resolved,
}
use provider_core.Cost.Price

abbrev pub calculator_version : ℕ
calculator_version = 2

pub data CostStatus : Type 0 where
  complete_for_observed_catalog_components partial unavailable : CostStatus

pub data CostReason : Type 0 where
  catalog_unavailable provider_mapping_missing model_mapping_missing : CostReason
  cost_missing catalog_entry_invalid pricing_rule_unsupported : CostReason
  pricing_rule_conflict tier_basis_unavailable price_mode_unknown : CostReason
  unmodeled_billable_component component_price_missing usage_component_missing : CostReason
  input_category_split_unavailable usage_field_conflict model_mismatch : CostReason
  arithmetic_overflow not_dispatched : CostReason

pub CostReason-discrete : Discrete CostReason
CostReason-discrete = hlevel

pub record ObservedCatalogCost : Type 0 where
  pub total_known : UsdAtoms
  pub status : CostStatus
  pub reasons : List CostReason
  pub calculator_version : ℕ

abbrev pub unavailable_for : CostReason → ObservedCatalogCost
unavailable_for reason = record {
  total_known = pos 0;
  status = CostStatus.unavailable;
  reasons = reason ∷ [];
  calculator_version = calculator_version;
}

unfoldable pub not_dispatched_cost : ObservedCatalogCost
not_dispatched_cost = unavailable_for CostReason.not_dispatched

pub data ComponentOutcome : Type 0 where
  priced : UsdAtoms → ComponentOutcome
  skip : ComponentOutcome
  partial : CostReason → ComponentOutcome
  overflow : ComponentOutcome

abbrev cost_outcome : Option UsdAtoms → ComponentOutcome
cost_outcome (some atoms) = priced atoms
cost_outcome none = overflow

-- The price of a positive count.
price_count : ℕ → Option UnitPrice → ComponentOutcome
price_count count (some unit) = cost_outcome (component_cost_atoms count unit)
price_count count none = partial component_price_missing

-- The outcome for a count that is not known.
price_unknown : TokenMetric → Option UnitPrice → ComponentOutcome
price_unknown not_applicable price = skip
price_unknown _ price = if is_some price then partial usage_component_missing else skip

price_known : Option ℕ → TokenMetric → Option UnitPrice → ComponentOutcome
unfolding price_count price_unknown
price_known (some zero) quantity price = priced (pos 0)
price_known (some (suc n)) quantity price = price_count (suc n) price
price_known none quantity price = price_unknown quantity price

unfoldable pub price_component : TokenMetric → Option UnitPrice → ComponentOutcome
unfolding price_known
price_component quantity price = price_known (known_value quantity) quantity price

unfoldable pub push_unique : CostReason → List CostReason → List CostReason
push_unique reason reasons = insert_once CostReason-discrete reasons reason

-- A quantity with the price of its component.
pub record Component : Type 0 where
  pub quantity : TokenMetric
  pub price : Option UnitPrice

-- Reasoning that the contract counts inside the output is not priced again.
unfoldable pub reasoning_to_price : ProviderUsageObservation → UsageContractSnapshot → TokenMetric
reasoning_to_price o contract =
    if contract.inclusion.reasoning_included_in_output then not_applicable else o.reasoning_tokens

unfoldable pub components :
    ProviderUsageObservation → UsageContractSnapshot → ComponentPrices → List Component
components o contract p =
    record { quantity = o.uncached_input_tokens; price = p.uncached_input_per_million }
    ∷ record { quantity = o.cache_read_input_tokens; price = p.cache_read_per_million }
    ∷ record { quantity = o.cache_write_input_tokens; price = p.cache_write_per_million }
    ∷ record { quantity = o.output_tokens; price = p.output_per_million }
    ∷ record { quantity = reasoning_to_price o contract; price = p.reasoning_per_million }
    ∷ record { quantity = o.input_audio_tokens; price = p.input_audio_per_million }
    ∷ record { quantity = o.output_audio_tokens; price = p.output_audio_per_million }
    ∷ []

pub record Tally : Type 0 where
  pub total : UsdAtoms
  pub reasons : List CostReason

-- Before the loop.
abbrev pub empty_tally : Tally
empty_tally = record { total = pos 0; reasons = [] }

abbrev add_priced : Option UsdAtoms → List CostReason → Option Tally
add_priced (some sum) reasons = some (record { total = sum; reasons = reasons })
add_priced none reasons = none

-- One round of the loop over the outcomes; `none` is its early return for an overflow.
pub tally_one : ComponentOutcome → Tally → Option Tally
tally_one (priced atoms) t = add_priced (checked_add t.total atoms) t.reasons
tally_one skip t = some t
tally_one (partial reason) t = some (record t { reasons = push_unique reason t.reasons })
tally_one overflow t = none

pub tally_all : List Component → Tally → Option Tally
tally_all [] t = some t
tally_all (c ∷ cs) t = elim (tally_one (price_component c.quantity c.price) t) [
  | none ↦ none
  | some t' ↦ tally_all cs t'
]

push_if : Bool → CostReason → List CostReason → List CostReason
push_if test reason reasons = if test then push_unique reason reasons else reasons

abbrev pub is_unknown_mode : PricingMode → Bool
is_unknown_mode PricingMode.default = false
is_unknown_mode PricingMode.unknown = true

abbrev pub has_warning : ProviderUsageObservation → NormalizationWarning → Bool
has_warning o w = contains NormalizationWarning-discrete o.warnings w

-- The checks after the loop.
pub final_reasons :
    ProviderUsageObservation
    → UsageContractSnapshot
    → InlinePriceRecord
    → List CostReason
    → List CostReason
final_reasons o contract r found = push_if (has_warning o field_conflict) usage_field_conflict (
    push_if (has_warning o provider_model_mismatch) model_mismatch (
      push_if (has_context_tiers r && is_none (known_value o.pricing_context_tokens))
        tier_basis_unavailable
        (push_if (unmodeled_pricing_rule r) pricing_rule_unsupported (
          push_if (Price.unmodeled_billable_component r || not (is_empty o.billable))
            unmodeled_billable_component
            (push_if (is_unknown_mode contract.pricing_mode) price_mode_unknown found)))))

abbrev status_of : List CostReason → CostStatus
status_of [] = complete_for_observed_catalog_components
status_of (r ∷ rs) = CostStatus.partial

-- The cost from what the loop left.
pub conclude :
    ProviderUsageObservation
    → UsageContractSnapshot
    → InlinePriceRecord
    → Option Tally
    → ObservedCatalogCost
conclude o contract r none = unavailable_for arithmetic_overflow
conclude o contract r (some t) =
    let reasons = final_reasons o contract r t.reasons in
    record {
      total_known = t.total;
      status = status_of reasons;
      reasons = reasons;
      calculator_version = calculator_version;
    }

unfoldable pub compute_observed_catalog_cost :
    ProviderUsageObservation → UsageContractSnapshot → PriceResolution → ObservedCatalogCost
unfolding components tally_all conclude final_reasons push_if push_unique
compute_observed_catalog_cost o contract (resolved r) = conclude o contract r (
    tally_all (components o contract (prices_for_context r (known_value o.pricing_context_tokens)))
      empty_tally)
compute_observed_catalog_cost o contract PriceResolution.catalog_unavailable =
    unavailable_for catalog_unavailable
compute_observed_catalog_cost o contract PriceResolution.provider_mapping_missing =
    unavailable_for provider_mapping_missing
compute_observed_catalog_cost o contract PriceResolution.model_mapping_missing =
    unavailable_for model_mapping_missing
compute_observed_catalog_cost o contract PriceResolution.cost_missing = unavailable_for cost_missing
compute_observed_catalog_cost o contract PriceResolution.catalog_entry_invalid =
    unavailable_for catalog_entry_invalid
compute_observed_catalog_cost o contract PriceResolution.pricing_rule_unsupported =
    unavailable_for pricing_rule_unsupported
compute_observed_catalog_cost o contract PriceResolution.pricing_rule_conflict =
    unavailable_for pricing_rule_conflict
