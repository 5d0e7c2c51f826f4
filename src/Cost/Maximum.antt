-- ===== src/Cost/Maximum.antt =====
-- The maximum cost of a text request: crates/provider-usage/src/cost.rs, lines 28-134.
pub mod Rates
pub mod Bound
mod Tests
use provider_core.Prelude.{
  ℕ, ◌<◌, Bool, true, false, not, ◌&&◌, ◌||◌, Option, List, [], ◌∷◌, if◌then◌else◌, ltb, ◌==◌,
}
use provider_core.Prelude.Int.{ℤ, pos, ltb_ℤ, ◌*ℤ◌}
use provider_core.Prelude.Results.{Result, ok, err, ◌>>=◌, ok_or}
use provider_core.Usage.Cache.{CacheCapability, CacheEligibility}
use provider_core.Usage.Contract.{PricingMode, UsageContractSnapshot}
use provider_core.Cost.Money.{UnitPrice, UsdAtoms, checked_i128, checked_add, component_cost_atoms}
use provider_core.Cost.Price.{ComponentPrices, ContextPriceTier}
use provider_core.Cost.Pricing.{
  ProviderModelPricing, component_prices_from_model_pricing, context_price_tiers_from_model_pricing,
}

pub data MaximumCostError : Type 0 where
  invalid_pricing missing_component_price unsupported_pricing_mode : MaximumCostError
  arithmetic_overflow invalid_attempt_limit : MaximumCostError

abbrev pub Maximum : Type 0 → Type 0
Maximum A = Result MaximumCostError A

abbrev capability_allows_read : CacheCapability → Bool
capability_allows_read CacheCapability.unsupported = false
capability_allows_read _ = true

abbrev eligibility_allows_read : CacheEligibility → Bool
eligibility_allows_read CacheEligibility.not_requested = false
eligibility_allows_read CacheEligibility.not_applicable = false
eligibility_allows_read _ = true

pub cache_read_can_apply : UsageContractSnapshot → Bool
cache_read_can_apply contract =
    capability_allows_read contract.cache_capability
    && eligibility_allows_read contract.cache_eligibility

abbrev required_price : Option UnitPrice → Maximum UnitPrice
required_price price = ok_or price missing_component_price

abbrev pub max_ℤ : ℤ → ℤ → ℤ
max_ℤ a b = if ltb_ℤ b a then a else b

pub checked_add_component : UsdAtoms → ℕ → UnitPrice → Maximum UsdAtoms
checked_add_component current quantity price = do
  component ← ok_or (component_cost_atoms quantity price) arithmetic_overflow
  ok_or (checked_add current component) arithmetic_overflow

-- `if applies { rate = rate.max(required_price(price)?) }`
raise_rate : Bool → Option UnitPrice → UnitPrice → Maximum UnitPrice
raise_rate applies price rate =
    if applies then (do other ← required_price price; ok (max_ℤ rate other)) else ok rate

pub input_rate : ComponentPrices → UsageContractSnapshot → Maximum UnitPrice
input_rate p contract = do
  base ← required_price p.uncached_input_per_million
  read ← raise_rate (cache_read_can_apply contract) p.cache_read_per_million base
  raise_rate contract.inclusion.cache_write_applicable p.cache_write_per_million read

pub input_cost : ComponentPrices → UsageContractSnapshot → ℕ → Maximum UsdAtoms
input_cost p contract input_tokens =
    if ltb 0 input_tokens
    then (input_rate p contract >>= λ rate. checked_add_component (pos 0) input_tokens rate)
    else ok (pos 0)

-- `if applies { total = checked_add_component(total, quantity, required_price(price)?)? }`
add_if : Bool → Option UnitPrice → ℕ → UsdAtoms → Maximum UsdAtoms
add_if applies price quantity total =
    if applies
    then (required_price price >>= λ rate. checked_add_component total quantity rate)
    else ok total

abbrev pub prices_reasoning : UsageContractSnapshot → Bool
prices_reasoning contract =
    contract.inclusion.reasoning_applicable && not contract.inclusion.reasoning_included_in_output

pub output_cost : ComponentPrices → UsageContractSnapshot → ℕ → UsdAtoms → Maximum UsdAtoms
output_cost p contract max_output_tokens total =
    if ltb 0 max_output_tokens
    then (do
      with_output ← add_if true p.output_per_million max_output_tokens total
      add_if (prices_reasoning contract) p.reasoning_per_million max_output_tokens with_output)
    else ok total

pub maximum_cost_for_prices : ComponentPrices → UsageContractSnapshot → ℕ → ℕ → Maximum UsdAtoms
maximum_cost_for_prices p contract input_tokens max_output_tokens = do
  total ← input_cost p contract input_tokens
  output_cost p contract max_output_tokens total

-- The loop over the context tiers.
pub maximum_over_tiers :
    List ContextPriceTier → UsageContractSnapshot → ℕ → ℕ → UsdAtoms → Maximum UsdAtoms
maximum_over_tiers [] contract input_tokens max_output_tokens maximum = ok maximum
maximum_over_tiers (tier ∷ tiers) contract input_tokens max_output_tokens maximum = do
  candidate ← maximum_cost_for_prices tier.prices contract input_tokens max_output_tokens
  maximum_over_tiers tiers contract input_tokens max_output_tokens (max_ℤ maximum candidate)

abbrev is_unknown_mode : PricingMode → Bool
is_unknown_mode PricingMode.default = false
is_unknown_mode PricingMode.unknown = true

-- The maximum over the base prices and the tiers, for every attempt.
pub maximum_for_attempts :
    ComponentPrices → List ContextPriceTier → UsageContractSnapshot → ℕ → ℕ → ℕ → Maximum UsdAtoms
maximum_for_attempts base tiers contract input_tokens max_output_tokens maximum_attempts = do
  first ← maximum_cost_for_prices base contract input_tokens max_output_tokens
  maximum ← maximum_over_tiers tiers contract input_tokens max_output_tokens first
  ok_or (checked_i128 (maximum *ℤ pos maximum_attempts)) arithmetic_overflow

pub compute_maximum_text_request_cost :
    ProviderModelPricing → UsageContractSnapshot → ℕ → ℕ → ℕ → Maximum UsdAtoms
compute_maximum_text_request_cost pricing contract input_tokens max_output_tokens maximum_attempts =
    if maximum_attempts == 0
    then err invalid_attempt_limit
    else if is_unknown_mode contract.pricing_mode
    then err unsupported_pricing_mode
    else (do
      base ← ok_or (component_prices_from_model_pricing pricing) invalid_pricing
      tiers ← ok_or (context_price_tiers_from_model_pricing pricing) invalid_pricing
      maximum_for_attempts base tiers contract input_tokens max_output_tokens maximum_attempts)
