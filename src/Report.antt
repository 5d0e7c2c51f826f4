-- ===== src/Report.antt =====
-- The prices and the tier that a usage report shows of an attempt: `selected_prices` and
-- `selected_tier_threshold` of crates/provider-server/src/usage_http.rs.
pub mod Tests
use provider_core.Prelude.{
  ℕ, ◌<◌, ◌≡◌, ◌⊎◌, inl, inr, refl, ap, Bool, true, false, Option, none, some, List, [], ◌∷◌,
  IsMember, ltb, if◌then◌else◌, Bool-cases, ltb→lt,
}
use provider_core.Usage.Token.{known_value}
use provider_core.Cost.Price.{
  ComponentPrices, ContextPriceTier, InlinePriceRecord, catalog_v1, model_v2, prices,
  PriceResolution, resolved, prices_for_context, last_passed, tier_prices,
}
use provider_core.Cost.Pricing.{◌>>=◌}
use provider_core.Tracking.Attempt.{AttemptFacts}

abbrev resolved_record : PriceResolution → Option InlinePriceRecord
resolved_record (resolved r) = some r
resolved_record _ = none

unfoldable selected_prices : AttemptFacts → Option ComponentPrices
selected_prices attempt = do
  r ← resolved_record attempt.price
  some (prices_for_context r (known_value attempt.observation.pricing_context_tokens))

-- `take_while(|tier| context_tokens > tier.threshold_tokens).last()`, from the last tier taken on.
unfoldable last_threshold : Option ℕ → ℕ → List ContextPriceTier → Option ℕ
last_threshold last context_tokens [] = last
last_threshold last context_tokens (tier ∷ tiers) =
    let rest = last_threshold (some tier.threshold_tokens) context_tokens tiers in
    if ltb tier.threshold_tokens context_tokens then rest else last

abbrev threshold_if_passed : ℕ → Option ContextPriceTier → Option ℕ
threshold_if_passed context_tokens none = none
threshold_if_passed context_tokens (some tier) =
    if ltb tier.threshold_tokens context_tokens then some tier.threshold_tokens else none

unfoldable threshold_for : ℕ → InlinePriceRecord → Option ℕ
unfolding last_threshold
threshold_for context_tokens (catalog_v1 r) = threshold_if_passed context_tokens r.context_tier
threshold_for context_tokens (model_v2 r) = last_threshold none context_tokens r.tiers

unfoldable selected_tier_threshold : AttemptFacts → Option ℕ
unfolding threshold_for
selected_tier_threshold attempt = do
  context_tokens ← known_value attempt.observation.pricing_context_tokens
  r ← resolved_record attempt.price
  threshold_for context_tokens r

abbrev optional_tier : Option ContextPriceTier → List ContextPriceTier
optional_tier none = []
optional_tier (some tier) = tier ∷ []

abbrev tiers_of : InlinePriceRecord → List ContextPriceTier
tiers_of (catalog_v1 r) = optional_tier r.context_tier
tiers_of (model_v2 r) = r.tiers

-- The threshold and the prices are those of one tier, which the context passes.
record IsOfTier (tiers : List ContextPriceTier) (context_tokens : ℕ) (threshold : Option ℕ)
    (p : ComponentPrices) : Type 0 where
  tier : ContextPriceTier
  known : IsMember tier tiers
  passed : tier.threshold_tokens < context_tokens
  shown : threshold ≡ some tier.threshold_tokens
  priced : p ≡ tier.prices

last_threshold-Agrees :
    (base : ComponentPrices) (last : Option ℕ) (n : ℕ) (tiers : List ContextPriceTier)
    → ((last_threshold last n tiers ≡ last) × (last_passed base n tiers ≡ base))
      ⊎ IsOfTier tiers n (last_threshold last n tiers) (last_passed base n tiers)
unfolding last_threshold last_passed
last_threshold-Agrees base last n [] = inl (refl, refl)
last_threshold-Agrees base last n (tier ∷ tiers) = elim (Bool-cases (ltb tier.threshold_tokens n)) [
  | inl passed ↦
      rw passed (elim (last_threshold-Agrees tier.prices (some tier.threshold_tokens) n tiers) [
        | inl same ↦ inr (record {
          tier = tier;
          known = inl refl;
          passed = ltb→lt tier.threshold_tokens n passed;
          shown = same.0;
          priced = same.1;
        })
        | inr later ↦ inr (record {
          tier = later.tier;
          known = inr later.known;
          passed = later.passed;
          shown = later.shown;
          priced = later.priced;
        })
      ])
  | inr fails ↦ rw fails (inl (refl, refl))
]

optional_tier-Agrees :
    (base : ComponentPrices) (n : ℕ) (o : Option ContextPriceTier)
    → ((threshold_if_passed n o ≡ none) × (tier_prices base n o ≡ base))
      ⊎ IsOfTier (optional_tier o) n (threshold_if_passed n o) (tier_prices base n o)
optional_tier-Agrees base n none = inl (refl, refl)
optional_tier-Agrees base n (some tier) = elim (Bool-cases (ltb tier.threshold_tokens n)) [
  | inl passed ↦ rw passed (
      inr (record {
        tier = tier;
        known = inl refl;
        passed = ltb→lt tier.threshold_tokens n passed;
        shown = refl;
        priced = refl;
      }))
  | inr fails ↦ rw fails (inl (refl, refl))
]

threshold_for-Agrees :
    (r : InlinePriceRecord) (n : ℕ)
    → ((threshold_for n r ≡ none) × (prices_for_context r (some n) ≡ prices r))
      ⊎ IsOfTier (tiers_of r) n (threshold_for n r) (prices_for_context r (some n))
unfolding threshold_for prices_for_context
threshold_for-Agrees (catalog_v1 r) n = optional_tier-Agrees r.prices n r.context_tier
threshold_for-Agrees (model_v2 r) n = last_threshold-Agrees r.prices none n r.tiers

-- The base prices and no threshold, or the prices and the threshold of one tier that is passed.
abbrev Agrees : InlinePriceRecord → Option ℕ → Option ℕ → Option ComponentPrices → Type 0
Agrees r context_tokens threshold shown =
    ((threshold ≡ none) × (shown ≡ some (prices r)))
    ⊎ ((n : ℕ) × (p : ComponentPrices) × (context_tokens ≡ some n)
        × (shown ≡ some p)
        × IsOfTier (tiers_of r) n threshold p)

shown-Agrees :
    (r : InlinePriceRecord) (context_tokens : Option ℕ)
    → Agrees r context_tokens
        (do n ← context_tokens; threshold_for n r)
        (some (prices_for_context r context_tokens))
unfolding prices_for_context
shown-Agrees r none = inl (refl, refl)
shown-Agrees r (some n) = elim (threshold_for-Agrees r n) [
  | inl base ↦ inl (base.0, ap some base.1)
  | inr tier ↦ inr (n, prices_for_context r (some n), refl, refl, tier)
]

-- Of an attempt whose price is resolved, a report shows the base prices and no threshold, or the
-- prices and the threshold of one and the same tier of its record, which the context passes.
selected_prices-Agrees :
    (attempt : AttemptFacts) (r : InlinePriceRecord)
    → attempt.price ≡ resolved r
    → Agrees r
        (known_value attempt.observation.pricing_context_tokens)
        (selected_tier_threshold attempt)
        (selected_prices attempt)
unfolding selected_prices selected_tier_threshold
selected_prices-Agrees attempt r h =
    rw h (shown-Agrees r (known_value attempt.observation.pricing_context_tokens))
