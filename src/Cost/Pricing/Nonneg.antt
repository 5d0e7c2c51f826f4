-- ===== src/Cost/Pricing/Nonneg.antt =====
-- A price read from a saved text is not negative.
use provider_core.Prelude.{
  Every-unless, ℕ, ◌≡◌, Option, none, some, List, [], ◌∷◌, arith, All, Every, Every-some, ltb, leb,
  is_some_and,
}
use provider_core.Cost.Money.{UnitPrice}
use provider_core.Cost.Price.{ComponentPrices, ContextPriceTier}
use provider_core.Cost.Nonneg.{IsNonneg, AreNonneg}
use provider_core.Cost.Pricing.{
  Text, parse_unit_price, parse_optional_price, ProviderModelPricing, ProviderModelPricingTier,
  component_prices_from_model_pricing, component_prices_from_model_tier, tiers_from,
  context_price_tiers_from_model_pricing, ◌>>=◌, pricing_is_empty, max_safe_integer,
}

parse_unit_price-IsNonneg : (text : Text) → IsNonneg (parse_unit_price text)
unfolding parse_unit_price
parse_unit_price-IsNonneg text = ground arith

parse_optional_price-IsNonneg : (text : Option Text) → Every IsNonneg (parse_optional_price text)
unfolding parse_optional_price
parse_optional_price-IsNonneg none = tt
parse_optional_price-IsNonneg (some text) = ground (arith, parse_unit_price-IsNonneg text)

pub Every-bind :
    {A B : Type 0} (P : A → Type 0) (Q : B → Type 0) (m : Option A) (f : A → Option B)
    → Every P m
    → ((a : A) → P a → Every Q (f a))
    → Every Q (m >>= f)
Every-bind P Q none f h k = tt
Every-bind P Q (some a) f h k = k a h

-- One field: its price is not negative, whatever is done with it.
with_price :
    (Q : ComponentPrices → Type 0) (text : Option Text)
    (f : Option UnitPrice → Option ComponentPrices)
    → ((p : Option UnitPrice) → IsNonneg p → Every Q (f p))
    → Every Q (parse_optional_price text >>= f)
with_price Q text f =
    Every-bind IsNonneg Q (parse_optional_price text) f (parse_optional_price-IsNonneg text)

component_prices-Every :
    (pricing : ProviderModelPricing) → Every AreNonneg (component_prices_from_model_pricing pricing)
unfolding component_prices_from_model_pricing
component_prices-Every pricing = Every-unless AreNonneg (pricing_is_empty pricing) _ (
    with_price AreNonneg pricing.input _ λ a ha. with_price AreNonneg pricing.output _ λ b hb.
      with_price AreNonneg pricing.cache_read _ λ c hc.
        with_price AreNonneg pricing.cache_write _ λ d hd.
          with_price AreNonneg pricing.reasoning _ λ e he.
            with_price AreNonneg pricing.input_audio _ λ f hf.
              with_price AreNonneg pricing.output_audio _ λ g hg. record {
                uncached_input = ha;
                cache_read = hc;
                cache_write = hd;
                output = hb;
                reasoning = he;
                input_audio = hf;
                output_audio = hg;
              })

pub component_prices-AreNonneg :
    (pricing : ProviderModelPricing) (p : ComponentPrices)
    → component_prices_from_model_pricing pricing ≡ some p
    → AreNonneg p
component_prices-AreNonneg pricing p h = Every-some AreNonneg _ p (component_prices-Every pricing) h

tiers_from-Every :
    (previous : Option ℕ) (saved : List ProviderModelPricingTier)
    → Every (All λ tier. AreNonneg tier.prices) (tiers_from previous saved)
unfolding tiers_from component_prices_from_model_tier
tiers_from-Every previous [] = tt
tiers_from-Every previous (s ∷ saved) = Every-unless _ (ltb max_safe_integer s.threshold_tokens) _ (
    Every-unless _ (is_some_and previous λ p. leb s.threshold_tokens p) _ (
      Every-bind AreNonneg _ (component_prices_from_model_tier s) _ (component_prices-Every _)
        λ prices h.
          Every-bind (All λ tier. AreNonneg tier.prices) _
            (tiers_from (some s.threshold_tokens) saved) _
            (tiers_from-Every (some s.threshold_tokens) saved) λ later hs. (h, hs)))

pub tiers-AreNonneg :
    (pricing : ProviderModelPricing) (tiers : List ContextPriceTier)
    → context_price_tiers_from_model_pricing pricing ≡ some tiers
    → All (λ tier. AreNonneg tier.prices) tiers
unfolding context_price_tiers_from_model_pricing
tiers-AreNonneg pricing tiers h =
    Every-some (All λ tier. AreNonneg tier.prices) (tiers_from none pricing.tiers) tiers
      (tiers_from-Every none pricing.tiers) h
