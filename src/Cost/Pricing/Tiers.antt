-- ===== src/Cost/Pricing/Tiers.antt =====
-- Which context tier of a saved price applies: `context_price_tiers_from_model_pricing` of
-- crates/provider-usage/src/catalog.rs and `prices_for_context` of crates/provider-usage/src/price.rs.
use provider_core.Prelude.{
  Every-unless, Every-guard, ℕ, ◌≡◌, ◌<◌, ◌≤◌, ◌⊎◌, inl, inr, refl, ap, false, Option, none, some,
  List, [], ◌∷◌, arith, All, IsMember, Every, Every-some, ltb, leb, is_some_and, Bool-cases, ltb→lt,
}
use provider_core.Cost.Price.{
  ComponentPrices, ContextPriceTier, ModelInlinePriceRecordV2, model_v2, PriceResolution, resolved,
  prices_for_context, last_passed,
}
use provider_core.Cost.Pricing.{
  ProviderModelPricingRecord, ProviderModelPricingTier, ProviderModelPricingSource,
  component_prices_from_model_tier, tiers_from, context_price_tiers_from_model_pricing,
  model_price_resolution, resolve_parsed, max_safe_integer,
}
use provider_core.Cost.Pricing.Nonneg.{Every-bind}

abbrev pub Tiers : Type 0
Tiers = List ContextPriceTier

-- All the thresholds are above the bound, and each is above the ones before it.
abbrev pub IsAbove : Option ℕ → Tiers → Type 0
IsAbove bound [] = Unit
IsAbove none (tier ∷ tiers) = IsAbove (some tier.threshold_tokens) tiers
IsAbove (some n) (tier ∷ tiers) =
    (n < tier.threshold_tokens) × IsAbove (some tier.threshold_tokens) tiers

-- A tier that the context passes, of the highest threshold that it passes.
pub record IsSelected (tiers : Tiers) (context_tokens : ℕ) (tier : ContextPriceTier) : Type 0 where
  pub known : IsMember tier tiers
  pub passed : tier.threshold_tokens < context_tokens
  pub highest :
      All
        (λ other.
          other.threshold_tokens < context_tokens → other.threshold_tokens ≤ tier.threshold_tokens)
        tiers

-- The base prices where no tier is passed, else those of the highest tier that is.
abbrev pub Selects : ComponentPrices → Tiers → ℕ → ComponentPrices → Type 0
Selects base tiers context_tokens p =
    (All (λ tier. context_tokens ≤ tier.threshold_tokens) tiers × (p ≡ base))
    ⊎ ((tier : ContextPriceTier) × IsSelected tiers context_tokens tier × (p ≡ tier.prices))

IsAbove-All :
    (n m : ℕ) (tiers : Tiers)
    → n ≤ m
    → IsAbove (some m) tiers
    → All (λ tier. n ≤ tier.threshold_tokens) tiers
IsAbove-All n m [] h above = tt
IsAbove-All n m (tier ∷ tiers) h above =
    (omega arith, IsAbove-All n tier.threshold_tokens tiers (omega arith) above.1)

unpassed-highest :
    (n k : ℕ) (tiers : Tiers)
    → All (λ tier. n ≤ tier.threshold_tokens) tiers
    → All (λ other. other.threshold_tokens < n → other.threshold_tokens ≤ k) tiers
unpassed-highest n k [] h = tt
unpassed-highest n k (tier ∷ tiers) h = (λ passed. omega arith, unpassed-highest n k tiers h.1)

member_above :
    (k : ℕ) (tiers : Tiers) (tier : ContextPriceTier)
    → IsMember tier tiers
    → All (λ other. k ≤ other.threshold_tokens) tiers
    → k ≤ tier.threshold_tokens
member_above k [] tier known h = absurd known
member_above k (other ∷ tiers) tier (inl e) h = rw e h.0
member_above k (other ∷ tiers) tier (inr known) h = member_above k tiers tier known h.1

later-Selects :
    (base : ComponentPrices) (first : ContextPriceTier) (tiers : Tiers) (n : ℕ)
    (p : ComponentPrices)
    → first.threshold_tokens < n
    → IsAbove (some first.threshold_tokens) tiers
    → Selects first.prices tiers n p
    → Selects base (first ∷ tiers) n p
later-Selects base first tiers n p h above (inl (unpassed, e)) = inr (
  first,
  record {
    known = inl refl;
    passed = h;
    highest = (λ passed. omega arith, unpassed-highest n first.threshold_tokens tiers unpassed);
  },
  e,
)
later-Selects base first tiers n p h above (inr (tier, selected, e)) = inr (
  tier,
  record {
    known = inr selected.known;
    passed = selected.passed;
    highest = (
      λ passed.
          member_above first.threshold_tokens tiers tier selected.known
            (IsAbove-All first.threshold_tokens first.threshold_tokens tiers (omega arith) above),
      selected.highest,
    );
  },
  e,
)

rest-IsAbove :
    (bound : Option ℕ) (tier : ContextPriceTier) (tiers : Tiers)
    → IsAbove bound (tier ∷ tiers)
    → IsAbove (some tier.threshold_tokens) tiers
rest-IsAbove none tier tiers above = above
rest-IsAbove (some n) tier tiers above = above.1

unpassed_le : (k n : ℕ) → ltb k n ≡ false → n ≤ k
unpassed_le k n h = ground arith

last_passed-Selects :
    (base : ComponentPrices) (n : ℕ) (tiers : Tiers) (k : Option ℕ)
    → IsAbove k tiers
    → Selects base tiers n (last_passed base n tiers)
unfolding last_passed
last_passed-Selects base n [] k above = inl (tt, refl)
last_passed-Selects base n (tier ∷ tiers) k above =
    elim (Bool-cases (ltb tier.threshold_tokens n)) [
      | inl passed ↦ rw passed (
          later-Selects base tier tiers n _ (ltb→lt tier.threshold_tokens n passed)
            (rest-IsAbove k tier tiers above)
            (last_passed-Selects tier.prices n tiers (some tier.threshold_tokens)
              (rest-IsAbove k tier tiers above)))
      | inr fails ↦ rw fails (
          inl (
            (
              unpassed_le tier.threshold_tokens n fails,
              IsAbove-All n tier.threshold_tokens tiers (unpassed_le tier.threshold_tokens n fails)
                  (rest-IsAbove k tier tiers above),
            ),
            refl,
          ))
    ]

not_refused-IsAbove :
    (bound : Option ℕ) (tier : ContextPriceTier) (tiers : Tiers)
    → is_some_and bound (λ p. leb tier.threshold_tokens p) ≡ false
    → IsAbove (some tier.threshold_tokens) tiers
    → IsAbove bound (tier ∷ tiers)
not_refused-IsAbove none tier tiers h above = above
not_refused-IsAbove (some n) tier tiers h above = (ground arith, above)

Every-Unit : {A : Type 0} (o : Option A) → Every {0, 0} (λ _. Unit) o
Every-Unit none = tt
Every-Unit (some a) = tt

tiers_from-IsAbove :
    (previous : Option ℕ) (saved : List ProviderModelPricingTier)
    → Every (IsAbove previous) (tiers_from previous saved)
unfolding tiers_from
tiers_from-IsAbove previous [] = tt
tiers_from-IsAbove previous (s ∷ saved) =
    Every-unless _ (ltb max_safe_integer s.threshold_tokens) _ (
      Every-guard _ (is_some_and previous λ p. leb s.threshold_tokens p) _ λ fine.
        Every-bind (λ _. Unit) _ (component_prices_from_model_tier s) _ (Every-Unit _)
          λ prices _.
            Every-bind (IsAbove (some s.threshold_tokens)) _
              (tiers_from (some s.threshold_tokens) saved) _
              (tiers_from-IsAbove (some s.threshold_tokens) saved)
              λ later above.
                not_refused-IsAbove previous
                  (record { threshold_tokens = s.threshold_tokens; prices = prices }) later fine
                  above)

abbrev resolved_tiers : PriceResolution → Option Tiers
resolved_tiers (resolved (model_v2 r)) = some r.tiers
resolved_tiers _ = none

resolve_parsed-tiers :
    (source : ProviderModelPricingSource) (prices : Option ComponentPrices) (tiers : Option Tiers)
    (r : ModelInlinePriceRecordV2)
    → resolve_parsed source prices tiers ≡ resolved (model_v2 r)
    → tiers ≡ some r.tiers
unfolding resolve_parsed
resolve_parsed-tiers source (some prices) (some tiers) r h = ap resolved_tiers h
resolve_parsed-tiers source (some prices) none r h = absurd (cc h)
resolve_parsed-tiers source none tiers r h = absurd (cc h)

resolution-IsAbove :
    (saved : ProviderModelPricingRecord) (r : ModelInlinePriceRecordV2)
    → model_price_resolution (some saved) ≡ resolved (model_v2 r)
    → IsAbove none r.tiers
unfolding model_price_resolution context_price_tiers_from_model_pricing
resolution-IsAbove saved r h =
    Every-some (IsAbove none) _ r.tiers (tiers_from-IsAbove none saved.pricing.tiers)
      (resolve_parsed-tiers _ _ _ r h)

-- Of a saved price that resolves to a record, a request with a context of so many tokens has the
-- base prices where no tier has a threshold below the context, and else those of a tier of the
-- record whose threshold is the highest below the context.
pub prices_for_context-Selects :
    (saved : ProviderModelPricingRecord) (r : ModelInlinePriceRecordV2) (context_tokens : ℕ)
    → model_price_resolution (some saved) ≡ resolved (model_v2 r)
    → Selects r.prices r.tiers context_tokens
        (prices_for_context (model_v2 r) (some context_tokens))
unfolding prices_for_context
prices_for_context-Selects saved r context_tokens h =
    last_passed-Selects r.prices context_tokens r.tiers none (resolution-IsAbove saved r h)
