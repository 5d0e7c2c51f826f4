-- ===== src/Cost/Observed/Overflow.antt =====
-- Realistic prices never overflow the cost arithmetic.
use provider_core.Prelude.{
  ℕ, zero, suc, ◌+◌, ◌*◌, ◌≤◌, ◌<◌, ◌≡◌, ◌≢◌, refl, Option, none, some, List, [], ◌∷◌, arith, All,
  length, u64_mod,
}
use provider_core.Prelude.Int.{pos, negsuc}
use provider_core.Usage.Token.{
  TokenMetric, provider_reported, derived_from_reported, known_value, ProviderUsageObservation,
}
use provider_core.Usage.Contract.{UsageContractSnapshot}
use provider_core.Usage.Normalize.Range.{FitsU64, FitU64}
use provider_core.Cost.Money.{UnitPrice, i128_bound, checked_add-pos, component_cost_atoms-pos}
use provider_core.Cost.Price.{ComponentPrices, InlinePriceRecord, prices_for_context, resolved}
use provider_core.Cost.Observed.{
  Component, components, reasoning_to_price, priced, price_component, price_count, price_unknown,
  Tally, empty_tally, tally_one, tally_all, CostStatus, CostReason, status_of, final_reasons,
  conclude, compute_observed_catalog_cost,
}

-- 2 ^ 60, more than eleven thousand million USD per million tokens.
abbrev pub price_bound : ℕ
price_bound = 0x1000_0000_0000_0000

abbrev pub IsModest : Option UnitPrice → Type 0
IsModest none = Unit
IsModest (some (pos p)) = p < price_bound
IsModest (some (negsuc p)) = ⊥

-- 2 ^ 124, which a product of a `u64` count and a modest price does not pass.
abbrev cost_bound : ℕ
cost_bound = u64_mod * price_bound

product-le : (q p : ℕ) → q < u64_mod → p < price_bound → q * p ≤ cost_bound
product-le q p h k = grind arith

-- The loop goes on, and the total grows by at most one product.
abbrev GoesOn : ℕ → Option Tally → Type 0
GoesOn a none = ⊥
GoesOn a (some t) = (b : ℕ) × (t.total ≡ pos b) × (b ≤ a + cost_bound)

priced-GoesOn :
    (x : ℕ) (t : Tally) (a : ℕ)
    → x ≤ cost_bound
    → t.total ≡ pos a
    → a + cost_bound < i128_bound
    → GoesOn a (tally_one (priced (pos x)) t)
unfolding tally_one
priced-GoesOn x t a h e room = rw (e, checked_add-pos a x (omega arith)) (a + x, refl, omega arith)

price_count-GoesOn :
    (n : ℕ) (price : Option UnitPrice) (t : Tally) (a : ℕ)
    → suc n < u64_mod
    → IsModest price
    → t.total ≡ pos a
    → a + cost_bound < i128_bound
    → GoesOn a (tally_one (price_count (suc n) price) t)
unfolding price_count
price_count-GoesOn n none t a fits modest e room = unfold tally_one in (a, e, omega arith)
price_count-GoesOn n (some (negsuc p)) t a fits modest e room = absurd modest
price_count-GoesOn n (some (pos p)) t a fits modest e room =
    let le = product-le (suc n) p fits modest in
    rw (component_cost_atoms-pos (suc n) p (omega arith)) (priced-GoesOn (suc n * p) t a le e room)

tally_one-GoesOn :
    (q : TokenMetric) (price : Option UnitPrice) (t : Tally) (a : ℕ)
    → FitsU64 q
    → IsModest price
    → t.total ≡ pos a
    → a + cost_bound < i128_bound
    → GoesOn a (tally_one (price_component q price) t)
unfolding price_component
tally_one-GoesOn (provider_reported zero) price t a fits modest e room =
    priced-GoesOn 0 t a (omega arith) e room
tally_one-GoesOn (provider_reported (suc n)) price t a fits modest e room =
    price_count-GoesOn n price t a fits modest e room
tally_one-GoesOn (derived_from_reported zero v) price t a fits modest e room =
    priced-GoesOn 0 t a (omega arith) e room
tally_one-GoesOn (derived_from_reported (suc n) v) price t a fits modest e room =
    price_count-GoesOn n price t a fits modest e room
tally_one-GoesOn q none t a fits modest e room =
    unfold tally_one price_unknown in (a, e, omega arith)
tally_one-GoesOn q (some p) t a fits modest e room =
    unfold tally_one price_unknown in (a, e, omega arith)

GoesOn-elim :
    (a : ℕ) (tally : Option Tally)
    → GoesOn a tally
    → (t : Tally) × (b : ℕ) × (tally ≡ some t) × (t.total ≡ pos b) × (b ≤ a + cost_bound)
GoesOn-elim a none g = absurd g
GoesOn-elim a (some t) g = (t, g.0, refl, g.1, g.2)

tally_all-some :
    (cs : List Component) (t : Tally) (a : ℕ)
    → All (λ c. FitsU64 c.quantity × IsModest c.price) cs
    → t.total ≡ pos a
    → a + length cs * cost_bound < i128_bound
    → tally_all cs t ≢ none
unfolding tally_all
tally_all-some [] t a h e room = λ p. absurd (cc p)
tally_all-some (c ∷ cs) t a h e room =
    let (t1, b, et, eb, le) =
      GoesOn-elim a _ (tally_one-GoesOn c.quantity c.price t a h.0.0 h.0.1 e (omega arith)) in
    rw (et, tally_all) (tally_all-some cs t1 b h.1 eb (omega arith))

pub record AreModest (p : ComponentPrices) : Type 0 where
  pub uncached_input : IsModest p.uncached_input_per_million
  pub cache_read : IsModest p.cache_read_per_million
  pub cache_write : IsModest p.cache_write_per_million
  pub output : IsModest p.output_per_million
  pub reasoning : IsModest p.reasoning_per_million
  pub input_audio : IsModest p.input_audio_per_million
  pub output_audio : IsModest p.output_audio_per_million

reasoning_to_price-FitsU64 :
    (o : ProviderUsageObservation) (contract : UsageContractSnapshot)
    → FitU64 o
    → FitsU64 (reasoning_to_price o contract)
unfolding reasoning_to_price
reasoning_to_price-FitsU64 o contract fit = ground arith

components-fit :
    (o : ProviderUsageObservation) (contract : UsageContractSnapshot) (p : ComponentPrices)
    → FitU64 o
    → AreModest p
    → All (λ c. FitsU64 c.quantity × IsModest c.price) (components o contract p)
unfolding components
components-fit o contract p fit modest =
    let reasoning = reasoning_to_price-FitsU64 o contract fit in assumption

status_of-available : (rs : List CostReason) → status_of rs ≢ CostStatus.unavailable
status_of-available [] = λ e. absurd (cc e)
status_of-available (r ∷ rs) = λ e. absurd (cc e)

conclude-available :
    (o : ProviderUsageObservation) (contract : UsageContractSnapshot) (r : InlinePriceRecord)
    (tally : Option Tally)
    → tally ≢ none
    → (conclude o contract r tally).status ≢ CostStatus.unavailable
unfolding conclude
conclude-available o contract r none h = absurd (h refl)
conclude-available o contract r (some t) h =
    status_of-available (final_reasons o contract r t.reasons)

-- With `u64` counts and prices that are not negative and below 2 ^ 60, a resolved attempt always
-- has a cost: none of the checked products and sums leaves the `i128` range.
pub compute_observed_catalog_cost-available :
    (o : ProviderUsageObservation) (contract : UsageContractSnapshot) (r : InlinePriceRecord)
    → FitU64 o
    → AreModest (prices_for_context r (known_value o.pricing_context_tokens))
    → (compute_observed_catalog_cost o contract (resolved r)).status ≢ CostStatus.unavailable
unfolding compute_observed_catalog_cost
compute_observed_catalog_cost-available o contract r fit modest =
    conclude-available o contract r (tally_all cs empty_tally)
      (tally_all-some cs empty_tally 0 (components-fit o contract _ fit modest) refl (omega arith))
  where
    cs : List Component
    cs = components o contract (prices_for_context r (known_value o.pricing_context_tokens))
