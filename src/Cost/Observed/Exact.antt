-- ===== src/Cost/Observed/Exact.antt =====
-- The amount of an observed cost is the exact sum over its components.
use provider_core.Prelude.{
  ℕ, zero, suc, ◌≡◌, ◌≢◌, refl, ◌∙◌, ap, Option, none, some, List, [], ◌∷◌, arith, Option-cases,
  inl, inr, ◌⊎◌,
}
use provider_core.Prelude.Int.{ℤ, pos, ◌+ℤ◌, ◌*ℤ◌, +ℤ_assoc, int_laws}
use provider_core.Usage.Token.{
  TokenMetric, provider_reported, derived_from_reported, known_value, ProviderUsageObservation,
}
use provider_core.Usage.Contract.{UsageContractSnapshot}
use provider_core.Cost.Money.{UnitPrice, checked_add, component_cost_atoms}
use provider_core.Cost.Price.{ComponentPrices, InlinePriceRecord, prices_for_context, resolved}
use provider_core.Cost.Observed.{
  Component, components, price_component, Tally, empty_tally, tally_one, tally_all, CostStatus,
  conclude, compute_observed_catalog_cost,
}

-- A known quantity at a known price, in whole atoms and with no bound.
abbrev pub exact_amount : Option ℕ → Option UnitPrice → ℤ
exact_amount (some n) (some p) = pos n *ℤ p
exact_amount _ _ = pos 0

unfoldable pub exact_total : List Component → ℤ
exact_total [] = pos 0
exact_total (c ∷ cs) = exact_amount (known_value c.quantity) c.price +ℤ exact_total cs

zero_product : (p : ℤ) → pos 0 *ℤ p ≡ pos 0
unfolding ◌*ℤ◌
zero_product p = ground arith

+ℤ_zero : (a : ℤ) → a +ℤ pos 0 ≡ a
+ℤ_zero a = omega int_laws

zero_+ℤ : (a : ℤ) → pos 0 +ℤ a ≡ a
zero_+ℤ a = omega int_laws

price_known-exact :
    (q : TokenMetric) (price : Option UnitPrice) (t t' : Tally)
    → tally_one (price_component q price) t ≡ some t'
    → t'.total ≡ t.total +ℤ exact_amount (known_value q) price
unfolding price_component tally_one checked_add component_cost_atoms
price_known-exact (provider_reported zero) (some p) t t' h =
    ground (arith, zero_product p, +ℤ_zero t.total)
price_known-exact (provider_reported (suc n)) (some p) t t' h = ground (arith, +ℤ_zero t.total)
price_known-exact (derived_from_reported zero v) (some p) t t' h =
    ground (arith, zero_product p, +ℤ_zero t.total)
price_known-exact (derived_from_reported (suc n) v) (some p) t t' h =
    ground (arith, +ℤ_zero t.total)
price_known-exact q price t t' h = ground (arith, +ℤ_zero t.total)

-- The rounds of a loop that ran to its end.
pub tally_all-cons :
    (c : Component) (cs : List Component) (t t' : Tally)
    → tally_all (c ∷ cs) t ≡ some t'
    → (t1 : Tally) × (tally_one (price_component c.quantity c.price) t ≡ some t1)
      × (tally_all cs t1 ≡ some t')
unfolding tally_all
tally_all-cons c cs t t' h =
    elim (Option-cases (tally_one (price_component c.quantity c.price) t)) [
      | inl e ↦ absurd (cc (rw (e, tally_all) at h))
      | inr (t1, e) ↦ (t1, e, rw (e, tally_all) at h)
    ]

pub tally_all-exact :
    (cs : List Component) (t t' : Tally)
    → tally_all cs t ≡ some t'
    → t'.total ≡ t.total +ℤ exact_total cs
unfolding tally_all exact_total
tally_all-exact [] t t' h = ground (arith, +ℤ_zero t.total)
tally_all-exact (c ∷ cs) t t' h =
    let (t1, first, rest) = tally_all-cons c cs t t' h in
    tally_all-exact cs t1 t' rest
    ∙ ap (λ a. a +ℤ exact_total cs) (price_known-exact c.quantity c.price t t1 first)
    ∙ +ℤ_assoc t.total (exact_amount (known_value c.quantity) c.price) (exact_total cs)

conclude-total :
    (o : ProviderUsageObservation) (contract : UsageContractSnapshot) (r : InlinePriceRecord)
    (cs : List Component) (tally : Option Tally)
    → ((t : Tally) → tally ≡ some t → t.total ≡ exact_total cs)
    → (conclude o contract r tally).status ≢ CostStatus.unavailable
    → (conclude o contract r tally).total_known ≡ exact_total cs
unfolding conclude
conclude-total o contract r cs none exact h = absurd (h refl)
conclude-total o contract r cs (some t) exact h = exact t refl

conclude-cases :
    (o : ProviderUsageObservation) (contract : UsageContractSnapshot) (r : InlinePriceRecord)
    (cs : List Component) (tally : Option Tally)
    → ((t : Tally) → tally ≡ some t → t.total ≡ exact_total cs)
    → ((conclude o contract r tally).total_known ≡ pos 0)
      ⊎ ((conclude o contract r tally).total_known ≡ exact_total cs)
unfolding conclude
conclude-cases o contract r cs none exact = inl refl
conclude-cases o contract r cs (some t) exact = inr (exact t refl)

-- A cost that is not unavailable is the exact sum, over the seven components and in unbounded
-- integers, of each known quantity times its price: nothing is rounded, wrapped or left out.
pub compute_observed_catalog_cost-exact :
    (o : ProviderUsageObservation) (contract : UsageContractSnapshot) (r : InlinePriceRecord)
    → (compute_observed_catalog_cost o contract (resolved r)).status ≢ CostStatus.unavailable
    → (compute_observed_catalog_cost o contract (resolved r)).total_known
      ≡ exact_total
          (components o contract (prices_for_context r (known_value o.pricing_context_tokens)))
unfolding compute_observed_catalog_cost
compute_observed_catalog_cost-exact o contract r =
    conclude-total o contract r (components o contract used) _
      λ t e. tally_all-exact (components o contract used) _ t e ∙ zero_+ℤ _
  where
    used : ComponentPrices
    used = prices_for_context r (known_value o.pricing_context_tokens)

-- The amount is zero or exact, also for a cost that is unavailable.
pub compute_observed_catalog_cost-cases :
    (o : ProviderUsageObservation) (contract : UsageContractSnapshot) (r : InlinePriceRecord)
    → ((compute_observed_catalog_cost o contract (resolved r)).total_known ≡ pos 0)
      ⊎ ((compute_observed_catalog_cost o contract (resolved r)).total_known
          ≡ exact_total
              (components o contract (prices_for_context r (known_value o.pricing_context_tokens))))
unfolding compute_observed_catalog_cost
compute_observed_catalog_cost-cases o contract r =
    conclude-cases o contract r (components o contract used)
      (tally_all (components o contract used) empty_tally)
      λ t e. tally_all-exact (components o contract used) empty_tally t e ∙ zero_+ℤ _
  where
    used : ComponentPrices
    used = prices_for_context r (known_value o.pricing_context_tokens)
