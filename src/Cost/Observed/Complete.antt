-- ===== src/Cost/Observed/Complete.antt =====
-- What a cost that claims to be complete has priced.
use provider_core.Prelude.{
  ℕ, zero, suc, ◌≡◌, ◌≢◌, refl, ◌⊎◌, inl, inr, Bool, true, false, Option, none, some, List, [], ◌∷◌,
  arith, All, insert_once-ne-nil,
}
use provider_core.Usage.Token.{
  TokenMetric, provider_reported, derived_from_reported, not_reported, not_applicable, unknown,
  known_value, provider_model_mismatch, field_conflict, ProviderUsageObservation,
}
use provider_core.Usage.Contract.{PricingMode, UsageContractSnapshot}
use provider_core.Cost.Money.{UnitPrice}
use provider_core.Cost.Price.{
  ComponentPrices, InlinePriceRecord, prices_for_context, has_context_tiers, unmodeled_pricing_rule,
  PriceResolution, resolved,
}
use provider_core.Cost.Price
use provider_core.Cost.Observed.{
  Component, components, price_component, Tally, CostReason, CostReason-discrete, push_unique,
  push_if, tally_one, tally_all, final_reasons, conclude, has_warning,
  complete_for_observed_catalog_components, compute_observed_catalog_cost,
}
use provider_core.Cost.Observed.Exact.{tally_all-cons}

push_unique-ne-nil : (r : CostReason) (rs : List CostReason) → push_unique r rs ≢ []
unfolding push_unique
push_unique-ne-nil r rs = insert_once-ne-nil CostReason-discrete rs r

-- A component leaves nothing open: its count is a known zero, or is known and has a price, or
-- is not known and is not billed.
abbrev pub IsSettled : Component → Type 0
IsSettled c =
    (known_value c.quantity ≡ some 0)
    ⊎ (((n : ℕ) × (p : UnitPrice) × (known_value c.quantity ≡ some n) × (c.price ≡ some p))
        ⊎ ((known_value c.quantity ≡ none) × ((c.quantity ≡ not_applicable) ⊎ (c.price ≡ none))))

tally_one-IsSettled :
    (q : TokenMetric) (price : Option UnitPrice) (t t1 : Tally)
    → tally_one (price_component q price) t ≡ some t1
    → t1.reasons ≡ []
    → IsSettled (record { quantity = q; price = price }) × (t.reasons ≡ [])
unfolding price_component tally_one
tally_one-IsSettled (provider_reported zero) price t t1 h e = (inl refl, ground arith)
tally_one-IsSettled (provider_reported (suc n)) (some p) t t1 h e =
    (inr (inl (suc n, p, refl, refl)), ground arith)
tally_one-IsSettled (derived_from_reported zero v) price t t1 h e = (inl refl, ground arith)
tally_one-IsSettled (derived_from_reported (suc n) v) (some p) t t1 h e =
    (inr (inl (suc n, p, refl, refl)), ground arith)
tally_one-IsSettled not_reported none t t1 h e = (inr (inr (refl, inr refl)), ground arith)
tally_one-IsSettled not_applicable price t t1 h e = (inr (inr (refl, inl refl)), ground arith)
tally_one-IsSettled (unknown why) none t t1 h e = (inr (inr (refl, inr refl)), ground arith)
tally_one-IsSettled q (some p) t t1 h e =
    absurd (ground (arith, push_unique-ne-nil CostReason.usage_component_missing t.reasons))
tally_one-IsSettled q none t t1 h e =
    absurd (ground (arith, push_unique-ne-nil CostReason.component_price_missing t.reasons))

tally_all-IsSettled :
    (cs : List Component) (t t' : Tally)
    → tally_all cs t ≡ some t'
    → t'.reasons ≡ []
    → All IsSettled cs × (t.reasons ≡ [])
unfolding tally_all
tally_all-IsSettled [] t t' h e = (tt, ground arith)
tally_all-IsSettled (c ∷ cs) t t' h e =
    let (t1, first, rest) = tally_all-cons c cs t t' h in
    let (settled, none_yet) = tally_all-IsSettled cs t1 t' rest e in
    let (this, before) = tally_one-IsSettled c.quantity c.price t t1 first none_yet in
    ((this, settled), before)

-- None of the reasons that the code looks for after the loop.
pub record IsClear (o : ProviderUsageObservation) (contract : UsageContractSnapshot)
    (r : InlinePriceRecord) : Type 0 where
  pub mode : contract.pricing_mode ≡ PricingMode.default
  pub billable : o.billable ≡ []
  pub modeled : Price.unmodeled_billable_component r ≡ false
  pub rule : unmodeled_pricing_rule r ≡ false
  pub tier : has_context_tiers r ≡ true → known_value o.pricing_context_tokens ≢ none
  pub same_model : has_warning o provider_model_mismatch ≡ false
  pub consistent : has_warning o field_conflict ≡ false

push_if-nil :
    (test : Bool) (reason : CostReason) (rs : List CostReason)
    → push_if test reason rs ≡ []
    → (test ≡ false) × (rs ≡ [])
unfolding push_if
push_if-nil true reason rs h = absurd (push_unique-ne-nil reason rs h)
push_if-nil false reason rs h = (refl, h)

final_reasons-IsClear :
    (o : ProviderUsageObservation) (contract : UsageContractSnapshot) (r : InlinePriceRecord)
    (found : List CostReason)
    → final_reasons o contract r found ≡ []
    → IsClear o contract r × (found ≡ [])
unfolding final_reasons
final_reasons-IsClear o contract r found h =
    let (consistent, e1) = push_if-nil _ _ _ h in
    let (same_model, e2) = push_if-nil _ _ _ e1 in
    let (tier, e3) = push_if-nil _ _ _ e2 in
    let (rule, e4) = push_if-nil _ _ _ e3 in
    let (billable, e5) = push_if-nil _ _ _ e4 in
    let (mode, e6) = push_if-nil _ _ _ e5 in
    (
      record {
        mode = ground arith;
        billable = ground arith;
        modeled = ground arith;
        rule = rule;
        tier = ground arith;
        same_model = same_model;
        consistent = consistent;
      },
      e6,
    )

conclude_complete :
    (o : ProviderUsageObservation) (contract : UsageContractSnapshot) (r : InlinePriceRecord)
    (cs : List Component) (tally : Option Tally)
    → ((t : Tally) → tally ≡ some t → t.reasons ≡ [] → All IsSettled cs)
    → (conclude o contract r tally).status ≡ complete_for_observed_catalog_components
    → IsClear o contract r × All IsSettled cs
unfolding conclude
conclude_complete o contract r cs none settled h = absurd (ground arith)
conclude_complete o contract r cs (some t) settled h =
    let (clear, e) = final_reasons-IsClear o contract r t.reasons (ground arith) in
    (clear, settled t refl e)

-- A cost claims to be complete only where each of the seven components is settled and none of
-- the reasons against it holds: mode, unmodelled component or rule, tier, model, conflict.
pub compute_observed_catalog_cost_complete :
    (o : ProviderUsageObservation) (contract : UsageContractSnapshot) (r : InlinePriceRecord)
    → (compute_observed_catalog_cost o contract (resolved r)).status
      ≡ complete_for_observed_catalog_components
    → IsClear o contract r
      × All IsSettled
          (components o contract (prices_for_context r (known_value o.pricing_context_tokens)))
unfolding compute_observed_catalog_cost
compute_observed_catalog_cost_complete o contract r =
    conclude_complete o contract r (components o contract used) _
      λ t e none_left. (tally_all-IsSettled (components o contract used) _ t e none_left).0
  where
    used : ComponentPrices
    used = prices_for_context r (known_value o.pricing_context_tokens)
