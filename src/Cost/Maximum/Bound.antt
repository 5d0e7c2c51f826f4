-- ===== src/Cost/Maximum/Bound.antt =====
-- The maximum of a request bounds the observed cost of every response within the declared counts.
use Prim.Native.Nat.{max}
use provider_core.Prelude.{
  ℕ, zero, suc, ◌+◌, ◌*◌, ◌≤◌, ◌<◌, ◌≡◌, ◌≢◌, refl, ap, ◌∙◌, Option, none, some, List, [], ◌∷◌,
  arith, All, Bool-cases, inl, inr, ltb,
}
use provider_core.Prelude.Int.{pos, negsuc, ◌≤ℤ◌, ◌*ℤ◌}
use provider_core.Prelude.Results.{ok, ◌>>=◌, >>=-eq-ok, ok_or}
use provider_core.Usage.Token.{TokenMetric, known_value, ProviderUsageObservation}
use provider_core.Usage.Contract.{UsageContractSnapshot}
use provider_core.Cost.Money.{UnitPrice, UsdAtoms, product_of_pos, sum_of_pos, checked_i128}
use provider_core.Cost.Price.{
  ComponentPrices, ContextPriceTier, prices_for_context, last_passed, model_v2, resolved,
  ModelInlinePriceRecordV2,
}
use provider_core.Cost.Pricing.{
  ProviderModelPricing, ProviderModelPricingRecord, component_prices_from_model_pricing,
  context_price_tiers_from_model_pricing, model_price_resolution,
}
use provider_core.Cost.Observed.{
  Component, components, reasoning_to_price, compute_observed_catalog_cost,
}
use provider_core.Cost.Observed.Exact.{
  exact_amount, exact_total, compute_observed_catalog_cost-cases,
}
use provider_core.Cost.Nonneg.{IsNonneg, AreNonneg, rate}
use provider_core.Cost.Pricing.Nonneg.{component_prices-AreNonneg, tiers-AreNonneg}
use provider_core.Cost.Maximum.{
  max_ℤ, maximum_cost_for_prices, maximum_over_tiers, maximum_for_attempts, arithmetic_overflow,
  compute_maximum_text_request_cost,
}
use provider_core.Cost.Maximum.Rates.{
  Counts, Within, input_bill, output_bill, maximum_cost_for_prices-le,
}

abbrev pub bill : ComponentPrices → Counts → ℕ
bill p c = input_bill p c + output_bill p c

-- `m` covers the bill at every tier.
abbrev Covers : ℕ → Counts → List ContextPriceTier → Type 0
Covers m c = All λ tier. bill tier.prices c ≤ m

Covers-mono :
    (m k : ℕ) (c : Counts) (tiers : List ContextPriceTier)
    → m ≤ k
    → Covers m c tiers
    → Covers k c tiers
Covers-mono m k c [] h v = tt
Covers-mono m k c (tier ∷ tiers) h v = (omega arith, Covers-mono m k c tiers h v.1)

max_of_pos : (a b : ℕ) → max_ℤ (pos a) (pos b) ≡ pos (max a b)
max_of_pos a b = ground arith

maximum_over_tiers-le :
    (tiers : List ContextPriceTier) (contract : UsageContractSnapshot) (inputs outputs n : ℕ)
    (c : Counts) (z : UsdAtoms)
    → All (λ tier. AreNonneg tier.prices) tiers
    → Within c contract inputs outputs
    → maximum_over_tiers tiers contract inputs outputs (pos n) ≡ ok z
    → (m : ℕ) × (z ≡ pos m) × (n ≤ m) × Covers m c tiers
unfolding maximum_over_tiers
maximum_over_tiers-le [] contract inputs outputs n c z h w e = (n, ground arith, omega arith, tt)
maximum_over_tiers-le (tier ∷ tiers) contract inputs outputs n c z h w e =
    let (y, ey, e') =
      >>=-eq-ok (maximum_cost_for_prices tier.prices contract inputs outputs)
        (λ candidate. maximum_over_tiers tiers contract inputs outputs (max_ℤ (pos n) candidate))
        e in
    let (k, ek, k_le) =
      maximum_cost_for_prices-le tier.prices contract inputs outputs c y h.0 w ey in
    let (m, em, m_le, covers) =
      maximum_over_tiers-le tiers contract inputs outputs (max n k) c z h.1 w
        (rw (max_of_pos n k) at (rw ek at e')) in
    (m, em, omega arith, (omega arith, covers))

last_passed-holds :
    (P : ComponentPrices → Type 0) (base : ComponentPrices) (context : ℕ)
    (tiers : List ContextPriceTier)
    → P base
    → All (λ tier. P tier.prices) tiers
    → P (last_passed base context tiers)
unfolding last_passed
last_passed-holds P base context [] h v = h
last_passed-holds P base context (tier ∷ tiers) h v =
    elim (Bool-cases (ltb tier.threshold_tokens context)) [
      | inl passed ↦ rw passed (last_passed-holds P tier.prices context tiers v.0 v.1)
      | inr below ↦ rw below h
    ]

All-both :
    {A : Type 0} (P Q : A → Type 0) (xs : List A) → All P xs → All Q xs → All (λ x. P x × Q x) xs
All-both P Q [] hp hq = tt
All-both P Q (x ∷ xs) hp hq = ((hp.0, hq.0), All-both P Q xs hp.1 hq.1)

-- Whatever prices the context selects are among those that are covered.
prices_for_context-holds :
    (P : ComponentPrices → Type 0) (r : ModelInlinePriceRecordV2) (context : Option ℕ)
    → P r.prices
    → All (λ tier. P tier.prices) r.tiers
    → P (prices_for_context (model_v2 r) context)
unfolding prices_for_context
prices_for_context-holds P r none h v = h
prices_for_context-holds P r (some n) h v = last_passed-holds P r.prices n r.tiers h v

-- A known count, 0 where none is known.
abbrev pub value_or_zero : Option ℕ → ℕ
value_or_zero none = 0
value_or_zero (some n) = n

abbrev pub count : TokenMetric → ℕ
count m = value_or_zero (known_value m)

abbrev pub counts : ProviderUsageObservation → UsageContractSnapshot → Counts
counts o contract = record {
  uncached = count o.uncached_input_tokens;
  read = count o.cache_read_input_tokens;
  write = count o.cache_write_input_tokens;
  output = count o.output_tokens;
  reasoning = count (reasoning_to_price o contract);
}

exact_amount-rate :
    (n : Option ℕ) (price : Option UnitPrice)
    → IsNonneg price
    → exact_amount n price ≡ pos (value_or_zero n * rate price)
exact_amount-rate (some n) (some (pos p)) h = product_of_pos n p
exact_amount-rate (some n) (some (negsuc p)) h = absurd h
exact_amount-rate (some n) none h = ap pos (omega arith)
exact_amount-rate none price h = ap pos (omega arith)

bill_all : List Component → ℕ
bill_all [] = 0
bill_all (c ∷ cs) = count c.quantity * rate c.price + bill_all cs

exact_total-bill_all :
    (cs : List Component) → All (λ c. IsNonneg c.price) cs → exact_total cs ≡ pos (bill_all cs)
unfolding exact_total bill_all
exact_total-bill_all [] h = refl
exact_total-bill_all (c ∷ cs) h =
    rw (exact_amount-rate (known_value c.quantity) c.price h.0, exact_total-bill_all cs h.1)
      (sum_of_pos (count c.quantity * rate c.price) (bill_all cs))

bill_all-components :
    (o : ProviderUsageObservation) (contract : UsageContractSnapshot) (p : ComponentPrices)
    → count o.input_audio_tokens ≡ 0
    → count o.output_audio_tokens ≡ 0
    → bill_all (components o contract p) ≡ bill p (counts o contract)
unfolding bill_all components
bill_all-components o contract p i a = omega (
  arith,
  ap (λ (n : ℕ). n * rate p.input_audio_per_million) i,
  ap (λ (n : ℕ). n * rate p.output_audio_per_million) a,
)

exact_total-bill :
    (o : ProviderUsageObservation) (contract : UsageContractSnapshot) (p : ComponentPrices)
    → AreNonneg p
    → count o.input_audio_tokens ≡ 0
    → count o.output_audio_tokens ≡ 0
    → exact_total (components o contract p) ≡ pos (bill p (counts o contract))
unfolding components
exact_total-bill o contract p h i a =
    exact_total-bill_all (components o contract p) (
      h.uncached_input,
      (
        h.cache_read,
        (h.cache_write, (h.output, (h.reasoning, (h.input_audio, (h.output_audio, tt))))),
      ),
    )
    ∙ ap pos (bill_all-components o contract p i a)

mul-le-attempts : (m attempts : ℕ) → 0 < attempts → m ≤ m * attempts
mul-le-attempts m zero h = elim h [ ]
mul-le-attempts m (suc k) h = grind arith

maximum_for_attempts-Covers :
    (base : ComponentPrices) (tiers : List ContextPriceTier) (contract : UsageContractSnapshot)
    (inputs outputs attempts : ℕ) (c : Counts) (z : UsdAtoms)
    → AreNonneg base
    → All (λ tier. AreNonneg tier.prices) tiers
    → Within c contract inputs outputs
    → 0 < attempts
    → maximum_for_attempts base tiers contract inputs outputs attempts ≡ ok z
    → (m : ℕ) × (z ≡ pos m) × (bill base c ≤ m) × Covers m c tiers
unfolding maximum_for_attempts
maximum_for_attempts-Covers base tiers contract inputs outputs attempts c z h hs w some_attempt e =
    let (y, ey, e') =
      >>=-eq-ok (maximum_cost_for_prices base contract inputs outputs)
        (λ first. maximum_over_tiers tiers contract inputs outputs first >>= λ maximum.
          ok_or (checked_i128 (maximum *ℤ pos attempts)) arithmetic_overflow)
        e in
    let (n, en, n_le) = maximum_cost_for_prices-le base contract inputs outputs c y h w ey in
    let (x, ex, e'') =
      >>=-eq-ok (maximum_over_tiers tiers contract inputs outputs (pos n))
        (λ maximum. ok_or (checked_i128 (maximum *ℤ pos attempts)) arithmetic_overflow)
        (rw en at e') in
    let (k, ek, k_le, covers) = maximum_over_tiers-le tiers contract inputs outputs n c x hs w ex in
    let grows = mul-le-attempts k attempts some_attempt in
    (
      k * attempts,
      multiplied k z (rw ek at e''),
      omega arith,
      Covers-mono k (k * attempts) c tiers grows covers,
    )
  where
    multiplied :
        (k : ℕ) (z : UsdAtoms)
        → ok_or (checked_i128 (pos k *ℤ pos attempts)) arithmetic_overflow ≡ ok z
        → z ≡ pos (k * attempts)
    multiplied k z e = ground (arith, product_of_pos k attempts)

maximum-Covers :
    (pricing : ProviderModelPricing) (base : ComponentPrices) (tiers : List ContextPriceTier)
    (contract : UsageContractSnapshot) (inputs outputs attempts : ℕ) (c : Counts) (z : UsdAtoms)
    → component_prices_from_model_pricing pricing ≡ some base
    → context_price_tiers_from_model_pricing pricing ≡ some tiers
    → Within c contract inputs outputs
    → compute_maximum_text_request_cost pricing contract inputs outputs attempts ≡ ok z
    → (m : ℕ) × (z ≡ pos m) × (bill base c ≤ m) × Covers m c tiers
unfolding compute_maximum_text_request_cost
maximum-Covers pricing base tiers contract inputs outputs attempts c z hb ht w e =
    maximum_for_attempts-Covers base tiers contract inputs outputs attempts c z
      (component_prices-AreNonneg pricing base hb) (tiers-AreNonneg pricing tiers ht) w
      (ground arith) (ground arith)

refused-base :
    (pricing : ProviderModelPricing) (contract : UsageContractSnapshot)
    (inputs outputs attempts : ℕ) (z : UsdAtoms)
    → component_prices_from_model_pricing pricing ≡ none
    → compute_maximum_text_request_cost pricing contract inputs outputs attempts ≢ ok z
unfolding compute_maximum_text_request_cost
refused-base pricing contract inputs outputs attempts z hb e = absurd (ground arith)

refused-tiers :
    (pricing : ProviderModelPricing) (base : ComponentPrices) (contract : UsageContractSnapshot)
    (inputs outputs attempts : ℕ) (z : UsdAtoms)
    → component_prices_from_model_pricing pricing ≡ some base
    → context_price_tiers_from_model_pricing pricing ≡ none
    → compute_maximum_text_request_cost pricing contract inputs outputs attempts ≢ ok z
unfolding compute_maximum_text_request_cost
refused-tiers pricing base contract inputs outputs attempts z hb ht e = absurd (ground arith)

resolved-le :
    (o : ProviderUsageObservation) (contract : UsageContractSnapshot) (r : ModelInlinePriceRecordV2)
    (m : ℕ)
    → (AreNonneg r.prices × (bill r.prices (counts o contract) ≤ m))
    → All (λ tier. AreNonneg tier.prices × (bill tier.prices (counts o contract) ≤ m)) r.tiers
    → count o.input_audio_tokens ≡ 0
    → count o.output_audio_tokens ≡ 0
    → (compute_observed_catalog_cost o contract (resolved (model_v2 r))).total_known ≤ℤ pos m
resolved-le o contract r m h hs i a =
    let (nonneg, covered) =
      prices_for_context-holds (λ p. AreNonneg p × (bill p (counts o contract) ≤ m)) r
        (known_value o.pricing_context_tokens) h hs in
    elim (compute_observed_catalog_cost-cases o contract (model_v2 r)) [
      | inl zero_total ↦ rw zero_total (omega arith)
      | inr exact ↦ rw (exact, exact_total-bill o contract _ nonneg i a) (omega arith)
    ]

maximum-bounds_parsed :
    (pricing : ProviderModelPricingRecord) (base : Option ComponentPrices)
    (tiers : Option (List ContextPriceTier)) (contract : UsageContractSnapshot)
    (inputs outputs attempts : ℕ) (o : ProviderUsageObservation) (z : UsdAtoms)
    → component_prices_from_model_pricing pricing.pricing ≡ base
    → context_price_tiers_from_model_pricing pricing.pricing ≡ tiers
    → Within (counts o contract) contract inputs outputs
    → count o.input_audio_tokens ≡ 0
    → count o.output_audio_tokens ≡ 0
    → compute_maximum_text_request_cost pricing.pricing contract inputs outputs attempts ≡ ok z
    → (compute_observed_catalog_cost o contract (model_price_resolution (some pricing))).total_known
      ≤ℤ z
unfolding model_price_resolution
maximum-bounds_parsed pricing (some base) (some tiers) contract inputs outputs attempts o z hb ht w
      i a e =
    let (m, em, base_le, covers) =
      maximum-Covers pricing.pricing base tiers contract inputs outputs attempts (counts o contract)
        z hb ht w e in
    rw (hb, ht, em)
      (resolved-le o contract _ m (component_prices-AreNonneg pricing.pricing base hb, base_le)
        (All-both (λ tier. AreNonneg tier.prices) (λ tier. bill tier.prices (counts o contract) ≤ m)
          tiers (tiers-AreNonneg pricing.pricing tiers ht) covers)
        i a)
maximum-bounds_parsed pricing none tiers contract inputs outputs attempts o z hb ht w i a e =
    absurd (refused-base pricing.pricing contract inputs outputs attempts z hb e)
maximum-bounds_parsed pricing (some base) none contract inputs outputs attempts o z hb ht w i a e =
    absurd (refused-tiers pricing.pricing base contract inputs outputs attempts z hb ht e)

-- The maximum computed before dispatch is at least the observed cost of the response, for every
-- saved price record and contract, when the response's uncached, cache-read and cache-write
-- counts together stay within the counted input, its output and separately priced reasoning
-- within the declared output, the counts that the contract excludes are zero, and no audio is
-- reported.
pub maximum-bounds-observed :
    (pricing : ProviderModelPricingRecord) (contract : UsageContractSnapshot)
    (inputs outputs attempts : ℕ) (o : ProviderUsageObservation) (z : UsdAtoms)
    → Within (counts o contract) contract inputs outputs
    → count o.input_audio_tokens ≡ 0
    → count o.output_audio_tokens ≡ 0
    → compute_maximum_text_request_cost pricing.pricing contract inputs outputs attempts ≡ ok z
    → (compute_observed_catalog_cost o contract (model_price_resolution (some pricing))).total_known
      ≤ℤ z
maximum-bounds-observed pricing contract inputs outputs attempts o z =
    maximum-bounds_parsed pricing _ _ contract inputs outputs attempts o z refl refl
