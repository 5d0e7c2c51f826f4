-- ===== src/Usage/Normalize/Range.antt =====
-- Every count of a normalized observation is a `u64`: the checked sums and differences never wrap.
use provider_core.Prelude.{
  ℕ, zero, suc, ◌<◌, Bool, true, Option, none, some, List, [], arith, u64_mod, All, All-append,
}
use provider_core.Prelude.Int.{ℤ, pos, negsuc}
use provider_core.Usage.Token.{
  TokenMetric, provider_reported, derived_from_reported, not_reported, not_applicable, unknown,
  known_value, BillableComponentCode, BillableObservation, ProviderUsageObservation,
}
use provider_core.Usage.Contract.{
  TokenInclusionRules, TotalSource, PricingContextBasis, UsageContractSnapshot,
}
use provider_core.Usage.Raw.{RawUsageFields}
use provider_core.Usage.Normalize.{
  Warnings, classify, normalize_cache_read, split_uncached, sum_categories, normalize_input,
  normalize_total, sum_contribution, pricing_context, push_billable_tokens, normalize_usage,
}

abbrev pub i64_bound : ℕ
i64_bound = 0x8000_0000_0000_0000

abbrev pub FitsI64 : Option ℤ → Type 0
FitsI64 none = Unit
FitsI64 (some (pos n)) = n < i64_bound
FitsI64 (some (negsuc n)) = n < i64_bound

-- The raw counts are `i64` values.
pub record FitI64 (fields : RawUsageFields) : Type 0 where
  pub input : FitsI64 fields.input
  pub cache_read : FitsI64 fields.cache_read
  pub cache_write : FitsI64 fields.cache_write
  pub output : FitsI64 fields.output
  pub reasoning : FitsI64 fields.reasoning
  pub input_audio : FitsI64 fields.input_audio
  pub output_audio : FitsI64 fields.output_audio
  pub image_input : FitsI64 fields.image_input
  pub image_output : FitsI64 fields.image_output
  pub total : FitsI64 fields.total

abbrev pub FitsU64 : TokenMetric → Type 0
FitsU64 (provider_reported n) = n < u64_mod
FitsU64 (derived_from_reported n version) = n < u64_mod
FitsU64 not_reported = Unit
FitsU64 not_applicable = Unit
FitsU64 (unknown why) = Unit

pub record FitU64 (o : ProviderUsageObservation) : Type 0 where
  pub uncached_input : FitsU64 o.uncached_input_tokens
  pub cache_read : FitsU64 o.cache_read_input_tokens
  pub cache_write : FitsU64 o.cache_write_input_tokens
  pub effective_input : FitsU64 o.effective_input_tokens
  pub output : FitsU64 o.output_tokens
  pub reasoning : FitsU64 o.reasoning_tokens
  pub input_audio : FitsU64 o.input_audio_tokens
  pub output_audio : FitsU64 o.output_audio_tokens
  pub total : FitsU64 o.total_tokens
  pub pricing_context : FitsU64 o.pricing_context_tokens
  pub billable : All (λ b. b.quantity < u64_mod) o.billable

classify-FitsU64 :
    (raw : Option ℤ) (applicable : Bool) (ws : Warnings)
    → FitsI64 raw
    → FitsU64 (classify raw applicable ws).0
unfolding classify
classify-FitsU64 none applicable ws h = ground arith
classify-FitsU64 (some (pos n)) applicable ws h = ground arith
classify-FitsU64 (some (negsuc n)) applicable ws h = ground arith

normalize_cache_read-FitsU64 :
    (readable : Bool) (version : ℕ) (inclusion : TokenInclusionRules) (raw : Option ℤ)
    (input : TokenMetric) (ws : Warnings)
    → FitsI64 raw
    → FitsU64 (normalize_cache_read readable version inclusion raw input ws).0
unfolding normalize_cache_read
normalize_cache_read-FitsU64 readable version inclusion raw input ws h =
    ground (arith, classify-FitsU64 raw readable ws h)

split_uncached-FitsU64 :
    (version : ℕ) (input cache_read : TokenMetric) (ws : Warnings)
    → FitsU64 input
    → FitsU64 (split_uncached version input cache_read (known_value input) ws).0
unfolding split_uncached
split_uncached-FitsU64 version input cache_read ws h = ground arith

sum_categories-FitsU64 :
    (version : ℕ) (input read write : Option ℕ) (ws : Warnings)
    → FitsU64 (sum_categories version input read write ws).0
unfolding sum_categories
sum_categories-FitsU64 version input read write ws = ground arith

normalize_total-FitsU64 :
    (source : TotalSource) (raw : Option ℤ) (effective output : TokenMetric) (ws : Warnings)
    → FitsI64 raw
    → FitsU64 (normalize_total source raw effective output ws).0
unfolding normalize_total
normalize_total-FitsU64 TotalSource.reported raw effective output ws h =
    classify-FitsU64 raw true ws h
normalize_total-FitsU64 _ raw effective output ws h = ground arith

push_billable_tokens-fits :
    (code : BillableComponentCode) (raw : Option ℤ) (billable : List BillableObservation)
    (ws : Warnings)
    → FitsI64 raw
    → All (λ b. b.quantity < u64_mod) billable
    → All (λ b. b.quantity < u64_mod) (push_billable_tokens code raw billable ws).0
unfolding push_billable_tokens
push_billable_tokens-fits code none billable ws h all = all
push_billable_tokens-fits code (some (pos zero)) billable ws h all = all
push_billable_tokens-fits code (some (pos (suc n))) billable ws h all =
    All-append _ billable _ all (omega arith, tt)
push_billable_tokens-fits code (some (negsuc n)) billable ws h all = all

normalize_input-FitsU64 :
    (version : ℕ) (inclusion : TokenInclusionRules) (input cache_read cache_write : TokenMetric)
    (ws : Warnings)
    → FitsU64 input
    → let (m, _) = normalize_input version inclusion input cache_read cache_write ws in
      FitsU64 m.uncached × FitsU64 m.effective
unfolding normalize_input
normalize_input-FitsU64 version inclusion input cache_read cache_write ws h = ground (
  arith,
  split_uncached-FitsU64 version input cache_read ws h,
  sum_categories-FitsU64 version (sum_contribution input) (sum_contribution cache_read)
      (sum_contribution cache_write) ws,
)

pricing_context-FitsU64 :
    (basis : PricingContextBasis) (m : TokenMetric) → FitsU64 m → FitsU64 (pricing_context basis m)
pricing_context-FitsU64 PricingContextBasis.effective_input m h = h
pricing_context-FitsU64 PricingContextBasis.unknown m h = tt

-- From raw counts that are `i64` values, every count of the observation is a `u64` value: no
-- sum or difference wraps, whatever the contract says.
pub normalize_usage-FitU64 :
    (fields : RawUsageFields) (contract : UsageContractSnapshot)
    → FitI64 fields
    → FitU64 (normalize_usage (some fields) contract)
unfolding normalize_usage
normalize_usage-FitU64 fields contract h = record {
  uncached_input = inputs.0;
  cache_read = normalize_cache_read-FitsU64 _ _ contract.inclusion _ _ _ h.cache_read;
  cache_write = classify-FitsU64 fields.cache_write _ _ h.cache_write;
  effective_input = inputs.1;
  output = classify-FitsU64 fields.output _ _ h.output;
  reasoning = classify-FitsU64 fields.reasoning _ _ h.reasoning;
  input_audio = classify-FitsU64 fields.input_audio _ _ h.input_audio;
  output_audio = classify-FitsU64 fields.output_audio _ _ h.output_audio;
  total = normalize_total-FitsU64 contract.inclusion.total_source fields.total _ _ _ h.total;
  pricing_context = pricing_context-FitsU64 contract.pricing_context_basis _ inputs.1;
  billable =
      push_billable_tokens-fits _ fields.image_output _ _ h.image_output
        (push_billable_tokens-fits _ fields.image_input [] _ h.image_input tt);
}
  where
    inputs :
        FitsU64 (normalize_usage (some fields) contract).uncached_input_tokens
        × FitsU64 (normalize_usage (some fields) contract).effective_input_tokens
    inputs =
        normalize_input-FitsU64 _ contract.inclusion _ _ _ _
          (classify-FitsU64 fields.input true [] h.input)
