-- ===== src/Usage/Normalize.antt =====
-- Raw counts to a normalized observation: crates/provider-core/src/usage/normalize.rs.
-- `&mut warnings` is a state: each step takes the warnings so far and returns the new ones.
-- The parts of `normalize_usage` that the code writes in line are functions of their own here.
pub mod Inputs
pub mod Range
pub mod Conflicts
pub mod Distinct
mod Tests
use provider_core.Prelude.{
  ℕ, zero, suc, Bool, true, false, not, ◌&&◌, ◌||◌, Option, none, some, List, [], ◌∷◌, ◌++◌,
  if◌then◌else◌, is_some_and, is_some, is_none, insert_once, checked_add, checked_sub, ltb, ◌==◌,
}
use provider_core.Prelude.Int.{ℤ, pos, negsuc}
use provider_core.Usage.Token.{
  TokenMetric, provider_reported, derived_from_reported, not_reported, not_applicable, unknown,
  indeterminate, invalid_reported, no_usage_terminal, known_value, BillableComponentCode,
  BillableObservation, BillableUnit, image_input_tokens, image_output_tokens, NormalizationWarning,
  negative_value, overflow, field_conflict, NormalizationWarning-discrete, ProviderUsageObservation,
}
use provider_core.Usage.Cache.{CacheCapability}
use provider_core.Usage.Contract.{
  TokenInclusionRules, TotalSource, PricingContextBasis, UsageContractSnapshot,
}
use provider_core.Usage.Raw.{RawUsageFields}

abbrev pub Warnings : Type 0
Warnings = List NormalizationWarning

abbrev pub Warned : Type 0 → Type 0
Warned A = Warnings → A × Warnings

infixl 5 ◌>>=◌ ◌>>◌
abbrev ◌>>=◌ : {A B : Type 0} → Warned A → (A → Warned B) → Warned B
◌>>=◌ m f ws = f (m ws).0 (m ws).1

abbrev ◌>>◌ : {B : Type 0} → Warned (Unit {0}) → Warned B → Warned B
m >> k = m >>= λ _. k

abbrev pure : {A : Type 0} → A → Warned A
pure a ws = (a, ws)

unfoldable pub push_unique : NormalizationWarning → Warnings → Warnings
push_unique w ws = insert_once NormalizationWarning-discrete ws w

abbrev with_warning : {A : Type 0} → NormalizationWarning → A → Warned A
with_warning w a ws = (a, push_unique w ws)

abbrev is_nonzero : ℤ → Bool
is_nonzero (pos n) = not (n == 0)
is_nonzero (negsuc n) = true

-- The `match raw` of `classify`.
classify_applicable : Option ℤ → Warned TokenMetric
classify_applicable none = pure not_reported
classify_applicable (some (pos n)) = pure (provider_reported n)
classify_applicable (some (negsuc n)) = with_warning negative_value (unknown invalid_reported)

pub classify : Option ℤ → Bool → Warned TokenMetric
unfolding classify_applicable
classify raw applicable ws =
    if applicable
    then classify_applicable raw ws
    else (not_applicable, if is_some_and raw is_nonzero then push_unique field_conflict ws else ws)

abbrev is_positive : TokenMetric → Bool
is_positive m = is_some_and (known_value m) (λ value. ltb 0 value)

-- `input.checked_add(output) == Some(total)`, and true where an operand is missing.
sums_to : Option ℕ → Option ℕ → Option ℕ → Bool
sums_to (some total) (some input) (some output) =
    is_some_and (checked_add input output) (λ sum. sum == total)
sums_to _ _ _ = true

pub total_reconciles : TokenMetric → TokenMetric → TokenMetric → TokenMetric → TokenMetric → Bool
unfolding sums_to
total_reconciles total effective_input output input_audio output_audio =
    if is_positive input_audio || is_positive output_audio
    then true
    else sums_to (known_value total) (known_value effective_input) (known_value output)

abbrev pub sum_contribution : TokenMetric → Option ℕ
sum_contribution not_applicable = some 0
sum_contribution (provider_reported n) = some n
sum_contribution (derived_from_reported n v) = some n
sum_contribution not_reported = none
sum_contribution (unknown r) = none

pub push_billable_tokens :
    BillableComponentCode → Option ℤ → List BillableObservation → Warned (List BillableObservation)
push_billable_tokens code none billable = pure billable
push_billable_tokens code (some (pos zero)) billable = pure billable
push_billable_tokens code (some (pos (suc n))) billable = pure (
    billable ++ record { component_code = code; unit = BillableUnit.tokens; quantity = suc n } ∷ [])
push_billable_tokens code (some (negsuc n)) billable = with_warning negative_value billable

pub cache_readable : UsageContractSnapshot → Bool
cache_readable contract = elim contract.cache_capability [
  | CacheCapability.unsupported ↦ false
  | _ ↦ true
]

-- The condition under which an omitted cache-read count is a derived zero.
abbrev derives_zero_read : Bool → TokenInclusionRules → Option ℤ → TokenMetric → Bool
derives_zero_read readable inclusion raw reported_input =
    readable
    && is_none raw
    && is_some (known_value reported_input)
    && inclusion.missing_cache_read_means_zero

pub normalize_cache_read :
    Bool → ℕ → TokenInclusionRules → Option ℤ → TokenMetric → Warned TokenMetric
unfolding classify
normalize_cache_read readable rule_version inclusion raw reported_input ws =
    if derives_zero_read readable inclusion raw reported_input
    then (derived_from_reported 0 rule_version, ws)
    else classify raw readable ws

-- A count that was subtracted without underflow, or the conflict that it is.
derived_difference : ℕ → Option ℕ → Warned TokenMetric
derived_difference rule_version (some value) = pure (derived_from_reported value rule_version)
derived_difference rule_version none = with_warning field_conflict (unknown invalid_reported)

split_known : ℕ → ℕ → Option ℕ → Warned TokenMetric
unfolding derived_difference
split_known rule_version input (some cached) =
    derived_difference rule_version (checked_sub input cached)
split_known rule_version input none = pure (unknown indeterminate)

-- What remains of the reported input after the cached portion is removed.
pub split_uncached : ℕ → TokenMetric → TokenMetric → Option ℕ → Warned TokenMetric
unfolding split_known
split_uncached rule_version reported_input cache_read none = pure reported_input
split_uncached rule_version reported_input not_applicable (some input) =
    pure (provider_reported input)
split_uncached rule_version reported_input cache_read (some input) =
    split_known rule_version input (known_value cache_read)

-- A checked sum, or the overflow that it is.
derived_sum_of : ℕ → Option ℕ → Warned TokenMetric
derived_sum_of rule_version (some value) = pure (derived_from_reported value rule_version)
derived_sum_of rule_version none = with_warning overflow (unknown indeterminate)

abbrev pub add_checked : Option ℕ → ℕ → Option ℕ
add_checked none b = none
add_checked (some a) b = checked_add a b

pub sum_categories : ℕ → Option ℕ → Option ℕ → Option ℕ → Warned TokenMetric
unfolding derived_sum_of
sum_categories rule_version (some input) (some read) (some write) =
    derived_sum_of rule_version (add_checked (checked_add input read) write)
sum_categories rule_version _ _ _ = pure (unknown indeterminate)

pub record InputMetrics : Type 0 where
  pub uncached : TokenMetric
  pub effective : TokenMetric

-- `let (uncached_input, effective_input) = …`
pub normalize_input :
    ℕ → TokenInclusionRules → TokenMetric → TokenMetric → TokenMetric → Warned InputMetrics
unfolding split_uncached sum_categories
normalize_input rule_version inclusion reported_input cache_read cache_write =
    if inclusion.input_includes_cache
    then (do
      uncached ← split_uncached rule_version reported_input cache_read (known_value reported_input)
      pure (record { uncached = uncached; effective = reported_input }))
    else if inclusion.input_categories_mutually_exclusive
    then (do
      effective ←
          sum_categories rule_version (sum_contribution reported_input)
            (sum_contribution cache_read) (sum_contribution cache_write)
      pure (record { uncached = reported_input; effective = effective }))
    else pure (record { uncached = reported_input; effective = unknown indeterminate })

sum_total : ℕ → Option ℕ → Option ℕ → Warned TokenMetric
unfolding derived_sum_of
sum_total rule_version (some input) (some out) = derived_sum_of rule_version (checked_add input out)
sum_total rule_version _ _ = pure (unknown indeterminate)

pub normalize_total : TotalSource → Option ℤ → TokenMetric → TokenMetric → Warned TokenMetric
unfolding classify sum_total
normalize_total TotalSource.reported raw effective_input output = classify raw true
normalize_total (TotalSource.derived_sum rule_version) raw effective_input output =
    sum_total rule_version (known_value effective_input) (known_value output)
normalize_total TotalSource.unavailable raw effective_input output = pure not_applicable

abbrev is_reported : TotalSource → Bool
is_reported TotalSource.reported = true
is_reported _ = false

-- The warning for a reported total that contradicts the categories.
pub check_total : TotalSource → Bool → Warned (Unit {0})
check_total source reconciles ws =
    (tt, if is_reported source && not reconciles then push_unique field_conflict ws else ws)

abbrev pricing_context : PricingContextBasis → TokenMetric → TokenMetric
pricing_context PricingContextBasis.effective_input effective = effective
pricing_context PricingContextBasis.unknown effective = unknown indeterminate

-- No usage-bearing terminal was observed.
pub no_usage : ProviderUsageObservation
no_usage = record {
  uncached_input_tokens = unknown no_usage_terminal;
  cache_read_input_tokens = unknown no_usage_terminal;
  cache_write_input_tokens = unknown no_usage_terminal;
  effective_input_tokens = unknown no_usage_terminal;
  output_tokens = unknown no_usage_terminal;
  reasoning_tokens = unknown no_usage_terminal;
  input_audio_tokens = unknown no_usage_terminal;
  output_audio_tokens = unknown no_usage_terminal;
  total_tokens = unknown no_usage_terminal;
  pricing_context_tokens = unknown no_usage_terminal;
  billable = [];
  warnings = [];
}

pub normalize_fields : RawUsageFields → UsageContractSnapshot → Warned ProviderUsageObservation
normalize_fields fields contract = do
  let inclusion = contract.inclusion
  let version = contract.normalization_version
  let readable = cache_readable contract
  reported_input ← classify fields.input true
  cache_read ← normalize_cache_read readable version inclusion fields.cache_read reported_input
  cache_write ← classify fields.cache_write (readable && inclusion.cache_write_applicable)
  output ← classify fields.output true
  reasoning ← classify fields.reasoning inclusion.reasoning_applicable
  input_audio ← classify fields.input_audio inclusion.audio_applicable
  output_audio ← classify fields.output_audio inclusion.audio_applicable
  inputs ← normalize_input version inclusion reported_input cache_read cache_write
  total ← normalize_total inclusion.total_source fields.total inputs.effective output
  check_total inclusion.total_source
      (total_reconciles total inputs.effective output input_audio output_audio)
  images ← push_billable_tokens image_input_tokens fields.image_input []
  billable ← push_billable_tokens image_output_tokens fields.image_output images
  λ ws. (
    record {
      uncached_input_tokens = inputs.uncached;
      cache_read_input_tokens = cache_read;
      cache_write_input_tokens = cache_write;
      effective_input_tokens = inputs.effective;
      output_tokens = output;
      reasoning_tokens = reasoning;
      input_audio_tokens = input_audio;
      output_audio_tokens = output_audio;
      total_tokens = total;
      pricing_context_tokens = pricing_context contract.pricing_context_basis inputs.effective;
      billable = billable;
      warnings = ws;
    },
    ws,
  )

pub normalize_usage : Option RawUsageFields → UsageContractSnapshot → ProviderUsageObservation
unfolding normalize_fields no_usage
normalize_usage none contract = no_usage
normalize_usage (some fields) contract = (normalize_fields fields contract []).0
