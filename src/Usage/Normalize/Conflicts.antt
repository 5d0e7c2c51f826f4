-- ===== src/Usage/Normalize/Conflicts.antt =====
-- When a normalized observation carries the field-conflict warning.
use provider_core.Prelude.{
  ℕ, zero, suc, ◌+◌, ◌≡◌, refl, Bool, true, false, not, ◌&&◌, ◌||◌, Option, none, some, List, [],
  arith, ltb, ◌==◌, is_some_and, contains, contains-insert_once_self, contains-insert_once_ne,
  contains-nil,
}
use mathlib.Core.Bool.{or-false}
use provider_core.Prelude.Int.{ℤ, pos, negsuc}
use provider_core.Usage.Token.{
  TokenMetric, known_value, BillableComponentCode, BillableObservation, NormalizationWarning,
  negative_value, overflow, field_conflict, ProviderUsageObservation, NormalizationWarning-discrete,
}
use provider_core.Usage.Contract.{TokenInclusionRules, TotalSource, UsageContractSnapshot}
use provider_core.Usage.Raw.{RawUsageFields}
use provider_core.Usage.Normalize.{
  Warnings, push_unique, classify, is_nonzero, is_positive, is_reported, total_reconciles,
  cache_readable, normalize_cache_read, split_uncached, sum_categories, normalize_input,
  normalize_total, check_total, sum_contribution, push_billable_tokens, normalize_usage,
}
use provider_core.Usage.Normalize.Range.{FitI64, FitsU64, normalize_usage-FitU64}

abbrev pub warns : Warnings → NormalizationWarning → Bool
warns = contains NormalizationWarning-discrete

push_conflict-warns : (ws : Warnings) → warns (push_unique field_conflict ws) field_conflict ≡ true
unfolding push_unique
push_conflict-warns ws = contains-insert_once_self NormalizationWarning-discrete ws field_conflict

push_negative-warns :
    (ws : Warnings) → warns (push_unique negative_value ws) field_conflict ≡ warns ws field_conflict
unfolding push_unique
push_negative-warns ws =
    contains-insert_once_ne NormalizationWarning-discrete ws negative_value field_conflict (λ e. cc)

push_overflow-warns :
    (ws : Warnings) → warns (push_unique overflow ws) field_conflict ≡ warns ws field_conflict
unfolding push_unique
push_overflow-warns ws =
    contains-insert_once_ne NormalizationWarning-discrete ws overflow field_conflict (λ e. cc)

-- A count, other than zero, for a field that does not apply.
abbrev pub misplaced : Option ℤ → Bool → Bool
misplaced raw applicable = not applicable && is_some_and raw is_nonzero

-- More cached tokens than the input that is said to include them.
abbrev pub exceeds : Option ℕ → Option ℕ → Bool
exceeds (some input) (some cached) = ltb input cached
exceeds _ _ = false

-- Of a total and its two parts all are known, and the parts do not make the total.
abbrev pub differs : Option ℕ → Option ℕ → Option ℕ → Bool
differs (some total) (some input) (some output) = not (input + output == total)
differs _ _ _ = false

-- A count that the provider reported.
abbrev pub reported_count : Option ℤ → Option ℕ
reported_count (some (pos n)) = some n
reported_count _ = none

classify-warns :
    (raw : Option ℤ) (applicable : Bool) (ws : Warnings)
    → warns (classify raw applicable ws).1 field_conflict
      ≡ warns ws field_conflict || misplaced raw applicable
unfolding classify
classify-warns none applicable ws = ground arith
classify-warns (some (pos n)) applicable ws = ground (arith, push_conflict-warns ws)
classify-warns (some (negsuc n)) applicable ws =
    ground (arith, push_conflict-warns ws, push_negative-warns ws)

normalize_cache_read-warns :
    (readable : Bool) (version : ℕ) (inclusion : TokenInclusionRules) (raw : Option ℤ)
    (input : TokenMetric) (ws : Warnings)
    → warns (normalize_cache_read readable version inclusion raw input ws).1 field_conflict
      ≡ warns ws field_conflict || misplaced raw readable
unfolding normalize_cache_read
normalize_cache_read-warns readable version inclusion none input ws =
    ground (arith, classify-warns none readable ws)
normalize_cache_read-warns readable version inclusion (some raw) input ws =
    ground (arith, classify-warns (some raw) readable ws)

split_uncached-warns :
    (version : ℕ) (input cache_read : TokenMetric) (ws : Warnings)
    → warns (split_uncached version input cache_read (known_value input) ws).1 field_conflict
      ≡ warns ws field_conflict || exceeds (known_value input) (known_value cache_read)
unfolding split_uncached
split_uncached-warns version input cache_read ws = ground (arith, push_conflict-warns ws)

sum_categories-warns :
    (version : ℕ) (i r w : Option ℕ) (ws : Warnings)
    → warns (sum_categories version i r w ws).1 field_conflict ≡ warns ws field_conflict
unfolding sum_categories
sum_categories-warns version i r w ws = ground (arith, push_overflow-warns ws)

normalize_total-warns :
    (source : TotalSource) (raw : Option ℤ) (effective output : TokenMetric) (ws : Warnings)
    → warns (normalize_total source raw effective output ws).1 field_conflict
      ≡ warns ws field_conflict
unfolding normalize_total
normalize_total-warns TotalSource.reported raw effective output ws =
    ground (arith, classify-warns raw true ws)
normalize_total-warns _ raw effective output ws = ground (arith, push_overflow-warns ws)

push_billable_tokens-warns :
    (code : BillableComponentCode) (raw : Option ℤ) (billable : List BillableObservation)
    (ws : Warnings)
    → warns (push_billable_tokens code raw billable ws).1 field_conflict ≡ warns ws field_conflict
unfolding push_billable_tokens
push_billable_tokens-warns code none billable ws = refl
push_billable_tokens-warns code (some (pos zero)) billable ws = refl
push_billable_tokens-warns code (some (pos (suc n))) billable ws = refl
push_billable_tokens-warns code (some (negsuc n)) billable ws = push_negative-warns ws

normalize_input-warns :
    (version : ℕ) (inclusion : TokenInclusionRules) (input cache_read cache_write : TokenMetric)
    (ws : Warnings)
    → warns (normalize_input version inclusion input cache_read cache_write ws).1 field_conflict
      ≡ warns ws field_conflict
        || inclusion.input_includes_cache && exceeds (known_value input) (known_value cache_read)
unfolding normalize_input
normalize_input-warns version inclusion input cache_read cache_write ws = ground (
  arith,
  split_uncached-warns version input cache_read ws,
  sum_categories-warns version (sum_contribution input) (sum_contribution cache_read)
      (sum_contribution cache_write) ws,
)

check_total-warns :
    (source : TotalSource) (reconciles : Bool) (ws : Warnings)
    → warns (check_total source reconciles ws).1 field_conflict
      ≡ warns ws field_conflict || is_reported source && not reconciles
unfolding check_total
check_total-warns source reconciles ws = ground (arith, push_conflict-warns ws)

total_reconciles-differs :
    (total effective output input_audio output_audio : TokenMetric)
    → FitsU64 total
    → not (total_reconciles total effective output input_audio output_audio)
      ≡ not (is_positive input_audio || is_positive output_audio)
        && differs (known_value total) (known_value effective) (known_value output)
unfolding total_reconciles
total_reconciles-differs total effective output input_audio output_audio h = ground arith

classify-known :
    (raw : Option ℤ) (ws : Warnings) → known_value (classify raw true ws).0 ≡ reported_count raw
unfolding classify
classify-known none ws = refl
classify-known (some (pos n)) ws = refl
classify-known (some (negsuc n)) ws = refl

-- What makes the field-conflict warning: a count for a field that does not apply, more cached
-- tokens than the input that includes them, or a reported total that the parts do not make.
abbrev pub conflicts : RawUsageFields → UsageContractSnapshot → ProviderUsageObservation → Bool
conflicts fields contract o =
    misplaced fields.cache_read (cache_readable contract)
    || misplaced fields.cache_write (cache_readable contract && inclusion.cache_write_applicable)
    || misplaced fields.reasoning inclusion.reasoning_applicable
    || misplaced fields.input_audio inclusion.audio_applicable
    || misplaced fields.output_audio inclusion.audio_applicable
    || inclusion.input_includes_cache
      && exceeds (reported_count fields.input) (known_value o.cache_read_input_tokens)
    || is_reported inclusion.total_source
      && (not (is_positive o.input_audio_tokens || is_positive o.output_audio_tokens)
          && differs (known_value o.total_tokens) (known_value o.effective_input_tokens)
              (known_value o.output_tokens))
  where
    open contract use {inclusion}

ruleset warning_laws = (
  push_billable_tokens-warns, check_total-warns, normalize_total-warns, normalize_input-warns,
  classify-warns, normalize_cache_read-warns,
)

-- A normalized response carries the field-conflict warning exactly when its counts, which are
-- `i64` values, contradict the contract.
pub normalize_usage-conflicts :
    (fields : RawUsageFields) (contract : UsageContractSnapshot)
    → FitI64 fields
    → let o = normalize_usage (some fields) contract in
      warns o.warnings field_conflict ≡ conflicts fields contract o
unfolding normalize_usage
normalize_usage-conflicts fields contract h =
    let fit = normalize_usage-FitU64 fields contract h in
    simp (warning_laws, contains-nil, or-false)
      (rw (total_reconciles-differs _ _ _ _ _ fit.total, classify-known fields.input []))
