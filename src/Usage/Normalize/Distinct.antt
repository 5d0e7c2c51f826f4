-- ===== src/Usage/Normalize/Distinct.antt =====
-- A normalization never gives the same warning twice.
use provider_core.Prelude.{
  ℕ, Bool, true, false, ◌&&◌, not, Option, none, some, List, IsDistinct, insert_once-IsDistinct,
  Bool-cases, inl, inr, is_some_and, checked_sub, zero, suc,
}
use provider_core.Prelude.Int.{ℤ, pos, negsuc}
use provider_core.Usage.Token.{
  TokenMetric, provider_reported, derived_from_reported, not_reported, not_applicable, unknown,
  known_value, BillableComponentCode, BillableObservation, NormalizationWarning,
  NormalizationWarning-discrete,
}
use provider_core.Usage.Contract.{TokenInclusionRules, TotalSource, UsageContractSnapshot}
use provider_core.Usage.Raw.{RawUsageFields}
use provider_core.Usage.Normalize.{
  Warnings, Warned, push_unique, classify, classify_applicable, push_billable_tokens,
  normalize_cache_read, derives_zero_read, split_uncached, split_known, derived_difference,
  derived_sum_of, sum_categories, normalize_input, sum_total, normalize_total, check_total,
  normalize_fields, no_usage, normalize_usage, is_reported, is_nonzero, sum_contribution,
}

abbrev pub AreDistinct : Warnings → Type 0
AreDistinct ws = IsDistinct NormalizationWarning-discrete ws

-- The step keeps the warnings distinct.
abbrev Keeps : {A : Type 0} → Warned A → Type 0
Keeps m = (ws : Warnings) → AreDistinct ws → AreDistinct (m ws).1

push_unique-AreDistinct :
    (w : NormalizationWarning) (ws : Warnings) → AreDistinct ws → AreDistinct (push_unique w ws)
unfolding push_unique
push_unique-AreDistinct w ws h = insert_once-IsDistinct NormalizationWarning-discrete ws w h

classify_applicable-Keeps : (raw : Option ℤ) → Keeps (classify_applicable raw)
unfolding classify_applicable
classify_applicable-Keeps none ws h = h
classify_applicable-Keeps (some (pos n)) ws h = h
classify_applicable-Keeps (some (negsuc n)) ws h = push_unique-AreDistinct _ ws h

classify-Keeps : (raw : Option ℤ) (applicable : Bool) → Keeps (classify raw applicable)
unfolding classify
classify-Keeps raw true ws h = classify_applicable-Keeps raw ws h
classify-Keeps raw false ws h = elim (Bool-cases (is_some_and raw is_nonzero)) [
  | inl conflict ↦ rw conflict (push_unique-AreDistinct _ ws h)
  | inr fine ↦ rw fine h
]

push_billable_tokens-Keeps :
    (code : BillableComponentCode) (raw : Option ℤ) (billable : List BillableObservation)
    → Keeps (push_billable_tokens code raw billable)
unfolding push_billable_tokens
push_billable_tokens-Keeps code none billable ws h = h
push_billable_tokens-Keeps code (some (pos zero)) billable ws h = h
push_billable_tokens-Keeps code (some (pos (suc n))) billable ws h = h
push_billable_tokens-Keeps code (some (negsuc n)) billable ws h = push_unique-AreDistinct _ ws h

normalize_cache_read-Keeps :
    (readable : Bool) (version : ℕ) (rules : TokenInclusionRules) (raw : Option ℤ)
    (input : TokenMetric)
    → Keeps (normalize_cache_read readable version rules raw input)
unfolding normalize_cache_read
normalize_cache_read-Keeps readable version rules raw input ws h =
    elim (Bool-cases (derives_zero_read readable rules raw input)) [
      | inl derived ↦ rw derived h
      | inr read ↦ rw read (classify-Keeps raw readable ws h)
    ]

derived_difference-Keeps :
    (version : ℕ) (value : Option ℕ) → Keeps (derived_difference version value)
unfolding derived_difference
derived_difference-Keeps version none ws h = push_unique-AreDistinct _ ws h
derived_difference-Keeps version (some n) ws h = h

split_known-Keeps :
    (version value : ℕ) (cached : Option ℕ) → Keeps (split_known version value cached)
unfolding split_known
split_known-Keeps version value none ws h = h
split_known-Keeps version value (some cached) ws h =
    derived_difference-Keeps version (checked_sub value cached) ws h

split_uncached-Keeps :
    (version : ℕ) (input read : TokenMetric) (value : Option ℕ)
    → Keeps (split_uncached version input read value)
unfolding split_uncached
split_uncached-Keeps version input read none ws h = h
split_uncached-Keeps version input not_applicable (some n) ws h = h
split_uncached-Keeps version input (provider_reported r) (some n) ws h =
    split_known-Keeps version n (some r) ws h
split_uncached-Keeps version input (derived_from_reported r v) (some n) ws h =
    split_known-Keeps version n (some r) ws h
split_uncached-Keeps version input not_reported (some n) ws h =
    split_known-Keeps version n none ws h
split_uncached-Keeps version input (unknown why) (some n) ws h =
    split_known-Keeps version n none ws h

derived_sum_of-Keeps : (version : ℕ) (sum : Option ℕ) → Keeps (derived_sum_of version sum)
unfolding derived_sum_of
derived_sum_of-Keeps version none ws h = push_unique-AreDistinct _ ws h
derived_sum_of-Keeps version (some n) ws h = h

sum_categories-Keeps : (version : ℕ) (a b c : Option ℕ) → Keeps (sum_categories version a b c)
unfolding sum_categories
sum_categories-Keeps version (some a) (some b) (some c) ws h = derived_sum_of-Keeps version _ ws h
sum_categories-Keeps version none b c ws h = h
sum_categories-Keeps version (some a) none c ws h = h
sum_categories-Keeps version (some a) (some b) none ws h = h

sum_total-Keeps : (version : ℕ) (a b : Option ℕ) → Keeps (sum_total version a b)
unfolding sum_total
sum_total-Keeps version (some a) (some b) ws h = derived_sum_of-Keeps version _ ws h
sum_total-Keeps version none b ws h = h
sum_total-Keeps version (some a) none ws h = h

normalize_input-Keeps :
    (version : ℕ) (rules : TokenInclusionRules) (input read write : TokenMetric)
    → Keeps (normalize_input version rules input read write)
unfolding normalize_input
normalize_input-Keeps version rules input read write ws h =
    elim (Bool-cases rules.input_includes_cache) [
      | inl included ↦
          rw included (split_uncached-Keeps version input read (known_value input) ws h)
      | inr beside ↦ elim (Bool-cases rules.input_categories_mutually_exclusive) [
        | inl exclusive ↦
            rw (beside, exclusive)
              (sum_categories-Keeps version (sum_contribution input) (sum_contribution read)
                (sum_contribution write) ws h)
        | inr unspecified ↦ rw (beside, unspecified) h
      ]
    ]

normalize_total-Keeps :
    (source : TotalSource) (raw : Option ℤ) (input output : TokenMetric)
    → Keeps (normalize_total source raw input output)
unfolding normalize_total
normalize_total-Keeps TotalSource.reported raw input output ws h = classify-Keeps raw true ws h
normalize_total-Keeps (TotalSource.derived_sum version) raw input output ws h =
    sum_total-Keeps version (known_value input) (known_value output) ws h
normalize_total-Keeps TotalSource.unavailable raw input output ws h = h

check_total-Keeps :
    (source : TotalSource) (reconciles : Bool) → Keeps (check_total source reconciles)
unfolding check_total
check_total-Keeps source reconciles ws h =
    elim (Bool-cases (is_reported source && not reconciles)) [
      | inl conflict ↦ rw conflict (push_unique-AreDistinct _ ws h)
      | inr fine ↦ rw fine h
    ]

-- The warnings of an observation are distinct, whatever the response and the contract.
pub normalize_usage-AreDistinct :
    (fields : Option RawUsageFields) (contract : UsageContractSnapshot)
    → AreDistinct (normalize_usage fields contract).warnings
unfolding normalize_usage normalize_fields no_usage
normalize_usage-AreDistinct none contract = tt
normalize_usage-AreDistinct (some fields) contract = push_billable_tokens-Keeps _ _ _ _ (
    push_billable_tokens-Keeps _ _ _ _ (
      check_total-Keeps _ _ _ (
        normalize_total-Keeps _ _ _ _ _ (
          normalize_input-Keeps _ _ _ _ _ _ (
            classify-Keeps _ _ _ (
              classify-Keeps _ _ _ (
                classify-Keeps _ _ _ (
                  classify-Keeps _ _ _ (
                    classify-Keeps _ _ _
                      (normalize_cache_read-Keeps _ _ _ _ _ _ (classify-Keeps _ _ _ tt)))))))))))
