-- ===== src/Usage/Token.antt =====
-- Tagged token metrics: crates/provider-core/src/usage/token.rs.
use provider_core.Prelude.{ℕ, Bool, Option, none, some, List, is_some}
use provider_core.Prelude.Int.{ℤ, pos, negsuc}

pub data TokenUnknownReason : Type 0 where
  indeterminate invalid_reported no_usage_terminal : TokenUnknownReason

pub data TokenMetric : Type 0 where
  provider_reported : ℕ → TokenMetric
  derived_from_reported : ℕ → ℕ → TokenMetric
  not_reported : TokenMetric
  not_applicable : TokenMetric
  unknown : TokenUnknownReason → TokenMetric

unfoldable pub from_reported_i64 : ℤ → TokenMetric
from_reported_i64 (pos n) = provider_reported n
from_reported_i64 (negsuc n) = unknown TokenUnknownReason.invalid_reported

abbrev pub known_value : TokenMetric → Option ℕ
known_value (provider_reported n) = some n
known_value (derived_from_reported n v) = some n
known_value not_reported = none
known_value not_applicable = none
known_value (unknown r) = none

abbrev pub is_known : TokenMetric → Bool
is_known m = is_some (known_value m)

pub data BillableComponentCode : Type 0 where
  cache_write_5m cache_write_1h server_tool_call : BillableComponentCode
  image_input_tokens image_output_tokens : BillableComponentCode

pub data BillableUnit : Type 0 where
  tokens calls : BillableUnit

pub record BillableObservation : Type 0 where
  pub component_code : BillableComponentCode
  pub unit : BillableUnit
  pub quantity : ℕ

pub data NormalizationWarning : Type 0 where
  negative_value overflow field_conflict provider_model_mismatch : NormalizationWarning

unfoldable pub NormalizationWarning-discrete : Discrete NormalizationWarning
NormalizationWarning-discrete = hlevel

pub record ProviderUsageObservation : Type 0 where
  pub uncached_input_tokens : TokenMetric
  pub cache_read_input_tokens : TokenMetric
  pub cache_write_input_tokens : TokenMetric
  pub effective_input_tokens : TokenMetric
  pub output_tokens : TokenMetric
  pub reasoning_tokens : TokenMetric
  pub input_audio_tokens : TokenMetric
  pub output_audio_tokens : TokenMetric
  pub total_tokens : TokenMetric
  pub pricing_context_tokens : TokenMetric
  pub billable : List BillableObservation
  pub warnings : List NormalizationWarning
