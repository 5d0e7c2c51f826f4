-- ===== src/Proxy/Errors.antt =====
-- The errors of a provider: `ProviderError` of crates/provider-core/src/provider.rs.
use provider_core.Prelude.{ℕ, Option, none, some, ◌++◌, Text, codes}
use provider_core.Router.Accounts.{ProviderFailoverReason}

pub data ProviderErrorKind : Type 0 where
  invalid_request authentication rate_limited capacity upstream internal : ProviderErrorKind

pub data ProviderRetryHint : Type 0 where
  strip_encrypted_reasoning : ProviderRetryHint

pub record ProviderError : Type 0 where
  pub kind : ProviderErrorKind
  pub message : Text
  pub upstream_status : Option ℕ
  pub upstream_response_status : Option ℕ
  pub failover_reason : Option ProviderFailoverReason
  pub retry_after : Option ℕ
  pub retry_hint : Option ProviderRetryHint

abbrev pub new_error : ProviderErrorKind → Text → ProviderError
new_error kind message = record {
  kind = kind;
  message = message;
  upstream_status = none;
  upstream_response_status = none;
  failover_reason = none;
  retry_after = none;
  retry_hint = none;
}

abbrev pub with_failover_reason : ProviderFailoverReason → ProviderError → ProviderError
with_failover_reason reason error = record error { failover_reason = some reason }

abbrev pub with_message : Text → ProviderError → ProviderError
with_message message error = record error { message = message }

abbrev pub with_previous_error : ProviderError → ProviderError → ProviderError
with_previous_error previous error = record error {
  message =
      codes "previous attempt: "
      ++ previous.message
      ++ codes "; subsequent failure: "
      ++ error.message;
}
