-- ===== src/Runtime/Entry.antt =====
-- One execution on an account: `execute_entry`, `execute_attempt`, `finish_attempt` and
-- `AnsweredAttemptGuard` of crates/provider-runtime/src/runtime.rs. What the account, the tracker
-- and the refresh reply is a parameter, and what the code tells the attempts is a list of events.
pub mod Attempts
use provider_core.Prelude.{
  ℕ, Bool, true, false, ◌&&◌, Option, none, some, List, [], ◌∷◌, ◌++◌, if◌then◌else◌, ◌==◌, is_some,
  is_some_and, Text, codes,
}
use provider_core.Prelude.Results.{Result, ok, err}
use provider_core.Router.Accounts.{
  WireFormat, open_ai_responses, open_ai_chat_completions, claude_messages, ProviderFailoverReason,
  authentication_exhausted,
}
use provider_core.Proxy.Errors.{
  ProviderErrorKind, authentication, upstream, internal, ProviderRetryHint, ProviderError,
  new_error, with_failover_reason, with_previous_error,
}
use provider_core.Proxy.Execution.{ProviderRequest}

pub data RefreshErrorKind : Type 0 where
  reauth_required transient_failure internal_failure : RefreshErrorKind

pub record RefreshError : Type 0 where
  pub kind : RefreshErrorKind
  pub message : Text

-- An attempt is the number of the call that it tracks.
pub data AttemptEvent : Type 0 where
  called : ℕ → AttemptEvent
  begun : ℕ → AttemptEvent
  refreshed : AttemptEvent
  stream_opened : ℕ → AttemptEvent
  -- `failed` and `failed_with_reason`, with the argument `upstream_answered`.
  failed : ℕ → Bool → Option ProviderFailoverReason → AttemptEvent
  observation_lost : ℕ → AttemptEvent
  -- `finished(None)`
  finished : ℕ → AttemptEvent

-- The replies: of `acquire`; of the calls of `execute_stream`, by their number; of
-- `retry_request`; of `refresh_entry`; and whether `begin_attempt` tracks the call.
pub record Account : Type 1 where
  pub Stream : Type 0
  pub acquire : Option ProviderError
  pub execute_stream : ℕ → ProviderRequest → Result ProviderError Stream
  pub retry_request :
      ProviderRequest → ProviderRetryHint → Result ProviderError (Option ProviderRequest)
  pub refresh : Option RefreshError
  pub begin_attempt : ℕ → Bool

abbrev refresh_kind : RefreshErrorKind → ProviderErrorKind
refresh_kind reauth_required = authentication
refresh_kind transient_failure = upstream
refresh_kind internal_failure = internal

abbrev refresh_provider_error : RefreshError → ProviderError
refresh_provider_error error = new_error (refresh_kind error.kind) error.message

abbrev reauth_reason : RefreshErrorKind → Option ProviderFailoverReason
reauth_reason reauth_required = some authentication_exhausted
reauth_reason transient_failure = none
reauth_reason internal_failure = none

abbrev pub refresh_failover_reason : RefreshError → Option ProviderFailoverReason
refresh_failover_reason error = reauth_reason error.kind

abbrev with_reason : Option ProviderFailoverReason → ProviderError → ProviderError
with_reason none error = error
with_reason (some reason) error = with_failover_reason reason error

abbrev refresh_failover_error : RefreshError → ProviderError
refresh_failover_error error =
    with_reason (refresh_failover_reason error) (refresh_provider_error error)

abbrev pub is_unauthorized : ProviderError → Bool
is_unauthorized error = is_some_and error.upstream_status (λ status. status == 401)

abbrev or_else :
    Option ProviderFailoverReason → Option ProviderFailoverReason → Option ProviderFailoverReason
or_else none other = other
or_else (some reason) other = some reason

abbrev attempt_failover_reason :
    ProviderError → Option ProviderFailoverReason → Option ProviderFailoverReason
attempt_failover_reason error unauthorized =
    or_else error.failover_reason (if is_unauthorized error then unauthorized else none)

-- `begin_attempt`, for the call of that number.
abbrev begin_event : Bool → ℕ → List AttemptEvent
begin_event true n = begun n ∷ []
begin_event false n = []

abbrev when_tracked : Bool → List AttemptEvent → List AttemptEvent
when_tracked true events = events
when_tracked false events = []

-- `AnsweredAttemptGuard::failed` and `failed_with_reason`; dropping the guard afterwards is silent.
abbrev guard_failed : Bool → ℕ → Option ProviderFailoverReason → List AttemptEvent
guard_failed tracked n reason = when_tracked tracked (failed n true reason ∷ [])

-- `observe_usage`, which hands the attempt to the observer where the format can be read.
abbrev observe_events : WireFormat → ℕ → List AttemptEvent
observe_events open_ai_responses n = []
observe_events open_ai_chat_completions n = []
observe_events claude_messages n = observation_lost n ∷ finished n ∷ []

abbrev pub is_observed : WireFormat → Bool
is_observed open_ai_responses = true
is_observed open_ai_chat_completions = true
is_observed claude_messages = false

module _ (account : Account) where
  open account use {Stream, acquire, execute_stream, retry_request, refresh, begin_attempt}

  -- The result with the attempt that the stream's observer was handed, if any.
  pub record Executed : Type 0 where
    pub events : List AttemptEvent
    pub result : Result ProviderError Stream
    pub observed : Option ℕ

  abbrev pub refused : ProviderError → Executed
  refused error = record { events = []; result = err error; observed = none }

  abbrev pub after : List AttemptEvent → Executed → Executed
  after events run = record run { events = events ++ run.events }

  -- `result.map_err`
  abbrev pub map_err : (ProviderError → ProviderError) → Executed → Executed
  map_err change run = record run {
    result = elim run.result [ err error ↦ err (change error) | ok stream ↦ ok stream ];
  }

  unfoldable pub finish_attempt :
      Bool → ℕ → Option ProviderFailoverReason → WireFormat → Result ProviderError Stream → Executed
  finish_attempt tracked n unauthorized format (ok stream) = record {
    events = when_tracked tracked (stream_opened n ∷ observe_events format n);
    result = ok stream;
    observed = if tracked && is_observed format then some n else none;
  }
  finish_attempt tracked n unauthorized format (err error) = record {
    events = when_tracked tracked (
        failed n (is_some error.upstream_status) (attempt_failover_reason error unauthorized) ∷ []);
    result = err error;
    observed = none;
  }

  -- The second call of an execution.
  unfoldable pub execute_attempt : ProviderRequest → Option ProviderFailoverReason → Executed
  unfolding finish_attempt
  execute_attempt request unauthorized =
      after (begin_event (begin_attempt 1) 1 ++ called 1 ∷ [])
        (finish_attempt (begin_attempt 1) 1 unauthorized request.format (execute_stream 1 request))

  abbrev exhausted_if_unauthorized : ProviderError → ProviderError
  exhausted_if_unauthorized error =
      if is_unauthorized error then with_failover_reason authentication_exhausted error else error

  -- The account refused the credentials: they are refreshed, and the call is made once more.
  abbrev pub after_unauthorized : ProviderRequest → ProviderError → Option RefreshError → Executed
  after_unauthorized request error (some refresh_error) =
      after (guard_failed (begin_attempt 0) 0 (refresh_failover_reason refresh_error))
        (refused (with_previous_error error (refresh_failover_error refresh_error)))
  after_unauthorized request error none = after (guard_failed (begin_attempt 0) 0 none) (
      map_err (λ retry_error. with_previous_error error (exhausted_if_unauthorized retry_error))
        (execute_attempt request (some authentication_exhausted)))

  -- The driver may change the request and have it sent once more.
  abbrev pub after_hint : ProviderError → Result ProviderError (Option ProviderRequest) → Executed
  after_hint error (err retry_error) =
      after (guard_failed (begin_attempt 0) 0 none)
        (refused (with_previous_error error retry_error))
  after_hint error (ok none) = after (guard_failed (begin_attempt 0) 0 none) (refused error)
  after_hint error (ok (some retry)) =
      after (guard_failed (begin_attempt 0) 0 none)
        (map_err (with_previous_error error) (execute_attempt retry none))

  abbrev pub by_hint : ProviderRequest → ProviderError → Option ProviderRetryHint → Executed
  by_hint request error (some hint) = after_hint error (retry_request request hint)
  by_hint request error none = finish_attempt (begin_attempt 0) 0 none request.format (err error)

  abbrev pub first_reply : ProviderRequest → Result ProviderError Stream → Executed
  first_reply request (err error) =
      if is_unauthorized error
      then after (refreshed ∷ []) (after_unauthorized request error refresh)
      else by_hint request error error.retry_hint
  first_reply request (ok stream) =
      finish_attempt (begin_attempt 0) 0 none request.format (ok stream)

  -- The permit is held until the stream ends.
  abbrev pub enter : ProviderRequest → Option ProviderError → Executed
  enter request (some error) = refused error
  enter request none =
      after (begin_event (begin_attempt 0) 0 ++ called 0 ∷ [])
        (first_reply request (execute_stream 0 request))

  unfoldable pub execute_entry : ProviderRequest → Executed
  unfolding finish_attempt execute_attempt
  execute_entry request = enter request acquire
