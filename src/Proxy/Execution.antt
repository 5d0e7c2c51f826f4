-- ===== src/Proxy/Execution.antt =====
-- The execution of a request over its candidates: `PreparedProxyExecution` of
-- crates/provider-core/src/proxy/service.rs. The protocol bridge and the calls of the routes are
-- traits, which enter as parameters. What the loop does to the world is the list of its events,
-- so that the steps of other requests may stand between them.
pub mod Protocol
pub mod Trace
pub mod Calls
use provider_core.Prelude.{
  ℕ, Bool, true, false, not, ◌&&◌, Option, none, some, List, [], ◌∷◌, ◌++◌, if◌then◌else◌, ltb,
  is_some, is_empty, length, holds, Text, codes, join, contains, Text-discrete,
}
use provider_core.Prelude.Results.{Result, ok, err}
use provider_core.Router.Bindings.{AccountId}
use provider_core.Router.Accounts.{
  WireFormat, WireFormat-discrete, ProviderModelInputModality, ProviderRouteCandidate,
  ProviderFailoverReason, same_text,
}
use provider_core.Router.Routes.{supports_previous_response_id}
use provider_core.Sse.{Bytes}
use provider_core.Proxy.Errors.{ProviderErrorKind, invalid_request, ProviderError, with_message}

pub record RequestMetadata : Type 0 where
  pub session_id : Option Text
  pub opencode_session_id : Option Text
  pub thread_id : Option Text
  pub client_request_id : Option Text
  pub routing_session_id : Option Text
  pub responses_lite : Bool
  pub routing_scope : Option Text
  pub previous_response_id : Option Text

pub record ProxyRequest : Type 0 where
  pub format : WireFormat
  pub model : Text
  pub payload : Bytes
  pub metadata : RequestMetadata

pub record ProviderRequest : Type 0 where
  pub format : WireFormat
  pub model : Text
  pub payload : Bytes
  pub metadata : RequestMetadata

-- `ProtocolBridge::prepare` with `ResponseTranslator::translate_stream`, and the reply of a
-- candidate's `execute_stream_with_deadline` to the call of that number.
pub record Upstream : Type 1 where
  pub Stream : Type 0
  pub Translator : Type 0
  pub prepare :
      ProxyRequest
      → WireFormat
      → Option (List ProviderModelInputModality)
      → Result ProviderError (ProviderRequest × Translator)
  pub translate_stream : Translator → Stream → Stream
  pub execute : ℕ → ProviderRouteCandidate → ProviderRequest → Result ProviderError Stream

pub data Event : Type 0 where
  -- A call of the candidate's route.
  dispatched : ProviderRouteCandidate → ProviderRequest → Event
  -- `record_route_failure_with_retry_after`, `record_route_success`, `commit_session_affinity`.
  route_failed : AccountId → Text → ProviderFailoverReason → Option ℕ → Event
  route_succeeded : AccountId → Text → Event
  affinity_committed : Text → Text → Option Text → AccountId → Event

abbrev or_else : Option Text → Option Text → Option Text
or_else none other = other
or_else (some s) other = some s

abbrev or_default : Option Text → Text
or_default none = []
or_default (some s) = s

abbrev pub tracks_response_id : ProviderRouteCandidate → Bool
tracks_response_id c =
    contains Text-discrete (codes "codex" ∷ codes "grok" ∷ codes "antigravity" ∷ []) c.provider_name

abbrev pub is_invalid_request : ProviderErrorKind → Bool
is_invalid_request invalid_request = true
is_invalid_request _ = false

abbrev pub is_skippable_conversion_error :
    ProxyRequest → ProviderRouteCandidate → ProviderError → Bool
is_skippable_conversion_error request c error =
    not (holds (WireFormat-discrete c.native_format request.format))
    && is_invalid_request error.kind

-- The request as it is prepared for the candidate.
abbrev pub for_candidate : ProxyRequest → ProviderRouteCandidate → ProxyRequest
for_candidate request c = record request {
  model = c.upstream_model;
  metadata = record request.metadata { responses_lite = c.responses_lite };
}

abbrev pub session_of : ProxyRequest → Option Text
session_of request = or_else request.metadata.routing_session_id request.metadata.session_id

abbrev pub scope_of : ProxyRequest → Text
scope_of request = or_default request.metadata.routing_scope

abbrev attempt_text : ProviderRouteCandidate → ProviderError → Text
attempt_text c error =
    c.provider_name
    ++ codes " (upstream model '"
    ++ c.upstream_model
    ++ codes "'): "
    ++ error.message

abbrev pub is_continuation : ProxyRequest → Bool
is_continuation request = is_some request.metadata.previous_response_id

module _ (upstream : Upstream) (request : ProxyRequest) where
  open upstream use {Stream, Translator, prepare, translate_stream, execute}

  -- The stream for the client, and whether the response ids in it are observed, and if so
  -- whether they are bound at once.
  pub record Opened : Type 0 where
    pub stream : Stream
    pub candidate : ProviderRouteCandidate
    pub bind_response_id_at_created : Option Bool

  -- The result is `none` where the code panics.
  pub record Execution : Type 0 where
    pub events : List Event
    pub result : Option (Result ProviderError Opened)

  abbrev pub stop : Result ProviderError Opened → Execution
  stop result = record { events = []; result = some result }

  abbrev pub after : Event → Execution → Execution
  after event run = record run { events = event ∷ run.events }

  unfoldable pub prepare_candidate :
      ProviderRouteCandidate → Result ProviderError (ProviderRequest × Translator)
  prepare_candidate c = prepare (for_candidate request c) c.native_format c.input_modalities

  -- What follows the loop.
  abbrev pub all_failed : List Text → Option ProviderError → Execution
  all_failed failed none = record { events = []; result = none }
  all_failed failed (some error) = stop (
      err (
        if ltb 1 (length failed)
        then with_message (codes "all upstream attempts failed: " ++ join (codes "; ") failed) error
        else error))

  abbrev pub not_prepared : List Text → ProviderError → Execution
  not_prepared failed error = stop (
      err (
        if is_empty failed
        then error
        else with_message
            (codes "previous upstream attempts: "
              ++ join (codes "; ") failed
              ++ codes "; request preparation failed: "
              ++ error.message)
            error))

  abbrev opened : ProviderRouteCandidate → Translator → Stream → Execution
  opened c response stream = after (route_succeeded c.account_id request.model) (
      after (affinity_committed (scope_of request) request.model (session_of request) c.account_id)
        (stop (
          ok (record {
            stream = translate_stream response stream;
            candidate = c;
            bind_response_id_at_created =
                if tracks_response_id c then some (supports_previous_response_id c) else none;
          }))))

  abbrev pub Rest : Type 0
  Rest = List Text → Option ProviderError → Execution

  abbrev pub replay_failed :
      ProviderRouteCandidate
      → ProviderError
      → List Text
      → Rest
      → Option ProviderFailoverReason
      → Execution
  replay_failed c error failed rest none =
      stop (
        err
          (if ltb 1 (length failed) then with_message (join (codes "; ") failed) error else error))
  replay_failed c error failed rest (some reason) =
      if is_continuation request
      then stop (err error)
      else after (route_failed c.account_id request.model reason error.retry_after)
          (rest failed (some error))

  abbrev pub replied :
      ProviderRouteCandidate
      → Translator
      → List Text
      → Rest
      → Result ProviderError Stream
      → Execution
  replied c response failed rest (ok stream) = opened c response stream
  replied c response failed rest (err error) =
      replay_failed c error (failed ++ attempt_text c error ∷ []) rest error.failover_reason

  -- One round of the loop. Each call so far has left its text in `failed`.
  abbrev pub try_candidate :
      ProviderRouteCandidate
      → List Text
      → Option ProviderError
      → Rest
      → Result ProviderError (ProviderRequest × Translator)
      → Execution
  try_candidate c failed last rest (ok (prepared, response)) =
      after (dispatched c prepared)
        (replied c response failed rest (execute (length failed) c prepared))
  try_candidate c failed last rest (err error) =
      if is_skippable_conversion_error request c error
      then rest failed (elim last [ none ↦ some error | some first ↦ some first ])
      else not_prepared failed error

  unfoldable pub try_candidates :
      List Text → Option ProviderError → List ProviderRouteCandidate → Execution
  try_candidates failed last [] = all_failed failed last
  try_candidates failed last (c ∷ routes) =
      try_candidate c failed last (λ failed' last'. try_candidates failed' last' routes)
        (prepare_candidate c)

  unfoldable pub execute_stream : List ProviderRouteCandidate → Execution
  unfolding try_candidates
  execute_stream routes = try_candidates [] none routes
