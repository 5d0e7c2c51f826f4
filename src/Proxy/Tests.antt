-- ===== src/Proxy/Tests.antt =====
-- Runs of the proxy service: a request over two accounts, of which the first is limited, and a
-- stream with the id of its response.
use provider_core.Prelude.{
  ℕ, ◌≡◌, ◌≤◌, refl, Bool, true, false, not, none, some, List, [], ◌∷◌, Text, codes, length, ◌==◌,
  if◌then◌else◌, Text-discrete, ℕ_discrete, trim,
}
use provider_core.Prelude.Results.{Result, ok, err}
use provider_core.Router.Accounts.{
  open_ai_responses, ProviderRouteCandidate, ProviderFailoverReason,
}
use provider_core.Sse.{Bytes}
use provider_core.Proxy.Errors.{ProviderErrorKind, ProviderError, new_error, with_failover_reason}
use provider_core.Proxy.Execution.{
  ProxyRequest, Upstream, is_continuation, execute_stream, try_candidates, prepare_candidate,
}
use provider_core.Proxy.Execution.Trace.{Follows, execute_stream-Follows}
use provider_core.Proxy.Execution.Calls.{
  calls, IsSublist, Returns, execute_stream-calls, execute_stream-Returns,
}
use provider_core.Proxy.Linkage.{
  EventJson, observe_response_id, observe_items, observe_item, observe_chunk, on_events, on_event,
  take_response_linkage_events, event_of_line, max_response_linkage_buffer_size,
}
use provider_core.Proxy.Linkage.Binds.{observe_items-binds_once}

abbrev limited : ProviderError
limited =
    with_failover_reason ProviderFailoverReason.rate_limited
      (new_error ProviderErrorKind.rate_limited (codes "slow down"))

-- The first call is refused, and the next one opens a stream.
abbrev upstream : Upstream
upstream = record {
  Stream = ℕ;
  Translator = Unit;
  prepare = λ r format modalities.
      ok (
        record { format = format; model = r.model; payload = r.payload; metadata = r.metadata },
        tt,
      );
  translate_stream = λ t s. s;
  execute = λ n c r. if n == 0 then err limited else ok 7;
}

abbrev request : ProxyRequest
request = record {
  format = open_ai_responses;
  model = codes "m";
  payload = [];
  metadata = record {
    session_id = none;
    opencode_session_id = none;
    thread_id = none;
    client_request_id = none;
    routing_session_id = none;
    responses_lite = false;
    routing_scope = some (codes "u");
    previous_response_id = none;
  };
}

abbrev candidate : Text → ProviderRouteCandidate
candidate account_id = record {
  account_id = account_id;
  priority = 1;
  upstream_model = codes "m";
  input_modalities = none;
  responses_lite = false;
  pricing = none;
  provider_name = codes "codex";
  native_format = open_ai_responses;
}

abbrev plan : List ProviderRouteCandidate
plan = candidate (codes "a") ∷ candidate (codes "b") ∷ []

both_called : calls (execute_stream upstream request plan).events ≡ plan
unfolding execute_stream try_candidates prepare_candidate calls
both_called = refl

execute_stream-Follows_example :
    Follows upstream request [] none plan (execute_stream upstream request plan)
execute_stream-Follows_example = execute_stream-Follows upstream request plan

execute_stream-calls_example :
    IsSublist (calls (execute_stream upstream request plan).events) plan
    × (is_continuation request ≡ true
        → length (calls (execute_stream upstream request plan).events) ≤ 1)
execute_stream-calls_example = execute_stream-calls upstream request plan

execute_stream-Returns_example : Returns upstream request (execute_stream upstream request plan)
execute_stream-Returns_example =
    execute_stream-Returns upstream request (candidate (codes "a")) (candidate (codes "b") ∷ [])

-- JSON of which every text is the creation of the response "r".
abbrev json : EventJson
json = record {
  Value = Bool;
  from_slice = λ bytes. some true;
  get_field = λ value name. some (not value);
  as_str = λ value. some (if value then codes "r" else codes "response.created");
}

abbrev items : List (Result ProviderError Bytes)
items = ok (codes "data: {}\r\n\r") ∷ err limited ∷ ok (codes "\ndata: {}\n\n") ∷ []

bound_once : (observe_items json items (observe_response_id true)).bindings ≡ codes "r" ∷ []
unfolding observe_items observe_item observe_response_id observe_chunk on_events on_event
    take_response_linkage_events event_of_line Text-discrete ℕ_discrete trim
bound_once = refl

observe_items-binds_once_example :
    let s = observe_items json items (observe_response_id false) in
    (length s.bindings ≤ 1)
    × (◌≡◌ {A = Bool} false false → s.completed ≡ false → s.bindings ≡ [])
    × (length s.pending ≤ max_response_linkage_buffer_size)
observe_items-binds_once_example = observe_items-binds_once json false items
