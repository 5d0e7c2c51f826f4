-- ===== src/Grok/Prepare.antt =====
-- The request that continues a conversation: `prepare_request` of
-- crates/provider-drivers/src/grok/replay.rs.
use provider_core.Prelude.{
  ℕ, Bool, true, false, not, ◌&&◌, ◌||◌, Option, none, some, List, [], if◌then◌else◌, is_some,
  is_none, is_empty, Text, codes, trim,
}
use provider_core.Prelude.Results.{Result, ok, err, ◌>>=◌}
use provider_core.Proxy.Errors.{ProviderError, new_error, invalid_request}
use provider_core.Claude.Event.{EventJson, or_else, unwrap_or}
use provider_core.Grok.Items.{trimmed}
use provider_core.Grok.Cache.{ReplayJson, GrokReplayScope, GrokReplayCache, ReplayEntry, entry}
use provider_core.Grok.References.{expand_item_references}
use provider_core.Grok.Body.{
  Body, Payload, input_items, tool_output_call_ids, has_unpaired_tool_outputs,
  request_contains_complete_history, input_has_item_reference, Replayed, inject_replay_items, items,
  not_json, not_object, object,
}

pub record RequestMetadata : Type 0 where
  pub routing_scope : Option Text
  pub routing_session_id : Option Text
  pub session_id : Option Text
  pub previous_response_id : Option Text

pub record ProviderRequest (Value : Type 0) : Type 0 where
  pub metadata : RequestMetadata
  pub model : Text
  pub payload : Payload Value

abbrev scope_of : Text → Text → RequestMetadata → Option GrokReplayScope
scope_of routing_scope model metadata =
    if is_empty routing_scope || is_empty model
    then none
    else some (record {
      routing_scope = routing_scope;
      model = model;
      session_id = unwrap_or (trimmed (or_else metadata.routing_session_id metadata.session_id)) [];
    })

abbrev scope_in : Option Text → Text → RequestMetadata → Option GrokReplayScope
scope_in none model metadata = none
scope_in (some routing_scope) model metadata = scope_of (trim routing_scope) (trim model) metadata

unfoldable pub replay_scope : RequestMetadata → Text → Option GrokReplayScope
replay_scope metadata model = scope_in metadata.routing_scope model metadata

abbrev invalid : Text → ProviderError
invalid message = new_error invalid_request message

abbrev pub unavailable : ProviderError
unavailable =
    invalid (codes "Grok continuation state is unavailable; resend complete input history")

module _ (json : EventJson) (replay : ReplayJson json) where
  open json use {Value}

  -- A reading of the cache: its state and the clock. Other requests come between two readings.
  pub record Reading : Type 0 where
    pub cache : GrokReplayCache json
    pub now : ℕ

  abbrev pub expanded_body : Body Value → List Value → Body Value
  expanded_body body input = record body { input = items input }

  abbrev pub expand_in :
      Option GrokReplayScope
      → Option Text
      → Reading
      → Body Value
      → Result ProviderError (Body Value)
  expand_in none previous at body = err unavailable
  expand_in (some scope) previous at body =
      expand_item_references json (input_items json replay body.input) scope previous at.now
        at.cache
      >>= (λ input. ok (expanded_body body input))

  -- The body with its references expanded.
  abbrev pub expand :
      Option GrokReplayScope
      → Option Text
      → Reading
      → Body Value
      → Result ProviderError (Body Value)
  expand scope previous at body =
      if input_has_item_reference json replay body
      then expand_in scope previous at body
      else ok body

  abbrev pub entry_for :
      Option GrokReplayScope → Option Text → List Text → Reading → Option (ReplayEntry json)
  entry_for none previous outputs at = none
  entry_for (some scope) previous outputs at =
      if is_some previous || not (is_empty outputs) || not (is_empty scope.session_id)
      then entry json scope previous outputs at.now at.cache
      else none

  -- What was expanded is not replayed too.
  abbrev pub replay_in : Bool → Option (ReplayEntry json) → Body Value → Replayed json replay
  replay_in true found body = record { body = body; replayed = false }
  replay_in false none body = record { body = body; replayed = false }
  replay_in false (some e) body = inject_replay_items json replay body e.items

  -- The body that is sent, or the error where the conversation cannot be continued.
  abbrev pub check_body :
      Bool → Option Text → Bool → Replayed json replay → Result ProviderError (Body Value)
  check_body expanded previous no_entry r =
      if is_some previous
        && (no_entry || not r.replayed)
        && not (request_contains_complete_history json replay r.body)
      then err unavailable
      else if has_unpaired_tool_outputs json replay r.body (tool_output_call_ids json replay r.body)
          && (expanded || r.replayed || (is_none previous && (no_entry || not r.replayed)))
      then err (
          invalid (
            codes
              "Grok tool continuation state is unavailable or ambiguous; resend complete input history"))
      else ok r.body

  abbrev pub check_replayed :
      Bool
      → Option Text
      → Option (ReplayEntry json)
      → Body Value
      → Result ProviderError (Replayed json replay)
  check_replayed expanded previous found body =
      let r = replay_in expanded found body in
      check_body expanded previous (is_none found) r
      >>= (λ checked. ok (record { body = checked; replayed = r.replayed }))

  -- The id of the previous response is not sent where its items are.
  abbrev pub finish_request :
      Bool → Option Text → ProviderRequest Value → Replayed json replay → ProviderRequest Value
  finish_request expanded previous request r =
      if is_some previous || r.replayed || expanded
      then record request {
        metadata = record (request.metadata) { previous_response_id = none };
        payload = object (record (r.body) { previous_response_id = none });
      }
      else record request { payload = object r.body }

  abbrev pub previous_of : ProviderRequest Value → Body Value → Option Text
  previous_of request body =
      or_else (trimmed request.metadata.previous_response_id) (trimmed body.previous_response_id)

  abbrev pub prepare_body :
      ProviderRequest Value
      → Body Value
      → Reading
      → Reading
      → Result ProviderError (ProviderRequest Value)
  prepare_body request body first second =
      let scope = replay_scope request.metadata request.model in
      let previous = previous_of request body in
      let expanded = input_has_item_reference json replay body in
      expand scope previous first body >>= (λ b.
        check_replayed expanded previous
          (entry_for scope previous (tool_output_call_ids json replay b) second) b
        >>= (λ r. ok (finish_request expanded previous request r)))

  abbrev pub prepare_payload :
      Payload Value
      → ProviderRequest Value
      → Reading
      → Reading
      → Result ProviderError (ProviderRequest Value)
  prepare_payload not_json request first second =
      err (invalid (codes "Grok Responses request body must be valid JSON"))
  prepare_payload not_object request first second =
      err (invalid (codes "Grok Responses request body must be a JSON object"))
  prepare_payload (object body) request first second = prepare_body request body first second

  unfoldable pub prepare_request :
      ProviderRequest Value
      → Reading
      → Reading
      → Result ProviderError (ProviderRequest Value × Option GrokReplayScope)
  unfolding replay_scope
  prepare_request request first second =
      prepare_payload request.payload request first second
      >>= (λ prepared. ok (prepared, replay_scope request.metadata request.model))
