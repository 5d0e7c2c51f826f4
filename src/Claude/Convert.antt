-- ===== src/Claude/Convert.antt =====
-- The conversion of an event: `convert`, `complete` and the errors of
-- crates/provider-protocol/src/claude/response.rs.
use Prim.Native.String.{String}
use provider_core.Prelude.{
  ℕ, ◌-◌, Bool, true, false, Option, none, some, List, [], ◌∷◌, if◌then◌else◌, ltb, is_some_and,
  contains, Text, Text-discrete, codes,
}
use provider_core.Router.Accounts.{same_text}
use provider_core.Claude.Event.{
  EventJson, ClaudeEvent, message_start, message_delta, message_stop, error, ClaudeUsage,
  thinking_delta, text_delta, and_then, or_else, unwrap_or,
}
use provider_core.Claude.Blocks.{
  ClaudeEventConverter, Sent, send, then_do, close_block, start_thinking, start_text, send_delta,
}
use provider_core.Claude.Items.{get_str, output_item_added, output_item_done, function_arguments}

-- The types of events that are converted.
pub data EventKind : Type 0 where
  error_event created item_added summary_part_added reasoning_delta part_added output_text_delta :
      EventKind
  part_done arguments_delta arguments_done item_done completed failed canceled other : EventKind

-- The table of the `match` on the type, the first name that fits.
abbrev kinds : List (Text × EventKind)
kinds =
    (codes "error", error_event)
    ∷ (codes "response.created", created)
    ∷ (codes "response.output_item.added", item_added)
    ∷ (codes "response.reasoning_summary_part.added", summary_part_added)
    ∷ (codes "response.reasoning_summary_text.delta", reasoning_delta)
    ∷ (codes "response.reasoning_text.delta", reasoning_delta)
    ∷ (codes "response.content_part.added", part_added)
    ∷ (codes "response.output_text.delta", output_text_delta)
    ∷ (codes "response.content_part.done", part_done)
    ∷ (codes "response.function_call_arguments.delta", arguments_delta)
    ∷ (codes "response.function_call_arguments.done", arguments_done)
    ∷ (codes "response.output_item.done", item_done)
    ∷ (codes "response.completed", completed)
    ∷ (codes "response.incomplete", completed)
    ∷ (codes "response.failed", failed)
    ∷ (codes "response.canceled", canceled)
    ∷ (codes "response.cancelled", canceled)
    ∷ []

unfoldable pub find_kind : Text → List (Text × EventKind) → EventKind
find_kind name [] = other
find_kind name ((known, kind) ∷ rest) =
    let later = find_kind name rest in if same_text name known then kind else later

abbrev pub is_reason : List Text → Option Text → Bool
is_reason names reason = is_some_and reason (λ r. contains Text-discrete names r)

unfoldable pub stop_reason : Bool → Option Text → Option Text → Text
stop_reason emitted_tool upstream incomplete =
    if emitted_tool
    then codes "tool_use"
    else if is_reason (codes "max_tokens" ∷ codes "max_output_tokens" ∷ []) upstream
    then codes "max_tokens"
    else if is_reason (codes "content_filter" ∷ []) upstream
    then codes "refusal"
    else if is_reason
        (codes "end_turn" ∷ codes "stop_sequence" ∷ codes "pause_turn" ∷ codes "refusal" ∷ [])
        upstream
    then unwrap_or upstream (codes "end_turn")
    else if is_reason (codes "model_context_window_exceeded" ∷ []) incomplete
    then codes "model_context_window_exceeded"
    else codes "end_turn"

-- `0` is left out.
abbrev nonzero : ℕ → Option ℕ
nonzero n = if ltb 0 n then some n else none

module _ (json : EventJson) where
  open json use {Value, get, as_str, as_u64, is_null}

  abbrev get_in : Option Value → String → Option Value
  get_in value key = and_then value (λ v. get v key)

  abbrev count_of : Option Value → ℕ
  count_of value = unwrap_or (and_then value as_u64) 0

  abbrev usage_of : Option Value → ℕ → ClaudeUsage
  usage_of usage searches =
      let cached = count_of (get_in (get_in usage "input_tokens_details") "cached_tokens") in
      record {
        input_tokens = count_of (get_in usage "input_tokens") - cached;
        output_tokens = count_of (get_in usage "output_tokens");
        cache_read_input_tokens = nonzero cached;
        web_search_requests = nonzero searches;
      }

  abbrev not_null : Option Value → Option Value
  not_null none = none
  not_null (some value) = if is_null value then none else some value

  abbrev reason_of : Option Value → Option Text
  reason_of response = get_str json (get_in response "incomplete_details") "reason"

  abbrev pub finish_message : Option Value → ClaudeEventConverter → Sent json
  finish_message response s =
      send json
        (message_delta
            (stop_reason s.emitted_tool
              (or_else (get_str json response "stop_reason") (reason_of response))
              (reason_of response))
            (not_null (get_in response "stop_sequence"))
            (usage_of (get_in response "usage") s.web_search_requests)
          ∷ message_stop
          ∷ [])
        s

  unfoldable pub complete : Value → ClaudeEventConverter → Sent json
  unfolding stop_reason
  complete event s = then_do json (close_block json s) (finish_message (get event "response"))

  abbrev error_type : Option Text → Text
  error_type none = codes "api_error"
  error_type (some kind) =
      if same_text kind (codes "invalid_request") then codes "invalid_request_error" else kind

  unfoldable pub claude_error_payload : Option Value → Option Text → ClaudeEvent json
  claude_error_payload value default_message =
      let kind =
        error_type (and_then (or_else (get_in value "type") (get_in value "code")) as_str) in
      error kind (unwrap_or (or_else (get_str json value "message") default_message) kind)

  abbrev pub claude_error : Value → ClaudeEvent json
  claude_error event =
      claude_error_payload (get event "error") (get_str json (some event) "message")

  abbrev pub claude_response_error : Value → Text → ClaudeEvent json
  claude_response_error event default_message =
      claude_error_payload (get_in (get event "response") "error") (some default_message)

  abbrev pub start_of : Option Value → ClaudeEventConverter → ClaudeEvent json
  start_of response s =
      message_start (unwrap_or (get_str json response "id") [])
        (unwrap_or (get_str json response "model") s.model)

  abbrev pub delta_of : Value → Text
  delta_of event = unwrap_or (get_str json (some event) "delta") []

  abbrev pub part_type : Value → Option Text
  part_type event = get_str json (get event "part") "type"

  abbrev pub part_started : Option Text → ClaudeEventConverter → Sent json
  part_started none s = send json [] s
  part_started (some kind) s =
      if same_text kind (codes "output_text")
      then start_text json s
      else if same_text kind (codes "reasoning_text")
      then start_thinking json s
      else send json [] s

  abbrev pub part_closed : Option Text → ClaudeEventConverter → Sent json
  part_closed kind s =
      if is_reason (codes "output_text" ∷ []) kind then close_block json s else send json [] s

  abbrev pub convert_kind : EventKind → Value → ClaudeEventConverter → Sent json
  convert_kind error_event event s = send json (claude_error event ∷ []) s
  convert_kind created event s = send json (start_of (get event "response") s ∷ []) s
  convert_kind item_added event s = output_item_added json event s
  convert_kind summary_part_added event s = start_thinking json s
  convert_kind reasoning_delta event s =
      then_do json (start_thinking json s) (send_delta json (thinking_delta (delta_of event)))
  convert_kind part_added event s = part_started (part_type event) s
  convert_kind output_text_delta event s =
      then_do json (start_text json s)
        (λ t. send_delta json (text_delta (delta_of event)) (record t { emitted_text = true }))
  convert_kind part_done event s = part_closed (part_type event) s
  convert_kind arguments_delta event s = function_arguments json event true s
  convert_kind arguments_done event s = function_arguments json event false s
  convert_kind item_done event s = output_item_done json event s
  convert_kind completed event s = complete event s
  convert_kind failed event s =
      send json (claude_response_error event (codes "Upstream response failed") ∷ []) s
  convert_kind canceled event s =
      send json (claude_response_error event (codes "Upstream response was canceled") ∷ []) s
  convert_kind other event s = send json [] s

  unfoldable pub convert : Value → ClaudeEventConverter → Sent json
  unfolding find_kind complete claude_error_payload
  convert event s =
      convert_kind (find_kind (unwrap_or (get_str json (some event) "type") []) kinds) event s

  -- The events of a response, one after another.
  unfoldable pub convert_all : List Value → ClaudeEventConverter → Sent json
  unfolding convert
  convert_all [] s = send json [] s
  convert_all (event ∷ events) s = then_do json (convert event s) (λ t. convert_all events t)
