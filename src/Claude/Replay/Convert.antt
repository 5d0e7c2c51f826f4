-- ===== src/Claude/Replay/Convert.antt =====
-- Whatever events a response brings, the client takes what is sent for them.
use provider_core.Prelude.{
  ◌≡◌, refl, true, false, Option, none, some, List, [], ◌∷◌, if◌then◌else◌, Text, codes, arith,
}
use provider_core.Router.Accounts.{same_text}
use provider_core.Claude.Event.{EventJson, thinking_delta}
use provider_core.Claude.Blocks.{
  ClaudeEventConverter, new_converter, send, close_block, start_thinking, start_text, send_delta,
}
use provider_core.Claude.Convert.{
  EventKind, error_event, created, item_added, summary_part_added, reasoning_delta, part_added,
  output_text_delta, part_done, arguments_delta, arguments_done, item_done, completed, failed,
  canceled, other, is_reason, finish_message, complete, claude_error_payload, delta_of, part_type,
  part_started, convert_kind, convert, convert_all,
}
use provider_core.Claude.Client.{new_client, accept, replay}
use provider_core.Claude.Replay.{client, Follows, then_do-Follows, nothing}
use provider_core.Claude.Replay.Blocks.{
  close_block-Follows, close_block-closed, start_thinking-Follows, start_text-Follows,
  start_thinking-opens, is_thinking-fits, send_delta-Follows,
}
use provider_core.Claude.Replay.Items.{if_Follows, send_text-Follows, output_item_added-Follows}
use provider_core.Claude.Replay.Search.{output_item_done-Follows, function_arguments-Follows}

module _ (json : EventJson) where
  open json use {Value, get}

  error-Follows :
      (value : Option Value) (default_message : Option Text) (s : ClaudeEventConverter)
      → Follows json s (send json (claude_error_payload json value default_message ∷ []) s)
  unfolding claude_error_payload accept replay
  error-Follows value default_message s n = (n, refl)

  finish_message-Follows :
      (response : Option Value) (s : ClaudeEventConverter)
      → s.open_block ≡ none
      → Follows json s (finish_message json response s)
  unfolding accept replay
  finish_message-Follows response s e n = (n, ground arith)

  complete-Follows :
      (event : Value) (s : ClaudeEventConverter) → Follows json s (complete json event s)
  unfolding complete
  complete-Follows event s =
      let closed = close_block json s in
      let response = get event "response" in
      then_do-Follows json s closed (finish_message json response) (close_block-Follows json s)
        (finish_message-Follows response closed.converter (close_block-closed json s))

  part_started-Follows :
      (kind : Option Text) (s : ClaudeEventConverter) → Follows json s (part_started json kind s)
  part_started-Follows none s = nothing json s
  part_started-Follows (some kind) s =
      let thinking = start_thinking json s in
      let test = same_text kind (codes "reasoning_text") in
      if_Follows json (same_text kind (codes "output_text")) s (start_text json s)
        (if test then thinking else send json [] s) (start_text-Follows json s)
        (if_Follows json test s thinking (send json [] s) (start_thinking-Follows json s)
          (nothing json s))

  convert_kind-Follows :
      (kind : EventKind) (event : Value) (s : ClaudeEventConverter)
      → Follows json s (convert_kind json kind event s)
  unfolding accept replay
  convert_kind-Follows error_event event s = error-Follows (get event "error") _ s
  convert_kind-Follows created event s = λ n. (n, refl)
  convert_kind-Follows item_added event s = output_item_added-Follows json event s
  convert_kind-Follows summary_part_added event s = start_thinking-Follows json s
  convert_kind-Follows reasoning_delta event s =
      let t = (start_thinking json s).converter in
      let delta = thinking_delta (delta_of json event) in
      then_do-Follows json s (start_thinking json s) (send_delta json delta)
        (start_thinking-Follows json s)
        (send_delta-Follows json delta t
          (is_thinking-fits json t.open_block (delta_of json event) (start_thinking-opens json s)))
  convert_kind-Follows part_added event s = part_started-Follows (part_type json event) s
  convert_kind-Follows output_text_delta event s = send_text-Follows json (delta_of json event) s
  convert_kind-Follows part_done event s =
      if_Follows json (is_reason (codes "output_text" ∷ []) (part_type json event)) s
        (close_block json s) (send json [] s) (close_block-Follows json s) (nothing json s)
  convert_kind-Follows arguments_delta event s = function_arguments-Follows json event true s
  convert_kind-Follows arguments_done event s = function_arguments-Follows json event false s
  convert_kind-Follows item_done event s = output_item_done-Follows json event s
  convert_kind-Follows completed event s = complete-Follows event s
  convert_kind-Follows failed event s = error-Follows _ _ s
  convert_kind-Follows canceled event s = error-Follows _ _ s
  convert_kind-Follows other event s = nothing json s

  pub convert-Follows :
      (event : Value) (s : ClaudeEventConverter) → Follows json s (convert json event s)
  unfolding convert
  convert-Follows event s = convert_kind-Follows _ event s

  convert_all-Follows :
      (events : List Value) (s : ClaudeEventConverter) → Follows json s (convert_all json events s)
  unfolding convert_all
  convert_all-Follows [] s = nothing json s
  convert_all-Follows (event ∷ events) s =
      then_do-Follows json s (convert json event s) (convert_all json events)
        (convert-Follows event s) (convert_all-Follows events (convert json event s).converter)

  -- Whatever events a response brings, a client of the Messages API takes all that the converter
  -- sends for them: the blocks are numbered from 0 without a gap, a block is closed before the next
  -- one starts, a delta belongs to the block that is open and is of its type, and the message ends
  -- outside of blocks. The client is then at the block that the converter is at.
  pub convert_all-IsAccepted :
      (model : Text) (tool_names : Text → Option Text) (events : List Value)
      → let sent = convert_all json events (new_converter model tool_names) in
        replay json sent.output new_client ≡ some (client sent.converter)
  convert_all-IsAccepted model tool_names events =
      (convert_all-Follows events (new_converter model tool_names) refl).1
