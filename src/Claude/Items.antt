-- ===== src/Claude/Items.antt =====
-- The items of a response: `output_item_added`, `output_item_done`, `emit_web_search`,
-- `function_arguments` and `web_search_results` of crates/provider-protocol/src/claude/response.rs.
use Prim.Native.String.{String}
use provider_core.Prelude.{
  ℕ, ◌+◌, Bool, true, false, not, ◌&&◌, ◌||◌, Option, none, some, List, [], ◌∷◌, ◌++◌,
  if◌then◌else◌, is_some, is_some_and, is_empty, Text, codes, decimal,
}
use provider_core.Router.Accounts.{same_text}
use provider_core.Claude.Event.{
  EventJson, ClaudeEvent, content_block_start, content_block_delta, content_block_stop,
  server_tool_use, web_search_tool_result, WebSearchResult, input_json_delta, text_delta, and_then,
  or_else, unwrap_or,
}
use provider_core.Claude.Blocks.{
  ClaudeEventConverter, PendingTool, Sent, send, then_do, close_block, start_thinking, start_text,
  start_tool, emit_tool_arguments, send_delta, is_thinking, is_tool, has_arguments,
}

-- The types of items that are read.
pub data ItemKind : Type 0 where
  reasoning message function_call web_search_call other : ItemKind

unfoldable pub item_kind : Option Text → ItemKind
item_kind none = other
item_kind (some name) =
    if same_text name (codes "reasoning")
    then reasoning
    else if same_text name (codes "message")
    then message
    else if same_text name (codes "function_call")
    then function_call
    else if same_text name (codes "web_search_call")
    then web_search_call
    else other

abbrev pub not_empty : Option Text → Option Text
not_empty none = none
not_empty (some text) = if is_empty text then none else some text

abbrev pending_call_id : Option PendingTool → Option Text
pending_call_id none = none
pending_call_id (some p) = some p.call_id

abbrev pending_name : Option PendingTool → Option Text
pending_name none = none
pending_name (some p) = some p.name

abbrev pending_signature : Option PendingTool → Option Text
pending_signature none = none
pending_signature (some p) = p.signature

abbrev pub pending_arguments : Option PendingTool → Option Text
pending_arguments none = none
pending_arguments (some p) = not_empty (some p.arguments)

-- `format!("web_search_{}", index)`
abbrev pub made_id : ℕ → Text
made_id i = codes "web_search_" ++ decimal i

module _ (json : EventJson) where
  open json use {Value, get, as_str, as_array, query_text}

  abbrev pub get_str : Option Value → String → Option Text
  get_str value key = and_then (and_then value (λ v. get v key)) as_str

  -- `and_then` on the converter, where there is text to send.
  abbrev pub send_arguments : Option Text → ClaudeEventConverter → Sent json
  send_arguments none s = send json [] s
  send_arguments (some arguments) s = emit_tool_arguments json arguments s

  abbrev added_reasoning : Option Value → ClaudeEventConverter → Sent json
  added_reasoning item s =
      send json [] (record s { thinking_signature = get_str item "encrypted_content" })

  -- A call with no name yet waits for it.
  abbrev pub begin_tool : Option Value → Text → Text → ClaudeEventConverter → Sent json
  begin_tool item call_id name s =
      if is_empty name
      then send json [] (record s {
        pending_tool = some (record {
          call_id = call_id;
          name = name;
          arguments = [];
          signature = get_str item "signature";
        });
      })
      else start_tool json call_id name (get_str item "signature") s

  abbrev added_call : Option Value → ClaudeEventConverter → Sent json
  added_call item s =
      then_do json (close_block json s) (
        begin_tool item (unwrap_or (get_str item "call_id") [])
          (unwrap_or (get_str item "name") []))

  abbrev pub added : ItemKind → Option Value → ClaudeEventConverter → Sent json
  added reasoning item s = added_reasoning item s
  added function_call item s = added_call item s
  added message item s = send json [] s
  added web_search_call item s = send json [] s
  added other item s = send json [] s

  unfoldable pub output_item_added : Value → ClaudeEventConverter → Sent json
  unfolding item_kind
  output_item_added event s =
      added (item_kind (get_str (get event "item") "type")) (get event "item") s

  abbrev pub with_signature : Option Text → ClaudeEventConverter → ClaudeEventConverter
  with_signature none s = s
  with_signature (some signature) s = record s { thinking_signature = some signature }

  abbrev pub close_if_thinking : ClaudeEventConverter → Sent json
  close_if_thinking s = if is_thinking s.open_block then close_block json s else send json [] s

  abbrev pub done_reasoning : ClaudeEventConverter → Sent json
  done_reasoning s =
      then_do json
        (if is_some s.thinking_signature && not (is_thinking s.open_block)
          then start_thinking json s
          else send json [] s)
        close_if_thinking

  abbrev output_text : Value → Text
  output_text part =
      if is_some_and (get_str (some part) "type") (λ name. same_text name (codes "output_text"))
      then unwrap_or (get_str (some part) "text") []
      else []

  unfoldable pub texts_of : List Value → Text
  texts_of [] = []
  texts_of (part ∷ parts) = output_text part ++ texts_of parts

  abbrev pub send_text : Text → ClaudeEventConverter → Sent json
  send_text written s = then_do json (start_text json s) (send_delta json (text_delta written))

  -- The text of a message of which no delta was seen.
  abbrev pub done_message : Text → ClaudeEventConverter → Sent json
  done_message written s =
      if not s.emitted_text && not (is_empty written)
      then then_do json (send_text written s)
          (λ t. close_block json (record t { emitted_text = true }))
      else send json [] s

  abbrev pub pending_id : Option Value → Option PendingTool → Text
  pending_id item pending =
      unwrap_or (or_else (not_empty (get_str item "call_id")) (pending_call_id pending)) []

  abbrev pub name_of : Option Value → Option PendingTool → Text
  name_of item pending =
      unwrap_or (or_else (not_empty (get_str item "name")) (pending_name pending)) []

  abbrev pub signature_of : Option Value → Option PendingTool → Option Text
  signature_of item pending = or_else (get_str item "signature") (pending_signature pending)

  -- `self.pending_tool.take()` and the start of the call with what is known of it.
  abbrev pub start_pending : Option Value → Option PendingTool → ClaudeEventConverter → Sent json
  start_pending item pending s =
      then_do json
        (start_tool json (pending_id item pending) (name_of item pending)
          (signature_of item pending) (record s { pending_tool = none }))
        (send_arguments (pending_arguments pending))

  abbrev pub send_missing : Option Text → ClaudeEventConverter → Sent json
  send_missing arguments s =
      if has_arguments s.open_block then send json [] s else send_arguments arguments s

  abbrev pub done_call : Option Value → ClaudeEventConverter → Sent json
  done_call item s =
      then_do json
        (then_do json
          (if is_tool s.open_block then send json [] s else start_pending item s.pending_tool s)
          (send_missing (get_str item "arguments")))
        (close_block json)

  abbrev result_of : Value → Option Text → List WebSearchResult
  result_of result none = []
  result_of result (some url) =
      record { title = unwrap_or (not_empty (get_str (some result) "title")) url; url = url } ∷ []

  unfoldable pub results_of : List Value → List WebSearchResult
  results_of [] = []
  results_of (result ∷ results) =
      result_of result (not_empty (get_str (some result) "url")) ++ results_of results

  unfoldable pub web_search_results : Value → List WebSearchResult
  unfolding results_of
  web_search_results item = results_of (
      unwrap_or
        (or_else (and_then (get item "results") as_array)
          (and_then (and_then (get item "action") (λ action. get action "sources")) as_array))
        [])

  abbrev pub query_deltas : ℕ → Text → List (ClaudeEvent json)
  query_deltas i query =
      if is_empty query
      then []
      else content_block_delta i (input_json_delta (query_text query)) ∷ []

  -- The use of the tool and its result are a block each.
  abbrev pub web_search_at :
      ℕ → Text → Text → List WebSearchResult → ClaudeEventConverter → Sent json
  web_search_at i id query results s =
      send json
        ((content_block_start i (server_tool_use id) ∷ query_deltas i query)
          ++ (content_block_stop i
              ∷ content_block_start (i + 1) (web_search_tool_result id results)
              ∷ content_block_stop (i + 1)
              ∷ []))
        (record s { block_index = i + 2; web_search_requests = s.web_search_requests + 1 })

  abbrev pub search_id : Value → ℕ → Text
  search_id item i =
      unwrap_or (not_empty (and_then (or_else (get item "id") (get item "call_id")) as_str))
        (made_id i)

  abbrev pub search_query : Value → Text
  search_query item =
      unwrap_or
        (and_then
          (or_else (and_then (get item "action") (λ action. get action "query")) (get item "query"))
          as_str)
        []

  abbrev pub emit_web_search : Option Value → ClaudeEventConverter → Sent json
  emit_web_search none s = web_search_at s.block_index (made_id s.block_index) [] [] s
  emit_web_search (some item) s =
      web_search_at s.block_index (search_id item s.block_index) (search_query item)
        (web_search_results item) s

  -- The texts of the parts of a message.
  abbrev pub message_text : Option Value → Text
  message_text item =
      texts_of (unwrap_or (and_then (and_then item (λ i. get i "content")) as_array) [])

  abbrev pub done : ItemKind → Option Value → ClaudeEventConverter → Sent json
  done reasoning item s = done_reasoning (with_signature (get_str item "encrypted_content") s)
  done message item s = done_message (message_text item) s
  done function_call item s = done_call item s
  done web_search_call item s = then_do json (close_block json s) (emit_web_search item)
  done other item s = send json [] s

  unfoldable pub output_item_done : Value → ClaudeEventConverter → Sent json
  unfolding item_kind texts_of web_search_results decimal
  output_item_done event s =
      done (item_kind (get_str (get event "item") "type")) (get event "item") s

  abbrev append_arguments : Bool → Text → PendingTool → PendingTool
  append_arguments true value p = record p { arguments = p.arguments ++ value }
  append_arguments false value p = record p { arguments = value }

  -- Arguments of a call that waits for its name.
  abbrev pub to_pending :
      Bool → Text → Option PendingTool → ClaudeEventConverter → ClaudeEventConverter
  to_pending is_delta value none s = s
  to_pending is_delta value (some p) s =
      if is_delta || is_empty p.arguments
      then record s { pending_tool = some (append_arguments is_delta value p) }
      else s

  unfoldable pub function_arguments : Value → Bool → ClaudeEventConverter → Sent json
  function_arguments event is_delta s =
      let value = unwrap_or (get_str (some event) (if is_delta then "delta" else "arguments")) [] in
      if is_tool s.open_block
      then (if is_delta || not (has_arguments s.open_block)
          then emit_tool_arguments json value s
          else send json [] s)
      else send json [] (to_pending is_delta value s.pending_tool s)
