-- ===== src/Claude/Replay/Items.antt =====
-- The items of a response keep to the order that a client takes.
use provider_core.Prelude.{
  Bool, true, false, not, ◌&&◌, Option, none, some, [], if◌then◌else◌, is_some, is_empty, Text,
}
use provider_core.Claude.Event.{EventJson, unwrap_or, text_delta}
use provider_core.Claude.Blocks.{
  PendingTool, ClaudeEventConverter, Sent, send, then_do, close_block, start_thinking, start_text,
  start_tool, send_delta, is_thinking, is_tool, has_arguments,
}
use provider_core.Claude.Items.{
  ItemKind, reasoning, message, function_call, web_search_call, other, get_str, send_arguments,
  begin_tool, added, output_item_added, with_signature, close_if_thinking, done_reasoning,
  send_text, done_message, pending_arguments, pending_id, name_of, signature_of, start_pending,
  send_missing, done_call,
}
use provider_core.Claude.Replay.{Follows, then_do-Follows, nothing}
use provider_core.Claude.Replay.Blocks.{
  close_block-Follows, start_thinking-Follows, start_text-Follows, start_tool-Follows,
  emit_tool_arguments-Follows, send_delta-Follows, is_text-fits, start_text-opens,
}

module _ (json : EventJson) where
  open json use {Value, get}

  pub if_Follows :
      (test : Bool) (s : ClaudeEventConverter) (o p : Sent json)
      → Follows json s o
      → Follows json s p
      → Follows json s (if test then o else p)
  if_Follows true s o p f g = f
  if_Follows false s o p f g = g

  pub send_arguments-Follows :
      (arguments : Option Text) (s : ClaudeEventConverter)
      → Follows json s (send_arguments json arguments s)
  send_arguments-Follows none s = nothing json s
  send_arguments-Follows (some arguments) s = emit_tool_arguments-Follows json arguments s

  begin_tool-Follows :
      (item : Option Value) (call_id name : Text) (s : ClaudeEventConverter)
      → Follows json s (begin_tool json item call_id name s)
  begin_tool-Follows item call_id name s =
      if_Follows (is_empty name) s _
        (start_tool json call_id name (get_str json item "signature") s) (nothing json s)
        (start_tool-Follows json call_id name (get_str json item "signature") s)

  pub added-Follows :
      (kind : ItemKind) (item : Option Value) (s : ClaudeEventConverter)
      → Follows json s (added json kind item s)
  added-Follows reasoning item s = nothing json s
  added-Follows function_call item s =
      let call_id = unwrap_or (get_str json item "call_id") [] in
      let name = unwrap_or (get_str json item "name") [] in
      then_do-Follows json s (close_block json s) (begin_tool json item call_id name)
        (close_block-Follows json s)
        (begin_tool-Follows item call_id name (close_block json s).converter)
  added-Follows message item s = nothing json s
  added-Follows web_search_call item s = nothing json s
  added-Follows other item s = nothing json s

  pub output_item_added-Follows :
      (event : Value) (s : ClaudeEventConverter) → Follows json s (output_item_added json event s)
  unfolding output_item_added
  output_item_added-Follows event s = added-Follows _ (get event "item") s

  pub with_signature-Follows :
      (signature : Option Text) (s : ClaudeEventConverter) (next : ClaudeEventConverter → Sent json)
      → ((t : ClaudeEventConverter) → Follows json t (next t))
      → Follows json s (next (with_signature json signature s))
  with_signature-Follows none s next f = f s
  with_signature-Follows (some signature) s next f =
      f (record s { thinking_signature = some signature })

  close_if_thinking-Follows : (s : ClaudeEventConverter) → Follows json s (close_if_thinking json s)
  close_if_thinking-Follows s =
      if_Follows (is_thinking s.open_block) s (close_block json s) (send json [] s)
        (close_block-Follows json s) (nothing json s)

  pub done_reasoning-Follows : (s : ClaudeEventConverter) → Follows json s (done_reasoning json s)
  done_reasoning-Follows s =
      let test = is_some s.thinking_signature && not (is_thinking s.open_block) in
      let first = if test then start_thinking json s else send json [] s in
      then_do-Follows json s first (close_if_thinking json)
        (if_Follows test s (start_thinking json s) (send json [] s) (start_thinking-Follows json s)
          (nothing json s))
        (close_if_thinking-Follows first.converter)

  pub send_text-Follows :
      (written : Text) (s : ClaudeEventConverter) → Follows json s (send_text json written s)
  send_text-Follows written s =
      let t = (start_text json s).converter in
      then_do-Follows json s (start_text json s) (send_delta json (text_delta written))
        (start_text-Follows json s)
        (send_delta-Follows json (text_delta written) t
          (is_text-fits json t.open_block written (start_text-opens json s)))

  pub done_message-Follows :
      (written : Text) (s : ClaudeEventConverter) → Follows json s (done_message json written s)
  done_message-Follows written s =
      let close : ClaudeEventConverter → Sent json =
        λ t. close_block json (record t { emitted_text = true }) in
      let sent = send_text json written s in
      if_Follows (not s.emitted_text && not (is_empty written)) s (then_do json sent close)
        (send json [] s)
        (then_do-Follows json s sent close (send_text-Follows written s)
          (close_block-Follows json (record sent.converter { emitted_text = true })))
        (nothing json s)

  start_pending-Follows :
      (item : Option Value) (pending : Option PendingTool) (s : ClaudeEventConverter)
      → Follows json s (start_pending json item pending s)
  start_pending-Follows item pending s =
      let t = record s { pending_tool = none } in
      let arguments = pending_arguments pending in
      let started =
        start_tool json (pending_id json item pending) (name_of json item pending)
          (signature_of json item pending) t in
      then_do-Follows json s started (send_arguments json arguments)
        (start_tool-Follows json (pending_id json item pending) (name_of json item pending)
          (signature_of json item pending) t)
        (send_arguments-Follows arguments started.converter)

  send_missing-Follows :
      (arguments : Option Text) (s : ClaudeEventConverter)
      → Follows json s (send_missing json arguments s)
  send_missing-Follows arguments s =
      if_Follows (has_arguments s.open_block) s (send json [] s) (send_arguments json arguments s)
        (nothing json s) (send_arguments-Follows arguments s)

  pub done_call-Follows :
      (item : Option Value) (s : ClaudeEventConverter) → Follows json s (done_call json item s)
  done_call-Follows item s =
      let arguments = get_str json item "arguments" in
      let test = is_tool s.open_block in
      let pending = start_pending json item s.pending_tool s in
      let first = if test then send json [] s else pending in
      let second = then_do json first (send_missing json arguments) in
      then_do-Follows json s second (close_block json)
        (then_do-Follows json s first (send_missing json arguments)
          (if_Follows test s (send json [] s) pending (nothing json s)
            (start_pending-Follows item s.pending_tool s))
          (send_missing-Follows arguments first.converter))
        (close_block-Follows json second.converter)
