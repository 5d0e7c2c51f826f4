-- ===== src/Claude/Replay/Search.antt =====
-- The two blocks of a web search, and the items that are done, keep to the order that a client takes.
use provider_core.Prelude.{
  ℕ, ◌+◌, ◌≡◌, ◌∙◌, refl, sym, ap, arith, Bool, not, ◌||◌, Option, none, some, List, [], ◌∷◌, ◌++◌,
  if◌then◌else◌, is_empty, Text, Bool-cases, inl, inr,
}
use provider_core.Claude.Event.{
  EventJson, ClaudeEvent, content_block_start, content_block_stop, unwrap_or, server_tool_use,
  web_search_tool_result, WebSearchResult, input_json_delta,
}
use provider_core.Claude.Blocks.{
  PendingTool, ClaudeEventConverter, send, index_or, close_block, emit_tool_arguments, is_tool,
  has_arguments,
}
use provider_core.Claude.Items.{
  ItemKind, reasoning, message, function_call, web_search_call, other, get_str, made_id, search_id,
  search_query, message_text, web_search_results, done_reasoning, query_deltas, web_search_at,
  emit_web_search, done, output_item_done, function_arguments, to_pending,
}
use provider_core.Claude.Client.{of_input, of_result, Client, replay}
use provider_core.Claude.Replay.{
  opened_type, replay-append, starts, stops, delta_fits, Follows, then_do-Follows, nothing,
}
use provider_core.Claude.Replay.Blocks.{
  close_block-Follows, close_block-closed, emit_tool_arguments-Follows,
}
use provider_core.Claude.Replay.Items.{
  if_Follows, with_signature-Follows, done_reasoning-Follows, done_message-Follows,
  done_call-Follows,
}

module _ (json : EventJson) where
  open json use {Value, get}

  query_deltas-replay :
      (i : ℕ) (query : Text)
      → replay json (query_deltas json i query) (record { next = i; opened = some of_input })
        ≡ some (record { next = i; opened = some of_input })
  unfolding replay
  query_deltas-replay i [] = refl
  query_deltas-replay i (c ∷ query) =
      delta_fits json (record { next = i; opened = some of_input })
        (input_json_delta (json.query_text (c ∷ query))) refl

  search_replay :
      (i : ℕ) (id query : Text) (results : List WebSearchResult)
      → replay json
          ((content_block_start i (server_tool_use id) ∷ query_deltas json i query)
            ++ (content_block_stop i
                ∷ content_block_start (i + 1) (web_search_tool_result id results)
                ∷ content_block_stop (i + 1)
                ∷ []))
          (record { next = i; opened = none })
        ≡ some (record { next = i + 2; opened = none })
  search_replay i id query results =
      let c : Client = record { next = i; opened = none } in
      let d : Client = record { next = i; opened = some of_input } in
      let e : Client = record { next = i + 1; opened = none } in
      let f : Client = record { next = i + 1; opened = some of_result } in
      let result : ClaudeEvent json =
        content_block_start (i + 1) (web_search_tool_result id results) in
      let two : i + 1 + 1 ≡ i + 2 = omega arith in
      replay-append json (content_block_start i (server_tool_use id) ∷ query_deltas json i query) _
        c d
        (replay-append json (content_block_start i (server_tool_use id) ∷ []) _ c d
            (starts json i (server_tool_use id))
          ∙ query_deltas-replay i query)
      ∙ replay-append json (content_block_stop i ∷ []) _ d e (stops json i of_input)
      ∙ replay-append json (result ∷ []) (content_block_stop (i + 1) ∷ []) e f
          (starts json (i + 1) (web_search_tool_result id results))
      ∙ stops json (i + 1) of_result
      ∙ ap (λ n. some (record { next = n; opened = none })) two

  web_search_at-Follows :
      (id query : Text) (results : List WebSearchResult) (s : ClaudeEventConverter)
      → s.open_block ≡ none
      → Follows json s (web_search_at json s.block_index id query results s)
  web_search_at-Follows id query results s e n =
      let i = s.block_index in
      let sent = web_search_at json i id query results s in
      (
        ap (λ o. index_or o (i + 2)) e,
        ap (λ o. replay json sent.output (record { next = i; opened = opened_type o })) e
            ∙ search_replay i id query results
            ∙ ap (λ o. some (record { next = i + 2; opened = opened_type o })) (sym e),
      )

  emit_web_search-Follows :
      (item : Option Value) (s : ClaudeEventConverter)
      → s.open_block ≡ none
      → Follows json s (emit_web_search json item s)
  emit_web_search-Follows none s e = web_search_at-Follows (made_id s.block_index) [] [] s e
  emit_web_search-Follows (some item) s e =
      web_search_at-Follows (search_id json item s.block_index) (search_query json item)
        (web_search_results json item) s e

  done-Follows :
      (kind : ItemKind) (item : Option Value) (s : ClaudeEventConverter)
      → Follows json s (done json kind item s)
  done-Follows reasoning item s =
      with_signature-Follows json (get_str json item "encrypted_content") s (done_reasoning json)
        (done_reasoning-Follows json)
  done-Follows message item s = done_message-Follows json (message_text json item) s
  done-Follows function_call item s = done_call-Follows json item s
  done-Follows web_search_call item s =
      let closed = close_block json s in
      then_do-Follows json s closed (emit_web_search json item) (close_block-Follows json s)
        (emit_web_search-Follows item closed.converter (close_block-closed json s))
  done-Follows other item s = nothing json s

  pub output_item_done-Follows :
      (event : Value) (s : ClaudeEventConverter) → Follows json s (output_item_done json event s)
  unfolding output_item_done
  output_item_done-Follows event s = done-Follows _ (get event "item") s

  to_pending-Follows :
      (is_delta : Bool) (value : Text) (pending : Option PendingTool) (s : ClaudeEventConverter)
      → Follows json s (send json [] (to_pending json is_delta value pending s))
  to_pending-Follows is_delta value none s = nothing json s
  to_pending-Follows is_delta value (some p) s =
      elim (Bool-cases (is_delta || is_empty p.arguments)) [
        | inl kept ↦ simp kept (nothing json s)
        | inr dropped ↦ simp dropped (nothing json s)
      ]

  pub function_arguments-Follows :
      (event : Value) (is_delta : Bool) (s : ClaudeEventConverter)
      → Follows json s (function_arguments json event is_delta s)
  unfolding function_arguments
  function_arguments-Follows event is_delta s =
      let value =
        unwrap_or (get_str json (some event) (if is_delta then "delta" else "arguments")) [] in
      let emitted = emit_tool_arguments json value s in
      let nil = send json [] s in
      let test = is_delta || not (has_arguments s.open_block) in
      if_Follows json (is_tool s.open_block) s (if test then emitted else nil)
        (send json [] (to_pending json is_delta value s.pending_tool s))
        (if_Follows json test s emitted nil (emit_tool_arguments-Follows json value s)
          (nothing json s))
        (to_pending-Follows is_delta value s.pending_tool s)
