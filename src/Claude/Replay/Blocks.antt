-- ===== src/Claude/Replay/Blocks.antt =====
-- Opening, filling and closing a block keeps to the order that a client takes.
use provider_core.Prelude.{
  ℕ, ◌≡◌, ◌∙◌, refl, sym, ap, true, false, Option, none, some, [], ◌∷◌, Text, Bool-cases, inl, inr,
}
use provider_core.Claude.Event.{
  EventJson, content_block_start, content_block_delta, content_block_stop, ContentBlock,
  thinking_block, text_block, tool_use, Delta, input_json_delta, signature_delta, thinking_delta,
  text_delta,
}
use provider_core.Claude.Blocks.{
  OpenBlock, thinking, text, tool, index, ClaudeEventConverter, then_do, close_thinking, close_open,
  close_block, open_as, start_thinking, start_text, start_tool, emit_to, emit_tool_arguments,
  send_delta, is_thinking, is_text,
}
use provider_core.Claude.Client.{of_thinking, of_text, of_input, type_of, Client, fits, replay}
use provider_core.Claude.Replay.{
  opened_type, client, replay-append, starts, stops, delta_fits, Follows, then_do-Follows, nothing,
  open_number, client-open, stop_Follows,
}

module _ (json : EventJson) where
  pub close_thinking-Follows :
      (i : ℕ) (signature : Option Text) (s : ClaudeEventConverter)
      → s.open_block ≡ some (thinking i)
      → Follows json s (close_thinking json i signature s)
  close_thinking-Follows i none s e n = stop_Follows json s (thinking i) of_thinking e refl n
  close_thinking-Follows i (some signature) s e n =
      let at = client-open json s (thinking i) of_thinking e refl n in
      let c : Client = record { next = i; opened = some of_thinking } in
      (
        refl,
        ap (replay json _) at
            ∙ replay-append json (content_block_delta i (signature_delta signature) ∷ [])
                (content_block_stop i ∷ []) c c (delta_fits json c (signature_delta signature) refl)
            ∙ stops json i of_thinking,
      )

  pub close_open-Follows :
      (o : Option OpenBlock) (s : ClaudeEventConverter)
      → s.open_block ≡ o
      → Follows json s (close_open json o s)
  close_open-Follows none s e = nothing json s
  close_open-Follows (some (thinking i)) s e = close_thinking-Follows i s.thinking_signature s e
  close_open-Follows (some (text i)) s e = stop_Follows json s (text i) of_text e refl
  close_open-Follows (some (tool i emitted)) s e =
      stop_Follows json s (tool i emitted) of_input e refl

  pub close_block-Follows : (s : ClaudeEventConverter) → Follows json s (close_block json s)
  unfolding close_block
  close_block-Follows s = close_open-Follows s.open_block s refl

  pub close_thinking-closed :
      (i : ℕ) (signature : Option Text) (s : ClaudeEventConverter)
      → (close_thinking json i signature s).converter.open_block ≡ none
  close_thinking-closed i none s = refl
  close_thinking-closed i (some signature) s = refl

  pub close_open-closed :
      (o : Option OpenBlock) (s : ClaudeEventConverter)
      → s.open_block ≡ o
      → (close_open json o s).converter.open_block ≡ none
  close_open-closed none s e = e
  close_open-closed (some (thinking i)) s e = close_thinking-closed i s.thinking_signature s
  close_open-closed (some (text i)) s e = refl
  close_open-closed (some (tool i emitted)) s e = refl

  pub close_block-closed :
      (s : ClaudeEventConverter) → (close_block json s).converter.open_block ≡ none
  unfolding close_block
  close_block-closed s = close_open-closed s.open_block s refl

  pub open_as-Follows :
      (content : ContentBlock) (block : ℕ → OpenBlock) (s : ClaudeEventConverter)
      → ((n : ℕ) → opened_type (some (block n)) ≡ some (type_of content))
      → ((n : ℕ) → index (block n) ≡ n)
      → s.open_block ≡ none
      → Follows json s (open_as json content block s)
  open_as-Follows content block s t i e n =
      let n0 = s.block_index in
      (
        i n0,
        ap
              (λ o.
                replay json (content_block_start n0 content ∷ [])
                  (record { next = n0; opened = opened_type o }))
              e
            ∙ starts json n0 content
            ∙ ap (λ k. some (record { next = n0; opened = k })) (sym (t n0)),
      )

  -- The block that is open is closed before another is opened.
  pub reopen_Follows :
      (content : ContentBlock) (block : ℕ → OpenBlock) (s : ClaudeEventConverter)
      → ((n : ℕ) → opened_type (some (block n)) ≡ some (type_of content))
      → ((n : ℕ) → index (block n) ≡ n)
      → Follows json s (then_do json (close_block json s) (open_as json content block))
  reopen_Follows content block s t i =
      then_do-Follows json s (close_block json s) (open_as json content block)
        (close_block-Follows s)
        (open_as-Follows content block (close_block json s).converter t i (close_block-closed s))

  pub start_thinking-Follows : (s : ClaudeEventConverter) → Follows json s (start_thinking json s)
  unfolding start_thinking
  start_thinking-Follows s = elim (Bool-cases (is_thinking s.open_block)) [
    | inl already ↦ simp already (nothing json s)
    | inr other ↦ simp other (reopen_Follows thinking_block thinking s (λ n. refl) (λ n. refl))
  ]

  pub start_text-Follows : (s : ClaudeEventConverter) → Follows json s (start_text json s)
  unfolding start_text
  start_text-Follows s = elim (Bool-cases (is_text s.open_block)) [
    | inl already ↦ simp already (nothing json s)
    | inr other ↦ simp other (reopen_Follows text_block text s (λ n. refl) (λ n. refl))
  ]

  pub start_tool-Follows :
      (call_id name : Text) (signature : Option Text) (s : ClaudeEventConverter)
      → Follows json s (start_tool json call_id name signature s)
  unfolding start_tool
  start_tool-Follows call_id name signature s =
      reopen_Follows (tool_use call_id _ signature) (λ n. tool n false) s (λ n. refl) (λ n. refl)

  pub emit_to-Follows :
      (o : Option OpenBlock) (arguments : Text) (s : ClaudeEventConverter)
      → s.open_block ≡ o
      → Follows json s (emit_to json o arguments s)
  emit_to-Follows none arguments s e n = nothing json s n
  emit_to-Follows (some (thinking i)) arguments s e n = nothing json s n
  emit_to-Follows (some (text i)) arguments s e n = nothing json s n
  emit_to-Follows (some (tool i emitted)) arguments s e n =
      let c : Client = record { next = i; opened = some of_input } in
      let m = open_number json s (tool i emitted) e n in
      (
        sym m,
        ap (replay json _) (client-open json s (tool i emitted) of_input e refl n)
            ∙ delta_fits json c (input_json_delta arguments) refl
            ∙ ap (λ k. some (record { next = k; opened = some of_input })) (sym m),
      )

  pub emit_tool_arguments-Follows :
      (arguments : Text) (s : ClaudeEventConverter)
      → Follows json s (emit_tool_arguments json arguments s)
  unfolding emit_tool_arguments
  emit_tool_arguments-Follows arguments s = emit_to-Follows s.open_block arguments s refl

  -- A delta of a type that fits the block that is open.
  pub send_delta-Follows :
      (delta : Delta) (s : ClaudeEventConverter)
      → fits delta (opened_type s.open_block) ≡ true
      → Follows json s (send_delta json delta s)
  send_delta-Follows delta s f n = (
    n,
    ap (λ k. replay json (content_block_delta k delta ∷ []) (client s)) n
        ∙ delta_fits json (client s) delta f,
  )

  pub is_thinking-fits :
      (o : Option OpenBlock) (d : Text)
      → is_thinking o ≡ true
      → fits (thinking_delta d) (opened_type o) ≡ true
  is_thinking-fits none d e = cc
  is_thinking-fits (some (thinking i)) d e = refl
  is_thinking-fits (some (text i)) d e = cc
  is_thinking-fits (some (tool i emitted)) d e = cc

  pub is_text-fits :
      (o : Option OpenBlock) (d : Text)
      → is_text o ≡ true
      → fits (text_delta d) (opened_type o) ≡ true
  is_text-fits none d e = cc
  is_text-fits (some (thinking i)) d e = cc
  is_text-fits (some (text i)) d e = refl
  is_text-fits (some (tool i emitted)) d e = cc

  pub start_thinking-opens :
      (s : ClaudeEventConverter) → is_thinking (start_thinking json s).converter.open_block ≡ true
  unfolding start_thinking
  start_thinking-opens s = elim (Bool-cases (is_thinking s.open_block)) [
    | inl already ↦ simp already
    | inr other ↦ simp other refl
  ]

  pub start_text-opens :
      (s : ClaudeEventConverter) → is_text (start_text json s).converter.open_block ≡ true
  unfolding start_text
  start_text-opens s = elim (Bool-cases (is_text s.open_block)) [
    | inl already ↦ simp already
    | inr other ↦ simp other refl
  ]
