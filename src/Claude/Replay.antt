-- ===== src/Claude/Replay.antt =====
-- The events that the converter sends are in the order that a client of the Messages API takes.
pub mod Blocks
pub mod Items
pub mod Search
pub mod Convert
pub mod Stream
use provider_core.Prelude.{
  ℕ, ◌+◌, ◌≡◌, ◌∙◌, refl, sym, ap, arith, Bool, true, false, Option, none, some, List, [], ◌∷◌,
  ◌++◌, Text, Bool-cases, inl, inr,
}
use provider_core.Claude.Event.{
  EventJson, ClaudeEvent, content_block_start, content_block_delta, content_block_stop,
  ContentBlock, thinking_block, text_block, tool_use, Delta, input_json_delta, signature_delta,
  and_then,
}
use provider_core.Claude.Blocks.{
  OpenBlock, thinking, text, tool, index, ClaudeEventConverter, Sent, send, then_do, close_thinking,
  close_open, close_block, open_as, start_thinking, start_text, open_tool, start_tool, emit_to,
  emit_tool_arguments, index_or, current_index, send_delta, is_thinking, is_text, is_tool,
}
use provider_core.Claude.Client.{
  BlockType, of_thinking, of_text, of_input, type_of, Client, fits, accept, replay,
}

abbrev pub opened_type : Option OpenBlock → Option BlockType
opened_type none = none
opened_type (some (thinking i)) = some of_thinking
opened_type (some (text i)) = some of_text
opened_type (some (tool i emitted)) = some of_input

-- What the client of a converter is.
abbrev pub client : ClaudeEventConverter → Client
client s = record { next = s.block_index; opened = opened_type s.open_block }

-- The block that is open has the number that the converter is at.
abbrev pub IsNumbered : ClaudeEventConverter → Type 0
IsNumbered s = current_index s ≡ s.block_index

module _ (json : EventJson) where
  and_then-replay :
      (es fs : List (ClaudeEvent json)) (d : Client)
      → ((c : Client) → replay json es c ≡ some d → replay json (es ++ fs) c ≡ replay json fs d)
      → (c : Option Client) → and_then c (λ k. replay json es k) ≡ some d
      → and_then c (λ k. replay json (es ++ fs) k) ≡ replay json fs d
  and_then-replay es fs d rest none h = cc
  and_then-replay es fs d rest (some c) h = rest c h

  pub replay-append :
      (es fs : List (ClaudeEvent json)) (c d : Client)
      → replay json es c ≡ some d
      → replay json (es ++ fs) c ≡ replay json fs d
  unfolding replay
  replay-append [] fs c d h = ap (λ k. and_then k (λ e. replay json fs e)) h
  replay-append (e ∷ es) fs c d h =
      and_then-replay es fs d (λ k. replay-append es fs k d) (accept json e c) h

  pub starts :
      (n : ℕ) (content : ContentBlock)
      → replay json (content_block_start n content ∷ []) (record { next = n; opened = none })
        ≡ some (record { next = n; opened = some (type_of content) })
  unfolding accept replay
  starts n content = ground arith

  pub stops :
      (n : ℕ) (b : BlockType)
      → replay json (content_block_stop n ∷ []) (record { next = n; opened = some b })
        ≡ some (record { next = n + 1; opened = none })
  unfolding accept replay
  stops n b = ground arith

  pub delta_fits :
      (c : Client) (delta : Delta)
      → fits delta c.opened ≡ true
      → replay json (content_block_delta c.next delta ∷ []) c ≡ some c
  unfolding accept replay
  delta_fits c delta h = ground arith

  -- What is sent from a converter leads its client to the client of the converter after it.
  abbrev pub Follows : ClaudeEventConverter → Sent json → Type 0
  Follows s o =
      IsNumbered s
      → IsNumbered o.converter × (replay json o.output (client s) ≡ some (client o.converter))

  pub then_do-Follows :
      (s : ClaudeEventConverter) (o : Sent json) (next : ClaudeEventConverter → Sent json)
      → Follows s o
      → Follows o.converter (next o.converter)
      → Follows s (then_do json o next)
  then_do-Follows s o next f g n =
      let (m, first) = f n in
      let (k, second) = g m in
      (
        k,
        replay-append o.output (next o.converter).output (client s) (client o.converter) first
            ∙ second,
      )

  pub nothing : (s : ClaudeEventConverter) → Follows s (send json [] s)
  unfolding replay
  nothing s n = (n, refl)

  pub open_number :
      (s : ClaudeEventConverter) (b : OpenBlock)
      → s.open_block ≡ some b
      → IsNumbered s
      → s.block_index ≡ index b
  open_number s b e n = sym n ∙ ap (λ o. index_or o s.block_index) e

  -- The client where a block is open.
  pub client-open :
      (s : ClaudeEventConverter) (b : OpenBlock) (k : BlockType)
      → s.open_block ≡ some b
      → opened_type (some b) ≡ some k
      → IsNumbered s
      → client s ≡ record { next = index b; opened = some k }
  client-open s b k e t n =
      let e1 = open_number s b e n in
      let e2 = ap opened_type e ∙ t in λ j. record { next = e1 j; opened = e2 j }

  pub stop_Follows :
      (s : ClaudeEventConverter) (b : OpenBlock) (k : BlockType)
      → s.open_block ≡ some b
      → opened_type (some b) ≡ some k
      → Follows s (
          send json
            (content_block_stop (index b) ∷ [])
            (record s { open_block = none; block_index = index b + 1 }))
  stop_Follows s b k e t n =
      (refl, ap (replay json _) (client-open s b k e t n) ∙ stops (index b) k)
