-- ===== src/Claude/Client.antt =====
-- The order of events that a client of the Messages API takes: blocks are numbered from 0 without a
-- gap, one is open at a time, a delta belongs to the block that is open and is of its type, and the
-- message ends outside of blocks. It is written from the protocol, with no regard to the converter.
use provider_core.Prelude.{
  ℕ, ◌+◌, Bool, true, false, not, ◌&&◌, Option, none, some, List, [], ◌∷◌, ◌==◌,
}
use provider_core.Claude.Event.{
  EventJson, ClaudeEvent, message_start, content_block_start, content_block_delta,
  content_block_stop, message_delta, message_stop, error, ContentBlock, thinking_block, text_block,
  tool_use, server_tool_use, web_search_tool_result, Delta, thinking_delta, text_delta,
  input_json_delta, signature_delta, and_then,
}

pub data BlockType : Type 0 where
  of_thinking of_text of_input of_result : BlockType

abbrev pub type_of : ContentBlock → BlockType
type_of thinking_block = of_thinking
type_of text_block = of_text
type_of (tool_use id name signature) = of_input
type_of (server_tool_use id) = of_input
type_of (web_search_tool_result id results) = of_result

-- The block that is open, if one is, and the number of the next block or of the open one.
pub record Client : Type 0 where
  pub next : ℕ
  pub opened : Option BlockType

abbrev pub new_client : Client
new_client = record { next = 0; opened = none }

-- Whether a delta may stand in the block that is open.
abbrev pub fits : Delta → Option BlockType → Bool
fits (thinking_delta d) (some of_thinking) = true
fits (signature_delta d) (some of_thinking) = true
fits (text_delta d) (some of_text) = true
fits (input_json_delta d) (some of_input) = true
fits d opened = false

abbrev is_closed : Option BlockType → Bool
is_closed none = true
is_closed (some opened) = false

abbrev when : Bool → Client → Option Client
when true c = some c
when false c = none

module _ (json : EventJson) where
  unfoldable pub accept : ClaudeEvent json → Client → Option Client
  accept (message_start id model) c = some c
  accept (content_block_start i content) c =
      when ((i == c.next) && is_closed c.opened) (record c { opened = some (type_of content) })
  accept (content_block_delta i delta) c = when ((i == c.next) && fits delta c.opened) c
  accept (content_block_stop i) c =
      when ((i == c.next) && not (is_closed c.opened)) (record { next = c.next + 1; opened = none })
  accept (message_delta reason sequence usage) c = when (is_closed c.opened) c
  accept message_stop c = when (is_closed c.opened) c
  accept (error kind message) c = some c

  -- What a client is after the events, if it takes them all.
  unfoldable pub replay : List (ClaudeEvent json) → Client → Option Client
  unfolding accept
  replay [] c = some c
  replay (event ∷ events) c = and_then (accept event c) (λ d. replay events d)
