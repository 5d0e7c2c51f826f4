-- ===== src/Claude/Blocks.antt =====
-- The blocks of content: `ClaudeEventConverter` of crates/provider-protocol/src/claude/response.rs,
-- from `start_thinking` to `current_index`. An operation gives the converter after it with the
-- events that it sends.
use provider_core.Prelude.{
  ℕ, ◌+◌, Bool, true, false, Option, none, some, List, [], ◌∷◌, ◌++◌, if◌then◌else◌, Text,
}
use provider_core.Claude.Event.{
  EventJson, ClaudeEvent, content_block_start, content_block_delta, content_block_stop,
  ContentBlock, thinking_block, text_block, tool_use, Delta, input_json_delta, signature_delta,
}

pub data OpenBlock : Type 0 where
  thinking text : ℕ → OpenBlock
  -- The index, and whether arguments were sent.
  tool : ℕ → Bool → OpenBlock

abbrev pub index : OpenBlock → ℕ
index (thinking i) = i
index (text i) = i
index (tool i emitted) = i

pub record PendingTool : Type 0 where
  pub call_id : Text
  pub name : Text
  pub arguments : Text
  pub signature : Option Text

pub record ClaudeEventConverter : Type 0 where
  pub model : Text
  pub tool_names : Text → Option Text
  pub block_index : ℕ
  pub open_block : Option OpenBlock
  pub thinking_signature : Option Text
  pub pending_tool : Option PendingTool
  pub emitted_text : Bool
  pub emitted_tool : Bool
  pub web_search_requests : ℕ

-- `ClaudeEventConverter::new`
abbrev pub new_converter : Text → (Text → Option Text) → ClaudeEventConverter
new_converter model tool_names = record {
  model = model;
  tool_names = tool_names;
  block_index = 0;
  open_block = none;
  thinking_signature = none;
  pending_tool = none;
  emitted_text = false;
  emitted_tool = false;
  web_search_requests = 0;
}

abbrev pub is_thinking : Option OpenBlock → Bool
is_thinking (some (thinking i)) = true
is_thinking (some (text i)) = false
is_thinking (some (tool i emitted)) = false
is_thinking none = false

abbrev pub is_text : Option OpenBlock → Bool
is_text (some (text i)) = true
is_text (some (thinking i)) = false
is_text (some (tool i emitted)) = false
is_text none = false

abbrev pub is_tool : Option OpenBlock → Bool
is_tool (some (tool i emitted)) = true
is_tool (some (thinking i)) = false
is_tool (some (text i)) = false
is_tool none = false

-- `Some(OpenBlock::Tool { arguments_emitted: true, .. })`
abbrev pub has_arguments : Option OpenBlock → Bool
has_arguments (some (tool i emitted)) = emitted
has_arguments (some (thinking i)) = false
has_arguments (some (text i)) = false
has_arguments none = false

abbrev pub index_or : Option OpenBlock → ℕ → ℕ
index_or none n = n
index_or (some block) n = index block

abbrev pub current_index : ClaudeEventConverter → ℕ
current_index s = index_or s.open_block s.block_index

module _ (json : EventJson) where
  pub record Sent : Type 0 where
    pub converter : ClaudeEventConverter
    pub output : List (ClaudeEvent json)

  abbrev pub send : List (ClaudeEvent json) → ClaudeEventConverter → Sent
  send events s = record { converter = s; output = events }

  abbrev pub then_do : Sent → (ClaudeEventConverter → Sent) → Sent
  then_do first next =
      let later = next first.converter in
      record { converter = later.converter; output = first.output ++ later.output }

  -- A thinking block is closed with its signature, if there is one.
  abbrev pub close_thinking : ℕ → Option Text → ClaudeEventConverter → Sent
  close_thinking i none s =
      send (content_block_stop i ∷ []) (record s { open_block = none; block_index = i + 1 })
  close_thinking i (some signature) s =
      send (content_block_delta i (signature_delta signature) ∷ content_block_stop i ∷ [])
        (record s { open_block = none; block_index = i + 1; thinking_signature = none })

  abbrev pub close_open : Option OpenBlock → ClaudeEventConverter → Sent
  close_open none s = send [] s
  close_open (some (thinking i)) s = close_thinking i s.thinking_signature s
  close_open (some (text i)) s =
      send (content_block_stop i ∷ []) (record s { open_block = none; block_index = i + 1 })
  close_open (some (tool i emitted)) s =
      send (content_block_stop i ∷ []) (record s { open_block = none; block_index = i + 1 })

  unfoldable pub close_block : ClaudeEventConverter → Sent
  close_block s = close_open s.open_block s

  abbrev pub open_as : ContentBlock → (ℕ → OpenBlock) → ClaudeEventConverter → Sent
  open_as content block s =
      send (content_block_start s.block_index content ∷ [])
        (record s { open_block = some (block s.block_index) })

  unfoldable pub start_thinking : ClaudeEventConverter → Sent
  start_thinking s =
      if is_thinking s.open_block
      then send [] s
      else then_do (close_block s) (open_as thinking_block thinking)

  unfoldable pub start_text : ClaudeEventConverter → Sent
  start_text s =
      if is_text s.open_block then send [] s else then_do (close_block s) (open_as text_block text)

  abbrev or_name : Option Text → Text → Text
  or_name none name = name
  or_name (some original) name = original

  abbrev pub open_tool : Text → Text → Option Text → ClaudeEventConverter → Sent
  open_tool call_id name signature s =
      send
        (content_block_start s.block_index
            (tool_use call_id (or_name (s.tool_names name) name) signature)
          ∷ [])
        (record s { open_block = some (tool s.block_index false); emitted_tool = true })

  unfoldable pub start_tool : Text → Text → Option Text → ClaudeEventConverter → Sent
  start_tool call_id name signature s = then_do (close_block s) (open_tool call_id name signature)

  abbrev pub emit_to : Option OpenBlock → Text → ClaudeEventConverter → Sent
  emit_to (some (tool i emitted)) arguments s =
      send (content_block_delta i (input_json_delta arguments) ∷ [])
        (record s { open_block = some (tool i true) })
  emit_to (some (thinking i)) arguments s = send [] s
  emit_to (some (text i)) arguments s = send [] s
  emit_to none arguments s = send [] s

  unfoldable pub emit_tool_arguments : Text → ClaudeEventConverter → Sent
  emit_tool_arguments arguments s = emit_to s.open_block arguments s

  -- A delta of the block that is open.
  abbrev pub send_delta : Delta → ClaudeEventConverter → Sent
  send_delta delta s = send (content_block_delta (current_index s) delta ∷ []) s
