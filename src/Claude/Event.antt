-- ===== src/Claude/Event.antt =====
-- The events that a client of the Messages API is sent, and the JSON that they are made from:
-- crates/provider-protocol/src/claude/response.rs. The JSON is serde_json's, which enters as a
-- parameter; an event is what its JSON says, and `sse_event` is not modelled.
use Prim.Native.String.{String}
use provider_core.Prelude.{ℕ, Bool, Option, none, some, List, Text}

-- `Value::get`, `as_str`, `as_array`, `as_u64`, `is_null`, and `json!({ "query": q }).to_string()`.
pub record EventJson : Type 1 where
  pub Value : Type 0
  pub get : Value → String → Option Value
  pub as_str : Value → Option Text
  pub as_array : Value → Option (List Value)
  pub as_u64 : Value → Option ℕ
  pub is_null : Value → Bool
  pub query_text : Text → Text

pub record WebSearchResult : Type 0 where
  pub title : Text
  pub url : Text

pub data ContentBlock : Type 0 where
  thinking_block text_block : ContentBlock
  tool_use : Text → Text → Option Text → ContentBlock
  server_tool_use : Text → ContentBlock
  web_search_tool_result : Text → List WebSearchResult → ContentBlock

pub data Delta : Type 0 where
  thinking_delta text_delta input_json_delta signature_delta : Text → Delta

pub record ClaudeUsage : Type 0 where
  pub input_tokens : ℕ
  pub output_tokens : ℕ
  pub cache_read_input_tokens : Option ℕ
  pub web_search_requests : Option ℕ

abbrev pub and_then : {A B : Type 0} → Option A → (A → Option B) → Option B
and_then none f = none
and_then (some a) f = f a

abbrev pub or_else : {A : Type 0} → Option A → Option A → Option A
or_else none other = other
or_else (some a) other = some a

abbrev pub unwrap_or : {A : Type 0} → Option A → A → A
unwrap_or none other = other
unwrap_or (some a) other = a

module _ (json : EventJson) where
  open json use {Value}

  pub data ClaudeEvent : Type 0 where
    message_start : Text → Text → ClaudeEvent
    content_block_start : ℕ → ContentBlock → ClaudeEvent
    content_block_delta : ℕ → Delta → ClaudeEvent
    content_block_stop : ℕ → ClaudeEvent
    -- The reason, the stop sequence where there is one, and the usage.
    message_delta : Text → Option Value → ClaudeUsage → ClaudeEvent
    message_stop : ClaudeEvent
    error : Text → Text → ClaudeEvent
