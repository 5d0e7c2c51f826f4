-- ===== src/Grok/Items.antt =====
-- The items of a conversation: the tests on an item's type of
-- crates/provider-drivers/src/grok/replay.rs, and `frame_payload`.
use Prim.Native.String.{String}
use provider_core.Prelude.{
  ℕ, Bool, false, ◌&&◌, ◌||◌, ◌==◌, Option, none, some, List, [], ◌∷◌, ◌++◌, if◌then◌else◌,
  is_some_and, is_empty, contains, Text, Text-discrete, codes, trim,
}
use provider_core.Router.Accounts.{same_text}
use provider_core.Sse.{Bytes}
use provider_core.Claude.Event.{EventJson, and_then, or_else}

abbrev pub output_types : List Text
output_types =
    codes "function_call_output"
    ∷ codes "custom_tool_call_output"
    ∷ codes "local_shell_call_output"
    ∷ codes "tool_search_output"
    ∷ codes "mcp_tool_call_output"
    ∷ []

abbrev pub call_types : List Text
call_types =
    codes "function_call"
    ∷ codes "custom_tool_call"
    ∷ codes "local_shell_call"
    ∷ codes "tool_search_call"
    ∷ codes "mcp_tool_call"
    ∷ []

abbrev pub spoken_types : List Text
spoken_types = codes "reasoning" ∷ codes "message" ∷ []

abbrev pub reference_types : List Text
reference_types = codes "item_reference" ∷ []

abbrev pub is_one_of : List Text → Option Text → Bool
is_one_of names none = false
is_one_of names (some name) = contains Text-discrete names name

-- `map(str::trim).filter(|value| !value.is_empty())`
abbrev pub trimmed : Option Text → Option Text
trimmed none = none
trimmed (some text) = if is_empty (trim text) then none else some (trim text)

module _ (json : EventJson) where
  open json use {Value, get, as_str}

  abbrev pub str_of : Value → String → Option Text
  str_of item key = and_then (get item key) as_str

  -- `matches!(item.get("type").and_then(Value::as_str), Some(…))`
  unfoldable pub has_type : List Text → Value → Bool
  has_type names item = is_one_of names (str_of item "type")

  unfoldable pub is_replayable_item : Value → Bool
  unfolding has_type
  is_replayable_item item = has_type (spoken_types ++ call_types) item

  abbrev pub is_assistant : Value → Bool
  is_assistant item = is_some_and (str_of item "role") (λ role. same_text role (codes "assistant"))

abbrev data_prefix : Bytes
data_prefix = codes "data:"

abbrev is_end : ℕ → Bool
is_end c = c == 13 || c == 10

abbrev last_line : Bytes → List Bytes
last_line line = if is_empty line then [] else line ∷ []

-- `sse_lines` with the line that was begun.
unfoldable pub sse_lines : Bytes → Bytes → List Bytes
sse_lines line [] = last_line line
sse_lines line (c ∷ []) = if is_end c then line ∷ [] else (line ++ c ∷ []) ∷ []
sse_lines line (c ∷ d ∷ rest) =
    let after_both = sse_lines [] rest in
    let next = sse_lines [] (d ∷ rest) in
    let longer = sse_lines (line ++ c ∷ []) (d ∷ rest) in
    if c == 13 && d == 10 then line ∷ after_both else if is_end c then line ∷ next else longer

-- `strip_prefix`
unfoldable pub strip_prefix : Bytes → Bytes → Option Bytes
strip_prefix [] line = some line
strip_prefix (p ∷ ps) [] = none
strip_prefix (p ∷ ps) (c ∷ line) = let rest = strip_prefix ps line in if p == c then rest else none

abbrev append_part : Bytes → Option Bytes → Bytes
append_part found none = found
append_part found (some part) = if is_empty found then part else found ++ 10 ∷ part

unfoldable pub data_of : Bytes → List Bytes → Bytes
unfolding strip_prefix
data_of found [] = found
data_of found (line ∷ lines) =
    data_of
      (append_part found
        (or_else (strip_prefix (data_prefix ++ codes " ") line) (strip_prefix data_prefix line)))
      lines

-- `serde_json::from_slice` is the parameter.
unfoldable pub frame_payload : {V : Type 0} → (Bytes → Option V) → Bytes → Option V
unfolding sse_lines data_of
frame_payload parse frame = parse (data_of [] (sse_lines [] frame))
