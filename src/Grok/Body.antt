-- ===== src/Grok/Body.antt =====
-- The body of a request, and the replay of items into it: `inject_replay_items` and the tests on a
-- body of crates/provider-drivers/src/grok/replay.rs. A body is its input and its
-- `previous_response_id`; what else it holds stays as it is.
use provider_core.Prelude.{
  Bool, true, false, not, ◌&&◌, ◌||◌, Option, none, some, List, [], ◌∷◌, ◌++◌, if◌then◌else◌,
  is_empty, Text, Text-discrete, codes, trim, contains, any, filter,
}
use provider_core.Claude.Event.{EventJson}
use provider_core.Grok.Items.{
  str_of, has_type, output_types, call_types, spoken_types, reference_types, is_assistant,
}
use provider_core.Grok.Cache.{ReplayJson}

pub data Input (Value : Type 0) : Type 0 where
  text : Text → Input Value
  items : List Value → Input Value
  other : Input Value

pub record Body (Value : Type 0) : Type 0 where
  pub input : Input Value
  pub previous_response_id : Option Text

-- What `serde_json::from_slice` makes of a payload.
pub data Payload (Value : Type 0) : Type 0 where
  not_json not_object : Payload Value
  object : Body Value → Payload Value

module _ (json : EventJson) (replay : ReplayJson json) where
  open json use {Value}

  abbrev pub input_items : Input Value → List Value
  input_items (items input) = input
  input_items (text t) = []
  input_items other = []

  abbrev pub add_id : Option Text → List Text → List Text
  add_id none ids = ids
  add_id (some id) ids = id ∷ ids

  -- The call id of an item of one of the types.
  abbrev pub named_id : List Text → Value → Option Text
  named_id names item = if has_type json names item then str_of json item "call_id" else none

  -- The call ids of the items of some types.
  unfoldable pub call_ids : List Text → List Value → List Text
  call_ids names [] = []
  call_ids names (item ∷ input) = add_id (named_id names item) (call_ids names input)

  unfoldable pub trimmed_ids : List Text → List Text
  trimmed_ids [] = []
  trimmed_ids (id ∷ ids) =
      let rest = trimmed_ids ids in if is_empty (trim id) then rest else trim id ∷ rest

  unfoldable pub tool_output_call_ids : Body Value → List Text
  unfolding call_ids trimmed_ids
  tool_output_call_ids body = trimmed_ids (call_ids output_types (input_items body.input))

  -- An id of an output to which no call of the input belongs.
  unfoldable pub has_unpaired_tool_outputs : Body Value → List Text → Bool
  unfolding call_ids any
  has_unpaired_tool_outputs body output_call_ids =
      any (λ id. not (contains Text-discrete (call_ids call_types (input_items body.input)) id))
        output_call_ids

  abbrev pub is_history : Value → Bool
  is_history item =
      has_type json (codes "reasoning" ∷ []) item
      || has_type json call_types item
      || is_assistant json item

  unfoldable pub request_contains_complete_history : Body Value → Bool
  unfolding any
  request_contains_complete_history body = any is_history (input_items body.input)

  unfoldable pub input_has_item_reference : Body Value → Bool
  unfolding any
  input_has_item_reference body = any (has_type json reference_types) (input_items body.input)

  abbrev is_spoken_by_assistant : Value → Bool
  is_spoken_by_assistant item =
      is_assistant json item || has_type json (codes "reasoning" ∷ []) item

  abbrev answers : List Text → List Text → Option Text → Bool
  answers outputs existing none = false
  answers outputs existing (some id) =
      contains Text-discrete outputs id && not (contains Text-discrete existing id)

  -- Which of the cached items the input lacks.
  abbrev pub is_lacking : List Value → Value → Bool
  is_lacking input item =
      if has_type json spoken_types item
      then not (any is_spoken_by_assistant input)
      else has_type json call_types item
        && answers (call_ids output_types input) (call_ids call_types input)
            (str_of json item "call_id")

  unfoldable pub lacking : List Value → List Value → List Value
  unfolding filter any call_ids
  lacking input cached = filter (is_lacking input) cached

  -- The body after the replay, and whether something was replayed.
  pub record Replayed : Type 0 where
    pub body : Body Value
    pub replayed : Bool

  abbrev pub prepend : List Value → List Value → Body Value → Replayed
  prepend found input body =
      if is_empty found
      then record { body = record body { input = items input }; replayed = false }
      else record { body = record body { input = items (found ++ input) }; replayed = true }

  abbrev pub inject_into : Input Value → List Value → Body Value → Replayed
  inject_into (text t) cached body =
      if any (has_type json spoken_types) cached
      then prepend (lacking (replay.user_message t ∷ []) cached) (replay.user_message t ∷ []) body
      else record { body = body; replayed = false }
  inject_into (items input) cached body = prepend (lacking input cached) input body
  inject_into other cached body = record { body = body; replayed = false }

  unfoldable pub inject_replay_items : Body Value → List Value → Replayed
  unfolding lacking any
  inject_replay_items body cached = inject_into body.input cached body
