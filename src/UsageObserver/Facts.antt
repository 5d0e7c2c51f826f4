-- ===== src/UsageObserver/Facts.antt =====
-- What one frame of a response proves: `extract_responses_facts` and
-- `extract_chat_completions_facts` of crates/provider-protocol/src/usage_observer.rs. The JSON is
-- serde_json's, which enters as a parameter.
use Prim.Native.String.{String}
use provider_core.Prelude.{
  ℕ, Bool, true, false, not, ◌&&◌, ◌||◌, Option, none, some, List, [], ◌∷◌, ◌++◌, if◌then◌else◌,
  leb, is_none, is_some_and, is_none_or, is_empty, contains, Text, Text-discrete, codes,
}
use provider_core.Usage.Raw.{
  RawUsageFields, Json, from_responses_usage, from_chat_completions_usage,
}
use provider_core.Router.Accounts.{same_text}
use provider_core.Sse.{Bytes, starts_with}

pub record ObservedFrame : Type 0 where
  pub fields : Option RawUsageFields
  pub model : Option Text
  pub first_token : Bool
  pub successful_terminal : Option Bool

-- serde_json: `from_slice`, `Value::as_str`, `as_array`, `is_object` and `is_null`. A model's length
-- is counted in bytes, by `str::len`.
pub record FrameJson : Type 1 where
  pub json : Json
  pub from_slice : Bytes → Option json.Value
  pub as_str : json.Value → Option Text
  pub as_array : json.Value → Option (List json.Value)
  pub is_object : json.Value → Bool
  pub is_null : json.Value → Bool
  pub str_len : Text → ℕ

-- `contains_subslice`
unfoldable pub contains_subslice : Bytes → Bytes → Bool
contains_subslice [] needle = starts_with needle []
contains_subslice (c ∷ haystack) needle =
    starts_with needle (c ∷ haystack) || contains_subslice haystack needle

abbrev completed_event : Text
completed_event = codes "response.completed"

abbrev max_model_len : ℕ
max_model_len = 200

abbrev and_then : {A B : Type 0} → Option A → (A → Option B) → Option B
and_then none f = none
and_then (some a) f = f a

abbrev or_else : {A : Type 0} → Option A → Option A → Option A
or_else none other = other
or_else (some a) other = some a

abbrev filter : {A : Type 0} → (A → Bool) → Option A → Option A
filter keeps none = none
filter keeps (some a) = if keeps a then some a else none

abbrev is_one_of : List Text → Text → Bool
is_one_of names name = contains Text-discrete names name

abbrev is_any : {A : Type 0} → (A → Bool) → List A → Bool
is_any test [] = false
is_any test (a ∷ rest) = test a || is_any test rest

abbrev is_every : {A : Type 0} → (A → Bool) → List A → Bool
is_every test [] = true
is_every test (a ∷ rest) = test a && is_every test rest

abbrev unsuccessful_events : List Text
unsuccessful_events =
    codes "response.incomplete"
    ∷ codes "response.failed"
    ∷ codes "response.canceled"
    ∷ codes "response.cancelled"
    ∷ []

abbrev unsuccessful_statuses : List Text
unsuccessful_statuses =
    codes "incomplete" ∷ codes "failed" ∷ codes "canceled" ∷ codes "cancelled" ∷ []

abbrev lifecycle_events : List Text
lifecycle_events =
    codes "response.created"
    ∷ codes "response.queued"
    ∷ codes "response.in_progress"
    ∷ codes "response.completed"
    ∷ codes "response.done"
    ∷ codes "response.incomplete"
    ∷ codes "response.failed"
    ∷ codes "response.error"
    ∷ codes "response.canceled"
    ∷ codes "response.cancelled"
    ∷ []

unfoldable pub responses_event_starts_output : Text → Bool
responses_event_starts_output event_type =
    starts_with (codes "response.") event_type && not (is_one_of lifecycle_events event_type)

-- `responses_terminal`, by the type of the event and the status of the response.
unfoldable pub responses_terminal : Option Text → Option Text → Option Bool
responses_terminal event_type status =
    if is_some_and event_type (is_one_of unsuccessful_events)
      || is_some_and status (is_one_of unsuccessful_statuses)
    then some false
    else if is_some_and event_type (same_text completed_event)
        && is_none_or status (same_text (codes "completed"))
    then some true
    else none

-- A frame that proves nothing is none.
abbrev said : ObservedFrame → Option ObservedFrame
said f =
    if is_none f.fields && is_none f.model && is_none f.successful_terminal && not f.first_token
    then none
    else some f

module _ (frame_json : FrameJson) where
  open frame_json use {json, from_slice, as_str, as_array, is_object, is_null, str_len}

  abbrev Value : Type 0
  Value = json.Value

  abbrev get : Value → String → Option Value
  get value key = json.get value key

  abbrev get_str : Value → String → Option Text
  get_str value key = and_then (get value key) as_str

  abbrev is_model : Text → Bool
  is_model model = not (is_empty model) && leb (str_len model) max_model_len

  abbrev map_usage : (Value → RawUsageFields) → Option Value → Option RawUsageFields
  map_usage read none = none
  map_usage read (some usage) = some (read usage)

  abbrev responses_facts : Value → Option ObservedFrame
  responses_facts event =
      let response = get event "response" in
      let event_type = get_str event "type" in
      said (record {
        fields = map_usage (from_responses_usage json) (
            filter is_object
              (or_else (and_then response (λ r. get r "usage")) (get event "usage")));
        model = filter is_model (
            and_then (or_else (and_then response (λ r. get r "model")) (get event "model")) as_str);
        first_token = is_some_and event_type responses_event_starts_output;
        successful_terminal =
            responses_terminal event_type (and_then response (λ r. get_str r "status"));
      })

  unfoldable pub extract_responses_facts : Bytes → Option ObservedFrame
  unfolding contains_subslice responses_event_starts_output responses_terminal
  extract_responses_facts frame =
      if contains_subslice frame (codes "usage")
        || contains_subslice frame completed_event
        || contains_subslice frame (codes "response.")
      then and_then (from_slice frame) responses_facts
      else none

  abbrev is_said : Value → String → Bool
  is_said value key = is_some_and (get_str value key) (λ text. not (is_empty text))

  abbrev call_has_output : Value → Bool
  call_has_output call =
      is_some_and (get call "function") (λ f. is_said f "arguments" || is_said f "name")

  abbrev chat_delta_has_output : Value → Bool
  chat_delta_has_output delta =
      is_said delta "content"
      || is_said delta "reasoning_content"
      || is_said delta "reasoning"
      || is_some_and (and_then (get delta "tool_calls") as_array) (is_any call_has_output)

  abbrev not_null : Option Value → List Value
  not_null none = []
  not_null (some reason) = if is_null reason then [] else reason ∷ []

  unfoldable pub finish_reasons : List Value → List Value
  finish_reasons [] = []
  finish_reasons (choice ∷ choices) =
      not_null (get choice "finish_reason") ++ finish_reasons choices

  abbrev is_complete : Value → Bool
  is_complete reason =
      is_some_and (as_str reason)
        (is_one_of (codes "stop" ∷ codes "tool_calls" ∷ codes "function_call" ∷ []))

  abbrev all_complete : List Value → Option Bool
  all_complete reasons = if is_empty reasons then none else some (is_every is_complete reasons)

  abbrev chat_completion_terminal : Option (List Value) → Option Bool
  chat_completion_terminal choices = and_then choices (λ cs. all_complete (finish_reasons cs))

  abbrev chat_facts : Value → Option ObservedFrame
  chat_facts event =
      let choices = and_then (get event "choices") as_array in
      said (record {
        fields =
            map_usage (from_chat_completions_usage json) (filter is_object (get event "usage"));
        model = filter is_model (get_str event "model");
        first_token =
            is_some_and choices
              (is_any (λ choice. is_some_and (get choice "delta") chat_delta_has_output));
        successful_terminal = chat_completion_terminal choices;
      })

  unfoldable pub extract_chat_completions_facts : Bytes → Option ObservedFrame
  unfolding contains_subslice finish_reasons
  extract_chat_completions_facts frame =
      if same_text frame (codes "[DONE]")
      then some (record {
        fields = none;
        model = none;
        first_token = false;
        successful_terminal = some true;
      })
      else if contains_subslice frame (codes "usage")
          || contains_subslice frame (codes "model")
          || contains_subslice frame (codes "choices")
      then and_then (from_slice frame) chat_facts
      else none
