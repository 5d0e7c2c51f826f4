-- ===== src/Grok/Stream.antt =====
-- What is stored of the stream of a response: `store_completed`, `invalidate_terminal` and
-- `observe_stream` of crates/provider-drivers/src/grok/replay.rs, and `cached_items_for_session`.
use provider_core.Prelude.{
  ℕ, Bool, true, false, not, ◌&&◌, Option, none, some, List, [], ◌∷◌, if◌then◌else◌, leb, is_none,
  is_some_and, is_empty, length, filter, Text, codes,
}
use provider_core.Sse.{Bytes}
use provider_core.Claude.Event.{EventJson, and_then, unwrap_or}
use provider_core.Grok.Items.{str_of, is_one_of, is_replayable_item, trimmed, frame_payload}
use provider_core.Grok.Cache.{
  ReplayJson, GrokReplayScope, GrokReplayCache, max_replay_items, max_replay_bytes, expire,
  store_entry, invalidate_response_id,
}

-- The types of events that matter.
pub data EventKind : Type 0 where
  begun completed unsuccessful other : EventKind

abbrev failed_types : List Text
failed_types =
    codes "response.failed"
    ∷ codes "response.incomplete"
    ∷ codes "response.cancelled"
    ∷ codes "response.canceled"
    ∷ []

unfoldable pub event_kind : Option Text → EventKind
event_kind kind =
    if is_one_of (codes "response.created" ∷ []) kind
    then begun
    else if is_one_of (codes "response.completed" ∷ []) kind
    then completed
    else if is_one_of failed_types kind
    then unsuccessful
    else other

module _ (json : EventJson) (replay : ReplayJson json) where
  open json use {Value, get, as_str, as_array}

  abbrev pub response_of : Value → Option Value
  response_of payload = get payload "response"

  -- `payload.pointer("/response/id").and_then(Value::as_str)`
  abbrev pub response_id_of : Value → Option Text
  response_id_of payload = and_then (response_of payload) (λ r. str_of json r "id")

  abbrev pub object_of : Option Value → Option Value
  object_of none = none
  object_of (some v) = if replay.is_object v then some v else none

  abbrev pub output_of : Value → List Value
  output_of response = unwrap_or (and_then (get response "output") as_array) []

  abbrev pub fits_cache : List Value → Bool
  fits_cache items = is_some_and (replay.serialized_len items) (λ n. leb n max_replay_bytes)

  -- The items that are kept: all that can be replayed, or none where they are too many or too long.
  unfoldable pub kept_items : List Value → List Value
  unfolding filter
  kept_items output =
      let items = filter (is_replayable_item json) output in
      if leb (length items) max_replay_items && fits_cache items then items else []

  abbrev pub store_response :
      GrokReplayScope → Option Value → ℕ → GrokReplayCache json → GrokReplayCache json
  store_response scope none now m = m
  store_response scope (some response) now m =
      store_entry json scope (unwrap_or (trimmed (str_of json response "id")) [])
        (kept_items (output_of response)) now m

  unfoldable pub store_completed :
      GrokReplayScope → Value → ℕ → GrokReplayCache json → GrokReplayCache json
  unfolding kept_items
  store_completed scope payload now m = store_response scope (object_of (response_of payload)) now m

  abbrev pub invalidate_named :
      GrokReplayScope → Option Text → ℕ → GrokReplayCache json → GrokReplayCache json
  invalidate_named scope none now m = m
  invalidate_named scope (some response_id) now m =
      invalidate_response_id json scope response_id now m

  unfoldable pub invalidate_terminal :
      GrokReplayScope → Value → ℕ → GrokReplayCache json → GrokReplayCache json
  invalidate_terminal scope payload now m =
      invalidate_named scope (trimmed (response_id_of payload)) now m

  -- The state of an observed stream.
  pub record Observed : Type 0 where
    pub response_id : Text
    pub terminal_seen : Bool

  abbrev pub fresh_stream : Observed
  fresh_stream = record { response_id = []; terminal_seen = false }

  abbrev pub Step : Type 0
  Step = Observed × GrokReplayCache json

  -- The payload with the id that the stream began with, where it has none of its own.
  abbrev pub with_id : Value → Text → Value
  with_id payload response_id =
      if is_none (response_id_of payload) && not (is_empty response_id)
      then replay.set_response_id payload response_id
      else payload

  abbrev pub created : Option Text → Observed → Observed
  created none s = s
  created (some id) s = record s { response_id = id }

  abbrev pub observe_kind :
      EventKind → Value → GrokReplayScope → ℕ → Observed → GrokReplayCache json → Step
  observe_kind begun payload scope now s m = (created (trimmed (response_id_of payload)) s, m)
  observe_kind completed payload scope now s m = (
    record s { terminal_seen = true },
    store_completed scope (with_id payload s.response_id) now m,
  )
  observe_kind unsuccessful payload scope now s m = (
    record s { terminal_seen = true },
    invalidate_terminal scope (with_id payload s.response_id) now m,
  )
  observe_kind other payload scope now s m = (s, m)

  abbrev pub observe_payload :
      Option Value → GrokReplayScope → ℕ → Observed → GrokReplayCache json → Step
  observe_payload none scope now s m = (s, m)
  observe_payload (some payload) scope now s m =
      observe_kind (event_kind (str_of json payload "type")) payload scope now s m

  -- A stream that breaks off before its terminal is not continued from.
  abbrev pub broken_off : GrokReplayScope → ℕ → Observed → GrokReplayCache json → Step
  broken_off scope now s m = (
    s,
    if not s.terminal_seen && not (is_empty s.response_id)
        then invalidate_response_id json scope s.response_id now m
        else m,
  )

  -- What the stream brings: `Some(Ok(chunk))`, `Some(Err(error))` or `None`.
  pub data Item : Type 0 where
    chunk : Bytes → Item
    failure end : Item

  unfoldable pub observe_item :
      (Bytes → Option Value) → GrokReplayScope → Item → ℕ → Observed → GrokReplayCache json → Step
  unfolding store_completed invalidate_terminal frame_payload event_kind
  observe_item parse scope (chunk bytes) now s m =
      observe_payload (frame_payload parse bytes) scope now s m
  observe_item parse scope failure now s m = broken_off scope now s m
  observe_item parse scope end now s m = broken_off scope now s m

  -- What happens to the cache: a reading, or an item of a stream that is observed.
  pub data Call : Type 0 where
    read : ℕ → Call
    observe : GrokReplayScope → Item → Observed → ℕ → Call

  unfoldable pub call : (Bytes → Option Value) → Call → GrokReplayCache json → GrokReplayCache json
  unfolding observe_item expire
  call parse (read now) m = expire json now m
  call parse (observe scope item s now) m = (observe_item parse scope item now s m).1

  -- The cache after calls in any order.
  unfoldable pub run :
      (Bytes → Option Value) → List Call → GrokReplayCache json → GrokReplayCache json
  unfolding call
  run parse [] m = m
  run parse (c ∷ calls) m = run parse calls (call parse c m)
