-- ===== src/Claude/Stream.antt =====
-- The stream of a response to a client of the Messages API: `ClaudeStreamAdapter` of
-- crates/provider-protocol/src/claude/response.rs, which reads frames off the chunks and converts
-- their events.
use provider_core.Prelude.{
  Bool, true, false, Option, none, some, List, [], ◌∷◌, ◌++◌, if◌then◌else◌, Text, codes,
}
use provider_core.Prelude.Results.{ok, err}
use provider_core.Router.Accounts.{same_text}
use provider_core.Sse.{Bytes, SseDecoder, Pushed, fresh, push, finish}
use provider_core.UsageObserver.{Item, chunk, failure, end}
use provider_core.Claude.Event.{EventJson, ClaudeEvent}
use provider_core.Claude.Blocks.{ClaudeEventConverter, new_converter}
use provider_core.Claude.Convert.{convert}

module _ (json : EventJson) where
  open json use {Value}

  -- What the client is sent: an event or one of the errors.
  pub data Output : Type 0 where
    event : ClaudeEvent json → Output
    frame_too_large invalid_json upstream_error : Output

  pub record ClaudeStreamAdapter : Type 0 where
    pub decoder : SseDecoder
    pub converter : ClaudeEventConverter
    pub finished : Bool

  -- The queue of the adapter is empty whenever the upstream is polled, so that what a poll brings is
  -- the output of the adapter in its order.
  pub record Polled : Type 0 where
    pub adapter : ClaudeStreamAdapter
    pub output : List Output

  pub record Converted : Type 0 where
    pub converter : ClaudeEventConverter
    pub output : List Output

  unfoldable pub as_output : List (ClaudeEvent json) → List Output
  as_output [] = []
  as_output (e ∷ events) = event e ∷ as_output events

  abbrev pub convert_parsed : Option Value → ClaudeEventConverter → Converted
  convert_parsed none s = record { converter = s; output = invalid_json ∷ [] }
  convert_parsed (some value) s =
      let sent = convert json value s in
      record { converter = sent.converter; output = as_output sent.output }

  -- `adapt_responses_stream_to_claude`
  abbrev pub new_adapter : Text → (Text → Option Text) → ClaudeStreamAdapter
  new_adapter model tool_names = record {
    decoder = fresh;
    converter = new_converter model tool_names;
    finished = false;
  }

module _ (json : EventJson) (from_slice : Bytes → Option (json.Value)) where
  unfoldable pub convert_data : Bytes → ClaudeEventConverter → Converted json
  unfolding convert as_output
  convert_data frame s =
      if same_text frame (codes "[DONE]")
      then record { converter = s; output = [] }
      else convert_parsed json (from_slice frame) s

  unfoldable pub convert_frames : List Bytes → ClaudeEventConverter → Converted json
  unfolding convert_data
  convert_frames [] s = record { converter = s; output = [] }
  convert_frames (frame ∷ frames) s =
      let first = convert_data frame s in
      let rest = convert_frames frames first.converter in
      record { converter = rest.converter; output = first.output ++ rest.output }

  abbrev pub stop_with : Output json → ClaudeStreamAdapter json → Polled json
  stop_with error a = record { adapter = record a { finished = true }; output = error ∷ [] }

  abbrev pub with_converted : Converted json → ClaudeStreamAdapter json → Polled json
  with_converted c a = record { adapter = record a { converter = c.converter }; output = c.output }

  abbrev pub pushed_to : Pushed → ClaudeStreamAdapter json → Polled json
  pushed_to (decoder, ok frames) a =
      with_converted (convert_frames frames a.converter) (record a { decoder = decoder })
  pushed_to (decoder, err too_large) a = stop_with frame_too_large (record a { decoder = decoder })

  abbrev pub finish_with : SseDecoder × Option Bytes → ClaudeStreamAdapter json → Polled json
  finish_with (decoder, none) a = record {
    adapter = record a { decoder = decoder; finished = true };
    output = [];
  }
  finish_with (decoder, some frame) a =
      with_converted (convert_data frame a.converter)
        (record a { decoder = decoder; finished = true })

  abbrev pub poll : Item → ClaudeStreamAdapter json → Polled json
  poll (chunk bytes) a = pushed_to (push a.decoder bytes) a
  poll failure a = stop_with upstream_error a
  poll end a = finish_with (finish a.decoder) a

  -- `next_output`, up to the next poll of the upstream.
  unfoldable pub next_output : Item → ClaudeStreamAdapter json → Polled json
  unfolding convert_frames
  next_output item a = if a.finished then record { adapter = a; output = [] } else poll item a

  unfoldable pub outputs : List Item → ClaudeStreamAdapter json → Polled json
  unfolding next_output
  outputs [] a = record { adapter = a; output = [] }
  outputs (item ∷ items) a =
      let first = next_output item a in
      let rest = outputs items first.adapter in
      record { adapter = rest.adapter; output = first.output ++ rest.output }
