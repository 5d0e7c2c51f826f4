-- ===== src/Claude/Replay/Stream.antt =====
-- However the chunks of a response fall and however it ends, the client takes what is sent.
use provider_core.Prelude.{
  ◌≡◌, ◌∙◌, refl, sym, ap, Option, none, some, List, [], ◌∷◌, ◌++◌, Text, codes, Bool-cases, inl,
  inr,
}
use provider_core.Prelude.Results.{ok, err}
use provider_core.Router.Accounts.{same_text}
use provider_core.Sse.{Bytes, SseDecoder, Pushed, push, finish}
use provider_core.UsageObserver.{Item, chunk, failure, end}
use provider_core.Claude.Event.{EventJson, ClaudeEvent}
use provider_core.Claude.Blocks.{ClaudeEventConverter, Sent}
use provider_core.Claude.Convert.{convert}
use provider_core.Claude.Client.{new_client, replay}
use provider_core.Claude.Stream.{
  Output, event, frame_too_large, invalid_json, upstream_error, ClaudeStreamAdapter, Polled,
  as_output, convert_parsed, convert_data, convert_frames, pushed_to, finish_with, poll,
  next_output, outputs, new_adapter,
}
use provider_core.Claude.Replay.{client, Follows, then_do-Follows, nothing}
use provider_core.Claude.Replay.Convert.{convert-Follows}

module _ (json : EventJson) where
  open json use {Value}

  abbrev pub event_of : Output json → List (ClaudeEvent json)
  event_of (event e) = e ∷ []
  event_of frame_too_large = []
  event_of invalid_json = []
  event_of upstream_error = []

  -- The events among what is sent.
  unfoldable pub events_of : List (Output json) → List (ClaudeEvent json)
  events_of [] = []
  events_of (o ∷ output) = event_of o ++ events_of output

  append_assoc : {A : Type 0} (xs ys zs : List A) → (xs ++ ys) ++ zs ≡ xs ++ (ys ++ zs)
  append_assoc [] ys zs = refl
  append_assoc (x ∷ xs) ys zs = ap (λ l. x ∷ l) (append_assoc xs ys zs)

  events_of-append :
      (xs ys : List (Output json)) → events_of (xs ++ ys) ≡ events_of xs ++ events_of ys
  unfolding events_of
  events_of-append [] ys = refl
  events_of-append (o ∷ xs) ys =
      ap (λ l. event_of o ++ l) (events_of-append xs ys)
      ∙ sym (append_assoc (event_of o) (events_of xs) (events_of ys))

  events_of-as_output :
      (events : List (ClaudeEvent json)) → events_of (as_output json events) ≡ events
  unfolding events_of as_output
  events_of-as_output [] = refl
  events_of-as_output (e ∷ events) = ap (λ l. e ∷ l) (events_of-as_output events)

  -- A client of the converter before takes the events and is one of the converter after.
  abbrev Leads : ClaudeEventConverter → List (Output json) → ClaudeEventConverter → Type 0
  Leads s output t = Follows json s (record { converter = t; output = events_of output })

  nothing-Leads : (s : ClaudeEventConverter) → Leads s [] s
  unfolding events_of
  nothing-Leads s = nothing json s

  append-Leads :
      (s t u : ClaudeEventConverter) (xs ys : List (Output json))
      → Leads s xs t
      → Leads t ys u
      → Leads s (xs ++ ys) u
  append-Leads s t u xs ys f g =
      let first : Sent json = record { converter = t; output = events_of xs } in
      let both =
        then_do-Follows json s first (λ c. record { converter = u; output = events_of ys }) f g in
      λ n. ((both n).0, ap (λ l. replay json l (client s)) (events_of-append xs ys) ∙ (both n).1)

  parsed-Leads :
      (parsed : Option Value) (s : ClaudeEventConverter)
      → Leads s (convert_parsed json parsed s).output (convert_parsed json parsed s).converter
  unfolding events_of
  parsed-Leads none s n = nothing json s n
  parsed-Leads (some value) s n =
      let sent = convert json value s in
      let followed = convert-Follows json value s n in
      (
        followed.0,
        ap (λ l. replay json l (client s)) (events_of-as_output sent.output) ∙ followed.1,
      )

module _ (json : EventJson) (from_slice : Bytes → Option (json.Value)) where
  data-Leads :
      (frame : Bytes) (s : ClaudeEventConverter)
      → Leads json s
          (convert_data json from_slice frame s).output
          (convert_data json from_slice frame s).converter
  unfolding convert_data
  data-Leads frame s = elim (Bool-cases (same_text frame (codes "[DONE]"))) [
    | inl done ↦ simp done (nothing-Leads json s)
    | inr more ↦ simp more (parsed-Leads json (from_slice frame) s)
  ]

  frames-Leads :
      (frames : List Bytes) (s : ClaudeEventConverter)
      → Leads json s
          (convert_frames json from_slice frames s).output
          (convert_frames json from_slice frames s).converter
  unfolding convert_frames
  frames-Leads [] s = nothing-Leads json s
  frames-Leads (frame ∷ frames) s =
      let first = convert_data json from_slice frame s in
      let rest = convert_frames json from_slice frames first.converter in
      append-Leads json s first.converter rest.converter first.output rest.output
        (data-Leads frame s) (frames-Leads frames first.converter)

  abbrev LeadsTo : ClaudeStreamAdapter json → Polled json → Type 0
  LeadsTo a p = Leads json a.converter p.output p.adapter.converter

  pushed-Leads :
      (pushed : Pushed) (a : ClaudeStreamAdapter json)
      → LeadsTo a (pushed_to json from_slice pushed a)
  unfolding events_of
  pushed-Leads (decoder, ok frames) a = frames-Leads frames a.converter
  pushed-Leads (decoder, err too_large) a = nothing json a.converter

  finish-Leads :
      (rest : SseDecoder × Option Bytes) (a : ClaudeStreamAdapter json)
      → LeadsTo a (finish_with json from_slice rest a)
  finish-Leads (decoder, none) a = nothing-Leads json a.converter
  finish-Leads (decoder, some frame) a = data-Leads frame a.converter

  poll-Leads :
      (item : Item) (a : ClaudeStreamAdapter json) → LeadsTo a (poll json from_slice item a)
  unfolding events_of
  poll-Leads (chunk bytes) a = pushed-Leads (push a.decoder bytes) a
  poll-Leads failure a = nothing json a.converter
  poll-Leads end a = finish-Leads (finish a.decoder) a

  next_output-Leads :
      (item : Item) (a : ClaudeStreamAdapter json) → LeadsTo a (next_output json from_slice item a)
  unfolding next_output
  next_output-Leads item a = elim (Bool-cases a.finished) [
    | inl over ↦ simp over (nothing-Leads json a.converter)
    | inr open_still ↦ simp open_still (poll-Leads item a)
  ]

  outputs-Leads :
      (items : List Item) (a : ClaudeStreamAdapter json)
      → LeadsTo a (outputs json from_slice items a)
  unfolding outputs
  outputs-Leads [] a = nothing-Leads json a.converter
  outputs-Leads (item ∷ items) a =
      let first = next_output json from_slice item a in
      let rest = outputs json from_slice items first.adapter in
      append-Leads json a.converter first.adapter.converter rest.adapter.converter first.output
        rest.output (next_output-Leads item a) (outputs-Leads items first.adapter)

  -- Whatever chunks and errors the upstream brings and wherever it ends, a client of the Messages API
  -- takes all events that the adapter sends: the blocks are numbered from 0 without a gap, a block is
  -- closed before the next one starts, a delta belongs to the block that is open and is of its type,
  -- and the message ends outside of blocks. The client is then at the block of the converter.
  pub outputs-IsAccepted :
      (model : Text) (tool_names : Text → Option Text) (items : List Item)
      → replay json
          (events_of json
            (outputs json from_slice items (new_adapter json model tool_names)).output)
          new_client
        ≡ some (
            client
              (outputs json from_slice items (new_adapter json model tool_names)).adapter.converter)
  outputs-IsAccepted model tool_names items =
      (outputs-Leads items (new_adapter json model tool_names) refl).1
