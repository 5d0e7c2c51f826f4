-- ===== src/UsageObserver.antt =====
-- The observer of the usage in a response: `UsageObservingStream` of
-- crates/provider-protocol/src/usage_observer.rs, on the decoder of Sse. What it tells the attempt
-- is the list of those calls, in the words of Tracking.
pub mod Facts
pub mod Once
pub mod Frames
mod Tests
use provider_core.Prelude.{
  ℕ, Bool, true, false, Option, none, some, List, [], ◌∷◌, ◌++◌, if◌then◌else◌, Text,
}
use provider_core.Prelude.Results.{Result, ok, err}
use provider_core.Usage.Raw.{RawUsageFields}
use provider_core.Sse.{Bytes, SseDecoder, fresh, SseFrameTooLarge, Pushed, push, finish}
use provider_core.Tracking.Attempt.{
  AttemptEvent, first_token_observed, success_terminal_observed, provider_model_observed,
  observation_lost, finished, cancelled,
}
use provider_core.UsageObserver.Facts.{ObservedFrame}

-- `attempt` is whether the attempt is still to be told of the end; `told` is what it was told.
pub record UsageObservingStream : Type 0 where
  pub decoder : SseDecoder
  pub latest : Option RawUsageFields
  pub attempt : Bool
  pub upstream_done : Bool
  pub blind : Bool
  pub successful_terminal : Option Bool
  pub told : List AttemptEvent

-- `observe_usage`
abbrev pub observe_usage : UsageObservingStream
observe_usage = record {
  decoder = fresh;
  latest = none;
  attempt = true;
  upstream_done = false;
  blind = false;
  successful_terminal = none;
  told = [];
}

abbrev tell : List AttemptEvent → UsageObservingStream → UsageObservingStream
tell events s = if s.attempt then record s { told = s.told ++ events } else s

abbrev model_events : Option Text → List AttemptEvent
model_events none = []
model_events (some model) = provider_model_observed model ∷ []

abbrev token_events : Bool → List AttemptEvent
token_events true = first_token_observed ∷ []
token_events false = []

abbrev pub frame_events : ObservedFrame → List AttemptEvent
frame_events f = model_events f.model ++ token_events f.first_token

abbrev pub merge_terminal : Option Bool → Option Bool → Option Bool
merge_terminal (some false) seen = some false
merge_terminal (some true) none = some true
merge_terminal (some true) (some seen) = some seen
merge_terminal none seen = seen

abbrev pub supersede : Option RawUsageFields → Option RawUsageFields → Option RawUsageFields
supersede none latest = latest
supersede (some fields) latest = some fields

-- What a frame that says something changes.
abbrev pub inspect_facts : ObservedFrame → UsageObservingStream → UsageObservingStream
inspect_facts f s = record (tell (frame_events f) s) {
  successful_terminal = merge_terminal f.successful_terminal s.successful_terminal;
  latest = supersede f.fields s.latest;
}

abbrev success_events : Option Bool → List AttemptEvent
success_events (some true) = success_terminal_observed ∷ []
success_events _ = []

-- The report of the end, at most once.
abbrev report : AttemptEvent → UsageObservingStream → UsageObservingStream
report event s =
    if s.attempt
    then record s {
      attempt = false;
      latest = none;
      told = s.told ++ success_events s.successful_terminal ++ event ∷ [];
    }
    else s

unfoldable pub report_finished : UsageObservingStream → UsageObservingStream
report_finished s = report (finished s.latest) s

abbrev cancel_event : Option Bool → Option RawUsageFields → AttemptEvent
cancel_event (some successful) latest = finished latest
cancel_event none latest = cancelled latest

unfoldable pub report_cancelled : UsageObservingStream → UsageObservingStream
report_cancelled s = report (cancel_event s.successful_terminal s.latest) s

-- What the upstream brings: `Some(Ok(chunk))`, `Some(Err(error))` or `None`.
pub data Item : Type 0 where
  chunk : Bytes → Item
  failure : Item
  end : Item

module _ (extractor : Bytes → Option ObservedFrame) where
  abbrev inspect_found : Option ObservedFrame → UsageObservingStream → UsageObservingStream
  inspect_found none s = s
  inspect_found (some f) s = inspect_facts f s

  unfoldable pub inspect_frame : Bytes → UsageObservingStream → UsageObservingStream
  inspect_frame frame s = inspect_found (extractor frame) s

  unfoldable pub inspect_frames : List Bytes → UsageObservingStream → UsageObservingStream
  unfolding inspect_frame
  inspect_frames [] s = s
  inspect_frames (frame ∷ frames) s = inspect_frames frames (inspect_frame frame s)

  abbrev pub inspect_pushed : Pushed → UsageObservingStream → UsageObservingStream
  inspect_pushed (decoder, ok frames) s = inspect_frames frames (record s { decoder = decoder })
  inspect_pushed (decoder, err too_large) s =
      tell (observation_lost ∷ []) (record s { decoder = decoder; blind = true })

  unfoldable pub inspect : Bytes → UsageObservingStream → UsageObservingStream
  unfolding inspect_frames
  inspect bytes s = if s.blind then s else inspect_pushed (push s.decoder bytes) s

  abbrev inspect_rest : SseDecoder × Option Bytes → UsageObservingStream → UsageObservingStream
  inspect_rest (decoder, none) s = record s { decoder = decoder }
  inspect_rest (decoder, some frame) s = inspect_frame frame (record s { decoder = decoder })

  -- The state after an item; the item itself passes on as it came.
  abbrev pub polled : Item → UsageObservingStream → UsageObservingStream
  polled (chunk bytes) s = inspect bytes s
  polled failure s = s
  polled end s =
      report_finished (inspect_rest (finish s.decoder) (record s { upstream_done = true }))

  unfoldable pub next_item : Item → UsageObservingStream → UsageObservingStream
  unfolding inspect report_finished inspect_frame
  next_item item s = if s.upstream_done then s else polled item s

  unfoldable pub next_items : List Item → UsageObservingStream → UsageObservingStream
  unfolding next_item
  next_items [] s = s
  next_items (item ∷ items) s = next_items items (next_item item s)

  -- The life of an observer: it is polled some number of times, and dropped.
  unfoldable pub observe : List Item → UsageObservingStream
  unfolding next_items report_cancelled
  observe items = report_cancelled (next_items items observe_usage)
