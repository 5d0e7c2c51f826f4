-- ===== src/UsageObserver/Once.antt =====
-- The attempt is told of the end of its response exactly once, as the last thing.
use provider_core.Prelude.{
  ℕ, ◌+◌, ◌≡◌, ◌∙◌, refl, sym, ap, Bool, true, false, Option, none, some, List, [], ◌∷◌, ◌++◌,
  arith, Text, Bool-cases, inl, inr,
}
use provider_core.Prelude.Results.{ok, err}
use provider_core.Usage.Raw.{RawUsageFields}
use provider_core.Sse.{Bytes, SseDecoder, Pushed, push, finish}
use provider_core.Tracking.Attempt.{
  AttemptEvent, stream_opened, first_token_observed, success_terminal_observed,
  provider_model_observed, observation_lost, finished, cancelled, failed, dropped,
}
use provider_core.UsageObserver.Facts.{ObservedFrame}
use provider_core.UsageObserver.{
  UsageObservingStream, observe_usage, tell, model_events, token_events, frame_events,
  success_events, report, report_finished, cancel_event, report_cancelled, Item, chunk, failure,
  end, inspect_found, inspect_frame, inspect_frames, inspect_pushed, inspect, inspect_rest, polled,
  next_item, next_items, observe,
}

abbrev pub is_ending : AttemptEvent → ℕ
is_ending stream_opened = 0
is_ending first_token_observed = 0
is_ending success_terminal_observed = 0
is_ending (provider_model_observed model) = 0
is_ending observation_lost = 0
is_ending (finished fields) = 1
is_ending (cancelled fields) = 1
is_ending (failed answered reason) = 1
is_ending dropped = 1

-- The events that end an attempt.
unfoldable pub endings : List AttemptEvent → ℕ
endings [] = 0
endings (e ∷ events) = is_ending e + endings events

-- Whether the last event ends the attempt.
unfoldable pub ends_last : List AttemptEvent → ℕ
ends_last [] = 0
ends_last (e ∷ []) = is_ending e
ends_last (e ∷ f ∷ events) = ends_last (f ∷ events)

-- Nothing of the end is told while the attempt is held; then it is told once and last.
pub record IsTold (s : UsageObservingStream) : Type 0 where
  pub held : s.attempt ≡ true → endings s.told ≡ 0
  pub once : s.attempt ≡ false → endings s.told ≡ 1
  pub last : s.attempt ≡ false → ends_last s.told ≡ 1

endings-append : (es fs : List AttemptEvent) → endings (es ++ fs) ≡ endings es + endings fs
unfolding endings
endings-append [] fs = omega arith
endings-append (e ∷ es) fs = omega (arith, endings-append es fs)

ends_last-snoc :
    (es : List AttemptEvent) (e : AttemptEvent) → ends_last (es ++ e ∷ []) ≡ is_ending e
unfolding ends_last
ends_last-snoc [] e = refl
ends_last-snoc (f ∷ []) e = refl
ends_last-snoc (f ∷ g ∷ es) e = ends_last-snoc (g ∷ es) e

tell-IsTold :
    (events : List AttemptEvent) (s : UsageObservingStream)
    → endings events ≡ 0
    → IsTold s
    → IsTold (tell events s)
tell-IsTold events s n h = record {
  held = λ e. ground (arith, endings-append s.told events);
  once = λ e. ground arith;
  last = λ e. ground arith;
}

-- What the state keeps besides the attempt does not matter.
same_told :
    (s later : UsageObservingStream)
    → later.attempt ≡ s.attempt
    → later.told ≡ s.told
    → IsTold s
    → IsTold later
same_told s later a t h = record {
  held = λ e. ap endings t ∙ h.held (sym a ∙ e);
  once = λ e. ap endings t ∙ h.once (sym a ∙ e);
  last = λ e. ap ends_last t ∙ h.last (sym a ∙ e);
}

model_and_token :
    (model : Option Text) (first_token : Bool)
    → endings (model_events model ++ token_events first_token) ≡ 0
unfolding endings
model_and_token none true = refl
model_and_token none false = refl
model_and_token (some model) true = refl
model_and_token (some model) false = refl

frame_events-endings : (f : ObservedFrame) → endings (frame_events f) ≡ 0
frame_events-endings f = model_and_token f.model f.first_token

success_events-endings : (seen : Option Bool) → endings (success_events seen) ≡ 0
unfolding endings
success_events-endings none = refl
success_events-endings (some true) = refl
success_events-endings (some false) = refl

endings-one : (e : AttemptEvent) → endings (e ∷ []) ≡ is_ending e
unfolding endings
endings-one e = omega arith

report-IsTold :
    (e : AttemptEvent) (s : UsageObservingStream) → is_ending e ≡ 1 → IsTold s → IsTold (report e s)
report-IsTold e s ends h =
    let told = s.told ++ success_events s.successful_terminal in
    record {
      held = λ a. ground arith;
      once = λ a. ground (
        arith,
        ends,
        endings-one e,
        endings-append told (e ∷ []),
        endings-append s.told (success_events s.successful_terminal),
        success_events-endings s.successful_terminal,
      );
      last = λ a. ground (arith, ends, ends_last-snoc told e);
    }

cancel_event-ends :
    (seen : Option Bool) (latest : Option RawUsageFields) → is_ending (cancel_event seen latest) ≡ 1
cancel_event-ends none latest = refl
cancel_event-ends (some successful) latest = refl

report_finished-IsTold : (s : UsageObservingStream) → IsTold s → IsTold (report_finished s)
unfolding report_finished
report_finished-IsTold s h = report-IsTold (finished s.latest) s refl h

report_cancelled-IsTold : (s : UsageObservingStream) → IsTold s → IsTold (report_cancelled s)
unfolding report_cancelled
report_cancelled-IsTold s h = report-IsTold _ s (cancel_event-ends s.successful_terminal s.latest) h

report_cancelled-attempt : (s : UsageObservingStream) → (report_cancelled s).attempt ≡ false
unfolding report_cancelled
report_cancelled-attempt s = ground arith

module _ (extractor : Bytes → Option ObservedFrame) where
  inspect_found-IsTold :
      (found : Option ObservedFrame) (s : UsageObservingStream)
      → IsTold s
      → IsTold (inspect_found extractor found s)
  inspect_found-IsTold none s h = h
  inspect_found-IsTold (some f) s h =
      same_told (tell (frame_events f) s) _ refl refl
        (tell-IsTold (frame_events f) s (frame_events-endings f) h)

  inspect_frames-IsTold :
      (frames : List Bytes) (s : UsageObservingStream)
      → IsTold s
      → IsTold (inspect_frames extractor frames s)
  unfolding inspect_frames inspect_frame
  inspect_frames-IsTold [] s h = h
  inspect_frames-IsTold (frame ∷ frames) s h =
      inspect_frames-IsTold frames _ (inspect_found-IsTold (extractor frame) s h)

  inspect_pushed-IsTold :
      (pushed : Pushed) (s : UsageObservingStream)
      → IsTold s
      → IsTold (inspect_pushed extractor pushed s)
  unfolding endings
  inspect_pushed-IsTold (decoder, ok frames) s h =
      inspect_frames-IsTold frames _ (same_told s _ refl refl h)
  inspect_pushed-IsTold (decoder, err too_large) s h =
      tell-IsTold (observation_lost ∷ []) _ refl (same_told s _ refl refl h)

  inspect_rest-IsTold :
      (rest : SseDecoder × Option Bytes) (s : UsageObservingStream)
      → IsTold s
      → IsTold (inspect_rest extractor rest s)
  unfolding inspect_frame
  inspect_rest-IsTold (decoder, none) s h = same_told s _ refl refl h
  inspect_rest-IsTold (decoder, some frame) s h =
      inspect_found-IsTold (extractor frame) _ (same_told s _ refl refl h)

  polled-IsTold :
      (item : Item) (s : UsageObservingStream) → IsTold s → IsTold (polled extractor item s)
  unfolding inspect
  polled-IsTold (chunk bytes) s h = elim (Bool-cases s.blind) [
    | inl blind ↦ simp blind h
    | inr sees ↦ simp sees (inspect_pushed-IsTold (push s.decoder bytes) s h)
  ]
  polled-IsTold failure s h = h
  polled-IsTold end s h =
      report_finished-IsTold _
        (inspect_rest-IsTold (finish s.decoder) _ (same_told s _ refl refl h))

  next_items-IsTold :
      (items : List Item) (s : UsageObservingStream)
      → IsTold s
      → IsTold (next_items extractor items s)
  unfolding next_items next_item
  next_items-IsTold [] s h = h
  next_items-IsTold (item ∷ items) s h =
      next_items-IsTold items _ (elim (Bool-cases s.upstream_done) [
        | inl over ↦ simp over h
        | inr more ↦ simp more (polled-IsTold item s h)
      ])

  -- However often a stream is polled and whatever its upstream brings before it is dropped, its
  -- attempt is told exactly once that the response ended, and nothing after it.
  pub observe_once :
      (items : List Item)
      → (endings (observe extractor items).told ≡ 1)
        × (ends_last (observe extractor items).told ≡ 1)
  unfolding observe endings
  observe_once items =
      let s = next_items extractor items observe_usage in
      let h = report_cancelled-IsTold s (
        next_items-IsTold items observe_usage
          (record { held = λ e. refl; once = λ e. cc; last = λ e. cc })) in
      (h.once (report_cancelled-attempt s), h.last (report_cancelled-attempt s))
