-- ===== src/UsageObserver/Frames.antt =====
-- What is observed does not depend on how the bytes of the response are cut into chunks.
use provider_core.Prelude.{
  ◌≡◌, ◌∙◌, refl, sym, ap, false, Option, none, some, List, [], ◌∷◌, ◌++◌, arith, map,
}
use provider_core.Prelude.Results.{ok}
use provider_core.Sse.{Bytes, SseDecoder, fresh, push}
use provider_core.Sse.Chunks.{feed, concat, feed-cons, feed-nil, push-concat}
use provider_core.UsageObserver.Facts.{ObservedFrame}
use provider_core.UsageObserver.{
  UsageObservingStream, observe_usage, inspect_facts, chunk, inspect_found, inspect_frame,
  inspect_frames, inspect, next_item, next_items,
}

abbrev with_decoder : SseDecoder → UsageObservingStream → UsageObservingStream
with_decoder d s = record s { decoder = d }

inspect_facts-with_decoder :
    (f : ObservedFrame) (d : SseDecoder) (s : UsageObservingStream)
    → inspect_facts f (with_decoder d s) ≡ with_decoder d (inspect_facts f s)
inspect_facts-with_decoder f d s = ground arith

-- Frames change neither the decoder nor the two flags.
record Keeps (s later : UsageObservingStream) : Type 0 where
  same_decoder : later.decoder ≡ s.decoder
  same_blind : later.blind ≡ s.blind
  same_done : later.upstream_done ≡ s.upstream_done

inspect_facts-Keeps : (f : ObservedFrame) (s : UsageObservingStream) → Keeps s (inspect_facts f s)
inspect_facts-Keeps f s = record {
  same_decoder = ground arith;
  same_blind = ground arith;
  same_done = ground arith;
}

module _ (extractor : Bytes → Option ObservedFrame) where
  inspect_found-with_decoder :
      (found : Option ObservedFrame) (d : SseDecoder) (s : UsageObservingStream)
      → inspect_found extractor found (with_decoder d s)
        ≡ with_decoder d (inspect_found extractor found s)
  inspect_found-with_decoder none d s = refl
  inspect_found-with_decoder (some f) d s = inspect_facts-with_decoder f d s

  inspect_found-Keeps :
      (found : Option ObservedFrame) (s : UsageObservingStream)
      → Keeps s (inspect_found extractor found s)
  inspect_found-Keeps none s = record { same_decoder = refl; same_blind = refl; same_done = refl }
  inspect_found-Keeps (some f) s = inspect_facts-Keeps f s

  inspect_frames-with_decoder :
      (frames : List Bytes) (d : SseDecoder) (s : UsageObservingStream)
      → inspect_frames extractor frames (with_decoder d s)
        ≡ with_decoder d (inspect_frames extractor frames s)
  unfolding inspect_frames inspect_frame
  inspect_frames-with_decoder [] d s = refl
  inspect_frames-with_decoder (frame ∷ frames) d s =
      ap (inspect_frames extractor frames) (inspect_found-with_decoder (extractor frame) d s)
      ∙ inspect_frames-with_decoder frames d (inspect_found extractor (extractor frame) s)

  inspect_frames-Keeps :
      (frames : List Bytes) (s : UsageObservingStream) → Keeps s (inspect_frames extractor frames s)
  unfolding inspect_frames inspect_frame
  inspect_frames-Keeps [] s = record { same_decoder = refl; same_blind = refl; same_done = refl }
  inspect_frames-Keeps (frame ∷ frames) s =
      let first = inspect_found-Keeps (extractor frame) s in
      let later = inspect_frames-Keeps frames (inspect_found extractor (extractor frame) s) in
      record {
        same_decoder = later.same_decoder ∙ first.same_decoder;
        same_blind = later.same_blind ∙ first.same_blind;
        same_done = later.same_done ∙ first.same_done;
      }

  inspect_frames-append :
      (frames more : List Bytes) (s : UsageObservingStream)
      → inspect_frames extractor (frames ++ more) s
        ≡ inspect_frames extractor more (inspect_frames extractor frames s)
  unfolding inspect_frames
  inspect_frames-append [] more s = refl
  inspect_frames-append (frame ∷ frames) more s =
      inspect_frames-append frames more (inspect_frame extractor frame s)

  -- One chunk that the decoder accepts.
  next_item-ok :
      (bytes : Bytes) (frames : List Bytes) (d : SseDecoder) (s : UsageObservingStream)
      → s.upstream_done ≡ false
      → s.blind ≡ false
      → push s.decoder bytes ≡ (d, ok frames)
      → next_item extractor (chunk bytes) s ≡ inspect_frames extractor frames (with_decoder d s)
  unfolding next_item inspect
  next_item-ok bytes frames d s more sees accepted = simp (more, sees, accepted)

  -- Chunks that the decoder accepts one by one.
  next_items-feed :
      (chunks : List Bytes) (output : List Bytes) (d : SseDecoder) (s : UsageObservingStream)
      → s.upstream_done ≡ false
      → s.blind ≡ false
      → feed s.decoder chunks ≡ (d, ok output)
      → next_items extractor (map chunk chunks) s
        ≡ inspect_frames extractor output (with_decoder d s)
  unfolding next_items
  next_items-feed [] output d s more sees h =
      let (same, nothing) = feed-nil s.decoder d output h in
      rw nothing (unfold inspect_frames in ap (λ x. with_decoder x s) same)
  next_items-feed (bytes ∷ chunks) output d s more sees h =
      let (d1, first, later, first_ok, rest_ok, joined) =
        feed-cons s.decoder d bytes chunks output h in
      let s1 = inspect_frames extractor first (with_decoder d1 s) in
      let kept = inspect_frames-Keeps first (with_decoder d1 s) in
      ap (next_items extractor (map chunk chunks))
        (next_item-ok bytes first d1 s more sees first_ok)
      ∙ next_items-feed chunks later d s1 (kept.same_done ∙ more) (kept.same_blind ∙ sees)
          (ap (λ x. feed x chunks) kept.same_decoder ∙ rest_ok)
      ∙ ap (inspect_frames extractor later)
          (sym (inspect_frames-with_decoder first d (with_decoder d1 s)))
      ∙ sym (inspect_frames-append first later (with_decoder d s))
      ∙ ap (λ frames. inspect_frames extractor frames (with_decoder d s)) (sym joined)

  -- Where the decoder accepts a response chunk by chunk, the observer is left as by the same bytes
  -- in one chunk: what it was told, the usage and the terminal do not depend on the cuts.
  pub next_items-concat :
      (bytes : Bytes) (chunks : List Bytes) (output : List Bytes) (d : SseDecoder)
      → feed fresh (bytes ∷ chunks) ≡ (d, ok output)
      → next_items extractor (map chunk (bytes ∷ chunks)) observe_usage
        ≡ next_items extractor (chunk (concat (bytes ∷ chunks)) ∷ []) observe_usage
  unfolding next_items
  next_items-concat bytes chunks output d h =
      next_items-feed (bytes ∷ chunks) output d observe_usage refl refl h
      ∙ sym (
          next_item-ok (concat (bytes ∷ chunks)) output d observe_usage refl refl
            (push-concat fresh d bytes chunks output h))
