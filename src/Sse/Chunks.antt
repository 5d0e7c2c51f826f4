-- ===== src/Sse/Chunks.antt =====
-- How a stream is cut into chunks does not change the frames that come out of it.
use provider_core.Prelude.{◌≡◌, refl, sym, ◌∙◌, ap, false, List, [], ◌∷◌, ◌++◌, arith}
use provider_core.Prelude.Results.{ok, err}
use provider_core.Sse.{Bytes, SseDecoder, Drained, Pushed, settle, drain_all, push}
use provider_core.Sse.Drain.{after_output, drain_all-append}

-- The frames of an earlier push before those of a later one.
abbrev pub prepend : List Bytes → Pushed → Pushed
prepend output (d, ok later) = (d, ok (output ++ later))
prepend output (d, err e) = (d, err e)

settle-after_output :
    (output : List Bytes) (rest : Drained)
    → settle (after_output output rest) ≡ prepend output (settle rest)
settle-after_output output rest = ground arith

append_assoc : (a b c : Bytes) → a ++ (b ++ c) ≡ (a ++ b) ++ c
append_assoc [] b c = refl
append_assoc (x ∷ a) b c = ap (λ r. x ∷ r) (append_assoc a b c)

settle-ok :
    (drained : Drained) (d : SseDecoder) (output : List Bytes)
    → settle drained ≡ (d, ok output)
    → (d.buffer ≡ drained.buffer) × (d.overflowed ≡ false) × (output ≡ drained.output)
settle-ok drained d output h = ground arith

push-ok :
    (d d1 : SseDecoder) (chunk : Bytes) (output : List Bytes)
    → push d chunk ≡ (d1, ok output)
    → (d.overflowed ≡ false) × (settle (drain_all (d.buffer ++ chunk)) ≡ (d1, ok output))
unfolding push
push-ok d d1 chunk output h = ground arith

pub push_open :
    (d : SseDecoder) (chunk : Bytes)
    → d.overflowed ≡ false
    → push d chunk ≡ settle (drain_all (d.buffer ++ chunk))
unfolding push
push_open d chunk h = rw h refl

-- Where a chunk is accepted, pushing it and then more is the same as pushing both at once: the
-- same frames in the same order, or the same refusal, and the same decoder afterwards.
pub push-append :
    (d d1 : SseDecoder) (chunk more : Bytes) (output : List Bytes)
    → push d chunk ≡ (d1, ok output)
    → push d (chunk ++ more) ≡ prepend output (push d1 more)
push-append d d1 chunk more output h =
    let (still_open, settled) = push-ok d d1 chunk output h in
    let (buffer, open_after, drained) =
      settle-ok (drain_all (d.buffer ++ chunk)) d1 output settled in
    push_open d (chunk ++ more) still_open
    ∙ rw
        (
          append_assoc d.buffer chunk more,
          drain_all-append (d.buffer ++ chunk) more,
          push_open d1 more open_after,
          buffer,
          drained,
        )
        (settle-after_output (drain_all (d.buffer ++ chunk)).output
          (drain_all ((drain_all (d.buffer ++ chunk)).buffer ++ more)))

abbrev continue : Pushed → (SseDecoder → Pushed) → Pushed
continue (d, ok output) rest = prepend output (rest d)
continue (d, err e) rest = (d, err e)

-- A stream that arrives in chunks; the first refusal ends it.
unfoldable pub feed : SseDecoder → List Bytes → Pushed
feed d [] = (d, ok [])
feed d (chunk ∷ chunks) = continue (push d chunk) (λ d1. feed d1 chunks)

unfoldable pub concat : List Bytes → Bytes
concat [] = []
concat (chunk ∷ chunks) = chunk ++ concat chunks

continue-ok :
    (pushed : Pushed) (rest : SseDecoder → Pushed) (d2 : SseDecoder) (output : List Bytes)
    → continue pushed rest ≡ (d2, ok output)
    → (d1 : SseDecoder) × (first : List Bytes) × (later : List Bytes) × (pushed ≡ (d1, ok first))
      × (rest d1 ≡ (d2, ok later))
      × (output ≡ first ++ later)
continue-ok (d, ok first) rest d2 output h =
    let (later, e, o) = prepend-ok first (rest d) d2 output h in (d, first, later, refl, e, o)
  where
    prepend-ok :
        (first : List Bytes) (pushed : Pushed) (d2 : SseDecoder) (output : List Bytes)
        → prepend first pushed ≡ (d2, ok output)
        → (later : List Bytes) × (pushed ≡ (d2, ok later)) × (output ≡ first ++ later)
    prepend-ok first (d, ok later) d2 output h = (later, ground arith, ground arith)
    prepend-ok first (d, err e) d2 output h = absurd (ground arith)
continue-ok (d, err e) rest d2 output h = absurd (ground arith)

pub append_nil {ℓ} : {A : Type ℓ} (xs : List A) → xs ++ [] ≡ xs
append_nil [] = refl
append_nil (x ∷ xs) = ap (λ r. x ∷ r) (append_nil xs)

abbrev pushed : SseDecoder → List Bytes → Pushed
pushed d output = (d, ok output)

pub feed-nil :
    (d d2 : SseDecoder) (output : List Bytes)
    → feed d [] ≡ (d2, ok output)
    → (d ≡ d2) × (output ≡ [])
unfolding feed
feed-nil d d2 output h = (ap (λ r. r.0) h, ground arith)

pub feed-cons :
    (d d2 : SseDecoder) (chunk : Bytes) (chunks : List Bytes) (output : List Bytes)
    → feed d (chunk ∷ chunks) ≡ (d2, ok output)
    → (d1 : SseDecoder) × (first : List Bytes) × (later : List Bytes) × (push d chunk
        ≡ (d1, ok first))
      × (feed d1 chunks ≡ (d2, ok later))
      × (output ≡ first ++ later)
unfolding feed
feed-cons d d2 chunk chunks output h = continue-ok (push d chunk) (λ d1. feed d1 chunks) d2 output h

-- A stream that is accepted chunk by chunk gives the frames, and leaves the decoder, of the same
-- bytes pushed at once. So two ways to cut the same bytes that are both accepted agree.
pub push-concat :
    (d d2 : SseDecoder) (chunk : Bytes) (chunks : List Bytes) (output : List Bytes)
    → feed d (chunk ∷ chunks) ≡ (d2, ok output)
    → push d (concat (chunk ∷ chunks)) ≡ (d2, ok output)
unfolding concat
push-concat d d2 chunk [] output h =
    let (d1, first, later, first_ok, rest_ok, joined) = feed-cons d d2 chunk [] output h in
    let (same_decoder, no_more) = feed-nil d1 d2 later rest_ok in
    rw (append_nil chunk) (first_ok ∙ both d1 first later same_decoder no_more joined)
  where
    both :
        (d1 : SseDecoder) (first later : List Bytes)
        → d1 ≡ d2
        → later ≡ []
        → output ≡ first ++ later
        → pushed d1 first ≡ pushed d2 output
    both d1 first later same none_left joined =
        ap (λ x. pushed x first) same
        ∙ ap (pushed d2) (sym (joined ∙ ap (λ l. first ++ l) none_left ∙ append_nil first))
push-concat d d2 chunk (next ∷ chunks) output h =
    let (d1, first, later, first_ok, rest_ok, joined) =
      feed-cons d d2 chunk (next ∷ chunks) output h in
    push-append d d1 chunk (concat (next ∷ chunks)) first first_ok
    ∙ ap (prepend first) (push-concat d1 d2 next chunks later rest_ok)
    ∙ ap (pushed d2) (sym joined)
