-- ===== src/Sse/Tests.antt =====
-- Runs of the decoder, and its theorems at a concrete stream.
use provider_core.Prelude.{◌≡◌, refl, true, [], ◌∷◌, ◌++◌, arith, All}
use provider_core.Prelude.Results.{ok, err}
use provider_core.Sse.{
  Bytes, fresh, SseDecoder, frame_too_large, push, drain, drain_all, find_frame_end, position_of,
  frame_data, collect_data, split_lines, strip_cr,
}
use provider_core.Sse.Chunks.{prepend, feed, push-append}
use provider_core.Sse.Pending.{IsPending, push-sticky}
use provider_core.Sse.RoundTrip.{IsPayload, encode, push-encode}

-- The data "hi" and "yo".
abbrev hi : Bytes
hi = b'h' ∷ b'i' ∷ []

abbrev yo : Bytes
yo = b'y' ∷ b'o' ∷ []

-- "data: hi" with the first half of a delimiter in CRLF, and the other half.
abbrev first_half : Bytes
first_half = b'd' ∷ b'a' ∷ b't' ∷ b'a' ∷ b':' ∷ b' ' ∷ b'h' ∷ b'i' ∷ b'\r' ∷ b'\n' ∷ []

abbrev second_half : Bytes
second_half = b'\r' ∷ b'\n' ∷ []

abbrev waiting : SseDecoder
waiting = record fresh { buffer = first_half }

first_push : push fresh first_half ≡ (waiting, ok [])
unfolding push drain_all drain find_frame_end position_of
first_push = refl

whole_push : push fresh (first_half ++ second_half) ≡ (fresh, ok (hi ∷ []))
unfolding push drain_all drain find_frame_end position_of frame_data collect_data split_lines
    strip_cr
whole_push = refl

push-append_example : push fresh (first_half ++ second_half) ≡ prepend [] (push waiting second_half)
push-append_example = push-append fresh waiting first_half second_half [] first_push

two_pushes : feed fresh (first_half ∷ second_half ∷ []) ≡ (fresh, ok (hi ∷ []))
unfolding feed push drain_all drain find_frame_end position_of frame_data collect_data split_lines
    strip_cr
two_pushes = refl

payloads-IsPayload : All IsPayload (hi ∷ yo ∷ [])
unfolding strip_cr
payloads-IsPayload = (
  (record { no_lf = ground arith; no_cr_end = refl }, ground arith),
  ((record { no_lf = ground arith; no_cr_end = refl }, ground arith), tt),
)

push-encode_example : push fresh (encode (hi ∷ yo ∷ [])) ≡ (fresh, ok (hi ∷ yo ∷ []))
push-encode_example = push-encode (hi ∷ yo ∷ []) payloads-IsPayload

waiting-IsPending : IsPending waiting
unfolding find_frame_end position_of
waiting-IsPending = record {
  small = omega arith;
  incomplete = refl;
  released = λ e. absurd (ground arith);
}

abbrev refused : SseDecoder
refused = record { buffer = []; overflowed = true }

refused-IsPending : IsPending refused
unfolding find_frame_end position_of
refused-IsPending = record { small = omega arith; incomplete = refl; released = λ e. refl }

push-refused : push refused hi ≡ (refused, err frame_too_large)
unfolding push
push-refused = refl

push-sticky_example :
    (refused.buffer ≡ []) × (push refused second_half ≡ (refused, err frame_too_large))
push-sticky_example =
    push-sticky refused refused hi second_half frame_too_large refused-IsPending push-refused
