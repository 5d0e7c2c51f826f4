-- ===== src/Sse/Pending.antt =====
-- What the decoder holds between chunks, and what follows a refusal.
use provider_core.Prelude.{
  ◌≤◌, ◌≡◌, refl, true, none, [], ◌++◌, arith, length, ltb, Bool-cases, inl, inr,
}
use provider_core.Prelude.Results.{err}
use provider_core.Sse.{
  Bytes, max_pending_frame, SseDecoder, SseFrameTooLarge, frame_too_large, find_frame_end, Drained,
  drain_all, settle, push,
}
use provider_core.Sse.Chunks.{push_open}
use provider_core.Sse.Delimiter.{find_frame_end-nil}
use provider_core.Sse.Drain.{drain_ind, drain_all-none, drain_all-some}

-- At most one incomplete frame, of at most `max_pending_frame` bytes, and nothing after a refusal.
pub record IsPending (d : SseDecoder) : Type 0 where
  pub small : length d.buffer ≤ max_pending_frame
  pub incomplete : find_frame_end d.buffer ≡ none
  pub released : d.overflowed ≡ true → d.buffer ≡ []

drain_all-incomplete : (bytes : Bytes) → find_frame_end (drain_all bytes).buffer ≡ none
drain_all-incomplete =
    drain_ind (λ b. find_frame_end (drain_all b).buffer ≡ none) (λ b e. rw (drain_all-none b e) e)
      (λ b end e ih. rw (drain_all-some b end e) ih)

settle-IsPending :
    (drained : Drained) → find_frame_end drained.buffer ≡ none → IsPending (settle drained).0
settle-IsPending drained h = elim (Bool-cases (ltb max_pending_frame (length drained.buffer))) [
  | inl large ↦
      rw large
        (record { small = omega arith; incomplete = find_frame_end-nil; released = λ _. refl })
  | inr fits ↦
      rw fits
        (record { small = ground arith; incomplete = h; released = λ e. absurd (ground arith) })
]

push_refused :
    (d : SseDecoder) (chunk : Bytes) → d.overflowed ≡ true → push d chunk ≡ (d, err frame_too_large)
unfolding push
push_refused d chunk h = ground arith

-- Whatever chunk comes in, the decoder keeps at most one incomplete frame within the limit, and
-- no byte once it has refused.
pub push-IsPending : (d : SseDecoder) (chunk : Bytes) → IsPending d → IsPending (push d chunk).0
push-IsPending d chunk h = elim (Bool-cases d.overflowed) [
  | inl over ↦ rw (push_refused d chunk over) h
  | inr still_open ↦
      rw (push_open d chunk still_open) (
        settle-IsPending (drain_all (d.buffer ++ chunk)) (drain_all-incomplete (d.buffer ++ chunk)))
]

-- A refused chunk empties the buffer, and every later chunk is refused and changes nothing.
pub push-sticky :
    (d d1 : SseDecoder) (chunk more : Bytes) (e : SseFrameTooLarge)
    → IsPending d
    → push d chunk ≡ (d1, err e)
    → (d1.buffer ≡ []) × (push d1 more ≡ (d1, err frame_too_large))
unfolding push
push-sticky d d1 chunk more e h refused = ground arith
