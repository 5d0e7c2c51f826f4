-- ===== src/Sse/Drain.antt =====
-- The loop that cuts the frames off the buffer: it ends, and bytes that come later do not change
-- what it has cut off.
use provider_core.Prelude.{
  ℕ, zero, suc, ◌≤◌, ◌≡◌, refl, sym, ◌∙◌, ap, none, some, List, [], ◌++◌, arith, Option-cases, inl,
  inr, length, take, take-append,
}
use provider_core.Sse.{
  Bytes, find_frame_end, after_frame, frame_data, push_data, Drained, drain, drain_all,
}
use provider_core.Sse.Delimiter.{find_frame_end-append, end-le, after_frame-lt, after_frame-append}

-- What a round puts before the rest.
abbrev pub with_frame : Bytes → Drained → Drained
with_frame frame rest = record rest { output = push_data (frame_data frame) rest.output }

drain-none :
    (fuel : ℕ) (bytes : Bytes)
    → find_frame_end bytes ≡ none
    → drain fuel bytes ≡ record { buffer = bytes; output = [] }
unfolding drain
drain-none zero bytes h = refl
drain-none (suc fuel) bytes h = rw (h, drain) refl

drain-some :
    (fuel : ℕ) (bytes : Bytes) (end : ℕ)
    → find_frame_end bytes ≡ some end
    → drain (suc fuel) bytes ≡ with_frame (take end bytes) (drain fuel (after_frame end bytes))
unfolding drain
drain-some fuel bytes end h = rw (h, drain) refl

-- Two runs agree when their rests after a frame do.
drain_agree :
    (f g : ℕ) (bytes : Bytes)
    → ((end : ℕ)
        → find_frame_end bytes ≡ some end
        → drain f (after_frame end bytes) ≡ drain g (after_frame end bytes))
    → drain (suc f) bytes ≡ drain (suc g) bytes
drain_agree f g bytes rests = elim (Option-cases (find_frame_end bytes)) [
  | inl e ↦ rw (drain-none (suc f) bytes e, drain-none (suc g) bytes e) refl
  | inr (end, e) ↦
      drain-some f bytes end e
      ∙ ap (with_frame (take end bytes)) (rests end e)
      ∙ sym (drain-some g bytes end e)
]

-- An empty buffer takes no fuel.
no_frame : (bytes : Bytes) → length bytes ≤ 0 → find_frame_end bytes ≡ none
no_frame bytes h = elim (Option-cases (find_frame_end bytes)) [
  | inl e ↦ e
  | inr (end, e) ↦ absurd (omega (arith, end-le bytes end e))
]

-- Any two amounts of fuel that are at least the length of the buffer give the same result: the
-- loop over the frames ends by itself, and the model's fuel never cuts it short.
pub drain_fuel :
    (f g : ℕ) (bytes : Bytes) → length bytes ≤ f → length bytes ≤ g → drain f bytes ≡ drain g bytes
drain_fuel zero g bytes hf hg =
    rw (drain-none g bytes (no_frame bytes hf)) (drain-none 0 bytes (no_frame bytes hf))
drain_fuel (suc f) zero bytes hf hg =
    rw (drain-none (suc f) bytes (no_frame bytes hg)) (sym (drain-none 0 bytes (no_frame bytes hg)))
drain_fuel (suc f) (suc g) bytes hf hg = drain_agree f g bytes λ end e.
    drain_fuel f g (after_frame end bytes) (omega (arith, after_frame-lt bytes end e))
      (omega (arith, after_frame-lt bytes end e))

pub drain_all-none :
    (bytes : Bytes)
    → find_frame_end bytes ≡ none
    → drain_all bytes ≡ record { buffer = bytes; output = [] }
unfolding drain_all
drain_all-none bytes e = drain-none (length bytes) bytes e

pub drain_all-some :
    (bytes : Bytes) (end : ℕ)
    → find_frame_end bytes ≡ some end
    → drain_all bytes ≡ with_frame (take end bytes) (drain_all (after_frame end bytes))
unfolding drain_all
drain_all-some bytes end e =
    drain_fuel (length bytes) (suc (length bytes)) bytes (omega arith) (omega arith)
    ∙ drain-some (length bytes) bytes end e
    ∙ ap (with_frame (take end bytes)) (
        drain_fuel (length bytes) (length (after_frame end bytes)) (after_frame end bytes)
          (omega (arith, after_frame-lt bytes end e)) (omega arith))

-- Induction over the rounds of the loop.
drain_ind_fuel :
    (P : Bytes → Type 0)
    → ((bytes : Bytes) → find_frame_end bytes ≡ none → P bytes)
    → ((bytes : Bytes) (end : ℕ)
        → find_frame_end bytes ≡ some end
        → P (after_frame end bytes)
        → P bytes)
    → (fuel : ℕ) (bytes : Bytes) → length bytes ≤ fuel
    → P bytes
drain_ind_fuel P last step zero bytes h = last bytes (no_frame bytes h)
drain_ind_fuel P last step (suc fuel) bytes h = elim (Option-cases (find_frame_end bytes)) [
  | inl e ↦ last bytes e
  | inr (end, e) ↦ step bytes end e (
      drain_ind_fuel P last step fuel (after_frame end bytes)
        (omega (arith, after_frame-lt bytes end e)))
]

pub drain_ind :
    (P : Bytes → Type 0)
    → ((bytes : Bytes) → find_frame_end bytes ≡ none → P bytes)
    → ((bytes : Bytes) (end : ℕ)
        → find_frame_end bytes ≡ some end
        → P (after_frame end bytes)
        → P bytes)
    → (bytes : Bytes) → P bytes
drain_ind P last step bytes = drain_ind_fuel P last step (length bytes) bytes (omega arith)

-- More output before that of a run.
abbrev pub after_output : List Bytes → Drained → Drained
after_output output rest = record rest { output = output ++ rest.output }

with_frame-after_output :
    (frame : Bytes) (output : List Bytes) (rest : Drained)
    → with_frame frame (after_output output rest)
      ≡ after_output (push_data (frame_data frame) output) rest
with_frame-after_output frame output rest = ground arith

-- To drain a buffer with more bytes is to drain the buffer, and then what it left with the bytes.
pub drain_all-append :
    (bytes more : Bytes)
    → drain_all (bytes ++ more)
      ≡ after_output (drain_all bytes).output (drain_all ((drain_all bytes).buffer ++ more))
drain_all-append bytes more =
    drain_ind
      (λ b.
        drain_all (b ++ more)
        ≡ after_output (drain_all b).output (drain_all ((drain_all b).buffer ++ more)))
      (λ b e. rw (drain_all-none b e) refl) (λ b end e ih. step b end e ih) bytes
  where
    step :
        (b : Bytes) (end : ℕ)
        → find_frame_end b ≡ some end
        → drain_all (after_frame end b ++ more)
          ≡ after_output
              (drain_all (after_frame end b)).output
              (drain_all ((drain_all (after_frame end b)).buffer ++ more))
        → drain_all (b ++ more)
          ≡ after_output (drain_all b).output (drain_all ((drain_all b).buffer ++ more))
    step b end e ih =
        drain_all-some (b ++ more) end (find_frame_end-append b more end e)
        ∙ rw
            (
              take-append end b more (omega (arith, end-le b end e)),
              after_frame-append b more end e,
              drain_all-some b end e,
              ih,
            )
            (with_frame-after_output (take end b) (drain_all (after_frame end b)).output
              (drain_all ((drain_all (after_frame end b)).buffer ++ more)))
