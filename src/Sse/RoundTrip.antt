-- ===== src/Sse/RoundTrip.antt =====
-- Events that are written as frames come out of the decoder again.
use provider_core.Prelude.{
  ℕ, ◌≡◌, ◌≢◌, refl, ◌∙◌, ap, false, some, List, [], ◌∷◌, ◌++◌, arith, All, length, take, drop,
}
use provider_core.Prelude.Results.{ok}
use provider_core.Sse.{
  Bytes, lf, data_prefix, split_lines, strip_cr, fresh, collect_data, frame_data, find_frame_end,
  after_frame, push, drain_all,
}
use provider_core.Sse.Chunks.{push_open}
use provider_core.Sse.Delimiter.{at_delimiter, find_frame_end-cons, find_frame_end-nil}
use provider_core.Sse.Drain.{drain_all-none, drain_all-some}

-- A line that a frame carries as it is.
pub record IsLine (line : Bytes) : Type 0 where
  pub no_lf : All (λ c. c ≢ lf) line
  pub no_cr_end : strip_cr line ≡ line

-- An event's data: a line that is not empty.
abbrev pub IsPayload : Bytes → Type 0
IsPayload payload = IsLine payload × (payload ≢ [])

-- `data: …`, with a blank line after it.
abbrev data_line : Bytes → Bytes
data_line payload = data_prefix ++ b' ' ∷ payload

unfoldable pub encode : List Bytes → Bytes
encode [] = []
encode (payload ∷ payloads) = data_line payload ++ lf ∷ lf ∷ encode payloads

data_line-IsLine : (payload : Bytes) → IsLine payload → IsLine (data_line payload)
unfolding strip_cr
data_line-IsLine payload h = record {
  no_lf = ground (arith, h.no_lf);
  no_cr_end = ap (λ p. data_prefix ++ b' ' ∷ p) h.no_cr_end;
}

split_lines_one : (line : Bytes) → All (λ c. c ≢ lf) line → split_lines line ≡ line ∷ []
unfolding split_lines
split_lines_one [] h = refl
split_lines_one (c ∷ line) h = rw (split_lines_one line h.1) (ground arith)

strip_cr-tail : (c : ℕ) (line : Bytes) → strip_cr (c ∷ line) ≡ c ∷ line → strip_cr line ≡ line
unfolding strip_cr
strip_cr-tail c [] h = refl
strip_cr-tail c (d ∷ line) h = ground arith

-- Within a line, no delimiter starts.
no_delimiter :
    (c : ℕ) (line rest : Bytes)
    → All (λ d. d ≢ lf) (c ∷ line)
    → strip_cr (c ∷ line) ≡ c ∷ line
    → at_delimiter (c ∷ line ++ lf ∷ lf ∷ rest) ≡ false
unfolding strip_cr
no_delimiter c [] rest h s = ground arith
no_delimiter c (d ∷ line) rest h s = ground arith

find_frame_end-line :
    (line rest : Bytes)
    → All (λ c. c ≢ lf) line
    → strip_cr line ≡ line
    → find_frame_end (line ++ lf ∷ lf ∷ rest) ≡ some (length line)
find_frame_end-line [] rest h s = rw (find_frame_end-cons lf (lf ∷ rest)) refl
find_frame_end-line (c ∷ line) rest h s =
    rw
      (
        find_frame_end-cons c (line ++ lf ∷ lf ∷ rest),
        no_delimiter c line rest h s,
        find_frame_end-line line rest h.1 (strip_cr-tail c line s),
      )
      refl

take-line : (line rest : Bytes) → take (length line) (line ++ rest) ≡ line
take-line [] rest = refl
take-line (c ∷ line) rest = ap (λ l. c ∷ l) (take-line line rest)

drop-line : (line rest : Bytes) → drop (length line) (line ++ rest) ≡ rest
drop-line [] rest = refl
drop-line (c ∷ line) rest = drop-line line rest

after_frame-line : (line rest : Bytes) → after_frame (length line) (line ++ lf ∷ lf ∷ rest) ≡ rest
after_frame-line line rest = rw (drop-line line (lf ∷ lf ∷ rest)) refl

frame_data-data_line :
    (payload : Bytes) → IsPayload payload → frame_data (data_line payload) ≡ some payload
unfolding frame_data collect_data
frame_data-data_line [] h = absurd (h.1 refl)
frame_data-data_line (c ∷ payload) h =
    let line = data_line-IsLine (c ∷ payload) h.0 in
    rw (split_lines_one (data_line (c ∷ payload)) line.no_lf, line.no_cr_end) refl

drain_all-encode :
    (payloads : List Bytes)
    → All IsPayload payloads
    → drain_all (encode payloads) ≡ record { buffer = []; output = payloads }
unfolding encode
drain_all-encode [] h = drain_all-none [] find_frame_end-nil
drain_all-encode (payload ∷ payloads) h =
    let line = data_line-IsLine payload h.0.0 in
    drain_all-some (data_line payload ++ lf ∷ lf ∷ encode payloads) (length (data_line payload))
      (find_frame_end-line (data_line payload) (encode payloads) line.no_lf line.no_cr_end)
    ∙ rw
        (
          take-line (data_line payload) (lf ∷ lf ∷ encode payloads),
          after_frame-line (data_line payload) (encode payloads),
          frame_data-data_line payload h.0,
          drain_all-encode payloads h.1,
        )
        refl

-- Any sequence of events, each of one line that is not empty, comes out of a fresh decoder as it
-- was written, in order, with nothing left in the buffer, however long the stream is.
pub push-encode :
    (payloads : List Bytes)
    → All IsPayload payloads
    → push fresh (encode payloads) ≡ (fresh, ok payloads)
push-encode payloads h =
    push_open fresh (encode payloads) refl ∙ rw (drain_all-encode payloads h) refl
