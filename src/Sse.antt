-- ===== src/Sse.antt =====
-- The decoder of server-sent events: crates/provider-protocol/src/sse.rs. A byte is a number, and
-- a buffer the list of its bytes.
pub mod Delimiter
pub mod Drain
pub mod Chunks
pub mod Pending
pub mod RoundTrip
mod Tests
use provider_core.Prelude.{
  ℕ, zero, suc, ◌+◌, ◌*◌, Bool, true, false, ◌&&◌, Option, none, some, List, [], ◌∷◌, ◌++◌,
  if◌then◌else◌, ltb, ◌==◌, is_empty, length, take, drop,
}
use provider_core.Prelude.Results.{Result, ok, err}

abbrev pub Bytes : Type 0
Bytes = List ℕ

abbrev pub max_pending_frame : ℕ
max_pending_frame = 1024 * 1024

pub data SseFrameTooLarge : Type 0 where
  frame_too_large : SseFrameTooLarge

pub record SseDecoder : Type 0 where
  pub buffer : Bytes
  pub overflowed : Bool

-- `SseDecoder::default()`
abbrev pub fresh : SseDecoder
fresh = record { buffer = []; overflowed = false }

abbrev pub lf : ℕ
lf = b'\n'

abbrev pub cr : ℕ
cr = b'\r'

abbrev pub lf_lf : Bytes
lf_lf = lf ∷ lf ∷ []

abbrev pub crlf_crlf : Bytes
crlf_crlf = cr ∷ lf ∷ cr ∷ lf ∷ []

-- `starts_with`
abbrev pub starts_with : Bytes → Bytes → Bool
starts_with [] bytes = true
starts_with (p ∷ prefix) [] = false
starts_with (p ∷ prefix) (c ∷ bytes) = c == p && starts_with prefix bytes

abbrev next_position : Option ℕ → Option ℕ
next_position none = none
next_position (some n) = some (suc n)

-- `windows(window.len()).position(…)`, for a window that is not empty.
unfoldable pub position_of : Bytes → Bytes → Option ℕ
position_of window [] = none
position_of window (c ∷ bytes) =
    let later = next_position (position_of window bytes) in
    if starts_with window (c ∷ bytes) then some 0 else later

abbrev earlier : Option ℕ → Option ℕ → Option ℕ
earlier (some a) (some b) = some (if ltb b a then b else a)
earlier (some a) none = some a
earlier none (some b) = some b
earlier none none = none

unfoldable pub find_frame_end : Bytes → Option ℕ
find_frame_end buffer = earlier (position_of lf_lf buffer) (position_of crlf_crlf buffer)

-- A byte before the first line.
abbrev pub cons_first : ℕ → List Bytes → List Bytes
cons_first c [] = (c ∷ []) ∷ []
cons_first c (line ∷ lines) = (c ∷ line) ∷ lines

-- `split(|byte| *byte == b'\n')`
unfoldable pub split_lines : Bytes → List Bytes
split_lines [] = [] ∷ []
split_lines (c ∷ bytes) =
    let later = split_lines bytes in if c == lf then [] ∷ later else cons_first c later

-- `strip_suffix(b"\r").unwrap_or(line)`
unfoldable pub strip_cr : Bytes → Bytes
strip_cr [] = []
strip_cr (c ∷ bytes) =
    let later = c ∷ strip_cr bytes in if c == cr && is_empty bytes then [] else later

-- `strip_prefix`
abbrev pub strip_prefix : Bytes → Bytes → Option Bytes
strip_prefix prefix bytes =
    if starts_with prefix bytes then some (drop (length prefix) bytes) else none

abbrev pub data_prefix : Bytes
data_prefix = b'd' ∷ b'a' ∷ b't' ∷ b'a' ∷ b':' ∷ []

-- `strip_prefix(b" ").unwrap_or(value)`
abbrev pub strip_space : Bytes → Bytes
strip_space [] = []
strip_space (c ∷ bytes) = if c == b' ' then bytes else c ∷ bytes

abbrev pub append_line : Bytes → Bytes → Bytes
append_line found value = (if is_empty found then [] else found ++ lf ∷ []) ++ value

abbrev pub append_field : Bytes → Option Bytes → Bytes
append_field found none = found
append_field found (some value) = append_line found (strip_space value)

-- The loop of `frame_data` over the lines.
unfoldable pub collect_data : Bytes → List Bytes → Bytes
collect_data found [] = found
collect_data found (line ∷ lines) =
    collect_data (append_field found (strip_prefix data_prefix (strip_cr line))) lines

abbrev pub some_data : Bytes → Option Bytes
some_data [] = none
some_data (c ∷ found) = some (c ∷ found)

unfoldable pub frame_data : Bytes → Option Bytes
frame_data frame = some_data (collect_data [] (split_lines frame))

pub record Drained : Type 0 where
  pub buffer : Bytes
  pub output : List Bytes

abbrev pub push_data : Option Bytes → List Bytes → List Bytes
push_data none output = output
push_data (some payload) output = payload ∷ output

abbrev pub delimiter_len : Bytes → ℕ
delimiter_len buffer = if starts_with crlf_crlf buffer then 4 else 2

-- What follows the frame that ends at `end`.
abbrev pub after_frame : ℕ → Bytes → Bytes
after_frame end buffer = drop (delimiter_len (drop end buffer)) (drop end buffer)

-- The loop of `push`. Each round shortens the buffer, so its length is enough fuel.
unfoldable pub drain : ℕ → Bytes → Drained
drain zero buffer = record { buffer = buffer; output = [] }
drain (suc fuel) buffer = elim (find_frame_end buffer) [
  | none ↦ record { buffer = buffer; output = [] }
  | some end ↦
      let rest = drain fuel (after_frame end buffer) in
      record rest { output = push_data (frame_data (take end buffer)) rest.output }
]

abbrev pub Pushed : Type 0
Pushed = SseDecoder × Result SseFrameTooLarge (List Bytes)

-- The check after the loop.
abbrev pub settle : Drained → Pushed
settle drained =
    if ltb max_pending_frame (length drained.buffer)
    then (record { buffer = []; overflowed = true }, err frame_too_large)
    else (record { buffer = drained.buffer; overflowed = false }, ok drained.output)

unfoldable pub drain_all : Bytes → Drained
unfolding drain
drain_all buffer = drain (length buffer) buffer

unfoldable pub push : SseDecoder → Bytes → Pushed
unfolding drain_all
push d chunk =
    if d.overflowed then (d, err frame_too_large) else settle (drain_all (d.buffer ++ chunk))

pub finish : SseDecoder → SseDecoder × Option Bytes
finish d = if is_empty d.buffer then (d, none) else (record d { buffer = [] }, frame_data d.buffer)
