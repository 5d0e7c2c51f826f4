-- ===== src/Sse/Delimiter.antt =====
-- Where a frame ends, and that bytes which come later do not move it.
use provider_core.Prelude.{
  ℕ, suc, ◌+◌, ◌≤◌, ◌<◌, ◌≡◌, refl, Bool, true, false, ◌||◌, Option, none, some, [], ◌∷◌, ◌++◌,
  if◌then◌else◌, arith, Bool-cases, inl, inr, ◌⊎◌, length, drop, length-drop, drop-append,
}
use provider_core.Sse.{
  Bytes, lf_lf, crlf_crlf, starts_with, next_position, position_of, find_frame_end, delimiter_len,
  after_frame,
}

-- A delimiter stands at the start.
abbrev pub at_delimiter : Bytes → Bool
at_delimiter bytes = starts_with lf_lf bytes || starts_with crlf_crlf bytes

-- The search, one byte at a time.
pub find_frame_end-cons :
    (c : ℕ) (bytes : Bytes)
    → find_frame_end (c ∷ bytes)
      ≡ (if at_delimiter (c ∷ bytes) then some 0 else next_position (find_frame_end bytes))
unfolding find_frame_end position_of
find_frame_end-cons c bytes = ground arith

pub find_frame_end-nil : find_frame_end [] ≡ none
unfolding find_frame_end position_of
find_frame_end-nil = refl

next_position-some :
    (o : Option ℕ) (n : ℕ) → next_position o ≡ some n → (m : ℕ) × (o ≡ some m) × (n ≡ suc m)
next_position-some (some m) n h = (m, refl, ground arith)
next_position-some none n h = absurd (ground arith)

find_frame_end-cases :
    (c : ℕ) (bytes : Bytes) (end : ℕ)
    → find_frame_end (c ∷ bytes) ≡ some end
    → ((at_delimiter (c ∷ bytes) ≡ true) × (end ≡ 0))
      ⊎ ((at_delimiter (c ∷ bytes) ≡ false)
          × ((m : ℕ) × (find_frame_end bytes ≡ some m) × (end ≡ suc m)))
find_frame_end-cases c bytes end h = elim (Bool-cases (at_delimiter (c ∷ bytes))) [
  | inl here ↦ inl (here, go here (find_frame_end-cons c bytes))
  | inr further ↦ inr (
    further,
    next_position-some (find_frame_end bytes) end (go_on further (find_frame_end-cons c bytes)),
  )
]
  where
    go :
        at_delimiter (c ∷ bytes) ≡ true
        → find_frame_end (c ∷ bytes)
          ≡ (if at_delimiter (c ∷ bytes) then some 0 else next_position (find_frame_end bytes))
        → end ≡ 0
    go here e = ground (arith, rw here at e)

    go_on :
        at_delimiter (c ∷ bytes) ≡ false
        → find_frame_end (c ∷ bytes)
          ≡ (if at_delimiter (c ∷ bytes) then some 0 else next_position (find_frame_end bytes))
        → next_position (find_frame_end bytes) ≡ some end
    go_on further e = cc (rw further at e)

pub find_frame_end-at :
    (bytes : Bytes) (end : ℕ)
    → find_frame_end bytes ≡ some end
    → at_delimiter (drop end bytes) ≡ true
find_frame_end-at [] end h = absurd (ground (arith, find_frame_end-nil))
find_frame_end-at (c ∷ bytes) end h = elim (find_frame_end-cases c bytes end h) [
  | inl (here, e) ↦ rw e here
  | inr (further, (m, found, e)) ↦ rw e (find_frame_end-at bytes m found)
]

-- A delimiter has at least two bytes.
at_delimiter-cons : (bytes : Bytes) → at_delimiter bytes ≡ true → 2 ≤ length bytes
at_delimiter-cons [] h = absurd (ground arith)
at_delimiter-cons (c ∷ []) h = absurd (ground arith)
at_delimiter-cons (c ∷ d ∷ bytes) h = omega arith

pub at_delimiter-append :
    (bytes more : Bytes) → at_delimiter bytes ≡ true → at_delimiter (bytes ++ more) ≡ true
at_delimiter-append [] more h = absurd (ground arith)
at_delimiter-append (c ∷ []) more h = absurd (ground arith)
at_delimiter-append (c ∷ d ∷ []) more h = ground arith
at_delimiter-append (c ∷ d ∷ e ∷ []) more h = ground arith
at_delimiter-append (c ∷ d ∷ e ∷ f ∷ bytes) more h = h

-- No earlier delimiter comes up when one has been found.
no_earlier :
    (c : ℕ) (bytes more : Bytes) (end : ℕ)
    → find_frame_end bytes ≡ some end
    → at_delimiter (c ∷ bytes) ≡ false
    → at_delimiter (c ∷ bytes ++ more) ≡ false
unfolding find_frame_end position_of
no_earlier c [] more end h n = absurd (ground arith)
no_earlier c (d ∷ []) more end h n = absurd (ground arith)
no_earlier c (d ∷ e ∷ []) more end h n = ground arith
no_earlier c (d ∷ e ∷ f ∷ bytes) more end h n = n

pub find_frame_end-append :
    (bytes more : Bytes) (end : ℕ)
    → find_frame_end bytes ≡ some end
    → find_frame_end (bytes ++ more) ≡ some end
find_frame_end-append [] more end h = absurd (ground (arith, find_frame_end-nil))
find_frame_end-append (c ∷ bytes) more end h = elim (find_frame_end-cases c bytes end h) [
  | inl (here, e) ↦
      rw (find_frame_end-cons c (bytes ++ more), at_delimiter-append (c ∷ bytes) more here, e) refl
  | inr (further, (m, found, e)) ↦
      rw
        (
          find_frame_end-cons c (bytes ++ more),
          no_earlier c bytes more m found further,
          find_frame_end-append bytes more m found,
          e,
        )
        refl
]

pub end-le : (bytes : Bytes) (end : ℕ) → find_frame_end bytes ≡ some end → end + 2 ≤ length bytes
end-le bytes end h = omega (
  arith,
  at_delimiter-cons (drop end bytes) (find_frame_end-at bytes end h),
  length-drop end bytes,
)

delimiter_len-le : (bytes : Bytes) → at_delimiter bytes ≡ true → delimiter_len bytes ≤ length bytes
delimiter_len-le [] h = absurd (ground arith)
delimiter_len-le (c ∷ []) h = absurd (ground arith)
delimiter_len-le (c ∷ d ∷ []) h = ground arith
delimiter_len-le (c ∷ d ∷ e ∷ []) h = ground arith
delimiter_len-le (c ∷ d ∷ e ∷ f ∷ bytes) h = ground arith

delimiter_len-append :
    (bytes more : Bytes)
    → at_delimiter bytes ≡ true
    → delimiter_len (bytes ++ more) ≡ delimiter_len bytes
delimiter_len-append [] more h = absurd (ground arith)
delimiter_len-append (c ∷ []) more h = absurd (ground arith)
delimiter_len-append (c ∷ d ∷ []) more h = ground arith
delimiter_len-append (c ∷ d ∷ e ∷ []) more h = ground arith
delimiter_len-append (c ∷ d ∷ e ∷ f ∷ bytes) more h = refl

-- A round of the loop shortens the buffer.
pub after_frame-lt :
    (bytes : Bytes) (end : ℕ)
    → find_frame_end bytes ≡ some end
    → length (after_frame end bytes) < length bytes
after_frame-lt bytes end h = omega (
  arith,
  end-le bytes end h,
  length-drop end bytes,
  length-drop (delimiter_len (drop end bytes)) (drop end bytes),
  delimiter_len-pos (drop end bytes),
)
  where
    delimiter_len-pos : (t : Bytes) → 0 < delimiter_len t
    delimiter_len-pos t = ground arith

pub after_frame-append :
    (bytes more : Bytes) (end : ℕ)
    → find_frame_end bytes ≡ some end
    → after_frame end (bytes ++ more) ≡ after_frame end bytes ++ more
after_frame-append bytes more end h =
    rw
      (
        drop-append end bytes more (omega (arith, end-le bytes end h)),
        delimiter_len-append (drop end bytes) more (find_frame_end-at bytes end h),
      )
      (drop-append (delimiter_len (drop end bytes)) (drop end bytes) more
        (delimiter_len-le (drop end bytes) (find_frame_end-at bytes end h)))
