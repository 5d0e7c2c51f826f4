-- ===== src/Writer/Bucket.antt =====
-- The minute that a gap is counted in.
use provider_core.Prelude.{◌+◌, ◌%◌, ◌<◌, ◌≡◌, arith}
use provider_core.Prelude.Int.{ℤ, pos, negsuc, ◌≤ℤ◌, pos_part, neg_part}
use provider_core.Writer.{gap_bucket, gap_bucket_ms}

-- The bucket starts at a whole minute, not after the time, and less than a minute before it.
pub gap_bucket_bounds :
    (at_ms : ℤ)
    → (gap_bucket at_ms ≤ℤ at_ms)
      × (pos_part at_ms + neg_part (gap_bucket at_ms)
          < pos_part (gap_bucket at_ms) + neg_part at_ms + gap_bucket_ms)
unfolding gap_bucket
gap_bucket_bounds (pos n) = ground arith
gap_bucket_bounds (negsuc n) = ground arith

pub gap_bucket_minutes :
    (at_ms : ℤ) → (pos_part (gap_bucket at_ms) + neg_part (gap_bucket at_ms)) % gap_bucket_ms ≡ 0
unfolding gap_bucket
gap_bucket_minutes (pos n) = ground arith
gap_bucket_minutes (negsuc n) = ground arith
