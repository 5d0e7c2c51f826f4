-- ===== src/Writer/Tests.antt =====
-- A run of the writer: of two gaps one is queued and written, and the other is shed into a tally
-- that cannot be written.
use provider_core.Prelude.{◌+◌, ◌≡◌, refl, true, false, some, List, [], ◌∷◌, arith, length, codes}
use provider_core.Prelude.Int.{pos, negsuc}
use provider_core.Tracking.Status.{observation_lost}
use provider_core.Writer.{
  UsageWrite, UsageFact, GapKey, key_of, Writer, spawn, Replies, Event, submitted, received,
  applied, taken, flushed, submit, tally, add_one, gap_bucket, apply, step, run, waiting,
  gap_bucket_ms,
}
use provider_core.Writer
use provider_core.Writer.Account.{
  waiting_facts, in_hand, tallied, counted, submissions, accounted-run-spawn,
}
use provider_core.Writer.Bounds.{IsBounded, run-spawn-IsBounded}

-- A minute and a second before the epoch.
before_epoch : gap_bucket (negsuc 60_999) ≡ negsuc 119_999
unfolding gap_bucket
before_epoch = refl

abbrev lost : UsageWrite
lost = record {
  owner_user_id = codes "u";
  at_ms = pos 61_000;
  fact = UsageFact.gap observation_lost;
}

abbrev replies : Replies
replies = record {
  record_attempt = true;
  complete_logical_request = some Writer.LogicalWriteOutcome.written;
  record_tracking_gap = true;
}

abbrev events : List Event
events =
    submitted lost
    ∷ submitted lost
    ∷ received
    ∷ applied replies
    ∷ taken
    ∷ flushed false
    ∷ flushed true
    ∷ []

abbrev last : Writer
last = record {
  is_open = true;
  capacity = 1;
  queue = [];
  counts = [];
  unrecorded = 1;
  task = waiting;
  stored = [];
  gaps = record { key = key_of lost observation_lost; count = 1 } ∷ [];
}

events_run : run events (spawn 1) ≡ some last
unfolding run step
events_run = refl

accounted-run-spawn_example :
    waiting_facts last.queue
      + in_hand last.task
      + tallied last.counts
      + length last.stored
      + counted last.gaps
      + last.unrecorded
    ≡ submissions events
accounted-run-spawn_example = accounted-run-spawn 1 events last events_run

run-spawn-IsBounded_example : IsBounded 1 last
run-spawn-IsBounded_example = run-spawn-IsBounded 1 events last (omega arith) events_run
