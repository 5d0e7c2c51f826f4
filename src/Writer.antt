-- ===== src/Writer.antt =====
-- The bounded writer of usage facts: `UsageWriter`, `ShedGaps`, `run`, `apply`, `flush_shed` and
-- `gap_bucket` of crates/provider-usage/src/writer.rs. The task and the submissions interleave: an
-- event is a submission, or one step of the task up to its next call of the repository, whose
-- replies the event carries. The counts are not bounded, where the code's are `u64`.
pub mod Account
pub mod Bounds
pub mod Bucket
mod Tests
use provider_core.Prelude.{
  ℕ, suc, ◌+◌, ◌-◌, ◌%◌, Bool, true, false, not, ◌&&◌, Option, none, some, List, [], ◌∷◌, ◌++◌,
  if◌then◌else◌, ltb, leb, ◌==◌, is_some, length, holds, Entry, Map, get, Text, Text-discrete,
  ℕ_discrete,
}
use provider_core.Prelude.Int.{ℤ, pos, negsuc, sub_ℕ}
use provider_core.Tracking.Status.{
  TrackingGapReason, write_failed, writer_saturated, recovered_in_flight, ambiguous_cancel,
  observation_lost,
}
use provider_core.Tracking.Attempt.{AttemptFacts, LogicalRequestTerminal}

pub data UsageFact : Type 0 where
  attempt : AttemptFacts → UsageFact
  logical_terminal : LogicalRequestTerminal → UsageFact
  gap : TrackingGapReason → UsageFact

pub record UsageWrite : Type 0 where
  pub owner_user_id : Text
  pub at_ms : ℤ
  pub fact : UsageFact

pub data SubmitOutcome : Type 0 where
  queued shed : SubmitOutcome

pub data Job : Type 0 where
  write : UsageWrite → Job
  flush : Job

-- The key of a tally: the owner, the reason and the start of the minute.
pub record GapKey : Type 0 where
  pub owner_user_id : Text
  pub reason : TrackingGapReason
  pub bucket_start_ms : ℤ

ℤ-discrete : Discrete ℤ
ℤ-discrete = hlevel ℕ_discrete

TrackingGapReason-discrete : Discrete TrackingGapReason
TrackingGapReason-discrete = hlevel

unfoldable pub GapKey-discrete : Discrete GapKey
unfolding ℤ-discrete TrackingGapReason-discrete
GapKey-discrete = hlevel (Text-discrete, ℤ-discrete, TrackingGapReason-discrete)

abbrev pub Counts : Type 0
Counts = Map GapKey ℕ

abbrev pub gap_bucket_ms : ℕ
gap_bucket_ms = 60_000

abbrev pub max_pending_gap_keys : ℕ
max_pending_gap_keys = 4096

-- `rem_euclid(GAP_BUCKET_MS)`
abbrev rem_euclid : ℤ → ℕ
rem_euclid (pos n) = n % gap_bucket_ms
rem_euclid (negsuc n) =
    if suc n % gap_bucket_ms == 0 then 0 else gap_bucket_ms - suc n % gap_bucket_ms

abbrev less : ℤ → ℕ → ℤ
less (pos n) m = sub_ℕ n m
less (negsuc n) m = negsuc (n + m)

unfoldable pub gap_bucket : ℤ → ℤ
gap_bucket at_ms = less at_ms (rem_euclid at_ms)

-- `*counts.entry(key).or_insert(0) += 1`
unfoldable pub add_one : Counts → GapKey → Counts
add_one [] key = record { key = key; value = 1 } ∷ []
add_one (e ∷ counts) key =
    let later = add_one counts key in
    if holds (GapKey-discrete e.key key)
    then record e { value = e.value + 1 } ∷ counts
    else e ∷ later

-- What the task is at: waiting for a job, writing the fact of one, taking the tally, or writing
-- what it took; `last` says that the queue is closed and empty.
pub data Task : Type 0 where
  waiting : Task
  writing : UsageWrite → Task
  taking : Bool → Task
  flushing : Bool → Counts → Task
  ended : Task

-- A row of gaps that the repository accepted.
pub record GapRow : Type 0 where
  pub key : GapKey
  pub count : ℕ

pub record Writer : Type 0 where
  -- Whether a `UsageWriter` is left that can submit.
  pub is_open : Bool
  pub capacity : ℕ
  pub queue : List Job
  pub counts : Counts
  pub unrecorded : ℕ
  pub task : Task
  -- What the repository accepted, the latest first.
  pub stored : List UsageWrite
  pub gaps : List GapRow

-- `spawn`
abbrev pub spawn : ℕ → Writer
spawn capacity = record {
  is_open = true;
  capacity = if capacity == 0 then 1 else capacity;
  queue = [];
  counts = [];
  unrecorded = 0;
  task = waiting;
  stored = [];
  gaps = [];
}

unfoldable pub tally : GapKey → Writer → Writer
unfolding add_one
tally key w =
    if leb max_pending_gap_keys (length w.counts)
      && not (is_some (get GapKey-discrete w.counts key))
    then record w { unrecorded = w.unrecorded + 1 }
    else record w { counts = add_one w.counts key }

abbrev shed_reason : UsageFact → TrackingGapReason
shed_reason (gap reason) = reason
shed_reason (attempt facts) = writer_saturated
shed_reason (logical_terminal terminal) = writer_saturated

abbrev pub key_of : UsageWrite → TrackingGapReason → GapKey
key_of f reason = record {
  owner_user_id = f.owner_user_id;
  reason = reason;
  bucket_start_ms = gap_bucket f.at_ms;
}

abbrev pub has_room : Writer → Bool
has_room w = ltb (length w.queue) w.capacity

unfoldable pub submit : UsageWrite → Writer → Writer
unfolding tally
submit f w =
    if has_room w
    then record w { queue = w.queue ++ write f ∷ [] }
    else tally (key_of f (shed_reason f.fact)) w

unfoldable pub submit_outcome : UsageWrite → Writer → SubmitOutcome
submit_outcome f w = if has_room w then queued else shed

pub data LogicalWriteOutcome : Type 0 where
  written already_known missing_request : LogicalWriteOutcome

-- The replies of the repository to the calls of `apply`; `none` is an error.
pub record Replies : Type 0 where
  pub record_attempt : Bool
  pub complete_logical_request : Option LogicalWriteOutcome
  pub record_tracking_gap : Bool

abbrev terminal_failure : Option LogicalWriteOutcome → Option TrackingGapReason
terminal_failure (some written) = none
terminal_failure (some already_known) = none
terminal_failure (some missing_request) = some write_failed
terminal_failure none = some write_failed

abbrev pub failure_of : Replies → UsageFact → Option TrackingGapReason
failure_of replies (attempt facts) = if replies.record_attempt then none else some write_failed
failure_of replies (logical_terminal terminal) = terminal_failure replies.complete_logical_request
failure_of replies (gap reason) = some reason

-- `give_up`
abbrev give_up : ℕ → Writer → Writer
give_up count w = record w { unrecorded = w.unrecorded + count }

-- `record_tracking_gap`, and `give_up` where it fails.
abbrev pub write_gap : Bool → GapKey → ℕ → Writer → Writer
write_gap true key count w = record w { gaps = record { key = key; count = count } ∷ w.gaps }
write_gap false key count w = give_up count w

abbrev finish_write : Replies → UsageWrite → Option TrackingGapReason → Writer → Writer
finish_write replies f none w = record w { stored = f ∷ w.stored }
finish_write replies f (some reason) w = write_gap replies.record_tracking_gap (key_of f reason) 1 w

unfoldable pub apply : Replies → UsageWrite → Writer → Writer
apply replies f w = finish_write replies f (failure_of replies f.fact) w

pub data Event : Type 0 where
  submitted : UsageWrite → Event
  -- A drain asks for a flush.
  drain : Event
  -- The last `UsageWriter` is dropped.
  released : Event
  -- The task receives the next job, or learns that the queue is closed.
  received : Event
  closed : Event
  -- The repository replied to the calls for a fact, or to the call for one tally.
  applied : Replies → Event
  taken : Event
  flushed : Bool → Event

abbrev start_job : Job → Task
start_job (write f) = writing f
start_job flush = taking false

abbrev receive : List Job → Writer → Option Writer
receive [] w = none
receive (job ∷ queue) w = some (record w { queue = queue; task = start_job job })

abbrev close : List Job → Writer → Option Writer
close [] w = some (record w { task = taking true })
close (job ∷ queue) w = none

abbrev after_flush : Bool → Task
after_flush true = ended
after_flush false = waiting

abbrev flush_next : Bool → Bool → Counts → Writer → Writer
flush_next replied last [] w = record w { task = after_flush last }
flush_next replied last (e ∷ counts) w =
    write_gap replied e.key e.value (record w { task = flushing last counts })

-- One step of the task, `none` where it is not at that point.
abbrev work : Event → Task → Writer → Option Writer
work received waiting w = receive w.queue w
work closed waiting w = if w.is_open then none else close w.queue w
work (applied replies) (writing f) w = some (apply replies f (record w { task = taking false }))
work taken (taking last) w = some (record w { counts = []; task = flushing last w.counts })
work (flushed replied) (flushing last counts) w = some (flush_next replied last counts w)
work _ _ w = none

unfoldable pub step : Event → Writer → Option Writer
unfolding submit apply
step (submitted f) w = if w.is_open then some (submit f w) else none
step drain w =
    if w.is_open && has_room w then some (record w { queue = w.queue ++ flush ∷ [] }) else none
step released w = some (record w { is_open = false })
step received w = work received w.task w
step closed w = work closed w.task w
step (applied replies) w = work (applied replies) w.task w
step taken w = work taken w.task w
step (flushed replied) w = work (flushed replied) w.task w

abbrev pub and_then : Option Writer → (Writer → Option Writer) → Option Writer
and_then none next = none
and_then (some w) next = next w

unfoldable pub run : List Event → Writer → Option Writer
run [] w = some w
run (e ∷ events) w = and_then (step e w) (λ w'. run events w')
