-- ===== src/Writer/Bounds.antt =====
-- The writer holds a bounded number of things.
use provider_core.Prelude.{
  ℕ, suc, ◌≤◌, ◌<◌, ◌≡◌, refl, ap, Bool, true, false, ◌&&◌, Option, none, some, List, [], ◌∷◌, ◌++◌,
  arith, is_some, length, length-append, get, Bool-cases, inl, inr, Every, Every-some, Every-when,
  Every-unless,
}
use provider_core.Writer.{
  UsageWrite, Job, write, flush, GapKey, GapKey-discrete, Counts, add_one, max_pending_gap_keys,
  Task, waiting, writing, taking, flushing, ended, Writer, spawn, tally, has_room, submit, Replies,
  failure_of, write_gap, finish_write, apply, Event, submitted, drain, released, received, closed,
  applied, taken, flushed, receive, close, flush_next, work, step, and_then, run,
}

abbrev pub keys_of : Task → ℕ
keys_of (flushing last counts) = length counts
keys_of waiting = 0
keys_of (writing f) = 0
keys_of (taking last) = 0
keys_of ended = 0

-- The queue is within the capacity that the writer was opened with, and so are the keys of the
-- tally and those that the task took from it.
pub record IsBounded (capacity : ℕ) (w : Writer) : Type 0 where
  pub opened_with : w.capacity ≡ capacity
  pub queued : length w.queue ≤ capacity
  pub keys : length w.counts ≤ max_pending_gap_keys
  pub keys_in_hand : keys_of w.task ≤ max_pending_gap_keys

length-add_one_known :
    (counts : Counts) (key : GapKey)
    → is_some (get GapKey-discrete counts key) ≡ true
    → length (add_one counts key) ≡ length counts
unfolding add_one get
length-add_one_known [] key h = absurd (ground arith)
length-add_one_known (e ∷ counts) key h = ground (arith, length-add_one_known counts key)

length-add_one :
    (counts : Counts) (key : GapKey) → length (add_one counts key) ≤ suc (length counts)
unfolding add_one
length-add_one [] key = omega arith
length-add_one (e ∷ counts) key = ground (arith, length-add_one counts key)

module _ (capacity : ℕ) where
  tally-IsBounded :
      (key : GapKey) (w : Writer) → IsBounded capacity w → IsBounded capacity (tally key w)
  unfolding tally
  tally-IsBounded key w h =
      ground (arith, length-add_one w.counts key, length-add_one_known w.counts key)

  submit-IsBounded :
      (f : UsageWrite) (w : Writer) → IsBounded capacity w → IsBounded capacity (submit f w)
  unfolding submit
  submit-IsBounded f w h = elim (Bool-cases (has_room w)) [
    | inl room ↦ rw room (record {
      opened_with = h.opened_with;
      queued = ground (arith, length-append w.queue (write f ∷ []));
      keys = h.keys;
      keys_in_hand = h.keys_in_hand;
    })
    | inr full ↦ rw full (tally-IsBounded _ w h)
  ]

  -- A step that leaves the queue and the tally no longer, and takes no more than the tally.
  shorter :
      (w later : Writer)
      → IsBounded capacity w
      → later.capacity ≡ w.capacity
      → length later.queue ≤ length w.queue
      → length later.counts ≤ length w.counts
      → keys_of later.task ≤ max_pending_gap_keys
      → IsBounded capacity later
  shorter w later h c q k t = ground arith

  write_gap-IsBounded :
      (replied : Bool) (key : GapKey) (n : ℕ) (w : Writer)
      → IsBounded capacity w
      → IsBounded capacity (write_gap replied key n w)
  write_gap-IsBounded true key n w h = ground arith
  write_gap-IsBounded false key n w h = ground arith

  finish_write-IsBounded :
      (replies : Replies) (f : UsageWrite) (reason : Option _) (w : Writer)
      → IsBounded capacity w
      → IsBounded capacity (finish_write replies f reason w)
  finish_write-IsBounded replies f none w h = ground arith
  finish_write-IsBounded replies f (some reason) w h = write_gap-IsBounded _ _ 1 w h

  receive-IsBounded :
      (q : List Job) (w : Writer)
      → IsBounded capacity w
      → w.queue ≡ q
      → Every (IsBounded capacity) (receive q w)
  receive-IsBounded [] w h e = tt
  receive-IsBounded (write f ∷ q) w h e =
      shorter w _ h refl (rw e (omega arith)) (omega arith) (omega arith)
  receive-IsBounded (flush ∷ q) w h e =
      shorter w _ h refl (rw e (omega arith)) (omega arith) (omega arith)

  flush_next-IsBounded :
      (replied last : Bool) (counts : Counts) (w : Writer)
      → IsBounded capacity w
      → w.task ≡ flushing last counts
      → IsBounded capacity (flush_next replied last counts w)
  flush_next-IsBounded replied true [] w h t =
      shorter w _ h refl (omega arith) (omega arith) (omega arith)
  flush_next-IsBounded replied false [] w h t =
      shorter w _ h refl (omega arith) (omega arith) (omega arith)
  flush_next-IsBounded replied last (e ∷ counts) w h t =
      write_gap-IsBounded replied e.key e.value _
        (shorter w _ h refl (omega arith) (omega arith) (one_less (ap keys_of t) h.keys_in_hand))
    where
      one_less :
          keys_of w.task ≡ suc (length counts)
          → keys_of w.task ≤ max_pending_gap_keys
          → length counts ≤ max_pending_gap_keys
      one_less a b = omega arith

  close-IsBounded :
      (q : List Job) (w : Writer) → IsBounded capacity w → Every (IsBounded capacity) (close q w)
  close-IsBounded [] w h = shorter w _ h refl (omega arith) (omega arith) (omega arith)
  close-IsBounded (job ∷ q) w h = tt

  apply-IsBounded :
      (replies : Replies) (f : UsageWrite) (w : Writer)
      → IsBounded capacity w
      → IsBounded capacity (apply replies f w)
  unfolding apply
  apply-IsBounded replies f w h = finish_write-IsBounded replies f (failure_of replies f.fact) w h

  work-IsBounded :
      (e : Event) (t : Task) (w : Writer)
      → IsBounded capacity w
      → w.task ≡ t
      → Every (IsBounded capacity) (work e t w)
  work-IsBounded received waiting w h t = receive-IsBounded w.queue w h refl
  work-IsBounded closed waiting w h t =
      Every-unless (IsBounded capacity) w.is_open _ (close-IsBounded w.queue w h)
  work-IsBounded (applied replies) (writing f) w h t =
      apply-IsBounded replies f _ (shorter w _ h refl (omega arith) (omega arith) (omega arith))
  work-IsBounded taken (taking last) w h t = shorter w _ h refl (omega arith) (omega arith) h.keys
  work-IsBounded (flushed replied) (flushing last counts) w h t =
      flush_next-IsBounded replied last counts w h t
  work-IsBounded _ _ w h t = tt

  drain-IsBounded :
      (w : Writer)
      → IsBounded capacity w
      → w.is_open && has_room w ≡ true
      → IsBounded capacity (record w { queue = w.queue ++ flush ∷ [] })
  drain-IsBounded w h room = record {
    opened_with = h.opened_with;
    queued = ground (arith, length-append w.queue (flush ∷ []));
    keys = h.keys;
    keys_in_hand = h.keys_in_hand;
  }

  step-IsBounded :
      (e : Event) (w : Writer) → IsBounded capacity w → Every (IsBounded capacity) (step e w)
  unfolding step
  step-IsBounded (submitted f) w h = Every-when _ w.is_open _ λ _. submit-IsBounded f w h
  step-IsBounded drain w h = Every-when _ (w.is_open && has_room w) _ (drain-IsBounded w h)
  step-IsBounded released w h = shorter w _ h refl (omega arith) (omega arith) h.keys_in_hand
  step-IsBounded received w h = work-IsBounded received w.task w h refl
  step-IsBounded closed w h = work-IsBounded closed w.task w h refl
  step-IsBounded (applied replies) w h = work-IsBounded (applied replies) w.task w h refl
  step-IsBounded taken w h = work-IsBounded taken w.task w h refl
  step-IsBounded (flushed replied) w h = work-IsBounded (flushed replied) w.task w h refl

  after_step-IsBounded :
      (events : List Event) (o : Option Writer)
      → Every (IsBounded capacity) o
      → ((w : Writer) → IsBounded capacity w → Every (IsBounded capacity) (run events w))
      → Every (IsBounded capacity) (and_then o (λ w. run events w))
  after_step-IsBounded events none h rest = tt
  after_step-IsBounded events (some w) h rest = rest w h

  run-IsBounded :
      (events : List Event) (w : Writer)
      → IsBounded capacity w
      → Every (IsBounded capacity) (run events w)
  unfolding run
  run-IsBounded [] w h = h
  run-IsBounded (e ∷ events) w h =
      after_step-IsBounded events (step e w) (step-IsBounded e w h)
        λ later h'. run-IsBounded events later h'

-- However many facts are submitted, and whatever the repository replies, the queue stays within
-- its capacity, and the tally and what the task took from it within 4096 keys each.
pub run-spawn-IsBounded :
    (capacity : ℕ) (events : List Event) (w : Writer)
    → 0 < capacity
    → run events (spawn capacity) ≡ some w
    → IsBounded capacity w
run-spawn-IsBounded capacity events w h r =
    Every-some _ (run events (spawn capacity)) w
      (run-IsBounded capacity events (spawn capacity) (record {
        opened_with = ground arith;
        queued = omega arith;
        keys = omega arith;
        keys_in_hand = omega arith;
      }))
      r
