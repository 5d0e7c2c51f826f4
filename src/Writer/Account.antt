-- ===== src/Writer/Account.antt =====
-- No fact is lost without a trace, and the writer holds a bounded number of things.
use provider_core.Prelude.{
  ℕ, suc, ◌+◌, ◌≡◌, ◌∙◌, refl, Bool, true, false, ◌&&◌, Option, none, some, List, [], ◌∷◌, ◌++◌,
  arith, length, Bool-cases, inl, inr, Every, Every-some, Every-unless, Every-when,
}
use provider_core.Writer.{
  UsageWrite, Job, write, flush, GapKey, Counts, add_one, Task, waiting, writing, taking, flushing,
  ended, GapRow, Writer, spawn, tally, key_of, has_room, submit, Replies, failure_of, write_gap,
  finish_write, apply, Event, submitted, drain, released, received, closed, applied, taken, flushed,
  receive, close, flush_next, work, step, and_then, run,
}

-- The facts that wait in the queue.
pub waiting_facts : List Job → ℕ
waiting_facts [] = 0
waiting_facts (write f ∷ jobs) = suc (waiting_facts jobs)
waiting_facts (flush ∷ jobs) = waiting_facts jobs

-- The facts that a tally stands for.
pub tallied : Counts → ℕ
tallied [] = 0
tallied (e ∷ counts) = e.value + tallied counts

abbrev pub in_hand : Task → ℕ
in_hand (writing f) = 1
in_hand (flushing last counts) = tallied counts
in_hand waiting = 0
in_hand (taking last) = 0
in_hand ended = 0

-- The facts that the rows of gaps stand for.
pub counted : List GapRow → ℕ
counted [] = 0
counted (row ∷ rows) = row.count + counted rows

-- The facts that are waiting, in hand, tallied, written, counted by a row, or known to be lost.
abbrev pub accounted : Writer → ℕ
accounted w =
    waiting_facts w.queue
    + in_hand w.task
    + tallied w.counts
    + length w.stored
    + counted w.gaps
    + w.unrecorded

-- The submissions of a sequence of events.
pub submissions : List Event → ℕ
submissions [] = 0
submissions (submitted f ∷ events) = suc (submissions events)
submissions (drain ∷ events) = submissions events
submissions (released ∷ events) = submissions events
submissions (received ∷ events) = submissions events
submissions (closed ∷ events) = submissions events
submissions (applied replies ∷ events) = submissions events
submissions (taken ∷ events) = submissions events
submissions (flushed replied ∷ events) = submissions events

waiting_facts-append : (q r : List Job) → waiting_facts (q ++ r) ≡ waiting_facts q + waiting_facts r
unfolding waiting_facts
waiting_facts-append [] r = omega arith
waiting_facts-append (write f ∷ q) r = omega (arith, waiting_facts-append q r)
waiting_facts-append (flush ∷ q) r = waiting_facts-append q r

tallied-add_one :
    (counts : Counts) (key : GapKey) → tallied (add_one counts key) ≡ suc (tallied counts)
unfolding tallied add_one
tallied-add_one [] key = omega arith
tallied-add_one (e ∷ counts) key = ground (arith, tallied-add_one counts key)

accounted-tally : (key : GapKey) (w : Writer) → accounted (tally key w) ≡ suc (accounted w)
unfolding tally
accounted-tally key w = ground (arith, tallied-add_one w.counts key)

accounted-submit : (f : UsageWrite) (w : Writer) → accounted (submit f w) ≡ suc (accounted w)
unfolding submit waiting_facts
accounted-submit f w = elim (Bool-cases (has_room w)) [
  | inl room ↦ rw room (omega (arith, waiting_facts-append w.queue (write f ∷ [])))
  | inr full ↦ rw full (accounted-tally _ w)
]

accounted-write_gap :
    (replied : Bool) (key : GapKey) (n : ℕ) (w : Writer)
    → accounted (write_gap replied key n w) ≡ n + accounted w
unfolding counted
accounted-write_gap true key n w = omega arith
accounted-write_gap false key n w = omega arith

accounted-finish_write :
    (replies : Replies) (f : UsageWrite) (reason : Option _) (w : Writer)
    → accounted (finish_write replies f reason w) ≡ suc (accounted w)
accounted-finish_write replies f none w = omega arith
accounted-finish_write replies f (some reason) w =
    omega (arith, accounted-write_gap replies.record_tracking_gap (key_of f reason) 1 w)

-- The writer after a step of the task accounts for the same facts.
abbrev SameAccount : Writer → Writer → Type 0
SameAccount w later = accounted later ≡ accounted w

accounted-receive :
    (q : List Job) (w : Writer)
    → w.task ≡ waiting
    → w.queue ≡ q
    → Every (SameAccount w) (receive q w)
unfolding waiting_facts
accounted-receive [] w t e = tt
accounted-receive (write f ∷ q) w t e = rw (t, e) (omega arith)
accounted-receive (flush ∷ q) w t e = rw (t, e) (omega arith)

accounted-close : (q : List Job) (w : Writer) → w.task ≡ waiting → Every (SameAccount w) (close q w)
accounted-close [] w t = rw t (omega arith)
accounted-close (job ∷ q) w t = tt

accounted-apply :
    (replies : Replies) (f : UsageWrite) (w : Writer)
    → w.task ≡ writing f
    → accounted (apply replies f (record w { task = taking false })) ≡ accounted w
unfolding apply
accounted-apply replies f w t =
    accounted-finish_write replies f (failure_of replies f.fact) (record w { task = taking false })
    ∙ rw t (omega arith)

accounted-flush_next :
    (replied last : Bool) (counts : Counts) (w : Writer)
    → w.task ≡ flushing last counts
    → accounted (flush_next replied last counts w) ≡ accounted w
unfolding tallied
accounted-flush_next replied true [] w t = rw t (omega arith)
accounted-flush_next replied false [] w t = rw t (omega arith)
accounted-flush_next replied last (e ∷ counts) w t =
    accounted-write_gap replied e.key e.value (record w { task = flushing last counts })
    ∙ rw t (omega arith)

accounted-work :
    (e : Event) (t : Task) (w : Writer) → w.task ≡ t → Every (SameAccount w) (work e t w)
unfolding tallied
accounted-work received waiting w h = accounted-receive w.queue w h refl
accounted-work closed waiting w h =
    Every-unless (SameAccount w) w.is_open _ (accounted-close w.queue w h)
accounted-work (applied replies) (writing f) w h = accounted-apply replies f w h
accounted-work taken (taking last) w h = rw h (omega arith)
accounted-work (flushed replied) (flushing last counts) w h =
    accounted-flush_next replied last counts w h
accounted-work _ _ w h = tt

-- The facts that the event submits.
abbrev submits : Event → ℕ
submits e = submissions (e ∷ [])

accounted-drain :
    (w : Writer) → accounted (record w { queue = w.queue ++ flush ∷ [] }) ≡ 0 + accounted w
unfolding waiting_facts
accounted-drain w = omega (arith, waiting_facts-append w.queue (flush ∷ []))

no_submission :
    (w : Writer) (o : Option Writer)
    → Every (SameAccount w) o
    → Every (λ later. accounted later ≡ 0 + accounted w) o
no_submission w none h = tt
no_submission w (some later) h = omega (arith, h)

submissions_cons :
    (e : Event) (events : List Event) → submissions (e ∷ events) ≡ submits e + submissions events
unfolding submissions
submissions_cons (submitted f) events = omega arith
submissions_cons drain events = omega arith
submissions_cons released events = omega arith
submissions_cons received events = omega arith
submissions_cons closed events = omega arith
submissions_cons (applied replies) events = omega arith
submissions_cons taken events = omega arith
submissions_cons (flushed replied) events = omega arith

account_eq :
    (n m : ℕ) (o : Option Writer)
    → n ≡ m
    → Every (λ later. accounted later ≡ n) o
    → Every (λ later. accounted later ≡ m) o
account_eq n m o e h = rw e at h

after_step :
    (e : Event) (events : List Event) (w : Writer) (o : Option Writer)
    → Every (λ later. accounted later ≡ submits e + accounted w) o
    → ((w' : Writer)
        → Every (λ later. accounted later ≡ submissions events + accounted w') (run events w'))
    → Every
        (λ later. accounted later ≡ submissions (e ∷ events) + accounted w)
        (and_then o (λ w'. run events w'))
after_step e events w none h rest = tt
after_step e events w (some w') h rest =
    account_eq _ _ (run events w') (omega (arith, h, submissions_cons e events)) (rest w')

accounted-step :
    (e : Event) (w : Writer) → Every (λ later. accounted later ≡ submits e + accounted w) (step e w)
unfolding step submissions
accounted-step (submitted f) w = Every-when _ w.is_open _ λ _. (accounted-submit f w ∙ omega arith)
accounted-step drain w = Every-when _ (w.is_open && has_room w) _ λ _. accounted-drain w
accounted-step released w = omega arith
accounted-step received w = no_submission w _ (accounted-work received w.task w refl)
accounted-step closed w = no_submission w _ (accounted-work closed w.task w refl)
accounted-step (applied replies) w =
    no_submission w _ (accounted-work (applied replies) w.task w refl)
accounted-step taken w = no_submission w _ (accounted-work taken w.task w refl)
accounted-step (flushed replied) w =
    no_submission w _ (accounted-work (flushed replied) w.task w refl)

accounted-run :
    (events : List Event) (w : Writer)
    → Every (λ later. accounted later ≡ submissions events + accounted w) (run events w)
unfolding run submissions
accounted-run [] w = omega arith
accounted-run (e ∷ events) w =
    after_step e events w (step e w) (accounted-step e w) λ w'. accounted-run events w'

-- Whatever the interleaving of the submissions with the task, and whatever the repository replies,
-- every fact that was submitted is waiting, in hand, tallied, written, counted by a row of gaps or
-- counted as unrecorded.
pub accounted-run-spawn :
    (capacity : ℕ) (events : List Event) (w : Writer)
    → run events (spawn capacity) ≡ some w
    → waiting_facts w.queue
        + in_hand w.task
        + tallied w.counts
        + length w.stored
        + counted w.gaps
        + w.unrecorded
      ≡ submissions events
unfolding waiting_facts tallied counted
accounted-run-spawn capacity events w h =
    Every-some _ (run events (spawn capacity)) w (accounted-run events (spawn capacity)) h
    ∙ omega arith
