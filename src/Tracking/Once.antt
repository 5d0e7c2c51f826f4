-- ===== src/Tracking/Once.antt =====
-- An attempt and a request are each recorded exactly once, whatever calls come in what order.
use provider_core.Prelude.{
  ℕ, ◌+◌, ◌≡◌, refl, sym, ◌∙◌, ap, Bool, true, false, Option, none, some, List, [], ◌∷◌, ◌++◌,
  arith, Bool-cases, inl, inr,
}
use provider_core.Tracking.Status.{ExecutionOutcome, DispatchEvidence, response_observed}
use provider_core.Tracking.Attempt.{
  AttemptFacts, Submitted, attempt, LogicalState, AttemptState, note_final_attempt,
  note_quota_result, execution_outcome, facts_of, close, advance, AttemptEvent, stream_opened,
  first_token_observed, success_terminal_observed, provider_model_observed, observation_lost,
  finished, dropped, on_event, Both, submit_facts, answered_evidence, drop_state,
}

abbrev is_attempt : Submitted → ℕ
is_attempt (attempt facts) = 1
is_attempt _ = 0

-- The attempts among what was submitted.
unfoldable pub attempts_in : List Submitted → ℕ
attempts_in [] = 0
attempts_in (s ∷ rest) = is_attempt s + attempts_in rest

attempts_in-append :
    (xs ys : List Submitted) → attempts_in (xs ++ ys) ≡ attempts_in xs + attempts_in ys
unfolding attempts_in
attempts_in-append [] ys = omega arith
attempts_in-append (x ∷ xs) ys = omega (arith, attempts_in-append xs ys)

abbrev pub weight : Bool → ℕ
weight true = 1
weight false = 0

abbrev pub some_pair : AttemptState → LogicalState → Option Both
some_pair a l = some (a, l)

-- One attempt more is recorded exactly where the tracker has become closed.
abbrev pub Records : AttemptState → LogicalState → AttemptState → LogicalState → Type 0
Records a l a1 l1 =
    attempts_in l1.submitted + weight a.closed ≡ attempts_in l.submitted + weight a1.closed

note_final_attempt-submitted :
    (sequence : ℕ) (execution : ExecutionOutcome) (l : LogicalState)
    → (note_final_attempt sequence execution l).submitted ≡ l.submitted
unfolding note_final_attempt
note_final_attempt-submitted sequence execution l = ground arith

note_quota_result-submitted :
    (facts : AttemptFacts) (l l1 : LogicalState)
    → note_quota_result facts l ≡ some l1
    → l1.submitted ≡ l.submitted
unfolding note_quota_result
note_quota_result-submitted facts l l1 h = ground arith

submit_facts-submitted :
    (a : AttemptState) (facts : AttemptFacts) (o : Option LogicalState) (a1 : AttemptState)
    (l1 : LogicalState)
    → submit_facts a facts o ≡ some (a1, l1)
    → (l0 : LogicalState) × (o ≡ some l0)
      × (a1.closed ≡ a.closed)
      × (l1.submitted ≡ l0.submitted ++ attempt facts ∷ [])
submit_facts-submitted a facts none a1 l1 h = absurd (ground arith)
submit_facts-submitted a facts (some l0) a1 l1 h = (l0, refl, ground arith, ground arith)

pub same_pair :
    (a : AttemptState) (l : LogicalState) (a1 : AttemptState) (l1 : LogicalState)
    → some_pair a l ≡ some_pair a1 l1
    → (a1.closed ≡ a.closed) × (l1.submitted ≡ l.submitted)
same_pair a l a1 l1 h = (ground arith, ground arith)

pub close_closed :
    (now : ℕ) (a : AttemptState) (l : LogicalState)
    → a.closed ≡ true
    → close now a l ≡ some_pair a l
unfolding close
close_closed now a l h = ground arith

pub close_open :
    (now : ℕ) (a : AttemptState) (l : LogicalState)
    → a.closed ≡ false
    → close now a l
      ≡ submit_facts
          (record a { closed = true; raw_usage = none })
          (facts_of now a l)
          (note_quota_result
            (facts_of now a l)
            (note_final_attempt a.sequence (execution_outcome a) l))
unfolding close
close_open now a l h = ground arith

-- With one attempt more in the list, the count is one more.
recorded :
    (facts : AttemptFacts) (before after : List Submitted)
    → after ≡ before ++ attempt facts ∷ []
    → attempts_in after ≡ attempts_in before + 1
unfolding attempts_in
recorded facts before after h = rw h (attempts_in-append before (attempt facts ∷ []))

-- Closing an open attempt submits its record and nothing else.
pub close-submitted :
    (now : ℕ) (a : AttemptState) (l : LogicalState) (a1 : AttemptState) (l1 : LogicalState)
    → a.closed ≡ false
    → close now a l ≡ some_pair a1 l1
    → (a1.closed ≡ true) × (l1.submitted ≡ l.submitted ++ attempt (facts_of now a l) ∷ [])
close-submitted now a l a1 l1 still_open h =
    let noted_from = note_final_attempt a.sequence (execution_outcome a) l in
    let (l0, noted, closed, submitted) =
      submit_facts-submitted (record a { closed = true; raw_usage = none }) (facts_of now a l)
        (note_quota_result (facts_of now a l) noted_from) a1 l1
        (sym (close_open now a l still_open) ∙ h) in
    let unchanged : l0.submitted ≡ l.submitted =
      note_quota_result-submitted (facts_of now a l) noted_from l0 noted
      ∙ note_final_attempt-submitted a.sequence (execution_outcome a) l in
    (closed, submitted ∙ ap (λ s. s ++ attempt (facts_of now a l) ∷ []) unchanged)

close-Records :
    (now : ℕ) (a : AttemptState) (l : LogicalState) (a1 : AttemptState) (l1 : LogicalState)
    → close now a l ≡ some_pair a1 l1
    → (a1.closed ≡ true) × Records a l a1 l1
close-Records now a l a1 l1 h = elim (Bool-cases a.closed) [
  | inl closed ↦
      let (same_closed, same_submitted) =
        same_pair a l a1 l1 (sym (close_closed now a l closed) ∙ h) in
      (same_closed ∙ closed, rw (same_closed, same_submitted) refl)
  | inr still_open ↦
      let (closed, submitted) = close-submitted now a l a1 l1 still_open h in
      (
        closed,
        rw (still_open, closed, recorded (facts_of now a l) l.submitted l1.submitted submitted)
            (omega arith),
      )
]

-- A call that leaves the request alone, and the tracker as closed as it was.
quiet-Records :
    (a b : AttemptState) (l : LogicalState) (a1 : AttemptState) (l1 : LogicalState)
    → b.closed ≡ a.closed
    → some_pair b l ≡ some_pair a1 l1
    → Records a l a1 l1
quiet-Records a b l a1 l1 same h =
    let (same_closed, same_submitted) = same_pair b l a1 l1 h in
    rw (same_closed, same_submitted, same) refl

advance-closed : (e : DispatchEvidence) (a : AttemptState) → (advance e a).closed ≡ a.closed
unfolding advance
advance-closed e a = ground arith

-- A call that closes a tracker which is as closed as it was.
closing-Records :
    (now : ℕ) (a b : AttemptState) (l : LogicalState) (a1 : AttemptState) (l1 : LogicalState)
    → b.closed ≡ a.closed
    → close now b l ≡ some_pair a1 l1
    → Records a l a1 l1
closing-Records now a b l a1 l1 same h = rw same at (close-Records now b l a1 l1 h).1

on_event-Records :
    (now : ℕ) (e : AttemptEvent) (a : AttemptState) (l : LogicalState) (a1 : AttemptState)
    (l1 : LogicalState)
    → on_event now e a l ≡ some_pair a1 l1
    → Records a l a1 l1
unfolding on_event
on_event-Records now stream_opened a l a1 l1 h =
    quiet-Records a (advance response_observed a) l a1 l1 (advance-closed response_observed a) h
on_event-Records now first_token_observed a l a1 l1 h = quiet-Records a _ l a1 l1 refl h
on_event-Records now success_terminal_observed a l a1 l1 h = quiet-Records a _ l a1 l1 refl h
on_event-Records now (provider_model_observed model) a l a1 l1 h = quiet-Records a _ l a1 l1 refl h
on_event-Records now observation_lost a l a1 l1 h = quiet-Records a _ l a1 l1 refl h
on_event-Records now (finished fields) a l a1 l1 h = closing-Records now a _ l a1 l1 refl h
on_event-Records now (AttemptEvent.cancelled fields) a l a1 l1 h =
    closing-Records now a _ l a1 l1 refl h
on_event-Records now (AttemptEvent.failed answered reason) a l a1 l1 h =
    closing-Records now a _ l a1 l1 (advance-closed (answered_evidence answered) a) h
on_event-Records now dropped a l a1 l1 h =
    closing-Records now a (drop_state a) l a1 l1 (ground arith) h

-- A call and the time at which it comes.
pub record Timed : Type 0 where
  pub now : ℕ
  pub event : AttemptEvent

abbrev and_then : Option Both → (AttemptState → LogicalState → Option Both) → Option Both
and_then none next = none
and_then (some (a, l)) next = next a l

-- Any calls in any order.
unfoldable pub run : List Timed → AttemptState → LogicalState → Option Both
run [] a l = some_pair a l
run (t ∷ rest) a l = and_then (on_event t.now t.event a l) (λ a1 l1. run rest a1 l1)

and_then-some :
    (o : Option Both) (next : AttemptState → LogicalState → Option Both) (a2 : AttemptState)
    (l2 : LogicalState)
    → and_then o next ≡ some_pair a2 l2
    → (a1 : AttemptState) × (l1 : LogicalState) × (o ≡ some_pair a1 l1)
      × (next a1 l1 ≡ some_pair a2 l2)
and_then-some none next a2 l2 h = absurd (ground arith)
and_then-some (some (a, l)) next a2 l2 h = (a, l, refl, h)

run-Records :
    (events : List Timed) (a : AttemptState) (l : LogicalState) (a1 : AttemptState)
    (l1 : LogicalState)
    → run events a l ≡ some_pair a1 l1
    → Records a l a1 l1
unfolding run
run-Records [] a l a1 l1 h = quiet-Records a a l a1 l1 refl h
run-Records (t ∷ rest) a l a2 l2 h =
    let (a1, l1, first, later) =
      and_then-some (on_event t.now t.event a l) (λ a1 l1. run rest a1 l1) a2 l2 h in
    omega
      (arith, on_event-Records t.now t.event a l a1 l1 first, run-Records rest a1 l1 a2 l2 later)

-- Whatever calls come in whatever order, and the drop of the tracker at the end: an attempt that
-- was open is recorded exactly once.
pub run-dropped :
    (events : List Timed) (now : ℕ) (a : AttemptState) (l : LogicalState) (a1 : AttemptState)
    (l1 : LogicalState) (a2 : AttemptState) (l2 : LogicalState)
    → a.closed ≡ false
    → run events a l ≡ some_pair a1 l1
    → on_event now dropped a1 l1 ≡ some_pair a2 l2
    → attempts_in l2.submitted ≡ attempts_in l.submitted + 1
unfolding on_event
run-dropped events now a l a1 l1 a2 l2 still_open ran drop =
    let (closed, records) = close-Records now (drop_state a1) l1 a2 l2 drop in
    omega (
      arith,
      run-Records events a l a1 l1 ran,
      on_event-Records now dropped a1 l1 a2 l2 drop,
      ap weight still_open,
      ap weight closed,
    )
