-- ===== src/Tracking/Returns.antt =====
-- Closing an attempt comes to its end, with the attempt recorded.
use provider_core.Prelude.{
  ℕ, ◌≡◌, ◌≢◌, refl, sym, ◌∙◌, false, [], ◌∷◌, ◌++◌, true, Option, none, some, arith, Bool-cases,
  Option-cases, inl, inr,
}
use provider_core.Cost.Money.{checked_add}
use provider_core.Tracking.Status.{ExecutionOutcome, is_confirmed_dispatch}
use provider_core.Tracking.Attempt.{
  AttemptFacts, LogicalState, AttemptState, note_final_attempt, note_quota_result,
  execution_outcome, facts_of, close, attempt_cost, submit_facts, Both, attempt,
}
use provider_core.Tracking.Once.{close_closed, close_open, close-submitted, same_pair}

-- What a call cannot end in: a panic, where the total of the quota and the cost of the attempt
-- fit an `i128` together.
note_quota_result-some :
    (facts : AttemptFacts) (l : LogicalState)
    → checked_add l.quota_atoms facts.cost.total_known ≢ none
    → note_quota_result facts l ≢ none
unfolding note_quota_result
note_quota_result-some facts l h =
    elim (Bool-cases (is_confirmed_dispatch facts.dispatch_evidence)) [
      | inr unsent ↦ rw unsent (λ e. absurd (ground arith))
      | inl sent ↦ elim (Option-cases (checked_add l.quota_atoms facts.cost.total_known)) [
        | inl overflowed ↦ absurd (h overflowed)
        | inr (sum, e) ↦ rw (sent, e) (λ failed. absurd (ground arith))
      ]
    ]

note_final_attempt-quota :
    (sequence : ℕ) (execution : ExecutionOutcome) (l : LogicalState)
    → (note_final_attempt sequence execution l).quota_atoms ≡ l.quota_atoms
unfolding note_final_attempt
note_final_attempt-quota sequence execution l = ground arith

submit_facts-some :
    (a : AttemptState) (facts : AttemptFacts) (o : Option LogicalState)
    → o ≢ none
    → submit_facts a facts o ≢ none
submit_facts-some a facts none h = absurd (h refl)
submit_facts-some a facts (some l) h = λ e. absurd (ground arith)

cost_of :
    (now : ℕ) (a : AttemptState) (l : LogicalState) → (facts_of now a l).cost ≡ attempt_cost a l
unfolding facts_of
cost_of now a l = refl

close-some :
    (now : ℕ) (a : AttemptState) (l : LogicalState)
    → checked_add l.quota_atoms (attempt_cost a l).total_known ≢ none
    → close now a l ≢ none
close-some now a l h = elim (Bool-cases a.closed) [
  | inl closed ↦ rw (close_closed now a l closed) (λ e. absurd (ground arith))
  | inr still_open ↦ rw (close_open now a l still_open) (
      submit_facts-some (record a { closed = true; raw_usage = none }) (facts_of now a l)
        (note_quota_result (facts_of now a l)
          (note_final_attempt a.sequence (execution_outcome a) l))
        (note_quota_result-some (facts_of now a l)
          (note_final_attempt a.sequence (execution_outcome a) l)
          (rw (note_final_attempt-quota a.sequence (execution_outcome a) l)
            (rw (cost_of now a l) h))))
]

-- What a close comes to: the attempt is closed, and it was recorded now where it was open before;
-- else nothing was submitted.
pub record IsRecorded (now : ℕ) (a : AttemptState) (l : LogicalState) (a1 : AttemptState)
    (l1 : LogicalState) : Type 0 where
  pub is_closed : a1.closed ≡ true
  pub now_recorded :
      a.closed ≡ false → l1.submitted ≡ l.submitted ++ attempt (facts_of now a l) ∷ []
  pub recorded_before : a.closed ≡ true → l1.submitted ≡ l.submitted

some_returned :
    (now : ℕ) (a : AttemptState) (l : LogicalState) (o : Option Both)
    → o ≢ none
    → ((a1 : AttemptState) (l1 : LogicalState) → o ≡ some (a1, l1) → IsRecorded now a l a1 l1)
    → (a1 : AttemptState) × (l1 : LogicalState) × (o ≡ some (a1, l1)) × IsRecorded now a l a1 l1
some_returned now a l none h f = absurd (h refl)
some_returned now a l (some (a1, l1)) h f = (a1, l1, refl, f a1 l1 refl)

close-IsRecorded :
    (now : ℕ) (a : AttemptState) (l : LogicalState) (a1 : AttemptState) (l1 : LogicalState)
    → close now a l ≡ some (a1, l1)
    → IsRecorded now a l a1 l1
close-IsRecorded now a l a1 l1 h = elim (Bool-cases a.closed) [
  | inl closed ↦
      let (same_closed, same_submitted) =
        same_pair a l a1 l1 (sym (close_closed now a l closed) ∙ h) in
      record {
        is_closed = same_closed ∙ closed;
        now_recorded = λ e. absurd (ground (arith, closed, e));
        recorded_before = λ e. same_submitted;
      }
  | inr still_open ↦
      let (closed, submitted) = close-submitted now a l a1 l1 still_open h in
      record {
        is_closed = closed;
        now_recorded = λ e. submitted;
        recorded_before = λ e. absurd (ground (arith, still_open, e));
      }
]

-- Closing an attempt always comes to its end without a panic, where the cost of the attempt and the
-- quota's total so far fit an `i128` together. The attempt is closed then, and where it was open the
-- one fact that was submitted is its record; where it was closed before, nothing is submitted.
pub close_returns :
    (now : ℕ) (a : AttemptState) (l : LogicalState)
    → checked_add l.quota_atoms (attempt_cost a l).total_known ≢ none
    → (a1 : AttemptState) × (l1 : LogicalState) × (close now a l ≡ some (a1, l1))
      × IsRecorded now a l a1 l1
close_returns now a l h =
    some_returned now a l (close now a l) (close-some now a l h) (close-IsRecorded now a l)
