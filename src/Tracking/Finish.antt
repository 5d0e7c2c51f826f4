-- ===== src/Tracking/Finish.antt =====
-- The terminal of a request is decided once.
use provider_core.Prelude.{
  ℕ, ◌≤◌, ◌≡◌, refl, true, some, List, [], ◌∷◌, arith, All, Bool-cases, Option-cases, inl, inr, ltb,
  is_none_or,
}
use provider_core.Tracking.Status.{ExecutionOutcome}
use provider_core.Tracking.Attempt.{LogicalState, finish, drop_request, note_final_attempt}

finish-finished : (now : ℕ) (l : LogicalState) → (finish now l).finished ≡ true
unfolding finish
finish-finished now l = ground arith

finish_finished : (now : ℕ) (l : LogicalState) → l.finished ≡ true → finish now l ≡ l
unfolding finish
finish_finished now l h = ground arith

drop_finished : (now : ℕ) (l : LogicalState) → l.finished ≡ true → drop_request now l ≡ l
unfolding drop_request
drop_finished now l h = ground arith

-- Only the first end of a request counts: to finish it again, or to drop it afterwards, changes
-- nothing and submits nothing, neither a terminal nor a quota entry.
pub finish_once :
    (now later : ℕ) (l : LogicalState)
    → (finish later (finish now l) ≡ finish now l)
      × (drop_request later (finish now l) ≡ finish now l)
finish_once now later l = (
  finish_finished later (finish now l) (finish-finished now l),
  drop_finished later (finish now l) (finish-finished now l),
)

-- An attempt that has closed, with what it proved.
pub record Closed : Type 0 where
  pub sequence : ℕ
  pub execution : ExecutionOutcome

-- The attempts close in any order.
unfoldable pub note_all : List Closed → LogicalState → LogicalState
note_all [] l = l
note_all (c ∷ cs) l = note_all cs (note_final_attempt c.sequence c.execution l)

-- The final attempt is numbered `n` or higher.
abbrev pub IsFrom : ℕ → LogicalState → Type 0
IsFrom n l = (best : ℕ) × (l.final_attempt_sequence ≡ some best) × (n ≤ best)

note_final_attempt-IsFrom :
    (sequence : ℕ) (execution : ExecutionOutcome) (l : LogicalState)
    → IsFrom sequence (note_final_attempt sequence execution l)
unfolding note_final_attempt
note_final_attempt-IsFrom sequence execution l =
    elim (Bool-cases (is_none_or l.final_attempt_sequence (λ best. ltb best sequence))) [
      | inl higher ↦ rw higher (sequence, refl, omega arith)
      | inr lower ↦ elim (Option-cases l.final_attempt_sequence) [
        | inl absent ↦ absurd (ground arith)
        | inr (best, e) ↦ rw lower (best, e, ground arith)
      ]
    ]

note_final_attempt-keeps :
    (n sequence : ℕ) (execution : ExecutionOutcome) (l : LogicalState)
    → IsFrom n l
    → IsFrom n (note_final_attempt sequence execution l)
unfolding note_final_attempt
note_final_attempt-keeps n sequence execution l h =
    let (best, e, le) = h in
    elim (Bool-cases (is_none_or l.final_attempt_sequence (λ best. ltb best sequence))) [
      | inl higher ↦ rw higher (sequence, refl, ground arith)
      | inr lower ↦ rw lower (best, e, le)
    ]

note_all-keeps :
    (n : ℕ) (cs : List Closed) (l : LogicalState) → IsFrom n l → IsFrom n (note_all cs l)
unfolding note_all
note_all-keeps n [] l h = h
note_all-keeps n (c ∷ cs) l h =
    note_all-keeps n cs (note_final_attempt c.sequence c.execution l)
      (note_final_attempt-keeps n c.sequence c.execution l h)

-- In whatever order the attempts of a request close, the final one is numbered at least as high
-- as each of them: a retry that ends late does not give way to the attempt that it replaced.
pub note_all-IsFrom :
    (cs : List Closed) (l : LogicalState)
    → All (λ (c : Closed). IsFrom c.sequence (note_all cs l)) cs
unfolding note_all
note_all-IsFrom [] l = tt
note_all-IsFrom (c ∷ cs) l = (
  note_all-keeps c.sequence cs (note_final_attempt c.sequence c.execution l)
      (note_final_attempt-IsFrom c.sequence c.execution l),
  note_all-IsFrom cs (note_final_attempt c.sequence c.execution l),
)
