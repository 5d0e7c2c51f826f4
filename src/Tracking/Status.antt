-- ===== src/Tracking/Status.antt =====
-- The status vocabulary and the merge of the two terminals: crates/provider-usage/src/attempt.rs,
-- lifecycle.rs and `rank` of tracking.rs.
use provider_core.Prelude.{ℕ, ◌≡◌, ◌⊎◌, ◌↔◌, Bool, true, false, arith}

pub data DispatchEvidence : Type 0 where
  not_invoked dispatch_invoked response_observed : DispatchEvidence

abbrev pub is_confirmed_dispatch : DispatchEvidence → Bool
is_confirmed_dispatch not_invoked = false
is_confirmed_dispatch dispatch_invoked = true
is_confirmed_dispatch response_observed = true

abbrev pub rank : DispatchEvidence → ℕ
rank not_invoked = 0
rank dispatch_invoked = 1
rank response_observed = 2

pub data LogicalStatus : Type 0 where
  in_progress succeeded failed canceled incomplete : LogicalStatus

pub data TrackingGapReason : Type 0 where
  write_failed writer_saturated recovered_in_flight : TrackingGapReason
  ambiguous_cancel observation_lost : TrackingGapReason

pub data TrackingState : Type 0 where
  complete : TrackingState
  gap : TrackingGapReason → TrackingState

pub data ExecutionOutcome : Type 0 where
  stable_success_terminal stable_failure translator_or_stream_error : ExecutionOutcome
  eof_without_success_terminal recovered_old_run_active : ExecutionOutcome

pub data DeliveryOutcome : Type 0 where
  clean_eof client_drop error_before_bytes error_after_bytes unknown : DeliveryOutcome

abbrev after_drop : ExecutionOutcome → LogicalStatus
after_drop stable_success_terminal = succeeded
after_drop _ = canceled

abbrev after_success : DeliveryOutcome → LogicalStatus
after_success clean_eof = succeeded
after_success _ = incomplete

abbrev by_execution : ExecutionOutcome → DeliveryOutcome → LogicalStatus
by_execution stable_success_terminal delivery = after_success delivery
by_execution stable_failure delivery = failed
by_execution translator_or_stream_error delivery = incomplete
by_execution eof_without_success_terminal delivery = incomplete
by_execution recovered_old_run_active delivery = incomplete

unfoldable pub merge_logical_terminal : ExecutionOutcome → DeliveryOutcome → LogicalStatus
merge_logical_terminal execution client_drop = after_drop execution
merge_logical_terminal execution error_before_bytes = failed
merge_logical_terminal execution clean_eof = by_execution execution clean_eof
merge_logical_terminal execution error_after_bytes = by_execution execution error_after_bytes
merge_logical_terminal execution unknown = by_execution execution unknown

-- A request counts as succeeded exactly where a stable success terminal was seen upstream, and
-- the response was delivered to its end or the client left by itself.
pub merge_logical_terminal-succeeded :
    (execution : ExecutionOutcome) (delivery : DeliveryOutcome)
    → (merge_logical_terminal execution delivery ≡ succeeded) ↔ (
        (execution ≡ stable_success_terminal) × ((delivery ≡ clean_eof) ⊎ (delivery ≡ client_drop)))
unfolding merge_logical_terminal
merge_logical_terminal-succeeded execution delivery = ground arith
