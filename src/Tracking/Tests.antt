-- ===== src/Tracking/Tests.antt =====
-- The trackers at a concrete request with one attempt.
use provider_core.Prelude.{◌+◌, ◌≡◌, ◌≢◌, refl, true, false, none, some, List, [], ◌∷◌}
use provider_core.Prelude.Int.{pos, ◌+ℤ◌}
use provider_core.Usage.Cache
use provider_core.Usage.Contract
use provider_core.Cost.Money.{checked_add}
use provider_core.Cost.Observed.{not_dispatched_cost, compute_observed_catalog_cost}
use provider_core.Cost.Price.{model_mapping_missing}
use provider_core.Tracking.Attempt.{
  AttemptSpec, LogicalState, AttemptState, dropped, stream_opened, attempt_cost, close, on_event,
  finish, drop_request, advance, note_final_attempt, note_quota_result, facts_of,
}
use provider_core.Tracking.Status.{
  not_invoked, response_observed, complete, stable_success_terminal, eof_without_success_terminal,
}
use provider_core.Tracking.Price.{resolve_attempt_price}
use provider_core.Tracking.Price
use provider_core.Tracking.Finish.{Closed, finish_once}
use provider_core.Tracking.Once.{Timed, attempts_in, run, run-dropped}
use provider_core.Tracking.Returns.{IsRecorded, close_returns}

abbrev spec : AttemptSpec
spec = record {
  provider = Price.ProviderKind.codex;
  account_id = b'a' ∷ [];
  credential_identity_revision = 1;
  configured_model = none;
  pricing_model_alias = none;
  contract = record {
    contract_version = 1;
    normalization_version = 1;
    inclusion = record {
      input_includes_cache = true;
      input_categories_mutually_exclusive = false;
      reasoning_included_in_output = true;
      reasoning_applicable = true;
      audio_applicable = false;
      cache_write_applicable = false;
      missing_cache_read_means_zero = false;
      total_source = Contract.TotalSource.reported;
    };
    cache_capability = Cache.CacheCapability.supported;
    cache_eligibility = Cache.CacheEligibility.eligible;
    cache_reporting_expectation = Cache.CacheReportingExpectation.expected;
    pricing_context_basis = Contract.PricingContextBasis.effective_input;
    pricing_mode = Contract.PricingMode.default;
  };
  price = model_mapping_missing;
  reported_model_pricing = none;
}

abbrev request : LogicalState
request = record {
  request_id = b'r' ∷ [];
  catalog_snapshot = none;
  start_gap = none;
  next_sequence = 1;
  final_attempt_sequence = none;
  final_attempt_execution = none;
  execution = none;
  delivery = none;
  quota_permit = true;
  quota_atoms = pos 0;
  quota_dispatched = false;
  quota_has_complete_cost = false;
  quota_attempts = [];
  finished = false;
  submitted = [];
}

abbrev tracker : AttemptState
tracker = record {
  sequence = 0;
  spec = spec;
  started_at_ms = 1;
  evidence = not_invoked;
  raw_usage = none;
  provider_reported_model = none;
  first_token_at_ms = none;
  tracking = complete;
  success_terminal = false;
  outcome = none;
  failover_reason = none;
  closed = false;
}

nothing_sum :
    checked_add request.quota_atoms (attempt_cost tracker request).total_known ≡ some (pos 0)
unfolding checked_add attempt_cost not_dispatched_cost ◌+ℤ◌
nothing_sum = refl

nothing_due : checked_add request.quota_atoms (attempt_cost tracker request).total_known ≢ none
nothing_due = rw nothing_sum (λ e. absurd (cc e))

close_returns_example :
    (a1 : AttemptState) × (l1 : LogicalState) × (close 2 tracker request ≡ some (a1, l1))
    × IsRecorded 2 tracker request a1 l1
close_returns_example = close_returns 2 tracker request nothing_due

finish_once_example :
    (finish 9 (finish 5 request) ≡ finish 5 request)
    × (drop_request 9 (finish 5 request) ≡ finish 5 request)
finish_once_example = finish_once 5 9 request

-- A retry that closes before the attempt that it replaced.
abbrev closed_attempts : List Closed
closed_attempts =
    record { sequence = 1; execution = stable_success_terminal }
    ∷ record { sequence = 0; execution = eof_without_success_terminal }
    ∷ []

-- The response begins, and the task is cancelled.
abbrev events : List Timed
events = record { now = 2; event = stream_opened } ∷ []

abbrev opened : AttemptState
opened = record tracker { evidence = response_observed }

run-events : run events tracker request ≡ some (opened, request)
unfolding run on_event advance
run-events = refl

dropped_pair :
    (pair : AttemptState × LogicalState) × (on_event 3 dropped opened request ≡ some pair)
unfolding on_event close note_quota_result note_final_attempt facts_of attempt_cost
    compute_observed_catalog_cost resolve_attempt_price
dropped_pair = (_, refl)

run-dropped_example : attempts_in dropped_pair.0.1.submitted ≡ attempts_in [] + 1
run-dropped_example =
    run-dropped events 3 tracker request opened request dropped_pair.0.0 dropped_pair.0.1 refl
      run-events dropped_pair.1
