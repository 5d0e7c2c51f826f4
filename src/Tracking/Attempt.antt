-- ===== src/Tracking/Attempt.antt =====
-- The trackers of a request and of its attempts: `LogicalTracker` and `AttemptTracker` of
-- crates/provider-usage/src/tracking.rs. What is submitted to the writer and to the quota ledger
-- is a list, oldest first. A handler runs as one step, and `now` is what it reads from the clock.
-- An attempt's id, the text `request#sequence`, is its two parts.
use provider_core.Prelude.{
  ℕ, suc, Bool, true, false, not, ◌&&◌, Option, none, some, List, [], ◌∷◌, ◌++◌, if◌then◌else◌, ltb,
  is_none_or, Text, insert_once,
}
use provider_core.Usage.Token.{
  provider_model_mismatch, NormalizationWarning-discrete, ProviderUsageObservation,
}
use provider_core.Usage.Contract.{UsageContractSnapshot}
use provider_core.Usage.Raw.{RawUsageFields}
use provider_core.Usage.Normalize.{normalize_usage}
use provider_core.Cost.Money.{UsdAtoms, checked_add}
use provider_core.Cost.Price.{PriceResolution}
use provider_core.Cost.Observed.{
  ObservedCatalogCost, CostStatus, complete_for_observed_catalog_components, not_dispatched_cost,
  compute_observed_catalog_cost,
}
use provider_core.Router.Accounts.{ProviderFailoverReason}
use provider_core.Tracking.Status.{
  DispatchEvidence, not_invoked, dispatch_invoked, response_observed, is_confirmed_dispatch, rank,
  LogicalStatus, TrackingGapReason, ambiguous_cancel, TrackingState, complete, gap,
  ExecutionOutcome, stable_success_terminal, stable_failure, eof_without_success_terminal,
  DeliveryOutcome, client_drop, merge_logical_terminal,
}
use provider_core.Tracking.Price.{
  ProviderKind, ProviderModelPricingLookup, CatalogSnapshot, Priced, resolve_attempt_price,
  model_disagrees,
}

pub data AttemptOutcome : Type 0 where
  succeeded failed cancelled : AttemptOutcome

pub record AttemptSpec : Type 0 where
  pub provider : ProviderKind
  pub account_id : Text
  pub credential_identity_revision : ℕ
  pub configured_model : Option Text
  pub pricing_model_alias : Option Text
  pub contract : UsageContractSnapshot
  pub price : PriceResolution
  pub reported_model_pricing : Option ProviderModelPricingLookup

pub record AttemptFacts : Type 0 where
  pub request_id : Text
  pub sequence : ℕ
  pub provider : ProviderKind
  pub account_id : Text
  pub credential_identity_revision : ℕ
  pub configured_model : Option Text
  pub provider_reported_model : Option Text
  pub started_at_ms : ℕ
  pub first_token_at_ms : Option ℕ
  pub completed_at_ms : ℕ
  pub outcome : AttemptOutcome
  pub failover_reason : Option ProviderFailoverReason
  pub dispatch_evidence : DispatchEvidence
  pub tracking : TrackingState
  pub contract : UsageContractSnapshot
  pub observation : ProviderUsageObservation
  pub price : PriceResolution
  pub cost : ObservedCatalogCost

pub record LogicalRequestTerminal : Type 0 where
  pub completed_at_ms : ℕ
  pub status : LogicalStatus
  pub execution : ExecutionOutcome
  pub delivery : DeliveryOutcome
  pub final_attempt : Option ℕ
  pub tracking : TrackingState

pub record QuotaLedgerEntry : Type 0 where
  pub dispatched : Bool
  pub cost_atoms : Option UsdAtoms
  pub resolved_at_ms : ℕ
  pub attempts : List AttemptFacts

pub data Submitted : Type 0 where
  attempt : AttemptFacts → Submitted
  logical_terminal : LogicalRequestTerminal → Submitted
  quota : QuotaLedgerEntry → Submitted

-- The state of a request, with what it has submitted. Its permit for the quota ledger is there
-- or has been used up.
pub record LogicalState : Type 0 where
  pub request_id : Text
  pub catalog_snapshot : Option CatalogSnapshot
  pub start_gap : Option TrackingGapReason
  pub next_sequence : ℕ
  pub final_attempt_sequence : Option ℕ
  pub final_attempt_execution : Option ExecutionOutcome
  pub execution : Option ExecutionOutcome
  pub delivery : Option DeliveryOutcome
  pub quota_permit : Bool
  pub quota_atoms : UsdAtoms
  pub quota_dispatched : Bool
  pub quota_has_complete_cost : Bool
  pub quota_attempts : List AttemptFacts
  pub finished : Bool
  pub submitted : List Submitted

pub record AttemptState : Type 0 where
  pub sequence : ℕ
  pub spec : AttemptSpec
  pub started_at_ms : ℕ
  pub evidence : DispatchEvidence
  pub raw_usage : Option (Option RawUsageFields)
  pub provider_reported_model : Option Text
  pub first_token_at_ms : Option ℕ
  pub tracking : TrackingState
  pub success_terminal : Bool
  pub outcome : Option AttemptOutcome
  pub failover_reason : Option ProviderFailoverReason
  pub closed : Bool

abbrev pub first_of : {A : Type 0} → Option A → A → Option A
first_of none a = some a
first_of (some b) a = some b

abbrev pub submit : Submitted → LogicalState → LogicalState
submit fact l = record l { submitted = l.submitted ++ fact ∷ [] }

abbrev pub u32_max : ℕ
u32_max = 0xffff_ffff

-- `open_attempt`: the new attempt, and the request with the next sequence (`saturating_add`).
unfoldable pub open_attempt : ℕ → AttemptSpec → LogicalState → AttemptState × LogicalState
open_attempt now spec l = (
  record {
    sequence = l.next_sequence;
    spec = spec;
    started_at_ms = now;
    evidence = not_invoked;
    raw_usage = none;
    provider_reported_model = none;
    first_token_at_ms = none;
    tracking = complete;
    success_terminal = false;
    outcome = none;
    failover_reason = none;
    closed = false;
  },
  record l {
    next_sequence = if ltb l.next_sequence u32_max then suc l.next_sequence else l.next_sequence;
  },
)

unfoldable pub record_execution : ExecutionOutcome → LogicalState → LogicalState
record_execution outcome l = record l { execution = first_of l.execution outcome }

unfoldable pub record_delivery : DeliveryOutcome → LogicalState → LogicalState
record_delivery outcome l = record l { delivery = first_of l.delivery outcome }

unfoldable pub note_final_attempt : ℕ → ExecutionOutcome → LogicalState → LogicalState
note_final_attempt sequence execution l =
    if is_none_or l.final_attempt_sequence (λ best. ltb best sequence)
    then record l {
      final_attempt_sequence = some sequence;
      final_attempt_execution = some execution;
    }
    else l

abbrev is_complete_cost : CostStatus → Bool
is_complete_cost complete_for_observed_catalog_components = true
is_complete_cost _ = false

abbrev pub with_atoms : Option UsdAtoms → LogicalState → Option LogicalState
with_atoms none l = none
with_atoms (some sum) l = some (record l { quota_has_complete_cost = true; quota_atoms = sum })

abbrev pub note_dispatched : AttemptFacts → LogicalState → LogicalState
note_dispatched facts l = record l {
  quota_dispatched = true;
  quota_attempts = if l.quota_permit then l.quota_attempts ++ facts ∷ [] else l.quota_attempts;
}

-- `none` is the panic of the sum that does not fit an `i128`.
unfoldable pub note_quota_result : AttemptFacts → LogicalState → Option LogicalState
note_quota_result facts l =
    if is_confirmed_dispatch facts.dispatch_evidence
    then (if is_complete_cost facts.cost.status
        then with_atoms (checked_add l.quota_atoms facts.cost.total_known) (note_dispatched facts l)
        else some (note_dispatched facts l))
    else some l

-- What the attempt proved about the upstream side.
unfoldable pub execution_outcome : AttemptState → ExecutionOutcome
execution_outcome a =
    if is_confirmed_dispatch a.evidence
    then (if a.success_terminal then stable_success_terminal else eof_without_success_terminal)
    else stable_failure

abbrev flatten : {A : Type 0} → Option (Option A) → Option A
flatten none = none
flatten (some o) = o

abbrev pub prices_attempt : AttemptState → LogicalState → Priced
prices_attempt a l =
    resolve_attempt_price a.spec.price a.provider_reported_model a.spec.pricing_model_alias
      a.spec.reported_model_pricing l.catalog_snapshot

-- The normalized usage, with the warning that another model than the priced one has answered.
unfoldable pub observe : AttemptState → LogicalState → ProviderUsageObservation
observe a l =
    let o = normalize_usage (flatten a.raw_usage) a.spec.contract in
    if model_disagrees a.spec.provider a.spec.configured_model a.provider_reported_model
      && not (prices_attempt a l).1
    then record o {
      warnings = insert_once NormalizationWarning-discrete o.warnings provider_model_mismatch;
    }
    else o

abbrev is_not_invoked : DispatchEvidence → Bool
is_not_invoked not_invoked = true
is_not_invoked _ = false

unfoldable pub attempt_cost : AttemptState → LogicalState → ObservedCatalogCost
attempt_cost a l =
    if is_not_invoked a.evidence
    then not_dispatched_cost
    else compute_observed_catalog_cost (observe a l) a.spec.contract (prices_attempt a l).0

abbrev outcome_or : Option AttemptOutcome → Bool → AttemptOutcome
outcome_or none success = if success then succeeded else failed
outcome_or (some outcome) success = outcome

unfoldable pub facts_of : ℕ → AttemptState → LogicalState → AttemptFacts
facts_of now a l = record {
  request_id = l.request_id;
  sequence = a.sequence;
  provider = a.spec.provider;
  account_id = a.spec.account_id;
  credential_identity_revision = a.spec.credential_identity_revision;
  configured_model = a.spec.configured_model;
  provider_reported_model = a.provider_reported_model;
  started_at_ms = a.started_at_ms;
  first_token_at_ms = a.first_token_at_ms;
  completed_at_ms = now;
  outcome = outcome_or a.outcome a.success_terminal;
  failover_reason = a.failover_reason;
  dispatch_evidence = a.evidence;
  tracking = a.tracking;
  contract = a.spec.contract;
  observation = observe a l;
  price = (prices_attempt a l).0;
  cost = attempt_cost a l;
}

abbrev pub Both : Type 0
Both = AttemptState × LogicalState

abbrev pub submit_facts : AttemptState → AttemptFacts → Option LogicalState → Option Both
submit_facts a facts none = none
submit_facts a facts (some l) = some (a, submit (attempt facts) l)

unfoldable pub close : ℕ → AttemptState → LogicalState → Option Both
close now a l =
    if a.closed
    then some (a, l)
    else submit_facts (record a { closed = true; raw_usage = none }) (facts_of now a l)
        (note_quota_result (facts_of now a l)
          (note_final_attempt a.sequence (execution_outcome a) l))

unfoldable pub advance : DispatchEvidence → AttemptState → AttemptState
advance evidence a =
    if ltb (rank a.evidence) (rank evidence) then record a { evidence = evidence } else a

abbrev pub record_usage : Option RawUsageFields → AttemptState → AttemptState
record_usage raw a = record a { raw_usage = first_of a.raw_usage raw }

abbrev pub gap_if_complete : TrackingState → TrackingState
gap_if_complete complete = gap ambiguous_cancel
gap_if_complete (gap reason) = gap reason

-- The calls of `AttemptTracking`, and the drop of the tracker.
pub data AttemptEvent : Type 0 where
  stream_opened : AttemptEvent
  first_token_observed : AttemptEvent
  success_terminal_observed : AttemptEvent
  provider_model_observed : Text → AttemptEvent
  observation_lost : AttemptEvent
  finished : Option RawUsageFields → AttemptEvent
  cancelled : Option RawUsageFields → AttemptEvent
  failed : Bool → Option ProviderFailoverReason → AttemptEvent
  dropped : AttemptEvent

abbrev pub answered_evidence : Bool → DispatchEvidence
answered_evidence answered = if answered then response_observed else dispatch_invoked

abbrev pub drop_state : AttemptState → AttemptState
drop_state a =
    if a.closed
    then a
    else record a { tracking = gap ambiguous_cancel; outcome = some AttemptOutcome.cancelled }

unfoldable pub on_event : ℕ → AttemptEvent → AttemptState → LogicalState → Option Both
unfolding close advance
on_event now stream_opened a l = some (advance response_observed a, l)
on_event now first_token_observed a l =
    some (record a { first_token_at_ms = first_of a.first_token_at_ms now }, l)
on_event now success_terminal_observed a l = some (record a { success_terminal = true }, l)
on_event now (provider_model_observed model) a l =
    some (record a { provider_reported_model = first_of a.provider_reported_model model }, l)
on_event now observation_lost a l =
    some (record a { tracking = gap TrackingGapReason.observation_lost }, l)
on_event now (finished fields) a l = close now (record_usage fields a) l
on_event now (AttemptEvent.cancelled fields) a l =
    close now
      (record (record_usage fields a) {
        tracking = gap_if_complete a.tracking;
        outcome = some AttemptOutcome.cancelled;
      })
      l
on_event now (AttemptEvent.failed answered reason) a l =
    close now
      (record (advance (answered_evidence answered) a) {
        outcome = some AttemptOutcome.failed;
        failover_reason = reason;
      })
      l
on_event now dropped a l = close now (drop_state a) l

abbrev or_else : {A : Type 0} → Option A → Option A → Option A
or_else none b = b
or_else (some a) b = some a

abbrev or_default : {A : Type 0} → Option A → A → A
or_default none b = b
or_default (some a) b = a

abbrev start_tracking : Option TrackingGapReason → TrackingState
start_tracking none = complete
start_tracking (some reason) = gap reason

abbrev pub final_execution : LogicalState → ExecutionOutcome
final_execution l =
    or_default (or_else l.execution l.final_attempt_execution) eof_without_success_terminal

abbrev pub final_delivery : LogicalState → DeliveryOutcome
final_delivery l = or_default l.delivery DeliveryOutcome.unknown

unfoldable pub terminal_of : ℕ → LogicalState → LogicalRequestTerminal
terminal_of now l = record {
  completed_at_ms = now;
  status = merge_logical_terminal (final_execution l) (final_delivery l);
  execution = final_execution l;
  delivery = final_delivery l;
  final_attempt = l.final_attempt_sequence;
  tracking = start_tracking l.start_gap;
}

-- Without the `expect` that the request has an API key: it holds a permit only where it has one.
abbrev quota_entry : ℕ → LogicalState → QuotaLedgerEntry
quota_entry now l = record {
  dispatched = l.quota_dispatched;
  cost_atoms = if l.quota_dispatched && l.quota_has_complete_cost then some l.quota_atoms else none;
  resolved_at_ms = now;
  attempts = l.quota_attempts;
}

-- The entry goes to the ledger while the permit is there, and takes the attempts with it.
abbrev pub settle_quota : ℕ → LogicalState → LogicalState
settle_quota now l =
    if l.quota_permit
    then record l {
      quota_permit = false;
      quota_attempts = [];
      submitted = l.submitted ++ quota (quota_entry now l) ∷ [];
    }
    else l

unfoldable pub finish : ℕ → LogicalState → LogicalState
unfolding terminal_of
finish now l =
    if l.finished
    then l
    else submit (logical_terminal (terminal_of now l))
        (settle_quota now (record l { finished = true }))

-- The drop of the request's tracker.
unfoldable pub drop_request : ℕ → LogicalState → LogicalState
unfolding finish
drop_request now l =
    if l.finished then l else finish now (record l { delivery = first_of l.delivery client_drop })
