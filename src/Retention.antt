-- ===== src/Retention.antt =====
-- The removal of old facts: `RetentionWorker::run_once` of crates/provider-usage/src/retention.rs.
-- The repository is a trait, which enters as a parameter; the cutoff is fixed during a cycle.
pub mod Drain
mod Tests
use provider_core.Prelude.{
  ℕ, zero, suc, ◌+◌, Bool, true, false, Option, none, some, if◌then◌else◌, ltb,
}

-- `DEFAULT_RETENTION_BATCH`
abbrev pub default_retention_batch : ℕ
default_retention_batch = 500

-- The four tables that facts are deleted from.
pub data Facts : Type 0 where
  quota_ledger_entries logical_requests tracking_gaps provider_quota_observations : Facts

-- A call deletes at most as many of the facts before the cutoff as it is given, and gives their
-- number, or `none` for an error, with the repository after it.
pub record UsageRepository : Type 1 where
  pub State : Type 0
  pub delete_before : Facts → ℕ → State → Option ℕ × State

pub record RetentionReport : Type 0 where
  pub quota_ledger_entries_deleted : ℕ
  pub logical_requests_deleted : ℕ
  pub gap_buckets_deleted : ℕ
  pub provider_quota_observations_deleted : ℕ

module _ (repository : UsageRepository) (batch : ℕ) where
  open repository use {State, delete_before}

  -- The end of a loop: what it deleted, whether it was without an error, and the repository.
  pub record Drained : Type 0 where
    pub deleted : ℕ
    pub succeeded : Bool
    pub state : State

  abbrev pub next_batch : (ℕ → State → Option Drained) → ℕ → Option ℕ × State → Option Drained
  next_batch again total (none, s) = some (record { deleted = total; succeeded = false; state = s })
  next_batch again total (some n, s) =
      if ltb n batch
      then some (record { deleted = total + n; succeeded = true; state = s })
      else again (total + n) s

  -- One of the loops, with the number of its rounds as fuel. `none` where that does not suffice.
  unfoldable pub drain : ℕ → Facts → ℕ → State → Option Drained
  drain zero facts total s = none
  drain (suc fuel) facts total s =
      next_batch (λ t later. drain fuel facts t later) total (delete_before facts batch s)

  pub record Cycle : Type 0 where
    pub report : RetentionReport
    pub state : State

  abbrev and_then_drained : Option Drained → (Drained → Option Cycle) → Option Cycle
  and_then_drained none next = none
  and_then_drained (some d) next = next d

  abbrev report_of : ℕ → ℕ → ℕ → ℕ → State → Option Cycle
  report_of entries requests gaps observations s = some (record {
    report = record {
      quota_ledger_entries_deleted = entries;
      logical_requests_deleted = requests;
      gap_buckets_deleted = gaps;
      provider_quota_observations_deleted = observations;
    };
    state = s;
  })

  -- An error in the first two loops ends the cycle, one in the third only its loop.
  unfoldable pub run_once : ℕ → State → Option Cycle
  unfolding drain
  run_once fuel s = and_then_drained (drain fuel quota_ledger_entries 0 s) (λ entries.
      if entries.succeeded
      then and_then_drained (drain fuel logical_requests 0 entries.state) (λ requests.
        if requests.succeeded
        then and_then_drained (drain fuel tracking_gaps 0 requests.state) (λ gaps.
          and_then_drained (drain fuel provider_quota_observations 0 gaps.state) (λ observations.
            report_of entries.deleted requests.deleted gaps.deleted observations.deleted
              observations.state))
        else report_of entries.deleted requests.deleted 0 0 requests.state)
      else report_of entries.deleted 0 0 0 entries.state)
