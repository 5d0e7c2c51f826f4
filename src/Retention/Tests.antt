-- ===== src/Retention/Tests.antt =====
-- A concrete cycle.
use provider_core.Prelude.{
  ℕ, ◌+◌, ◌-◌, ◌≡◌, ◌≢◌, ◌<◌, refl, arith, Option, some, if◌then◌else◌, leb,
}
use provider_core.Retention.{
  Facts, quota_ledger_entries, logical_requests, tracking_gaps, provider_quota_observations,
  UsageRepository, Cycle, run_once,
}
use provider_core.Retention.Drain.{Deletes, run_once-Drains}

abbrev min : ℕ → ℕ → ℕ
min a b = if leb a b then a else b

abbrev delete : Facts → ℕ → ℕ → Option ℕ × ℕ
delete tracking_gaps batch s = (some (min batch s), s - min batch s)
delete quota_ledger_entries batch s = (some 0, s)
delete logical_requests batch s = (some 0, s)
delete provider_quota_observations batch s = (some 0, s)

-- A repository that holds only gap buckets.
abbrev gap_buckets : UsageRepository
gap_buckets = record { State = ℕ; delete_before = delete }

abbrev left : Facts → ℕ → ℕ
left tracking_gaps s = s
left quota_ledger_entries s = 0
left logical_requests s = 0
left provider_quota_observations s = 0

only_gaps : (s t : ℕ) (others : Facts) → others ≢ tracking_gaps → left others t ≡ left others s
only_gaps s t tracking_gaps other = absurd (other refl)
only_gaps s t quota_ledger_entries other = refl
only_gaps s t logical_requests other = refl
only_gaps s t provider_quota_observations other = refl

succeeds :
    (facts : Facts) (s : ℕ)
    → (n : ℕ) × (t : ℕ) × (delete facts 2 s ≡ (some n, t))
      × (n ≡ min 2 (left facts s))
      × (left facts t + n ≡ left facts s)
      × ((others : Facts) → others ≢ facts → left others t ≡ left others s)
succeeds tracking_gaps s =
    (min 2 s, s - min 2 s, refl, refl, ground arith, only_gaps s (s - min 2 s))
succeeds quota_ledger_entries s = (0, s, refl, refl, refl, λ others other. refl)
succeeds logical_requests s = (0, s, refl, refl, refl, λ others other. refl)
succeeds provider_quota_observations s = (0, s, refl, refl, refl, λ others other. refl)

gap_buckets-Deletes : Deletes gap_buckets 2 left
gap_buckets-Deletes = record { succeeds = succeeds }

few : (facts : Facts) → left facts 5 < 6
few tracking_gaps = omega arith
few quota_ledger_entries = omega arith
few logical_requests = omega arith
few provider_quota_observations = omega arith

run_once-Drains_example :
    (c : Cycle gap_buckets 2) × (run_once gap_buckets 2 6 5 ≡ some c)
    × (c.report.quota_ledger_entries_deleted ≡ 0)
    × (c.report.logical_requests_deleted ≡ 0)
    × (c.report.gap_buckets_deleted ≡ 5)
    × (c.report.provider_quota_observations_deleted ≡ 0)
    × ((facts : Facts) → left facts c.state ≡ 0)
run_once-Drains_example =
    run_once-Drains gap_buckets 2 left 6 5 gap_buckets-Deletes (omega arith) few
