-- ===== src/Retention/Drain.antt =====
-- A cycle removes the whole backlog.
use provider_core.Prelude.{
  ℕ, zero, suc, ◌+◌, ◌≡◌, ◌≢◌, ◌<◌, refl, ◌∙◌, ap, arith, ltb→lt, lt→ltb, true, false, some,
  if◌then◌else◌, ltb, leb, Bool-cases, inl, inr,
}
use provider_core.Retention.{
  Facts, quota_ledger_entries, logical_requests, tracking_gaps, provider_quota_observations,
  UsageRepository, Drained, next_batch, drain, Cycle, RetentionReport, run_once,
}

-- A repository whose calls succeed: each deletes as many of the facts that are left as it may, and no
-- others.
pub record Deletes (repository : UsageRepository) (batch : ℕ) (left : Facts → repository.State → ℕ)
    : Type 0 where
  pub succeeds :
      (facts : Facts) (s : repository.State)
      → (n : ℕ) × (t : repository.State) × (repository.delete_before facts batch s ≡ (some n, t))
        × (n ≡ (if leb batch (left facts s) then batch else left facts s))
        × (left facts t + n ≡ left facts s)
        × ((others : Facts) → others ≢ facts → left others t ≡ left others s)

from_zero : {deleted found before : ℕ} → deleted ≡ 0 + found → found ≡ before → deleted ≡ before
from_zero d e = omega (arith, d, e)

every_table :
    (P : Facts → Type 0)
    → P quota_ledger_entries
    → P logical_requests
    → P tracking_gaps
    → P provider_quota_observations
    → (facts : Facts) → P facts
every_table P q r g o quota_ledger_entries = q
every_table P q r g o logical_requests = r
every_table P q r g o tracking_gaps = g
every_table P q r g o provider_quota_observations = o

module _ (batch : ℕ) where
  -- A short batch was the last one.
  short_batch :
      (n before after : ℕ)
      → n ≡ (if leb batch before then batch else before)
      → after + n ≡ before
      → ltb n batch ≡ true
      → (n ≡ before) × (after ≡ 0)
  short_batch n before after e r h =
      (ground (arith, ltb→lt n batch), ground (arith, ltb→lt n batch))

  -- After a full batch fewer are left.
  full_batch :
      (n before after fuel : ℕ)
      → 0 < batch
      → n ≡ (if leb batch before then batch else before)
      → after + n ≡ before
      → ltb n batch ≡ false
      → before < suc fuel
      → after < fuel
  full_batch n before after fuel b e r h f = ground (arith, lt→ltb n batch)

module _ (repository : UsageRepository) (batch : ℕ) (left : Facts → repository.State → ℕ) where
  open repository use {State, delete_before}

  -- What a loop comes to.
  abbrev IsDrained : Facts → State → ℕ → Drained repository batch → Type 0
  IsDrained facts s total d =
      (d.deleted ≡ total + left facts s)
      × (d.succeeded ≡ true)
      × (left facts d.state ≡ 0)
      × ((others : Facts) → others ≢ facts → left others d.state ≡ left others s)

  drain-IsDrained :
      (fuel : ℕ) (facts : Facts) (total : ℕ) (s : State)
      → Deletes repository batch left
      → 0 < batch
      → left facts s < fuel
      → (d : Drained repository batch) × (drain repository batch fuel facts total s ≡ some d)
        × IsDrained facts s total d
  unfolding drain
  drain-IsDrained zero facts total s h b f = absurd (omega arith)
  drain-IsDrained (suc fuel) facts total s h b f =
      let (n, t, call, count, rest, kept) = h.succeeds facts s in
      let step =
        ap
          (next_batch repository batch (λ u later. drain repository batch fuel facts u later) total)
          call in
      elim (Bool-cases (ltb n batch)) [
        | inl short ↦
            let d : Drained repository batch = record {
              deleted = total + n;
              succeeded = true;
              state = t;
            } in
            let last = short_batch batch n (left facts s) (left facts t) count rest short in
            (d, step ∙ rw short refl, (ap (λ k. total + k) last.0, refl, last.1, kept))
        | inr full ↦
            let more = full_batch batch n (left facts s) (left facts t) fuel b count rest full f in
            let (d, e, (sum, fine, none_left, others_kept)) =
              drain-IsDrained fuel facts (total + n) t h b more in
            (
              d,
              step ∙ rw full e,
              (
                sum ∙ omega (arith, rest),
                fine,
                none_left,
                λ others other. others_kept others other ∙ kept others other,
              ),
            )
      ]

  -- One cycle, on a repository whose calls succeed, comes to its end with the fuel of a round for each
  -- fact that is left, deletes all facts that are left in the four tables and reports their numbers.
  pub run_once-Drains :
      (fuel : ℕ) (s : State)
      → Deletes repository batch left
      → 0 < batch
      → ((facts : Facts) → left facts s < fuel)
      → (c : Cycle repository batch) × (run_once repository batch fuel s ≡ some c)
        × (c.report.quota_ledger_entries_deleted ≡ left quota_ledger_entries s)
        × (c.report.logical_requests_deleted ≡ left logical_requests s)
        × (c.report.gap_buckets_deleted ≡ left tracking_gaps s)
        × (c.report.provider_quota_observations_deleted ≡ left provider_quota_observations s)
        × ((facts : Facts) → left facts c.state ≡ 0)
  unfolding run_once
  run_once-Drains fuel s h b f =
      let (d1, e1, (n1, y1, z1, k1)) =
        drain-IsDrained fuel quota_ledger_entries 0 s h b (f quota_ledger_entries) in
      let r1 = k1 logical_requests (λ e. cc) in
      let (d2, e2, (n2, y2, z2, k2)) =
        drain-IsDrained fuel logical_requests 0 d1.state h b
          (omega (arith, f logical_requests, r1)) in
      let g2 = k2 tracking_gaps (λ e. cc) ∙ k1 tracking_gaps (λ e. cc) in
      let (d3, e3, (n3, y3, z3, k3)) =
        drain-IsDrained fuel tracking_gaps 0 d2.state h b (omega (arith, f tracking_gaps, g2)) in
      let o3 =
        k3 provider_quota_observations (λ e. cc)
        ∙ k2 provider_quota_observations (λ e. cc)
        ∙ k1 provider_quota_observations (λ e. cc) in
      let (d4, e4, (n4, y4, z4, k4)) =
        drain-IsDrained fuel provider_quota_observations 0 d3.state h b
          (omega (arith, f provider_quota_observations, o3)) in
      let empty =
        every_table (λ facts. left facts d4.state ≡ 0)
          (k4 quota_ledger_entries (λ e. cc)
            ∙ k3 quota_ledger_entries (λ e. cc)
            ∙ k2 quota_ledger_entries (λ e. cc)
            ∙ z1)
          (k4 logical_requests (λ e. cc) ∙ k3 logical_requests (λ e. cc) ∙ z2)
          (k4 tracking_gaps (λ e. cc) ∙ z3) z4 in
      let report : RetentionReport = record {
        quota_ledger_entries_deleted = d1.deleted;
        logical_requests_deleted = d2.deleted;
        gap_buckets_deleted = d3.deleted;
        provider_quota_observations_deleted = d4.deleted;
      } in
      (
        record { report = report; state = d4.state },
        rw e1 (rw y1 (rw e2 (rw y2 (rw e3 (rw e4 refl))))),
        from_zero n1 refl,
        from_zero n2 r1,
        from_zero n3 g2,
        from_zero n4 o3,
        empty,
      )
