-- ===== src/Usage/Normalize/Inputs.antt =====
-- The input categories of a normalized observation add up.
use provider_core.Prelude.{ℕ, ◌+◌, Bool, ◌&&◌, ◌≡◌, refl, ◌⊎◌, true, false, Option, some, arith}
use provider_core.Prelude.Int.{ℤ}
use provider_core.Usage.Token.{
  TokenMetric, provider_reported, derived_from_reported, not_reported, not_applicable, unknown,
  known_value,
}
use provider_core.Usage.Contract.{TokenInclusionRules, UsageContractSnapshot}
use provider_core.Usage.Raw.{RawUsageFields}
use provider_core.Usage.Normalize.{
  Warnings, classify, sum_contribution, split_uncached, sum_categories, normalize_input,
  normalize_usage,
}

-- Where the main input count includes the cache, the uncached input and the cache read make the
-- effective input, and a cache write that does not apply counts 0, so that it is in none of them;
-- one that applies stays in the uncached input. Where the categories are disjoint, the uncached
-- input, the read and the write make the effective input. A part that does not apply counts 0.
abbrev pub Partition : TokenInclusionRules → TokenMetric → TokenMetric → ℕ → ℕ → Type 0
Partition inclusion cache_read cache_write uncached effective =
    ((inclusion.input_includes_cache ≡ true)
      × (r : ℕ) × (sum_contribution cache_read ≡ some r)
      × (uncached + r ≡ effective)
      × (inclusion.cache_write_applicable ≡ false → sum_contribution cache_write ≡ some 0))
    ⊎ ((inclusion.input_includes_cache ≡ false)
        × (r : ℕ) × (w : ℕ) × (sum_contribution cache_read ≡ some r)
        × (sum_contribution cache_write ≡ some w)
        × (uncached + r + w ≡ effective))

-- A count that the contract says does not apply is not kept.
classify-unapplied :
    (raw : Option ℤ) (readable applicable : Bool) (ws : Warnings)
    → applicable ≡ false
    → sum_contribution (classify raw (readable && applicable) ws).0 ≡ some 0
unfolding classify
classify-unapplied raw readable applicable ws h = ground arith

split_uncached-sum :
    (version : ℕ) (input cache_read : TokenMetric) (ws : Warnings) (u e : ℕ)
    → known_value (split_uncached version input cache_read (known_value input) ws).0 ≡ some u
    → known_value input ≡ some e
    → (r : ℕ) × (sum_contribution cache_read ≡ some r) × (u + r ≡ e)
unfolding split_uncached
split_uncached-sum version input (provider_reported r) ws u e hu he = (r, refl, ground arith)
split_uncached-sum version input (derived_from_reported r v) ws u e hu he = (r, refl, ground arith)
split_uncached-sum version input not_reported ws u e hu he = absurd (ground arith)
split_uncached-sum version input not_applicable ws u e hu he = (0, refl, ground arith)
split_uncached-sum version input (unknown why) ws u e hu he = absurd (ground arith)

sum_categories-sum :
    (version : ℕ) (i r w : Option ℕ) (ws : Warnings) (u e : ℕ)
    → known_value (sum_categories version i r w ws).0 ≡ some e
    → i ≡ some u
    → (a : ℕ) × (b : ℕ) × (r ≡ some a) × (w ≡ some b) × (u + a + b ≡ e)
unfolding sum_categories
sum_categories-sum version i r w ws u e he hi = ground arith

sum_contribution-known :
    (m : TokenMetric) (n : ℕ) → known_value m ≡ some n → sum_contribution m ≡ some n
sum_contribution-known (provider_reported k) n h = h
sum_contribution-known (derived_from_reported k v) n h = h
sum_contribution-known not_reported n h = cc
sum_contribution-known not_applicable n h = cc
sum_contribution-known (unknown why) n h = cc

normalize_input-Partition :
    (version : ℕ) (inclusion : TokenInclusionRules) (input cache_read cache_write : TokenMetric)
    (ws : Warnings) (u e : ℕ)
    → (inclusion.cache_write_applicable ≡ false → sum_contribution cache_write ≡ some 0)
    → let (m, _) = normalize_input version inclusion input cache_read cache_write ws in
      known_value m.uncached ≡ some u
      → known_value m.effective ≡ some e
      → Partition inclusion cache_read cache_write u e
unfolding normalize_input
normalize_input-Partition version inclusion input cache_read cache_write ws u e unapplied = ground (
  arith,
  unapplied,
  split_uncached-sum version input cache_read ws u e,
  sum_contribution-known input u,
  sum_categories-sum version (sum_contribution input) (sum_contribution cache_read)
      (sum_contribution cache_write) ws u e,
)

-- Where both are known, the effective input of a normalized response is the uncached input with the
-- cache read, and under a contract of disjoint categories with the cache write too. Under a contract
-- whose main input includes the cache, a write that does not apply counts 0, and one that applies is
-- not split out: it stays in the uncached input.
pub normalize_usage-Partition :
    (fields : RawUsageFields) (contract : UsageContractSnapshot) (u e : ℕ)
    → let o = normalize_usage (some fields) contract in
      known_value o.uncached_input_tokens ≡ some u
      → known_value o.effective_input_tokens ≡ some e
      → Partition contract.inclusion o.cache_read_input_tokens o.cache_write_input_tokens u e
unfolding normalize_usage
normalize_usage-Partition fields contract u e =
    normalize_input-Partition _ contract.inclusion _ _ _ _ u e
      (classify-unapplied fields.cache_write _ contract.inclusion.cache_write_applicable _)
