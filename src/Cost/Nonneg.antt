-- ===== src/Cost/Nonneg.antt =====
-- Prices that are not negative, and their rates as numbers.
use provider_core.Prelude.{ℕ, Option, none, some}
use provider_core.Prelude.Int.{pos, negsuc}
use provider_core.Cost.Money.{UnitPrice}
use provider_core.Cost.Price.{ComponentPrices}

-- A price that is missing or not negative.
abbrev pub IsNonneg : Option UnitPrice → Type 0
IsNonneg none = Unit
IsNonneg (some (pos p)) = Unit
IsNonneg (some (negsuc p)) = ⊥

pub record AreNonneg (p : ComponentPrices) : Type 0 where
  pub uncached_input : IsNonneg p.uncached_input_per_million
  pub cache_read : IsNonneg p.cache_read_per_million
  pub cache_write : IsNonneg p.cache_write_per_million
  pub output : IsNonneg p.output_per_million
  pub reasoning : IsNonneg p.reasoning_per_million
  pub input_audio : IsNonneg p.input_audio_per_million
  pub output_audio : IsNonneg p.output_audio_per_million

-- The price as a number, 0 where there is none.
abbrev pub rate : Option UnitPrice → ℕ
rate (some (pos p)) = p
rate _ = 0
