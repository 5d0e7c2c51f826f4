-- ===== src/Cost/Money.antt =====
-- Exact fixed-point money: crates/provider-usage/src/money.rs. A price and an amount are `i128`
-- integers, and the arithmetic on them is checked.
use provider_core.Prelude.{
  ℕ, ◌+◌, ◌*◌, ◌<◌, ◌≡◌, Bool, Option, none, some, arith, ltb, if◌then◌else◌,
}
use provider_core.Prelude.Int.{ℤ, pos, negsuc, ◌+ℤ◌, ◌*ℤ◌}

-- USD per million tokens, scaled by 10 ^ 8.
abbrev pub UnitPrice : Type 0
UnitPrice = ℤ

-- A count of 10 ^ -14 USD.
abbrev pub UsdAtoms : Type 0
UsdAtoms = ℤ

abbrev pub price_scale : ℕ
price_scale = 8

abbrev pub amount_scale : ℕ
amount_scale = price_scale + 6

abbrev pub i128_bound : ℕ
i128_bound = 0x8000_0000_0000_0000_0000_0000_0000_0000

abbrev pub fits_i128 : ℤ → Bool
fits_i128 (pos n) = ltb n i128_bound
fits_i128 (negsuc n) = ltb n i128_bound

-- The result of a checked `i128` operation whose exact value is `a`.
abbrev pub checked_i128 : ℤ → Option ℤ
checked_i128 a = if fits_i128 a then some a else none

unfoldable pub checked_add : UsdAtoms → UsdAtoms → Option UsdAtoms
checked_add a b = checked_i128 (a +ℤ b)

unfoldable pub component_cost_atoms : ℕ → UnitPrice → Option UsdAtoms
component_cost_atoms quantity price = checked_i128 (pos quantity *ℤ price)

pub product_of_pos : (q p : ℕ) → pos q *ℤ pos p ≡ pos (q * p)
unfolding ◌*ℤ◌
product_of_pos q p = ground arith

pub sum_of_pos : (a b : ℕ) → pos a +ℤ pos b ≡ pos (a + b)
unfolding ◌+ℤ◌
sum_of_pos a b = ground arith

pub checked_add-pos :
    (a b : ℕ) → a + b < i128_bound → checked_add (pos a) (pos b) ≡ some (pos (a + b))
unfolding checked_add
checked_add-pos a b h = ground (arith, sum_of_pos a b)

pub component_cost_atoms-pos :
    (q p : ℕ) → q * p < i128_bound → component_cost_atoms q (pos p) ≡ some (pos (q * p))
unfolding component_cost_atoms
component_cost_atoms-pos q p h = ground (arith, product_of_pos q p)
