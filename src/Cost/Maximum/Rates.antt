-- ===== src/Cost/Maximum/Rates.antt =====
-- What a successful step of the maximum computes, for prices that are not negative.
use Prim.Native.Nat.{max}
use provider_core.Prelude.{
  ℕ, zero, suc, ◌+◌, ◌*◌, ◌≤◌, ◌<◌, ◌≡◌, refl, Bool, true, false, Option, none, some, arith,
  Bool-cases, ltb, inl, inr, ap, ◌∙◌,
}
use provider_core.Prelude.Int.{pos, negsuc}
use provider_core.Prelude.Results.{ok, ◌>>=◌, >>=-eq-ok}
use provider_core.Usage.Contract.{UsageContractSnapshot}
use provider_core.Cost.Money.{
  UnitPrice, UsdAtoms, checked_add, component_cost_atoms, product_of_pos, sum_of_pos,
}
use provider_core.Cost.Price.{ComponentPrices}
use provider_core.Cost.Nonneg.{IsNonneg, AreNonneg, rate}
use provider_core.Cost.Maximum.{
  cache_read_can_apply, checked_add_component, raise_rate, input_rate, input_cost, add_if,
  prices_reasoning, output_cost, maximum_cost_for_prices,
}

checked_add_component-eq :
    (t q p : ℕ) (z : UsdAtoms)
    → checked_add_component (pos t) q (pos p) ≡ ok z
    → z ≡ pos (t + q * p)
unfolding checked_add_component checked_add component_cost_atoms
checked_add_component-eq t q p z h = ground (arith, product_of_pos q p, sum_of_pos t (q * p))

raise_rate-le :
    (applies : Bool) (price : Option UnitPrice) (n : ℕ) (z : UnitPrice)
    → IsNonneg price
    → raise_rate applies price (pos n) ≡ ok z
    → (m : ℕ) × (z ≡ pos m) × (n ≤ m) × (applies ≡ true → rate price ≤ m)
unfolding raise_rate
raise_rate-le false price n z h e = (n, ground arith, ground arith, λ a. absurd (ground arith))
raise_rate-le true (some (pos p)) n z h e = (max n p, ground arith, omega arith, λ a. omega arith)
raise_rate-le true (some (negsuc p)) n z h e = absurd h
raise_rate-le true none n z h e = absurd (ground arith)

raise_twice-le :
    (reads writes : Bool) (read write : Option UnitPrice) (n : ℕ) (z : UnitPrice)
    → IsNonneg read
    → IsNonneg write
    → (raise_rate reads read (pos n) >>= λ r. raise_rate writes write r) ≡ ok z
    → (m : ℕ) × (z ≡ pos m)
      × (n ≤ m)
      × (reads ≡ true → rate read ≤ m)
      × (writes ≡ true → rate write ≤ m)
raise_twice-le reads writes read write n z hr hw e =
    let (r, e1, e2) =
      >>=-eq-ok (raise_rate reads read (pos n)) (λ r. raise_rate writes write r) e in
    let (k, er, n_le, read_le) = raise_rate-le reads read n r hr e1 in
    let (m, ez, k_le, write_le) = raise_rate-le writes write k z hw (rw er at e2) in
    (m, ez, omega arith, λ a. omega (arith, read_le a), write_le)

-- The input rate is at least each rate at which a part of the input may be billed.
input_rate-le :
    (base : Option UnitPrice) (p : ComponentPrices) (contract : UsageContractSnapshot)
    (z : UnitPrice)
    → p.uncached_input_per_million ≡ base
    → AreNonneg p
    → input_rate p contract ≡ ok z
    → (m : ℕ) × (z ≡ pos m)
      × (rate base ≤ m)
      × (cache_read_can_apply contract ≡ true → rate p.cache_read_per_million ≤ m)
      × (contract.inclusion.cache_write_applicable ≡ true → rate p.cache_write_per_million ≤ m)
unfolding input_rate
input_rate-le none p contract z b h e = absurd (cc (rw (b, input_rate) at e))
input_rate-le (some (negsuc n)) p contract z b h e = absurd (rw b at h.uncached_input)
input_rate-le (some (pos n)) p contract z b h e =
    raise_twice-le _ _ _ _ n z h.cache_read h.cache_write (rw (b, input_rate) at e)

mul-le-mul : (a b c d : ℕ) → a ≤ b → c ≤ d → a * c ≤ b * d
mul-le-mul a b c d h k = grind arith

-- A part that may be billed only where `applies` holds.
part-le :
    (applies : Bool) (q r m : ℕ)
    → (0 < q → applies ≡ true)
    → (applies ≡ true → r ≤ m)
    → q * r ≤ q * m
part-le true q r m h k = mul-le-mul q q r m (omega arith) (k refl)
part-le false zero r m h k = omega arith
part-le false (suc q) r m h k = absurd (cc (h (omega arith)))

-- The billable counts of a request.
pub record Counts : Type 0 where
  pub uncached : ℕ
  pub read : ℕ
  pub write : ℕ
  pub output : ℕ
  pub reasoning : ℕ

-- The counts stay within the declared bounds, and those that the contract excludes are zero.
pub record Within (c : Counts) (contract : UsageContractSnapshot) (inputs outputs : ℕ)
    : Type 0 where
  pub input : c.uncached + c.read + c.write ≤ inputs
  pub output : c.output ≤ outputs
  pub reasoning : c.reasoning ≤ outputs
  pub reads : 0 < c.read → cache_read_can_apply contract ≡ true
  pub writes : 0 < c.write → contract.inclusion.cache_write_applicable ≡ true
  pub thinks : 0 < c.reasoning → prices_reasoning contract ≡ true

abbrev pub input_bill : ComponentPrices → Counts → ℕ
input_bill p c =
    c.uncached * rate p.uncached_input_per_million
    + c.read * rate p.cache_read_per_million
    + c.write * rate p.cache_write_per_million

abbrev pub output_bill : ComponentPrices → Counts → ℕ
output_bill p c = c.output * rate p.output_per_million + c.reasoning * rate p.reasoning_per_million

parts-le :
    (a b c i m x y z : ℕ) → a + b + c ≤ i → x ≤ a * m → y ≤ b * m → z ≤ c * m → x + y + z ≤ i * m
parts-le a b c i m x y z h hx hy hz = omega (arith, mul-le-mul (a + b + c) i m m h (omega arith))

no-parts : (a b c i x y z : ℕ) → a + b + c ≤ i → i ≤ 0 → a * x + b * y + c * z ≤ 0
no-parts a b c i x y z h e = omega (
  arith,
  mul-le-mul a 0 x x (omega arith) (omega arith),
  mul-le-mul b 0 y y (omega arith) (omega arith),
  mul-le-mul c 0 z z (omega arith) (omega arith),
)

pub input_cost-le :
    (p : ComponentPrices) (contract : UsageContractSnapshot) (inputs outputs : ℕ) (c : Counts)
    (z : UsdAtoms)
    → AreNonneg p
    → Within c contract inputs outputs
    → input_cost p contract inputs ≡ ok z
    → (m : ℕ) × (z ≡ pos m) × (input_bill p c ≤ m)
unfolding input_cost
input_cost-le p contract inputs outputs c z h w e = elim (Bool-cases (ltb 0 inputs)) [
  | inl some_input ↦
      let (r, er, e') =
        >>=-eq-ok (input_rate p contract) (λ rate. checked_add_component (pos 0) inputs rate)
          (rw some_input at e) in
      let (m, em, base_le, read_le, write_le) = input_rate-le _ p contract r refl h er in
      (
        inputs * m,
        checked_add_component-eq 0 inputs m z (rw em at e') ∙ ap pos (omega arith),
        parts-le c.uncached c.read c.write inputs m _ _ _ w.input
            (mul-le-mul c.uncached c.uncached _ m (omega arith) base_le)
            (part-le _ c.read _ m w.reads read_le) (part-le _ c.write _ m w.writes write_le),
      )
  | inr no_input ↦
      (0, ground arith, no-parts c.uncached c.read c.write inputs _ _ _ w.input (ground arith))
]

add_if-le :
    (applies : Bool) (price : Option UnitPrice) (quantity t q : ℕ) (z : UsdAtoms)
    → IsNonneg price
    → q ≤ quantity
    → (0 < q → applies ≡ true)
    → add_if applies price quantity (pos t) ≡ ok z
    → (m : ℕ) × (z ≡ pos m) × (t + q * rate price ≤ m)
unfolding add_if
add_if-le true (some (pos p)) quantity t q z h le k e = (
  t + quantity * p,
  checked_add_component-eq t quantity p z e,
  omega (arith, mul-le-mul q quantity p p le (omega arith)),
)
add_if-le true (some (negsuc p)) quantity t q z h le k e = absurd h
add_if-le true none quantity t q z h le k e = absurd (cc e)
add_if-le false price quantity t zero z h le k e = (t, ground arith, omega arith)
add_if-le false price quantity t (suc q) z h le k e = absurd (cc (k (omega arith)))

pub output_cost-le :
    (p : ComponentPrices) (contract : UsageContractSnapshot) (inputs outputs t : ℕ) (c : Counts)
    (z : UsdAtoms)
    → AreNonneg p
    → Within c contract inputs outputs
    → output_cost p contract outputs (pos t) ≡ ok z
    → (m : ℕ) × (z ≡ pos m) × (t + output_bill p c ≤ m)
unfolding output_cost
output_cost-le p contract inputs outputs t c z h w e = elim (Bool-cases (ltb 0 outputs)) [
  | inl some_output ↦
      let (y, ey, e') =
        >>=-eq-ok (add_if true p.output_per_million outputs (pos t))
          (λ total. add_if (prices_reasoning contract) p.reasoning_per_million outputs total)
          (rw some_output at e) in
      let (k, ek, k_le) = add_if-le true _ outputs t c.output y h.output w.output (λ _. refl) ey in
      let (m, em, m_le) =
        add_if-le (prices_reasoning contract) _ outputs k c.reasoning z h.reasoning w.reasoning
          w.thinks (rw ek at e') in
      (m, em, omega arith)
  | inr no_output ↦ (
    t,
    ground arith,
    omega (
      arith,
      no-parts c.output c.reasoning 0 (outputs + outputs) (rate p.output_per_million)
          (rate p.reasoning_per_million) 0 (omega (arith, w.output, w.reasoning)) (ground arith),
    ),
  )
]

-- A successful maximum is at least the bill of every request within the bounds.
pub maximum_cost_for_prices-le :
    (p : ComponentPrices) (contract : UsageContractSnapshot) (inputs outputs : ℕ) (c : Counts)
    (z : UsdAtoms)
    → AreNonneg p
    → Within c contract inputs outputs
    → maximum_cost_for_prices p contract inputs outputs ≡ ok z
    → (m : ℕ) × (z ≡ pos m) × (input_bill p c + output_bill p c ≤ m)
unfolding maximum_cost_for_prices
maximum_cost_for_prices-le p contract inputs outputs c z h w e =
    let (t, et, e') =
      >>=-eq-ok (input_cost p contract inputs) (λ t. output_cost p contract outputs t) e in
    let (k, ek, k_le) = input_cost-le p contract inputs outputs c t h w et in
    let (m, em, m_le) = output_cost-le p contract inputs outputs k c z h w (rw ek at e') in
    (m, em, omega arith)
