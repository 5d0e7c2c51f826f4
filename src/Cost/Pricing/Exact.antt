-- ===== src/Cost/Pricing/Exact.antt =====
-- The number that a decimal text of a price stands for: `parse_unit_price` of
-- crates/provider-usage/src/catalog.rs.
use provider_core.Prelude.{
  Every-unless, Every-guard, Every-when, ℕ, zero, suc, ◌+◌, ◌-◌, ◌*◌, ◌≡◌, ◌≤◌, ◌⊎◌, inl, inr, refl,
  ap, true, false, ◌&&◌, ◌||◌, Option, some, [], ◌∷◌, ◌++◌, arith, Every, Every-some, ltb, ◌==◌,
  is_empty, length, Text, trim, Bool-cases, &&-eq-true,
}
use provider_core.Prelude.Int.{pos}
use provider_core.Cost.Money.{UnitPrice, price_scale}
use provider_core.Cost.Pricing.{
  Parts, split_point, all_digits, push_digits, align, checked_pos, parse_parts, parse_unit_price,
  max_price_literal, utf8_len, ◌>>=◌,
}
use provider_core.Cost.Pricing.Nonneg.{Every-bind}

pub pow10 : ℕ → ℕ
pow10 zero = 1
pow10 (suc k) = 10 * pow10 k

-- The number that the decimal digits denote.
pub digits_value : Text → ℕ
unfolding pow10
digits_value [] = 0
digits_value (c ∷ s) = (c - b'0') * pow10 (length s) + digits_value s

checked_pos-Every : (n : ℕ) → Every (λ m. m ≡ n) (checked_pos n)
checked_pos-Every n = ground arith

shift_digit : (n d p v : ℕ) → (n * 10 + d) * p + v ≡ n * (10 * p) + (d * p + v)
shift_digit n d p v = omega arith

Every-equal :
    {A : Type 0} (a b : A) (o : Option A) → a ≡ b → Every (λ m. m ≡ a) o → Every (λ m. m ≡ b) o
Every-equal a b o e h = rw e at h

digit_pushed :
    (n tens sum d p v : ℕ)
    → tens ≡ n * 10
    → sum ≡ tens + d
    → sum * p + v ≡ n * (10 * p) + (d * p + v)
digit_pushed n tens sum d p v t s = rw (s, t) (shift_digit n d p v)

push_digits-value :
    (n : ℕ) (s : Text) → Every (λ m. m ≡ n * pow10 (length s) + digits_value s) (push_digits n s)
unfolding push_digits digits_value pow10
push_digits-value n [] = omega arith
push_digits-value n (c ∷ s) =
    Every-bind (λ tens. tens ≡ n * 10) _ (checked_pos (n * 10)) _ (checked_pos-Every (n * 10))
      λ tens ht.
        Every-bind (λ sum. sum ≡ tens + (c - b'0')) _ (checked_pos (tens + (c - b'0'))) _
          (checked_pos-Every (tens + (c - b'0')))
          λ sum hs.
            Every-equal _ _ (push_digits sum s)
              (digit_pushed n tens sum (c - b'0') (pow10 (length s)) (digits_value s) ht hs)
              (push_digits-value sum s)

digits_from_zero : (s : Text) → Every (λ m. m ≡ digits_value s) (push_digits 0 s)
digits_from_zero s = Every-equal _ _ (push_digits 0 s) (omega arith) (push_digits-value 0 s)

ten_more : (n tens p : ℕ) → tens ≡ n * 10 → tens * p ≡ n * (10 * p)
ten_more n tens p t = rw t (omega arith)

align-value : (k n : ℕ) → Every (λ m. m ≡ n * pow10 k) (align k n)
unfolding align pow10
align-value zero n = omega arith
align-value (suc k) n =
    Every-bind (λ tens. tens ≡ n * 10) _ (checked_pos (n * 10)) _ (checked_pos-Every (n * 10))
      λ tens ht. Every-equal _ _ (align k tens) (ten_more n tens (pow10 k) ht) (align-value k tens)

-- The parts are digits, at most 8 of them in the fraction, and the price is the number they make
-- at the scale of 8 decimals.
pub record IsNumber (p : Parts) (price : UnitPrice) : Type 0 where
  pub integer_digits : all_digits p.integer ≡ true
  pub fraction_digits : all_digits p.fraction ≡ true
  pub scaled : length p.fraction ≤ price_scale
  pub value :
      price ≡ pos (digits_value (p.integer ++ p.fraction) * pow10 (price_scale - length p.fraction))

-- The text is the parts with a point between them, or the whole part alone.
abbrev pub Joins : Parts → Text → Type 0
Joins p text = (text ≡ p.integer ++ b'.' ∷ p.fraction) ⊎ ((p.fraction ≡ []) × (text ≡ p.integer))

-- The price is what the decimal text denotes.
abbrev pub Denotes : Text → UnitPrice → Type 0
Denotes text price = (p : Parts) × Joins p text × IsNumber p price

is_point : (c : ℕ) → (c == b'.') ≡ true → c ≡ b'.'
is_point c h = ground arith

split_point-Joins : (s : Text) → Joins (split_point s) s
unfolding split_point
split_point-Joins [] = inr (refl, refl)
split_point-Joins (c ∷ s) = elim (Bool-cases (c == b'.')) [
  | inl point ↦ rw point (inl (ap (λ first. first ∷ s) (is_point c point)))
  | inr other ↦ rw other (elim (split_point-Joins s) [
    | inl joined ↦ inl (ap (λ rest. c ∷ rest) joined)
    | inr whole ↦ inr (whole.0, ap (λ rest. c ∷ rest) whole.1)
  ])
]

scaled_price :
    (p : Parts)
    → all_digits p.integer && all_digits p.fraction ≡ true
    → ltb price_scale (length p.fraction) ≡ false
    → Every (IsNumber p) (do
      digits ← push_digits 0 (p.integer ++ p.fraction)
      scaled ← align (price_scale - length p.fraction) digits
      some (pos scaled))
scaled_price p h fits =
    let all = &&-eq-true (all_digits p.integer) (all_digits p.fraction) h in
    Every-bind _ _ (push_digits 0 (p.integer ++ p.fraction)) _
      (digits_from_zero (p.integer ++ p.fraction))
      λ digits hd.
        Every-bind _ _ (align (price_scale - length p.fraction) digits) _
          (align-value (price_scale - length p.fraction) digits)
          λ scaled hs. record {
            integer_digits = all.0;
            fraction_digits = all.1;
            scaled = ground arith;
            value = ap pos (rw (hs, hd) refl);
          }

parse_parts-IsNumber : (p : Parts) → Every (IsNumber p) (parse_parts p)
unfolding parse_parts
parse_parts-IsNumber p = Every-unless _ (is_empty p.integer && is_empty p.fraction) _ (
    Every-when _ (all_digits p.integer && all_digits p.fraction) _
      λ digits. Every-guard _ (ltb price_scale (length p.fraction)) _ (scaled_price p digits))

-- A saved price that is accepted is a plain decimal with no sign, whose price at the scale is
-- exactly the number that the text denotes.
pub parse_unit_price-Denotes :
    (text : Text) (price : UnitPrice)
    → parse_unit_price text ≡ some price
    → Denotes (trim text) price
unfolding parse_unit_price
parse_unit_price-Denotes text price h = (
  split_point (trim text),
  split_point-Joins (trim text),
  Every-some _ (parse_unit_price text) price
      (Every-unless _ (is_empty (trim text) || ltb max_price_literal (utf8_len (trim text))) _
        (parse_parts-IsNumber (split_point (trim text))))
      h,
)
