-- ===== src/Prelude/Results.antt =====
-- Rust's `Result`, with `?` as a bind.
use mathlib.Core.Path.{◌≡◌, refl}
use mathlib.Core.Option.{Option, none, some}

pub data Result {ℓ κ} (Error : Type ℓ) (Value : Type κ) : Type (ℓ ⊔ κ) where
  err : Error → Result Error Value
  ok : Value → Result Error Value

abbrev pub ok_or {ℓ κ} :
    {Error : Type ℓ} {Value : Type κ} → Option Value → Error → Result Error Value
ok_or (some value) why = ok value
ok_or none why = err why

module _ {ℓ κ μ} {Error : Type ℓ} {Value : Type κ} {Next : Type μ} where
  infixl 5 ◌>>=◌
  abbrev pub ◌>>=◌ : Result Error Value → (Value → Result Error Next) → Result Error Next
  err why >>= next = err why
  ok value >>= next = next value

  -- Inversion of a successful bind.
  pub >>=-eq-ok :
      (first : Result Error Value) (next : Value → Result Error Next) {last : Next}
      → (first >>= next) ≡ ok last
      → (value : Value) × (first ≡ ok value) × (next value ≡ ok last)
  >>=-eq-ok (err why) next both = cc
  >>=-eq-ok (ok value) next both = (value, refl, both)
