-- ===== src/Prelude/Maps.antt =====
-- A map as the list of its entries. A key is looked up from the front, and an insertion replaces
-- the entry of its key.
use Prim.Native.Nat.{◌≤◌}
use mathlib.Core.Path.{◌≡◌, refl, sym, ◌∙◌, ap}
use mathlib.Core.Logic.{◌≢◌}
use mathlib.Core.Bool.{Bool, not}
use mathlib.Core.List.{List, [], ◌∷◌}
use mathlib.Core.Option.{Option, none, some}
use native.Mathlib.Omega.{arith}
use provider_core.Prelude.Tests.{if◌then◌else◌, holds}
use provider_core.Prelude.Lists.{length, holds_same, holds_ne}

pub record Entry (K V : Type 0) : Type 0 where
  pub key : K
  pub value : V

abbrev pub Map : Type 0 → Type 0 → Type 0
Map K V = List (Entry K V)

-- `retain`
unfoldable pub retain : {K V : Type 0} → (Entry K V → Bool) → Map K V → Map K V
retain keeps [] = []
retain keeps (e ∷ m) = let rest = retain keeps m in if keeps e then e ∷ rest else rest

module _ {K V : Type 0} (same : Discrete K) where
  unfoldable pub get : Map K V → K → Option V
  get [] k = none
  get (e ∷ m) k = let rest = get m k in if holds (same e.key k) then some e.value else rest

  unfoldable pub remove : Map K V → K → Map K V
  unfolding retain
  remove m k = retain (λ e. not (holds (same e.key k))) m

  unfoldable pub insert : Map K V → K → V → Map K V
  insert m k v = record { key = k; value = v } ∷ remove m k

  pub get-remove_self : (m : Map K V) (k : K) → get (remove m k) k ≡ none
  unfolding get remove retain
  get-remove_self [] k = refl
  get-remove_self (e ∷ m) k = ground (arith, get-remove_self m k)

  pub get-remove_ne : (m : Map K V) (k j : K) → k ≢ j → get (remove m k) j ≡ get m j
  unfolding get remove retain
  get-remove_ne [] k j h = refl
  get-remove_ne (e ∷ m) k j h = elim (same e.key k) [
    | yes removed ↦ ground (
      arith,
      get-remove_ne m k j h,
      ap (λ a. holds (same a k)) removed,
      holds_same same k,
      holds_ne same e.key j (λ found. h (sym removed ∙ found)),
    )
    | no other ↦ ground (arith, get-remove_ne m k j h, holds_ne same e.key k other)
  ]

  pub get-insert_self : (m : Map K V) (k : K) (v : V) → get (insert m k v) k ≡ some v
  unfolding get insert
  get-insert_self m k v = rw (holds_same same k) refl

  pub get-insert_ne : (m : Map K V) (k j : K) (v : V) → k ≢ j → get (insert m k v) j ≡ get m j
  unfolding get insert
  get-insert_ne m k j v h = rw (holds_ne same k j h) (get-remove_ne m k j h)

pub length-retain :
    {K V : Type 0} (keeps : Entry K V → Bool) (m : Map K V) → length (retain keeps m) ≤ length m
unfolding retain
length-retain keeps [] = omega arith
length-retain keeps (e ∷ m) = ground (arith, length-retain keeps m)

pub length-remove :
    {K V : Type 0} (same : Discrete K) (m : Map K V) (k : K) → length (remove same m k) ≤ length m
unfolding remove
length-remove same m k = length-retain _ m
