-- ===== src/Prelude/Lists.antt =====
-- Lists measured and indexed by native numbers, and sequences that keep each element once.
use Prim.Native.Nat.{ℕ, ◌≤◌, zero, suc, ◌+◌, ◌-◌}
use mathlib.Core.Path.{◌≡◌, refl, sym, ap}
use mathlib.Core.Logic.{◌≢◌, ◌⊎◌, inl, inr}
use mathlib.Core.Bool.{Bool, true, false, ◌||◌, ◌&&◌}
use mathlib.Core.List.{List, [], ◌∷◌, ◌++◌}
use mathlib.Core.Option.{Option, none, some}
use native.Mathlib.Omega.{arith}
use provider_core.Prelude.Tests.{if◌then◌else◌, holds, Bool-cases}

module _ {ℓ} {A : Type ℓ} where
  abbrev pub length : List A → ℕ
  length [] = 0
  length (x ∷ xs) = suc (length xs)

  abbrev pub take : ℕ → List A → List A
  take zero xs = []
  take (suc n) [] = []
  take (suc n) (x ∷ xs) = x ∷ take n xs

  abbrev pub drop : ℕ → List A → List A
  drop zero xs = xs
  drop (suc n) [] = []
  drop (suc n) (x ∷ xs) = drop n xs

  abbrev pub is_empty : List A → Bool
  is_empty [] = true
  is_empty (x ∷ xs) = false

  abbrev pub get_elem? : List A → ℕ → Option A
  get_elem? [] n = none
  get_elem? (x ∷ xs) zero = some x
  get_elem? (x ∷ xs) (suc n) = get_elem? xs n

  pub length-append : (xs ys : List A) → length (xs ++ ys) ≡ length xs + length ys
  length-append [] ys = omega arith
  length-append (x ∷ xs) ys = omega (arith, length-append xs ys)

  pub length-drop : (n : ℕ) (xs : List A) → length (drop n xs) ≡ length xs - n
  length-drop zero xs = omega arith
  length-drop (suc n) [] = omega arith
  length-drop (suc n) (x ∷ xs) = omega (arith, length-drop n xs)

  pub take-append-drop : (n : ℕ) (xs : List A) → take n xs ++ drop n xs ≡ xs
  take-append-drop zero xs = refl
  take-append-drop (suc n) [] = refl
  take-append-drop (suc n) (x ∷ xs) = rw (take-append-drop n xs)

module _ {ℓ} {A : Type ℓ} where
  pub take-append : (n : ℕ) (xs ys : List A) → n ≤ length xs → take n (xs ++ ys) ≡ take n xs
  take-append zero xs ys h = refl
  take-append (suc n) [] ys h = absurd (omega arith)
  take-append (suc n) (x ∷ xs) ys h = rw (take-append n xs ys (omega arith)) refl

  pub drop-append : (n : ℕ) (xs ys : List A) → n ≤ length xs → drop n (xs ++ ys) ≡ drop n xs ++ ys
  drop-append zero xs ys h = refl
  drop-append (suc n) [] ys h = absurd (omega arith)
  drop-append (suc n) (x ∷ xs) ys h = drop-append n xs ys (omega arith)

-- `iter().any`
unfoldable pub any : {A : Type 0} → (A → Bool) → List A → Bool
any test [] = false
any test (x ∷ xs) = test x || any test xs

-- `iter().all`
unfoldable pub all : {A : Type 0} → (A → Bool) → List A → Bool
all test [] = true
all test (x ∷ xs) = test x && all test xs

-- `iter().filter`
unfoldable pub filter : {A : Type 0} → (A → Bool) → List A → List A
filter test [] = []
filter test (x ∷ xs) = let rest = filter test xs in if test x then x ∷ rest else rest

-- A predicate by recursion computes to tuples, which the tactics read and build.
abbrev pub All {ℓ κ} : {A : Type ℓ} → (A → Type κ) → List A → Type κ
All P [] = Unit
All P (x ∷ xs) = P x × All P xs

-- The element stands in the list.
abbrev pub IsMember : {A : Type 0} → A → List A → Type 0
IsMember x [] = ⊥
IsMember x (y ∷ xs) = (x ≡ y) ⊎ IsMember x xs

pub All-map {ℓ κ} :
    {A : Type ℓ} (P Q : A → Type κ) (xs : List A) → ((x : A) → P x → Q x) → All P xs → All Q xs
All-map P Q [] f h = tt
All-map P Q (x ∷ xs) f h = (f x h.0, All-map P Q xs f h.1)

pub members : {A : Type 0} (xs : List A) → All (λ x. IsMember x xs) xs
members [] = tt
members (x ∷ xs) = (
  inl refl,
  All-map (λ y. IsMember y xs) (λ y. IsMember y (x ∷ xs)) xs (λ y h. inr h) (members xs),
)

pub All-append {ℓ κ} :
    {A : Type ℓ} (P : A → Type κ) (xs ys : List A) → All P xs → All P ys → All P (xs ++ ys)
All-append P [] ys hx hy = hy
All-append P (x ∷ xs) ys hx hy = (hx.0, All-append P xs ys hx.1 hy)

module _ {ℓ} {A : Type ℓ} (same : Discrete A) where
  unfoldable pub contains : List A → A → Bool
  contains [] a = false
  contains (x ∷ xs) a = holds (same x a) || contains xs a

  -- `if !items.contains(&item) { items.push(item) }`
  unfoldable pub insert_once : List A → A → List A
  insert_once xs a = if contains xs a then xs else xs ++ a ∷ []

  -- No element stands twice.
  abbrev pub IsDistinct : List A → Type 0
  IsDistinct [] = Unit {0}
  IsDistinct (x ∷ xs) = (contains xs x ≡ false) × IsDistinct xs

  pub contains-nil : (a : A) → contains [] a ≡ false
  unfolding contains
  contains-nil a = refl

  contains-snoc :
      (xs : List A) (a b : A) → contains (xs ++ a ∷ []) b ≡ contains xs b || holds (same a b)
  unfolding contains
  contains-snoc [] a b = ground arith
  contains-snoc (x ∷ xs) a b = ground (arith, contains-snoc xs a b)

  contains-same : (xs : List A) (a b : A) → contains xs a ≡ true → a ≡ b → contains xs b ≡ true
  contains-same xs a b h e = rw (← e) h

  pub contains-insert_once :
      (xs : List A) (a b : A) → contains (insert_once xs a) b ≡ contains xs b || holds (same a b)
  unfolding insert_once
  contains-insert_once xs a b = elim (same a b) [
    | yes e ↦ ground (arith, contains-snoc xs a b, contains-same xs a b)
    | no n ↦ ground (arith, contains-snoc xs a b)
  ]

  pub holds_same : (a : A) → holds (same a a) ≡ true
  holds_same a = elim (same a a) as (λ d. holds d ≡ true) [ yes e ↦ refl | no n ↦ absurd (n refl) ]

  pub holds_ne : (a b : A) → a ≢ b → holds (same a b) ≡ false
  holds_ne a b h = elim (same a b) as (λ d. holds d ≡ false) [ yes e ↦ absurd (h e) | no n ↦ refl ]

  pub contains-insert_once_self : (xs : List A) (a : A) → contains (insert_once xs a) a ≡ true
  contains-insert_once_self xs a = ground (arith, contains-insert_once xs a a, holds_same a)

  pub contains-insert_once_ne :
      (xs : List A) (a b : A) → a ≢ b → contains (insert_once xs a) b ≡ contains xs b
  contains-insert_once_ne xs a b h = ground (arith, contains-insert_once xs a b, holds_ne a b h)

  holds_sym : (a b : A) → holds (same a b) ≡ false → holds (same b a) ≡ false
  holds_sym a b h =
      holds_ne b a (λ e. let h' : holds (same a a) ≡ false = rw e at h in cc (holds_same a))

  snoc-IsDistinct :
      (xs : List A) (a : A) → contains xs a ≡ false → IsDistinct xs → IsDistinct (xs ++ a ∷ [])
  unfolding contains
  snoc-IsDistinct [] a h d = (refl, tt)
  snoc-IsDistinct (x ∷ xs) a h d =
      (ground (arith, contains-snoc xs a x, holds_sym x a), snoc-IsDistinct xs a (ground arith) d.1)

  pub insert_once-IsDistinct : (xs : List A) (a : A) → IsDistinct xs → IsDistinct (insert_once xs a)
  unfolding insert_once
  insert_once-IsDistinct xs a d = elim (Bool-cases (contains xs a)) [
    | inl h ↦ rw h d
    | inr h ↦ rw h (snoc-IsDistinct xs a h d)
  ]

  pub insert_once-ne-nil : (xs : List A) (a : A) → insert_once xs a ≢ []
  unfolding insert_once contains
  insert_once-ne-nil [] a h = absurd (ground arith)
  insert_once-ne-nil (x ∷ xs) a h = absurd (ground arith)

module _ {A : Type 0} (same : Discrete A) where
  pub contains-IsMember : (xs : List A) (a : A) → contains same xs a ≡ true → IsMember a xs
  unfolding contains
  contains-IsMember [] a h = cc
  contains-IsMember (x ∷ xs) a h =
      elim (same x a) as (λ d. (holds d || contains same xs a) ≡ true → (a ≡ x) ⊎ IsMember a xs) [
        | yes e ↦ λ t. inl (sym e)
        | no n ↦ λ t. inr (contains-IsMember xs a t)
      ]
        h

  pub IsMember-contains : (xs : List A) (a : A) → IsMember a xs → contains same xs a ≡ true
  unfolding contains
  IsMember-contains [] a h = absurd h
  IsMember-contains (x ∷ xs) a (inl e) =
      ground (arith, holds_same same x, ap (λ b. holds (same x b)) e)
  IsMember-contains (x ∷ xs) a (inr later) = ground (arith, IsMember-contains xs a later)

module _ {A : Type 0} (test : A → Bool) where
  pub any-IsMember : (xs : List A) → any test xs ≡ true → (x : A) × IsMember x xs × (test x ≡ true)
  unfolding any
  any-IsMember [] h = cc
  any-IsMember (x ∷ xs) h = elim (Bool-cases (test x)) [
    | inl passes ↦ (x, inl refl, passes)
    | inr fails ↦ let (y, known, passes) = any-IsMember xs (ground arith) in (y, inr known, passes)
  ]

  pub none-IsMember : (xs : List A) (x : A) → any test xs ≡ false → IsMember x xs → test x ≡ false
  unfolding any
  none-IsMember [] x h m = absurd m
  none-IsMember (y ∷ xs) x h (inl e) = ground (arith, ap test e)
  none-IsMember (y ∷ xs) x h (inr later) = none-IsMember xs x (ground arith) later
