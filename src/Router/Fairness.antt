-- ===== src/Router/Fairness.antt =====
-- The rotation loses no route, keeps the priorities in place, and takes turns.
use provider_core.Prelude.{
  ℕ, zero, suc, ◌+◌, ◌%◌, ◌<◌, ◌≡◌, refl, sym, ◌∙◌, ap, subst, ◌==◌, ==_iff, List, [], ◌∷◌, ◌++◌,
  map, arith, All, Bool-cases, inl, inr, ltb, lt→ltb, length, take, drop, take-append-drop,
  length-append, get_elem?, Text, get-insert_self, u64_mod,
}
use mathlib.Core.List.{Permᴰ}
use mathlib.Core.List.Permᴰ
use provider_core.Router.Accounts.{ProviderRouteCandidate}
use provider_core.Router.Choice.{rotate_left-All}
use provider_core.Router.RoundRobin.{
  SelectionKey, SelectionKey-discrete, Selections, cursor_of, rotate_left, tier_len, tier_key,
  rotate_tier, rotate_tiers, rotate_round_robin, Rotated, or_default,
}

module _ {A : Type 0} where
  rotate_left-Perm : (n : ℕ) (xs : List A) → Permᴰ (rotate_left n xs) xs
  rotate_left-Perm n xs =
      subst (λ ys. Permᴰ (rotate_left n xs) ys) (take-append-drop n xs)
        (Permᴰ.append_comm (drop n xs) (take n xs))

  first_of_append :
      (n : ℕ) (xs ys : List A) → n < length xs → get_elem? (drop n xs ++ ys) 0 ≡ get_elem? xs n
  first_of_append n [] ys h = absurd (omega arith)
  first_of_append zero (x ∷ xs) ys h = refl
  first_of_append (suc n) (x ∷ xs) ys h = first_of_append n xs ys (omega arith)

  rotate_left-first :
      (n : ℕ) (xs : List A) → n < length xs → get_elem? (rotate_left n xs) 0 ≡ get_elem? xs n
  rotate_left-first n xs h = first_of_append n xs (take n xs) h

rotate_tier-Perm :
    (key : SelectionKey) (tier : List ProviderRouteCandidate) (s : Selections)
    → Permᴰ (rotate_tier key tier s).routes tier
unfolding rotate_tier
rotate_tier-Perm key tier s = elim (Bool-cases (ltb 1 (length tier))) [
  | inl choice ↦ rw choice (rotate_left-Perm (cursor_of s key % length tier) tier)
  | inr only ↦ rw only (Permᴰ.refl tier)
]

rotate_tiers-Perm :
    (fuel : ℕ) (scope model : Text) (cs : List ProviderRouteCandidate) (s : Selections)
    → Permᴰ (rotate_tiers fuel scope model cs s).routes cs
unfolding rotate_tiers
rotate_tiers-Perm zero scope model cs s = Permᴰ.refl cs
rotate_tiers-Perm (suc fuel) scope model [] s = Permᴰ.nil
rotate_tiers-Perm (suc fuel) scope model (c ∷ cs) s =
    subst (λ ys. Permᴰ (tier.routes ++ rest.routes) ys) (take-append-drop n (c ∷ cs))
      (Permᴰ.trans
        (Permᴰ.append_right rest.routes
          (rotate_tier-Perm (tier_key scope model c) (take n (c ∷ cs)) s))
        (Permᴰ.append_left (take n (c ∷ cs))
          (rotate_tiers-Perm fuel scope model (drop n (c ∷ cs)) tier.selections)))
  where
    n : ℕ
    n = tier_len c.priority (c ∷ cs)

    tier : Rotated
    tier = rotate_tier (tier_key scope model c) (take n (c ∷ cs)) s

    rest : Rotated
    rest = rotate_tiers fuel scope model (drop n (c ∷ cs)) tier.selections

-- The run of a priority holds only routes of that priority.
take-tier_len :
    (p : ℕ) (cs : List ProviderRouteCandidate)
    → All (λ (c : ProviderRouteCandidate). c.priority ≡ p) (take (tier_len p cs) cs)
unfolding tier_len
take-tier_len p [] = tt
take-tier_len p (c ∷ cs) = elim (Bool-cases (c.priority == p)) [
  | inl same ↦ rw same ((==_iff c.priority p).0 same, take-tier_len p cs)
  | inr other ↦ rw other tt
]

abbrev pub priorities : List ProviderRouteCandidate → List ℕ
priorities cs = map (λ (c : ProviderRouteCandidate). c.priority) cs

priorities-append :
    (xs ys : List ProviderRouteCandidate) → priorities (xs ++ ys) ≡ priorities xs ++ priorities ys
priorities-append [] ys = refl
priorities-append (c ∷ xs) ys = ap (λ ps. c.priority ∷ ps) (priorities-append xs ys)

repeat : ℕ → ℕ → List ℕ
repeat zero p = []
repeat (suc n) p = p ∷ repeat n p

priorities-repeat :
    (p : ℕ) (cs : List ProviderRouteCandidate)
    → All (λ (c : ProviderRouteCandidate). c.priority ≡ p) cs
    → priorities cs ≡ repeat (length cs) p
unfolding repeat
priorities-repeat p [] h = refl
priorities-repeat p (c ∷ cs) h = rw (h.0, priorities-repeat p cs h.1) refl

length-rotate_left :
    (n : ℕ) (cs : List ProviderRouteCandidate) → length (rotate_left n cs) ≡ length cs
length-rotate_left n cs = omega (
  arith,
  length-append (drop n cs) (take n cs),
  length-append (take n cs) (drop n cs),
  ap (λ (xs : List ProviderRouteCandidate). length xs) (take-append-drop n cs),
)

priorities-rotate_tier :
    (key : SelectionKey) (p : ℕ) (tier : List ProviderRouteCandidate) (s : Selections)
    → All (λ (c : ProviderRouteCandidate). c.priority ≡ p) tier
    → priorities (rotate_tier key tier s).routes ≡ priorities tier
unfolding rotate_tier
priorities-rotate_tier key p tier s h = elim (Bool-cases (ltb 1 (length tier))) [
  | inr only ↦ rw only refl
  | inl choice ↦ rw choice (
      priorities-repeat p (rotate_left (cursor_of s key % length tier) tier) (
        rotate_left-All (λ (c : ProviderRouteCandidate). c.priority ≡ p)
          (cursor_of s key % length tier) tier h)
      ∙ rw (length-rotate_left (cursor_of s key % length tier) tier)
          (sym (priorities-repeat p tier h)))
]

priorities-rotate_tiers :
    (fuel : ℕ) (scope model : Text) (cs : List ProviderRouteCandidate) (s : Selections)
    → priorities (rotate_tiers fuel scope model cs s).routes ≡ priorities cs
unfolding rotate_tiers
priorities-rotate_tiers zero scope model cs s = refl
priorities-rotate_tiers (suc fuel) scope model [] s = refl
priorities-rotate_tiers (suc fuel) scope model (c ∷ cs) s =
    priorities-append tier.routes rest.routes
    ∙ rw
        (
          priorities-rotate_tier (tier_key scope model c) c.priority (take n (c ∷ cs)) s
              (take-tier_len c.priority (c ∷ cs)),
          priorities-rotate_tiers fuel scope model (drop n (c ∷ cs)) tier.selections,
        )
        (sym (priorities-append (take n (c ∷ cs)) (drop n (c ∷ cs)))
          ∙ ap priorities (take-append-drop n (c ∷ cs)))
  where
    n : ℕ
    n = tier_len c.priority (c ∷ cs)

    tier : Rotated
    tier = rotate_tier (tier_key scope model c) (take n (c ∷ cs)) s

    rest : Rotated
    rest = rotate_tiers fuel scope model (drop n (c ∷ cs)) tier.selections

-- A rotation only reorders the routes, so that none is lost, added or doubled, and it leaves the
-- priorities as they stand: a route moves only among those of its own priority.
pub rotate_round_robin-Perm :
    (scope model : Text) (cs : List ProviderRouteCandidate) (s : Selections)
    → Permᴰ (rotate_round_robin scope model cs s).routes cs
      × (priorities (rotate_round_robin scope model cs s).routes ≡ priorities cs)
unfolding rotate_round_robin
rotate_round_robin-Perm scope model cs s = (
  rotate_tiers-Perm (length cs) scope model cs s,
  priorities-rotate_tiers (length cs) scope model cs s,
)

-- The cursors after a tier has been asked for a number of times.
unfoldable pub turns : ℕ → SelectionKey → List ProviderRouteCandidate → Selections → Selections
turns zero key tier s = s
turns (suc n) key tier s = (rotate_tier key tier (turns n key tier s)).selections

mod_lt : (a n : ℕ) → 1 < n → a % n < n
mod_lt a n h = omega arith

mod_small : (a : ℕ) → a < u64_mod → a % u64_mod ≡ a
mod_small a h = omega arith

cursor_of-rotate_tier :
    (key : SelectionKey) (tier : List ProviderRouteCandidate) (s : Selections)
    → 1 < length tier
    → cursor_of (rotate_tier key tier s).selections key ≡ (cursor_of s key + 1) % u64_mod
unfolding rotate_tier
cursor_of-rotate_tier key tier s choice =
    rw (lt→ltb 1 (length tier) choice) (
      ap or_default (get-insert_self SelectionKey-discrete s key ((cursor_of s key + 1) % u64_mod)))

cursor_of-turns :
    (n : ℕ) (key : SelectionKey) (tier : List ProviderRouteCandidate) (s : Selections)
    → 1 < length tier
    → cursor_of s key + n < u64_mod
    → cursor_of (turns n key tier s) key ≡ cursor_of s key + n
unfolding turns
cursor_of-turns zero key tier s choice small = omega arith
cursor_of-turns (suc n) key tier s choice small =
    cursor_of-rotate_tier key tier (turns n key tier s) choice
    ∙ rw (cursor_of-turns n key tier s choice (omega arith))
        (mod_small (cursor_of s key + n + 1) (omega arith) ∙ omega arith)

-- In a tier of two or more routes, the routes take turns: the request that follows `n` others is
-- sent first to the route at the cursor plus `n`, counted around the tier, until the cursor wraps
-- around at 2 ^ 64.
pub rotate_tier-turns :
    (n : ℕ) (key : SelectionKey) (tier : List ProviderRouteCandidate) (s : Selections)
    → 1 < length tier
    → cursor_of s key + n < u64_mod
    → get_elem? (rotate_tier key tier (turns n key tier s)).routes 0
      ≡ get_elem? tier ((cursor_of s key + n) % length tier)
unfolding rotate_tier
rotate_tier-turns n key tier s choice small =
    rw (lt→ltb 1 (length tier) choice, cursor_of-turns n key tier s choice small)
      (rotate_left-first ((cursor_of s key + n) % length tier) tier
        (mod_lt (cursor_of s key + n) (length tier) choice))
