-- ===== src/Router/RoundRobin.antt =====
-- The rotation of the routes of one priority: `rotate_round_robin` of
-- crates/provider-runtime/src/router.rs.
use provider_core.Prelude.{
  ℕ, zero, suc, ◌+◌, ◌%◌, ◌==◌, Option, none, some, List, [], ◌∷◌, ◌++◌, if◌then◌else◌, ltb, length,
  take, drop, Map, get, insert, Text, Text-discrete, ℕ_discrete, u64_mod,
}
use provider_core.Router.Accounts.{ProviderRouteCandidate}

pub record SelectionKey : Type 0 where
  pub routing_scope : Text
  pub model : Text
  pub priority : ℕ

unfoldable pub SelectionKey-discrete : Discrete SelectionKey
SelectionKey-discrete = hlevel (Text-discrete, ℕ_discrete)

abbrev pub Selections : Type 0
Selections = Map SelectionKey ℕ

-- `rotate_left`
abbrev pub rotate_left : {A : Type 0} → ℕ → List A → List A
rotate_left n xs = drop n xs ++ take n xs

-- The length of the run of routes of a priority.
unfoldable pub tier_len : ℕ → List ProviderRouteCandidate → ℕ
tier_len priority [] = 0
tier_len priority (c ∷ routes) =
    let later = suc (tier_len priority routes) in if c.priority == priority then later else 0

abbrev pub or_default : Option ℕ → ℕ
or_default none = 0
or_default (some n) = n

abbrev pub cursor_of : Selections → SelectionKey → ℕ
cursor_of selections key = or_default (get SelectionKey-discrete selections key)

pub record Rotated : Type 0 where
  pub routes : List ProviderRouteCandidate
  pub selections : Selections

-- One tier: its routes from the cursor on, and the cursor moved on, where there is a choice.
unfoldable pub rotate_tier : SelectionKey → List ProviderRouteCandidate → Selections → Rotated
rotate_tier key tier selections =
    if ltb 1 (length tier)
    then record {
      routes = rotate_left (cursor_of selections key % length tier) tier;
      selections =
          insert SelectionKey-discrete selections key ((cursor_of selections key + 1) % u64_mod);
    }
    else record { routes = tier; selections = selections }

abbrev pub tier_key : Text → Text → ProviderRouteCandidate → SelectionKey
tier_key routing_scope model c = record {
  routing_scope = routing_scope;
  model = model;
  priority = c.priority;
}

-- The loop over the tiers. A tier is not empty, so the number of routes is enough fuel.
unfoldable pub rotate_tiers : ℕ → Text → Text → List ProviderRouteCandidate → Selections → Rotated
rotate_tiers zero routing_scope model routes selections = record {
  routes = routes;
  selections = selections;
}
rotate_tiers (suc fuel) routing_scope model [] selections = record {
  routes = [];
  selections = selections;
}
rotate_tiers (suc fuel) routing_scope model (c ∷ routes) selections =
    let n = tier_len c.priority (c ∷ routes) in
    let tier = rotate_tier (tier_key routing_scope model c) (take n (c ∷ routes)) selections in
    let rest = rotate_tiers fuel routing_scope model (drop n (c ∷ routes)) tier.selections in
    record rest { routes = tier.routes ++ rest.routes }

unfoldable pub rotate_round_robin : Text → Text → List ProviderRouteCandidate → Selections → Rotated
unfolding rotate_tiers
rotate_round_robin routing_scope model routes selections =
    rotate_tiers (length routes) routing_scope model routes selections
