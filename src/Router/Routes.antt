-- ===== src/Router/Routes.antt =====
-- The router's state and operations: `ProviderModelRouter` of
-- crates/provider-runtime/src/router.rs. Each operation takes the locks that the code takes and
-- runs as one step; `now` is what it reads from the clock.
use provider_core.Prelude.{
  ℕ, suc, ◌-◌, ◌*◌, Bool, not, Option, none, some, List, [], ◌∷◌, if◌then◌else◌, ltb, leb,
  is_none_or, is_empty, Map, get, insert, remove, retain, Text, Text-discrete, trim,
}
use provider_core.Router.Bindings.{
  Instant, AccountId, ResponseBindings, ResponseBinding, lookup, remove_expired,
}
use provider_core.Router.Accounts.{
  same_text, MetadataJson, ProviderRouteCandidate, ProviderRouteQuery, Cooldowns,
}
use provider_core.Router.Candidates.{Accounts, codex, filter_by, collect_routes, sort_routes}
use provider_core.Router.RoundRobin.{Selections, rotate_left, rotate_round_robin}

abbrev pub second : ℕ
second = 1_000_000_000

abbrev pub session_affinity_ttl : ℕ
session_affinity_ttl = 60 * 60 * second

abbrev pub session_affinity_cleanup_interval : ℕ
session_affinity_cleanup_interval = 60 * second

abbrev pub rate_limit_cooldown : ℕ
rate_limit_cooldown = 30 * second

abbrev pub quota_cooldown : ℕ
quota_cooldown = 5 * 60 * second

abbrev pub auth_cooldown : ℕ
auth_cooldown = 30 * 60 * second

abbrev pub preconnect_cooldown : ℕ
preconnect_cooldown = 30 * second

pub record SessionAffinityKey : Type 0 where
  pub routing_scope : Text
  pub model : Text
  pub session_id : Text

unfoldable pub SessionAffinityKey-discrete : Discrete SessionAffinityKey
SessionAffinityKey-discrete = hlevel Text-discrete

pub record SessionAffinity : Type 0 where
  pub account_id : AccountId
  pub last_used : Instant

pub record SessionAffinities : Type 0 where
  pub entries : Map SessionAffinityKey SessionAffinity
  pub last_cleanup : Option Instant

pub record Router : Type 0 where
  pub accounts : Accounts
  pub affinities : SessionAffinities
  pub selections : Selections
  pub cooldowns : Cooldowns
  pub response_bindings : ResponseBindings

-- `session_id.map(str::trim).filter(|value| !value.is_empty())`
abbrev pub used_session : Option Text → Option Text
used_session none = none
used_session (some id) = if is_empty (trim id) then none else some (trim id)

abbrev pub cooling : Instant → Cooldowns → Cooldowns
cooling now cooldowns = retain (λ e. ltb now e.value.until) cooldowns

pub record Chosen : Type 0 where
  pub routes : List ProviderRouteCandidate
  pub router : Router

-- `rotate_round_robin(…); return routes`
abbrev pub rotated : ProviderRouteQuery → List ProviderRouteCandidate → Router → Chosen
rotated q routes r =
    let turned = rotate_round_robin q.routing_scope q.model routes r.selections in
    record { routes = turned.routes; router = record r { selections = turned.selections } }

abbrev is_used_lately : Instant → SessionAffinity → Bool
is_used_lately now affinity = ltb (now - affinity.last_used) session_affinity_ttl

-- The cleanup of the affinities, at most once per interval.
unfoldable pub clean_affinities : Instant → SessionAffinities → SessionAffinities
clean_affinities now a =
    if is_none_or a.last_cleanup (λ last. leb session_affinity_cleanup_interval (now - last))
    then record {
      entries = retain (λ e. is_used_lately now e.value) a.entries;
      last_cleanup = some now;
    }
    else a

abbrev next_position : Option ℕ → Option ℕ
next_position none = none
next_position (some n) = some (suc n)

unfoldable pub position_of_account : AccountId → List ProviderRouteCandidate → Option ℕ
position_of_account account_id [] = none
position_of_account account_id (c ∷ routes) =
    let later = next_position (position_of_account account_id routes) in
    if same_text c.account_id account_id then some 0 else later

abbrev with_entries : Router → Map SessionAffinityKey SessionAffinity → Router
with_entries r entries = record r { affinities = record r.affinities { entries = entries } }

-- The session stays with its account while the affinity is live and the account is a candidate.
unfoldable pub follow_affinity :
    Instant
    → ProviderRouteQuery
    → SessionAffinityKey
    → SessionAffinity
    → Option ℕ
    → List ProviderRouteCandidate
    → Router
    → Chosen
follow_affinity now q key affinity (some index) routes r = record {
  routes = rotate_left index routes;
  router = with_entries r (
      insert SessionAffinityKey-discrete r.affinities.entries key
        (record affinity { last_used = now }));
}
follow_affinity now q key affinity none routes r =
    rotated q routes (with_entries r (remove SessionAffinityKey-discrete r.affinities.entries key))

unfoldable pub by_affinity :
    Instant
    → ProviderRouteQuery
    → SessionAffinityKey
    → Option SessionAffinity
    → List ProviderRouteCandidate
    → Router
    → Chosen
unfolding follow_affinity position_of_account
by_affinity now q key none routes r = rotated q routes r
by_affinity now q key (some affinity) routes r =
    follow_affinity now q key affinity
      (if is_used_lately now affinity then position_of_account affinity.account_id routes else none)
      routes r

unfoldable pub by_session :
    Instant → ProviderRouteQuery → Option Text → List ProviderRouteCandidate → Router → Chosen
unfolding by_affinity clean_affinities
by_session now q none routes r = rotated q routes r
by_session now q (some session_id) routes r =
    let cleaned : Router = record r { affinities = clean_affinities now r.affinities } in
    let key : SessionAffinityKey = record {
      routing_scope = q.routing_scope;
      model = q.model;
      session_id = session_id;
    } in
    by_affinity now q key (get SessionAffinityKey-discrete cleaned.affinities.entries key) routes
      cleaned

abbrev pub first_of : List ProviderRouteCandidate → List ProviderRouteCandidate
first_of [] = []
first_of (c ∷ routes) = c ∷ []

abbrev pub supports_previous_response_id : ProviderRouteCandidate → Bool
supports_previous_response_id c = same_text c.provider_name codex

-- A continuation of a bound response goes to its account, or nowhere; an unbound one only to
-- accounts that do not keep responses.
unfoldable pub continue_response :
    Instant
    → ProviderRouteQuery
    → Option ResponseBinding
    → List ProviderRouteCandidate
    → Router
    → Chosen
unfolding by_session
continue_response now q (some bound) routes r = record {
  routes = first_of (filter_by (λ c. same_text c.account_id bound.account_id) routes);
  router = r;
}
continue_response now q none routes r =
    let kept = filter_by (λ c. not (supports_previous_response_id c)) routes in
    if is_empty kept
    then record { routes = []; router = r }
    else by_session now q (used_session q.session_id) kept r

unfoldable pub choose :
    Instant → ProviderRouteQuery → Option Text → List ProviderRouteCandidate → Router → Chosen
unfolding continue_response
choose now q none routes r = by_session now q (used_session q.session_id) routes r
choose now q (some response_id) routes r =
    let bindings = remove_expired now r.response_bindings in
    continue_response now q
      (lookup bindings.entries
        (record { routing_scope = q.routing_scope; response_id = response_id }))
      routes (record r { response_bindings = bindings })

unfoldable pub routes : MetadataJson → Instant → ProviderRouteQuery → Router → Chosen
unfolding choose
routes json now q r =
    let cooled : Router = record r { cooldowns = cooling now r.cooldowns } in
    let found = collect_routes json q cooled.cooldowns cooled.accounts in
    if is_empty found
    then record { routes = []; router = cooled }
    else choose now q q.previous_response_id (sort_routes found) cooled
