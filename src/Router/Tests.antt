-- ===== src/Router/Tests.antt =====
-- The router at a concrete state: two accounts of one user for one model.
use provider_core.Prelude.{
  ◌+◌, ◌*◌, ◌%◌, ◌<◌, ◌≤◌, ◌≡◌, ◌≢◌, refl, true, false, Option, none, some, List, [], ◌∷◌, arith,
  All, Text, get_elem?, get, insert, remove, retain, length, u64_mod,
}
use mathlib.Core.List.{Permᴰ}
use provider_core.Router.Bindings.Kept.{BindingUse, bound, looked_up, use_all}
use provider_core.Router.Bindings.{
  insert_live, push_binding, make_room, remove_expired, expire, max_response_bindings, AccountId,
  ResponseBindings, lookup, insert_binding,
}
use provider_core.Router.Bindings.Expiry.{if_live}
use provider_core.Router.Bindings.Bound.{IsValid, insert_binding-IsValid}
use provider_core.Router.Accounts.{
  StoredProviderModel, MetadataJson, RoutedAccount, ProviderRouteCandidate, ProviderRouteQuery,
  shared, active, open_ai_responses, quota_exhausted,
}
use provider_core.Router.Candidates.{codex, exact_candidate}
use provider_core.Router.Continuation.{
  Continues, previous_key, routes-Continues, routes-bind_response_id,
}
use provider_core.Router.Eligibility.{IsOffered, routes-IsOffered, routes-record_route_failure}
use provider_core.Router.Fairness.{priorities, turns, rotate_round_robin-Perm, rotate_tier-turns}
use provider_core.Router.Removal.{routes-remove_account}
use provider_core.Router.RoundRobin.{SelectionKey, cursor_of, rotate_tier, rotate_round_robin}
use provider_core.Router.Routes.{Router, quota_cooldown, second, routes}
use provider_core.Router.Updates.{
  cooldown_duration, record_route_failure, bind_response_id, remove_account,
}

-- Metadata that says nothing.
abbrev json : MetadataJson
json = record {
  Value = Unit;
  from_str = λ s. none;
  get_field = λ v s. none;
  as_bool = λ v. none;
  status_from_value = λ v. none;
}

abbrev user : Text
user = b'u' ∷ []

abbrev model : Text
model = b'm' ∷ []

abbrev account_a : AccountId
account_a = b'a' ∷ []

abbrev account_b : AccountId
account_b = b'b' ∷ []

abbrev stored : StoredProviderModel
stored = record {
  upstream_model = model;
  alias = none;
  enabled = true;
  available = true;
  routable = true;
  input_modalities = none;
  metadata_json = [];
  pricing = none;
}

abbrev account : RoutedAccount
account = record {
  provider_name = codex;
  state = record {
    generation = 0;
    next_refresh_at = none;
    auth_state = active;
    persistence_pending = false;
  };
  native_format = open_ai_responses;
  access = record { owner_user_id = some user; visibility = shared };
  models = stored ∷ [];
  priority = 1;
}

abbrev no_bindings : ResponseBindings
no_bindings = record { entries = []; oldest_first = [] }

abbrev router : Router
router = record {
  accounts =
      record { key = account_a; value = account }
      ∷ record { key = account_b; value = account }
      ∷ [];
  affinities = record { entries = []; last_cleanup = none };
  selections = [];
  cooldowns = [];
  response_bindings = no_bindings;
}

abbrev query : Option Text → ProviderRouteQuery
query previous = record {
  user_id = user;
  routing_scope = user;
  model = model;
  native_formats = open_ai_responses ∷ [];
  session_id = none;
  previous_response_id = previous;
  account_ids = none;
}

abbrev candidate : AccountId → ProviderRouteCandidate
candidate account_id = exact_candidate json account_id account stored

abbrev pair : List ProviderRouteCandidate
pair = candidate account_a ∷ candidate account_b ∷ []

abbrev pair_key : SelectionKey
pair_key = record { routing_scope = user; model = model; priority = 1 }

routes-IsOffered_example :
    All (IsOffered json (query none) 5 router) (routes json 5 (query none) router).routes
routes-IsOffered_example = routes-IsOffered json (query none) 5 router

quota_duration : cooldown_duration quota_exhausted none ≡ some quota_cooldown
unfolding cooldown_duration
quota_duration = refl

routes-record_route_failure_example :
    All
      (λ (c : ProviderRouteCandidate). c.account_id ≢ account_a)
      (routes json
        (60 * second)
        (query none)
        (record_route_failure 0 account_a model quota_exhausted none router)).routes
routes-record_route_failure_example =
    routes-record_route_failure json (query none) 0 (60 * second) account_a quota_exhausted none
      quota_cooldown router quota_duration (omega arith)

routes-remove_account_example :
    All
      (λ (c : ProviderRouteCandidate). c.account_id ≢ account_a)
      (routes json 5 (query none) (remove_account account_a router).router).routes
routes-remove_account_example = routes-remove_account json (query none) 5 account_a router

no_bindings-IsValid : IsValid no_bindings
unfolding get
no_bindings-IsValid = record {
  queued = λ key b e. absurd (ground arith);
  ordered = tt;
  bounded = omega arith;
}

response : Text
response = b'r' ∷ []

-- The second account has given the response.
abbrev bound_router : Router
bound_router = record router {
  response_bindings =
      insert_binding 3 (previous_key (query (some response)) response) account_b no_bindings;
}

routes-Continues_example :
    All
      (Continues (
        if_live 5 (
          lookup bound_router.response_bindings.entries
            (previous_key (query (some response)) response))))
      (routes json 5 (query (some response)) bound_router).routes
routes-Continues_example =
    routes-Continues json 5 (query (some response)) response bound_router
      (insert_binding-IsValid 3 (previous_key (query (some response)) response) account_b
        no_bindings no_bindings-IsValid tt)
      refl

nothing_bound :
    if_live 3 (lookup no_bindings.entries (previous_key (query (some response)) response)) ≡ none
unfolding get
nothing_bound = refl

-- Another response is bound and looked up before the request.
abbrev uses : List BindingUse
uses = bound 4 (previous_key (query none) model) account_a ∷ looked_up 5 ∷ []

abbrev used_router : Router
used_router = record router {
  response_bindings =
      use_all uses (bind_response_id 3 user response account_b router).response_bindings;
}

one_bound :
    length (bind_response_id 3 user response account_b router).response_bindings.entries + 2
    ≤ max_response_bindings
unfolding bind_response_id insert_binding insert_live push_binding make_room remove_expired expire
    insert remove retain get
one_bound = omega arith

routes-bind_response_id_example :
    All
      (λ (c : ProviderRouteCandidate). c.account_id ≡ account_b)
      (routes json (60 * second) (query (some response)) used_router).routes
routes-bind_response_id_example =
    routes-bind_response_id json (query (some response)) 3 (60 * second) response account_b uses
      router used_router no_bindings-IsValid tt nothing_bound refl (omega arith)
      (omega arith, (omega arith, omega arith)) one_bound refl

rotate_round_robin-Perm_example :
    Permᴰ (rotate_round_robin user model pair []).routes pair
    × (priorities (rotate_round_robin user model pair []).routes ≡ 1 ∷ 1 ∷ [])
rotate_round_robin-Perm_example = rotate_round_robin-Perm user model pair []

empty_cursor : cursor_of [] pair_key + 3 < u64_mod
unfolding get
empty_cursor = omega arith

rotate_tier-turns_example :
    get_elem? (rotate_tier pair_key pair (turns 3 pair_key pair [])).routes 0
    ≡ get_elem? pair ((cursor_of [] pair_key + 3) % 2)
rotate_tier-turns_example = rotate_tier-turns 3 pair_key pair [] (omega arith) empty_cursor
