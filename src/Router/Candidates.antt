-- ===== src/Router/Candidates.antt =====
-- The candidates that the accounts offer for a request, in their order: the loop of `routes` in
-- crates/provider-runtime/src/router.rs. The accounts are the entries of a map; the code visits
-- them by their ids, and so does the sort.
use provider_core.Prelude.{
  Bool, true, false, not, ◌&&◌, ◌||◌, ◌==◌, Option, none, some, List, [], ◌∷◌, ◌++◌, if◌then◌else◌,
  ltb, is_empty, Map, Text, text_leb,
}
use provider_core.Router.Bindings.{AccountId}
use provider_core.Router.Accounts.{
  same_text, OfficialClientContractStatus, allows_production_routing, StoredProviderModel,
  effective_model, MetadataJson, RoutedAccount, ProviderRouteCandidate, ProviderRouteQuery,
  Cooldowns, is_eligible,
}

abbrev pub Accounts : Type 0
Accounts = Map AccountId RoutedAccount

abbrev pub codex : Text
codex = b'c' ∷ b'o' ∷ b'd' ∷ b'e' ∷ b'x' ∷ []

abbrev pub openai_compatible : Text
openai_compatible =
    b'o' ∷ b'p' ∷ b'e' ∷ b'n' ∷ b'a' ∷ b'i' ∷ b'_' ∷ b'c' ∷ b'o' ∷ b'm' ∷ b'p' ∷ b'a' ∷ b't' ∷ b'i'
    ∷ b'b' ∷ b'l' ∷ b'e' ∷ []

-- `filter`, and `any`.
unfoldable pub filter_by : {A : Type 0} → (A → Bool) → List A → List A
filter_by keeps [] = []
filter_by keeps (x ∷ xs) = let rest = filter_by keeps xs in if keeps x then x ∷ rest else rest

unfoldable pub any_of : {A : Type 0} → (A → Bool) → List A → Bool
any_of test [] = false
any_of test (x ∷ xs) = test x || any_of test xs

abbrev pub and_then : {A B : Type 0} → Option A → (A → Option B) → Option B
and_then none f = none
and_then (some a) f = f a

abbrev is_true : Option Bool → Bool
is_true none = false
is_true (some b) = b

abbrev pub status_allows : Option OfficialClientContractStatus → Bool
status_allows none = false
status_allows (some status) = allows_production_routing status

abbrev pub model_is_known : Text → RoutedAccount → Bool
model_is_known model account =
    any_of (λ m. same_text (effective_model m) model || same_text m.upstream_model model)
      account.models

abbrev pub fallback_candidate : Text → AccountId → RoutedAccount → ProviderRouteCandidate
fallback_candidate model account_id account = record {
  account_id = account_id;
  priority = account.priority;
  upstream_model = model;
  input_modalities = none;
  responses_lite = false;
  pricing = none;
  provider_name = account.provider_name;
  native_format = account.native_format;
}

abbrev pub offers_fallback : Text → RoutedAccount → Bool
offers_fallback model account =
    same_text account.provider_name openai_compatible && not (model_is_known model account)

unfoldable pub fallback_routes :
    ProviderRouteQuery → Cooldowns → Accounts → List ProviderRouteCandidate
fallback_routes q cooldowns [] = []
fallback_routes q cooldowns (e ∷ accounts) =
    (if is_eligible q cooldowns e.key e.value && offers_fallback q.model e.value
      then fallback_candidate q.model e.key e.value ∷ []
      else [])
    ++ fallback_routes q cooldowns accounts

module _ (json : MetadataJson) where
  open json use {Value, from_str, get_field, as_bool, status_from_value}

  unfoldable pub model_uses_responses_lite : StoredProviderModel → Bool
  model_uses_responses_lite m = is_true (
      and_then (and_then (from_str m.metadata_json) (λ v. get_field v "use_responses_lite"))
        as_bool)

  -- `Some(None)` for a status that is missing or not understood.
  unfoldable pub official_client_contract_status :
      StoredProviderModel → Option (Option OfficialClientContractStatus)
  official_client_contract_status m =
      and_then (and_then (from_str m.metadata_json) (λ v. get_field v "official_client_contract"))
        (λ contract. some (and_then (get_field contract "status") status_from_value))

  abbrev pub contract_allows : Option (Option OfficialClientContractStatus) → Bool
  contract_allows none = true
  contract_allows (some status) = status_allows status

  unfoldable pub model_contract_is_routable : StoredProviderModel → Bool
  unfolding official_client_contract_status
  model_contract_is_routable m = contract_allows (official_client_contract_status m)

  abbrev pub offers : Text → StoredProviderModel → Bool
  offers model m =
      m.enabled
      && m.available
      && m.routable
      && model_contract_is_routable m
      && same_text (effective_model m) model

  abbrev pub exact_candidate :
      AccountId → RoutedAccount → StoredProviderModel → ProviderRouteCandidate
  exact_candidate account_id account m = record {
    account_id = account_id;
    priority = account.priority;
    upstream_model = m.upstream_model;
    input_modalities = m.input_modalities;
    responses_lite = model_uses_responses_lite m;
    pricing = m.pricing;
    provider_name = account.provider_name;
    native_format = account.native_format;
  }

  unfoldable pub candidates_of :
      AccountId → RoutedAccount → List StoredProviderModel → List ProviderRouteCandidate
  candidates_of account_id account [] = []
  candidates_of account_id account (m ∷ models) =
      exact_candidate account_id account m ∷ candidates_of account_id account models

  unfoldable pub exact_routes :
      ProviderRouteQuery → Cooldowns → Accounts → List ProviderRouteCandidate
  unfolding filter_by candidates_of
  exact_routes q cooldowns [] = []
  exact_routes q cooldowns (e ∷ accounts) =
      (if is_eligible q cooldowns e.key e.value
        then candidates_of e.key e.value (filter_by (offers q.model) e.value.models)
        else [])
      ++ exact_routes q cooldowns accounts

  unfoldable pub collect_routes :
      ProviderRouteQuery → Cooldowns → Accounts → List ProviderRouteCandidate
  unfolding exact_routes fallback_routes
  collect_routes q cooldowns accounts =
      let exact = exact_routes q cooldowns accounts in
      if is_empty exact then fallback_routes q cooldowns accounts else exact

-- The order of the sort: by priority, then by account.
abbrev pub not_after : ProviderRouteCandidate → ProviderRouteCandidate → Bool
not_after a b =
    ltb a.priority b.priority || a.priority == b.priority && text_leb a.account_id b.account_id

-- The stable sort, by insertion.
unfoldable pub insert_route :
    ProviderRouteCandidate → List ProviderRouteCandidate → List ProviderRouteCandidate
insert_route c [] = c ∷ []
insert_route c (d ∷ routes) =
    let later = insert_route c routes in if not_after c d then c ∷ d ∷ routes else d ∷ later

unfoldable pub sort_routes : List ProviderRouteCandidate → List ProviderRouteCandidate
unfolding insert_route
sort_routes [] = []
sort_routes (c ∷ routes) = insert_route c (sort_routes routes)
