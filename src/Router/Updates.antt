-- ===== src/Router/Updates.antt =====
-- What changes the router's state besides the choice of routes:
-- crates/provider-runtime/src/router.rs, lines 153-233 and 487-570.
use provider_core.Prelude.{
  ℕ, ◌+◌, Bool, true, false, not, Option, none, some, List, [], ◌∷◌, if◌then◌else◌, is_some,
  is_none, Map, get, insert, remove, retain, Text, Text-discrete, max,
}
use provider_core.Router.Bindings.{Instant, AccountId, insert_binding}
use provider_core.Router.Accounts.{
  same_text, StoredProviderModel, ProviderAccountAccess, RoutedAccount, CooldownKey-discrete,
  ProviderFailoverReason, private, authentication_exhausted, quota_exhausted, rate_limited,
  capacity_exhausted, preconnect_failure,
}
use provider_core.Router.Routes.{
  Router, SessionAffinityKey-discrete, used_session, rate_limit_cooldown, quota_cooldown,
  auth_cooldown, preconnect_cooldown,
}

-- The answer of an operation, and the router after it.
pub record Answered : Type 0 where
  pub answer : Bool
  pub router : Router

-- `replace_account_models`, where the provider of the account is that of the runtime; otherwise
-- it is an error that changes nothing.
unfoldable pub replace_account_models : Text → AccountId → RoutedAccount → Router → Option Router
replace_account_models runtime_provider account_id account r =
    if same_text account.provider_name runtime_provider
    then some (record r { accounts = insert Text-discrete r.accounts account_id account })
    else none

unfoldable pub remove_account : AccountId → Router → Answered
remove_account account_id r =
    if is_some (get Text-discrete r.accounts account_id)
    then record {
      answer = true;
      router = record r {
        accounts = remove Text-discrete r.accounts account_id;
        affinities = record r.affinities {
          entries =
              retain (λ e. not (same_text e.value.account_id account_id)) r.affinities.entries;
        };
        cooldowns = retain (λ e. not (same_text e.key.account_id account_id)) r.cooldowns;
      };
    }
    else record { answer = false; router = r }

-- `get_mut` and an assignment.
abbrev update_account : (RoutedAccount → RoutedAccount) → AccountId → Router → Answered
update_account change account_id r = elim (get Text-discrete r.accounts account_id) [
  | none ↦ record { answer = false; router = r }
  | some account ↦ record {
    answer = true;
    router = record r { accounts = insert Text-discrete r.accounts account_id (change account) };
  }
]

unfoldable pub update_account_access : AccountId → ProviderAccountAccess → Router → Answered
update_account_access account_id access r =
    update_account (λ account. record account { access = access }) account_id r

unfoldable pub update_account_models : AccountId → List StoredProviderModel → Router → Answered
update_account_models account_id models r =
    update_account (λ account. record account { models = models }) account_id r

abbrev claim : Text → ProviderAccountAccess → ProviderAccountAccess
claim owner access =
    if is_none access.owner_user_id
    then record { owner_user_id = some owner; visibility = private }
    else access

unfoldable pub claim_unowned : Text → Map AccountId RoutedAccount → Map AccountId RoutedAccount
claim_unowned owner [] = []
claim_unowned owner (e ∷ accounts) =
    record e { value = record e.value { access = claim owner e.value.access } }
    ∷ claim_unowned owner accounts

unfoldable pub claim_unowned_account_access : Text → Router → Router
unfolding claim_unowned
claim_unowned_account_access owner r = record r { accounts = claim_unowned owner r.accounts }

-- `commit_session_affinity`
unfoldable pub commit_session_affinity :
    Instant → Text → Text → Option Text → AccountId → Router → Router
commit_session_affinity now routing_scope model session_id account_id r =
    elim (used_session session_id) [
      | none ↦ r
      | some id ↦ record r {
        affinities = record r.affinities {
          entries =
              insert SessionAffinityKey-discrete r.affinities.entries
                (record { routing_scope = routing_scope; model = model; session_id = id })
                (record { account_id = account_id; last_used = now });
        };
      }
    ]

-- How long a failure keeps the account from the model, `none` where it does not.
unfoldable pub cooldown_duration : ProviderFailoverReason → Option ℕ → Option ℕ
cooldown_duration authentication_exhausted retry_after = some auth_cooldown
cooldown_duration quota_exhausted none = some quota_cooldown
cooldown_duration quota_exhausted (some value) = some (max value quota_cooldown)
cooldown_duration rate_limited none = some rate_limit_cooldown
cooldown_duration rate_limited (some value) = some value
cooldown_duration capacity_exhausted retry_after = none
cooldown_duration preconnect_failure retry_after = some preconnect_cooldown

unfoldable pub record_route_failure :
    Instant → AccountId → Text → ProviderFailoverReason → Option ℕ → Router → Router
unfolding cooldown_duration
record_route_failure now account_id model reason retry_after r =
    elim (cooldown_duration reason retry_after) [
      | none ↦ r
      | some duration ↦ record r {
        cooldowns =
            insert CooldownKey-discrete r.cooldowns
              (record { account_id = account_id; model = model })
              (record { until = now + duration; reason = reason });
      }
    ]

unfoldable pub record_route_success : AccountId → Text → Router → Router
record_route_success account_id model r = record r {
  cooldowns =
      remove CooldownKey-discrete r.cooldowns (record { account_id = account_id; model = model });
}

unfoldable pub bind_response_id : Instant → Text → Text → AccountId → Router → Router
bind_response_id now routing_scope response_id account_id r = record r {
  response_bindings =
      insert_binding now (record { routing_scope = routing_scope; response_id = response_id })
        account_id r.response_bindings;
}
