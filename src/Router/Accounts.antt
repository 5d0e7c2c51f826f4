-- ===== src/Router/Accounts.antt =====
-- The accounts that the router knows and the candidates that they offer for a request:
-- crates/provider-runtime/src/router.rs and the types of crates/provider-core/src. The JSON of a
-- model's metadata is serde_json's, which enters as a parameter.
use Prim.Native.String.{String}
use provider_core.Prelude.{
  ℕ, Bool, true, false, ◌&&◌, ◌||◌, Option, none, some, List, is_none, is_some_and, is_none_or,
  holds, contains, Map, get, Text, Text-discrete,
}
use provider_core.Cost.Pricing.{ProviderModelPricingRecord}
use provider_core.Router.Bindings.{Instant, AccountId}

pub data ProviderVisibility : Type 0 where
  shared private : ProviderVisibility

pub record ProviderAccountAccess : Type 0 where
  pub owner_user_id : Option Text
  pub visibility : ProviderVisibility

abbrev pub is_shared : ProviderVisibility → Bool
is_shared shared = true
is_shared private = false

abbrev pub same_text : Text → Text → Bool
same_text a b = holds (Text-discrete a b)

abbrev pub allows : ProviderAccountAccess → Text → Bool
allows access user_id =
    is_some_and access.owner_user_id
      (λ owner. same_text owner user_id || is_shared access.visibility)

pub data AccountAuthState : Type 0 where
  active reauth_required : AccountAuthState

pub record AccountRuntimeState : Type 0 where
  pub generation : ℕ
  pub next_refresh_at : Option ℕ
  pub auth_state : AccountAuthState
  pub persistence_pending : Bool

abbrev pub is_active : AccountAuthState → Bool
is_active active = true
is_active reauth_required = false

abbrev pub available_for_requests : AccountRuntimeState → Bool
available_for_requests state = is_active state.auth_state

pub data WireFormat : Type 0 where
  open_ai_responses open_ai_chat_completions claude_messages : WireFormat

unfoldable pub WireFormat-discrete : Discrete WireFormat
WireFormat-discrete = hlevel

pub data ProviderModelInputModality : Type 0 where
  text image pdf audio video : ProviderModelInputModality

pub data OfficialClientContractStatus : Type 0 where
  verified unsupported blocked needs_review : OfficialClientContractStatus

abbrev pub allows_production_routing : OfficialClientContractStatus → Bool
allows_production_routing verified = true
allows_production_routing _ = false

-- The fields that the router reads.
pub record StoredProviderModel : Type 0 where
  pub upstream_model : Text
  pub alias : Option Text
  pub enabled : Bool
  pub available : Bool
  pub routable : Bool
  pub input_modalities : Option (List ProviderModelInputModality)
  pub metadata_json : Text
  pub pricing : Option ProviderModelPricingRecord

abbrev or_upstream : Option Text → Text → Text
or_upstream none upstream = upstream
or_upstream (some alias) upstream = alias

abbrev pub effective_model : StoredProviderModel → Text
effective_model m = or_upstream m.alias m.upstream_model

-- serde_json: `from_str`, `Value::get`, `Value::as_bool`, and `from_value` for a status.
pub record MetadataJson : Type 1 where
  pub Value : Type 0
  pub from_str : Text → Option Value
  pub get_field : Value → String → Option Value
  pub as_bool : Value → Option Bool
  pub status_from_value : Value → Option OfficialClientContractStatus

-- What the router reads of an account and its route. The runtime state is read at the request.
pub record RoutedAccount : Type 0 where
  pub provider_name : Text
  pub state : AccountRuntimeState
  pub native_format : WireFormat
  pub access : ProviderAccountAccess
  pub models : List StoredProviderModel
  pub priority : ℕ

-- A candidate with the account that it belongs to, which the router always names; of the route
-- it carries the provider's name and the native format.
pub record ProviderRouteCandidate : Type 0 where
  pub account_id : AccountId
  pub priority : ℕ
  pub upstream_model : Text
  pub input_modalities : Option (List ProviderModelInputModality)
  pub responses_lite : Bool
  pub pricing : Option ProviderModelPricingRecord
  pub provider_name : Text
  pub native_format : WireFormat

pub record ProviderRouteQuery : Type 0 where
  pub user_id : Text
  pub routing_scope : Text
  pub model : Text
  pub native_formats : List WireFormat
  pub session_id : Option Text
  pub previous_response_id : Option Text
  pub account_ids : Option (List AccountId)

pub record CooldownKey : Type 0 where
  pub account_id : AccountId
  pub model : Text

unfoldable pub CooldownKey-discrete : Discrete CooldownKey
CooldownKey-discrete = hlevel Text-discrete

pub data ProviderFailoverReason : Type 0 where
  authentication_exhausted quota_exhausted rate_limited : ProviderFailoverReason
  capacity_exhausted preconnect_failure : ProviderFailoverReason

pub record RouteCooldown : Type 0 where
  pub until : Instant
  pub reason : ProviderFailoverReason

abbrev pub Cooldowns : Type 0
Cooldowns = Map CooldownKey RouteCooldown

abbrev pub cooldown_of : Cooldowns → AccountId → Text → Option RouteCooldown
cooldown_of cooldowns account_id model =
    get CooldownKey-discrete cooldowns (record { account_id = account_id; model = model })

-- The guard of the loop over the accounts, once the cooldowns that are over have been removed.
abbrev pub is_eligible : ProviderRouteQuery → Cooldowns → AccountId → RoutedAccount → Bool
is_eligible q cooldowns account_id account =
    allows account.access q.user_id
    && available_for_requests account.state
    && contains WireFormat-discrete q.native_formats account.native_format
    && is_none_or q.account_ids (λ ids. contains Text-discrete ids account_id)
    && is_none (cooldown_of cooldowns account_id q.model)
