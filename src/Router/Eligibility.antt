-- ===== src/Router/Eligibility.antt =====
-- Which accounts a request can be routed to.
use provider_core.Prelude.{
  ◌≤◌, contains-IsMember, ℕ, ◌+◌, ◌<◌, ◌≡◌, ◌≢◌, ◌⊎◌, refl, sym, ◌∙◌, ap, true, Option, none, some,
  List, [], ◌∷◌, arith, All, All-map, IsMember, inl, inr, Entry, Text, get, retain, insert, remove,
  holds_same, lt→ltb,
}
use provider_core.Router.Bindings.{Instant, AccountId}
use provider_core.Router.Accounts.{
  StoredProviderModel, MetadataJson, RoutedAccount, RouteCooldown, ProviderRouteCandidate,
  ProviderRouteQuery, Cooldowns, CooldownKey, CooldownKey-discrete, cooldown_of, is_eligible,
  ProviderFailoverReason, WireFormat-discrete, AccountAuthState,
}
use provider_core.Router.Candidates.{
  Accounts, exact_candidate, fallback_candidate, openai_compatible,
}
use provider_core.Router.Routes.{Router, cooling, routes}
use provider_core.Router.Updates.{cooldown_duration, record_route_failure}
use provider_core.Router.Continuation.{same_text-eq}
use provider_core.Router.Found.{IsOfferedBy, IsFound, routes-IsFound}
use provider_core.Router.Guards.{
  IsNamed, IsVerified, effective_model-IsNamed, unknown, model_contract_is_routable-IsVerified,
  MayUse, allows-MayUse, is_active-eq, listed_only, is_none-eq, over,
}

module _ (json : MetadataJson) where
  -- The candidate is for a model that the account has under the requested name, enabled,
  -- available, routable and of a verified contract.
  abbrev pub IsExact : Text → RoutedAccount → ProviderRouteCandidate → Type 0
  IsExact name account c =
      (m : StoredProviderModel) × IsMember m account.models
      × (m.enabled ≡ true)
      × (m.available ≡ true)
      × (m.routable ≡ true)
      × IsNamed m name
      × IsVerified json m
      × (c ≡ exact_candidate json c.account_id account m)

  -- The candidate is for the name itself, which no model of a compatible provider has.
  abbrev pub IsFallback : Text → RoutedAccount → ProviderRouteCandidate → Type 0
  IsFallback name account c =
      (account.provider_name ≡ openai_compatible)
      × All (λ (m : StoredProviderModel). (m.alias ≢ some name) × (m.upstream_model ≢ name))
          account.models
      × (c ≡ fallback_candidate name c.account_id account)

  pub record IsOffered (q : ProviderRouteQuery) (now : Instant) (r : Router)
      (c : ProviderRouteCandidate) : Type 0 where
    pub account : RoutedAccount
    pub known : IsMember (record { key = c.account_id; value = account }) r.accounts
    pub may_use : MayUse account.access q.user_id
    pub signed_in : account.state.auth_state ≡ AccountAuthState.active
    pub native : IsMember account.native_format q.native_formats
    pub listed : (ids : List AccountId) → q.account_ids ≡ some ids → IsMember c.account_id ids
    pub not_cooling :
        (cooldown : RouteCooldown)
        → cooldown_of r.cooldowns c.account_id q.model ≡ some cooldown
        → cooldown.until ≤ now
    pub offered : IsExact q.model account c ⊎ IsFallback q.model account c

  offered_by :
      (q : ProviderRouteQuery) (c : ProviderRouteCandidate) (account : RoutedAccount)
      → IsOfferedBy json q c account
      → IsExact q.model account c ⊎ IsFallback q.model account c
  offered_by q c account (inl (m, known, h, same)) = inl (
    m,
    known,
    ground arith,
    ground arith,
    ground arith,
    effective_model-IsNamed m q.model (ground arith),
    model_contract_is_routable-IsVerified json m (ground arith),
    same,
  )
  offered_by q c account (inr (h, same)) = inr (
    same_text-eq account.provider_name openai_compatible (ground arith),
    unknown account.models q.model (ground arith),
    same,
  )

  IsFound-IsOffered :
      (q : ProviderRouteQuery) (now : Instant) (r : Router) (c : ProviderRouteCandidate)
      → IsFound json q (cooling now r.cooldowns) r.accounts c
      → IsOffered q now r c
  IsFound-IsOffered q now r c h = record {
    account = h.account;
    known = h.known;
    may_use = allows-MayUse h.account.access q.user_id (ground (arith, h.eligible));
    signed_in = is_active-eq h.account.state.auth_state (ground (arith, h.eligible));
    native =
        contains-IsMember WireFormat-discrete q.native_formats h.account.native_format
          (ground (arith, h.eligible));
    listed = listed_only q.account_ids c.account_id (ground (arith, h.eligible));
    not_cooling = λ cooldown.
        over now r.cooldowns (record { account_id = c.account_id; model = q.model }) cooldown
          (is_none-eq _ (ground (arith, h.eligible)));
    offered = offered_by q c h.account h.offered;
  }

  -- Every account that a request is routed to is known to the router and signed in, belongs to
  -- the user or is shared by its owner, speaks one of the request's formats, is among the accounts
  -- that the request allows, and has no cooldown for the model that lasts beyond now. The
  -- candidate is for a model that the account has under the requested name, enabled, available,
  -- routable and with no client contract but a verified one, or, for a compatible provider none
  -- of whose models has the name, for the name itself.
  pub routes-IsOffered :
      (q : ProviderRouteQuery) (now : Instant) (r : Router)
      → All (IsOffered q now r) (routes json now q r).routes
  routes-IsOffered q now r =
      All-map (IsFound json q (cooling now r.cooldowns) r.accounts) (IsOffered q now r)
        (routes json now q r).routes (IsFound-IsOffered q now r) (routes-IsFound json q now r)

get-retain_first :
    (e : Entry CooldownKey RouteCooldown) (rest : Cooldowns) (now : Instant)
    → now < e.value.until
    → get CooldownKey-discrete (cooling now (e ∷ rest)) e.key ≡ some e.value
unfolding get retain
get-retain_first e rest now h =
    rw (lt→ltb now e.value.until h, holds_same CooldownKey-discrete e.key) refl

-- A failure that is recorded keeps the account from the model until its cooldown is over.
record_route_failure-cooling :
    (now later : Instant) (account_id : AccountId) (model : Text) (reason : ProviderFailoverReason)
    (retry_after : Option ℕ) (duration : ℕ) (r : Router)
    → cooldown_duration reason retry_after ≡ some duration
    → later < now + duration
    → cooldown_of
        (cooling later (record_route_failure now account_id model reason retry_after r).cooldowns)
        account_id
        model
      ≡ some (record { until = now + duration; reason = reason })
unfolding record_route_failure insert
record_route_failure-cooling now later account_id model reason retry_after duration r e h =
    rw (e, record_route_failure)
      (get-retain_first
        (record {
          key = record { account_id = account_id; model = model };
          value = record { until = now + duration; reason = reason };
        })
        (remove CooldownKey-discrete r.cooldowns
          (record { account_id = account_id; model = model }))
        later h)

eligible-cooldown :
    (q : ProviderRouteQuery) (cooldowns : Cooldowns) (account_id : AccountId)
    (account : RoutedAccount)
    → is_eligible q cooldowns account_id account ≡ true
    → cooldown_of cooldowns account_id q.model ≡ none
eligible-cooldown q cooldowns account_id account h = ground arith

offered_elsewhere :
    (json : MetadataJson) (q : ProviderRouteQuery) (cooldowns : Cooldowns) (accounts : Accounts)
    (account_id : AccountId) (cooldown : RouteCooldown) (cs : List ProviderRouteCandidate)
    → cooldown_of cooldowns account_id q.model ≡ some cooldown
    → All (IsFound json q cooldowns accounts) cs
    → All (λ (c : ProviderRouteCandidate). c.account_id ≢ account_id) cs
offered_elsewhere json q cooldowns accounts account_id cooldown [] e h = tt
offered_elsewhere json q cooldowns accounts account_id cooldown (c ∷ cs) e h = (
  (λ same. absurd (
      ground (
        arith,
        sym (eligible-cooldown q cooldowns c.account_id h.0.account h.0.eligible)
            ∙ ap (λ id. cooldown_of cooldowns id q.model) same
            ∙ e,
      ))),
  offered_elsewhere json q cooldowns accounts account_id cooldown cs e h.1,
)

-- After a failure that starts a cooldown is recorded for an account and a model, no request for
-- that model is routed to the account before the cooldown ends.
pub routes-record_route_failure :
    (json : MetadataJson) (q : ProviderRouteQuery) (now later : Instant) (account_id : AccountId)
    (reason : ProviderFailoverReason) (retry_after : Option ℕ) (duration : ℕ) (r : Router)
    → cooldown_duration reason retry_after ≡ some duration
    → later < now + duration
    → All
        (λ (c : ProviderRouteCandidate). c.account_id ≢ account_id)
        (routes json later q
          (record_route_failure now account_id q.model reason retry_after r)).routes
routes-record_route_failure json q now later account_id reason retry_after duration r e h =
    let failed = record_route_failure now account_id q.model reason retry_after r in
    offered_elsewhere json q (cooling later failed.cooldowns) failed.accounts account_id _ _
      (record_route_failure-cooling now later account_id q.model reason retry_after duration r e h)
      (routes-IsFound json q later failed)
