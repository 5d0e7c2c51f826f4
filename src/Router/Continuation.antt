-- ===== src/Router/Continuation.antt =====
-- Where a request that continues an earlier response may go.
use provider_core.Router.Updates.{bind_response_id}
use provider_core.Prelude.{
  ◌<◌, ◌≤◌, ◌+◌, ◌≡◌, ◌∙◌, ap, length, sym, subst, true, false, not, Option, none, some, List,
  arith, All, Bool-cases, inl, inr, holds, is_empty, Text, Text-discrete,
}
use provider_core.Router.Bindings.{
  Instant, AccountId, ResponseBindingKey, ResponseBinding, lookup, remove_expired, insert_binding,
  response_binding_ttl, ResponseBindings, max_response_bindings,
}
use provider_core.Router.Bindings.Expiry.{if_live, remove_expired-if_live}
use provider_core.Router.Bindings.Bound.{
  IsValid, IsPast, insert_binding-IsValid, insert_binding-lookup,
}
use provider_core.Router.Bindings.Kept.{
  BindingUse, use_all, IsDuring, use_all-found, insert_binding-IsPast,
}
use provider_core.Router.Accounts.{
  same_text, MetadataJson, ProviderRouteCandidate, ProviderRouteQuery,
}
use provider_core.Router.Candidates.{filter_by, collect_routes}
use provider_core.Router.Choice.{filter_by-holds, first_of-All, by_session-All}
use provider_core.Router.Routes.{
  Router, cooling, continue_response, choose, routes, supports_previous_response_id, used_session,
}

pub same_text-eq : (a b : Text) → same_text a b ≡ true → a ≡ b
same_text-eq a b = elim (Text-discrete a b) as (λ d. holds d ≡ true → a ≡ b) [
  | yes e ↦ λ h. e
  | no n ↦ λ h. absurd (ground arith)
]

abbrev pub previous_key : ProviderRouteQuery → Text → ResponseBindingKey
previous_key q id = record { routing_scope = q.routing_scope; response_id = id }

-- Where a request with a previous response is sent, by the binding of that response.
abbrev pub Continues : Option ResponseBinding → ProviderRouteCandidate → Type 0
Continues (some bound) c = c.account_id ≡ bound.account_id
Continues none c = supports_previous_response_id c ≡ false

continue_response-Continues :
    (now : Instant) (q : ProviderRouteQuery) (bound : Option ResponseBinding)
    (cs : List ProviderRouteCandidate) (r : Router)
    → All (Continues bound) (continue_response now q bound cs r).routes
unfolding continue_response
continue_response-Continues now q (some bound) cs r =
    first_of-All (Continues (some bound))
      (filter_by (λ c. same_text c.account_id bound.account_id) cs)
      (filter_by-holds (Continues (some bound)) (λ c. same_text c.account_id bound.account_id) cs
        (λ c m h. same_text-eq c.account_id bound.account_id h))
continue_response-Continues now q none cs r =
    elim (Bool-cases (is_empty (filter_by (λ c. not (supports_previous_response_id c)) cs))) [
      | inl nothing ↦ rw nothing tt
      | inr some_left ↦ rw some_left (
          by_session-All (Continues none) now q (used_session q.session_id)
            (filter_by (λ c. not (supports_previous_response_id c)) cs) r
            (filter_by-holds (Continues none) (λ c. not (supports_previous_response_id c)) cs
              (λ c m h. ground arith)))
    ]

choose-Continues :
    (now : Instant) (q : ProviderRouteQuery) (previous : Option Text) (id : Text)
    (cs : List ProviderRouteCandidate) (r : Router)
    → some id ≡ previous
    → All
        (Continues (lookup (remove_expired now r.response_bindings).entries (previous_key q id)))
        (choose now q previous cs r).routes
unfolding choose
choose-Continues now q previous id cs r asks =
    subst
      (λ p.
        All
          (Continues (lookup (remove_expired now r.response_bindings).entries (previous_key q id)))
          (choose now q p cs r).routes)
      asks (continue_response-Continues now q _ cs _)

-- A request that continues a response whose binding is live is routed only to the account that
-- the response is bound to; where no live binding is known, only to accounts of providers that
-- do not keep responses themselves.
pub routes-Continues :
    (json : MetadataJson) (now : Instant) (q : ProviderRouteQuery) (id : Text) (r : Router)
    → IsValid r.response_bindings
    → q.previous_response_id ≡ some id
    → All
        (Continues (if_live now (lookup r.response_bindings.entries (previous_key q id))))
        (routes json now q r).routes
unfolding routes
routes-Continues json now q id r valid asks =
    rw
      (← remove_expired-if_live now r.response_bindings (previous_key q id) valid.ordered
        valid.queued)
      (elim (Bool-cases (is_empty (collect_routes json q (cooling now r.cooldowns) r.accounts))) [
        | inl nothing ↦ rw nothing tt
        | inr found ↦ rw found (choose-Continues now q q.previous_response_id id _ _ (sym asks))
      ])

bound_later :
    (now later : Instant) (key : ResponseBindingKey) (account_id : AccountId) (b : ResponseBindings)
    → IsValid b
    → if_live now (lookup b.entries key) ≡ none
    → later < now + response_binding_ttl
    → if_live later (lookup (insert_binding now key account_id b).entries key)
      ≡ some (record { account_id = account_id; bound_at = now })
bound_later now later key account_id b valid free soon =
    rw (insert_binding-lookup now key account_id b valid, free)
      (still_live now later account_id soon)
  where
    still_live :
        (now later : Instant) (account_id : AccountId)
        → later < now + response_binding_ttl
        → if_live later (some (record { account_id = account_id; bound_at = now }))
          ≡ some (record { account_id = account_id; bound_at = now })
    still_live now later account_id soon = ground arith

-- A response that an account gives, under an id that has no live binding, is continued only by
-- that account until the time to live of the binding is over. In between, the router may bind
-- other responses and look bindings up, one after another in the order of time, as long as the
-- bindings after the first and the number of those uses together do not exceed the capacity, so
-- that no binding is put out to make room. For this the bindings must be valid, and none of them
-- later than the response.
pub routes-bind_response_id :
    (json : MetadataJson) (q : ProviderRouteQuery) (now later : Instant) (id : Text)
    (account_id : AccountId) (uses : List BindingUse) (r s : Router)
    → IsValid r.response_bindings
    → IsPast now r.response_bindings
    → if_live now (lookup r.response_bindings.entries (previous_key q id)) ≡ none
    → q.previous_response_id ≡ some id
    → later < now + response_binding_ttl
    → IsDuring now later uses
    → length (bind_response_id now q.routing_scope id account_id r).response_bindings.entries
        + length uses
      ≤ max_response_bindings
    → s.response_bindings
      ≡ use_all uses (bind_response_id now q.routing_scope id account_id r).response_bindings
    → All (λ (c : ProviderRouteCandidate). c.account_id ≡ account_id) (routes json later q s).routes
unfolding bind_response_id
routes-bind_response_id json q now later id account_id uses r s valid past free asks soon during
      room after =
    let key = previous_key q id in
    let b = insert_binding now key account_id r.response_bindings in
    let (valid_after, found) =
      use_all-found later key (record { account_id = account_id; bound_at = now }) uses now b during
        (insert_binding-IsValid now key account_id r.response_bindings valid past)
        (insert_binding-IsPast now key account_id r.response_bindings past)
        (bound_later now later key account_id r.response_bindings valid free soon) room in
    let found_now : if_live later (lookup s.response_bindings.entries key)
        ≡ some (record { account_id = account_id; bound_at = now }) =
      ap (λ b. if_live later (lookup b.entries key)) after ∙ found in
    rw found_now at
      (routes-Continues json later q id s (subst IsValid (sym after) valid_after) asks)
