-- ===== src/Router/Found.antt =====
-- Every route comes from the loop over the accounts, past its guards.
use provider_core.Prelude.{
  ◌≡◌, ◌⊎◌, refl, true, ◌&&◌, List, [], ◌∷◌, All, All-append, IsMember, &&-eq-true, Bool-cases, inl,
  inr, is_empty, Entry,
}
use provider_core.Router.Bindings.{Instant, AccountId}
use provider_core.Router.Accounts.{
  StoredProviderModel, MetadataJson, RoutedAccount, ProviderRouteCandidate, ProviderRouteQuery,
  Cooldowns, is_eligible,
}
use provider_core.Router.Candidates.{
  Accounts, filter_by, offers, exact_candidate, fallback_candidate, candidates_of, offers_fallback,
  exact_routes, fallback_routes, collect_routes,
}
use provider_core.Router.Choice.{filter_by-holds, routes-All}
use provider_core.Router.Routes.{Router, cooling, routes}

module _ (json : MetadataJson) (q : ProviderRouteQuery) where
  -- The candidate is one that an eligible account offers: for a model that the account has under
  -- the requested name, enabled, available, routable and of a verified contract, or, for a
  -- compatible provider to which the name is unknown, the name itself.
  abbrev pub IsOfferedBy : ProviderRouteCandidate → RoutedAccount → Type 0
  IsOfferedBy c account =
      ((m : StoredProviderModel) × IsMember m account.models
        × (offers json q.model m ≡ true)
        × (c ≡ exact_candidate json c.account_id account m))
      ⊎ ((offers_fallback q.model account ≡ true)
          × (c ≡ fallback_candidate q.model c.account_id account))

  pub record IsFound (cooldowns : Cooldowns) (accounts : Accounts) (c : ProviderRouteCandidate)
      : Type 0 where
    pub account : RoutedAccount
    pub known : IsMember (record { key = c.account_id; value = account }) accounts
    pub eligible : is_eligible q cooldowns c.account_id account ≡ true
    pub offered : IsOfferedBy c account

  later-IsFound :
      (cooldowns : Cooldowns) (e : Entry AccountId RoutedAccount) (accounts : Accounts)
      (cs : List ProviderRouteCandidate)
      → All (IsFound cooldowns accounts) cs
      → All (IsFound cooldowns (e ∷ accounts)) cs
  later-IsFound cooldowns e accounts [] h = tt
  later-IsFound cooldowns e accounts (c ∷ cs) h = (
    record {
      account = h.0.account;
      known = inr h.0.known;
      eligible = h.0.eligible;
      offered = h.0.offered;
    },
    later-IsFound cooldowns e accounts cs h.1,
  )

  candidates_of-IsFound :
      (cooldowns : Cooldowns) (e : Entry AccountId RoutedAccount) (accounts : Accounts)
      (models : List StoredProviderModel)
      → is_eligible q cooldowns e.key e.value ≡ true
      → All (λ m. IsMember m e.value.models × (offers json q.model m ≡ true)) models
      → All (IsFound cooldowns (e ∷ accounts)) (candidates_of json e.key e.value models)
  unfolding candidates_of
  candidates_of-IsFound cooldowns e accounts [] eligible h = tt
  candidates_of-IsFound cooldowns e accounts (m ∷ models) eligible h = (
    record {
      account = e.value;
      known = inl refl;
      eligible = eligible;
      offered = inl (m, h.0.0, h.0.1, refl);
    },
    candidates_of-IsFound cooldowns e accounts models eligible h.1,
  )

  exact_routes-IsFound :
      (cooldowns : Cooldowns) (accounts : Accounts)
      → All (IsFound cooldowns accounts) (exact_routes json q cooldowns accounts)
  unfolding exact_routes
  exact_routes-IsFound cooldowns [] = tt
  exact_routes-IsFound cooldowns (e ∷ accounts) =
      let rest = later-IsFound cooldowns e accounts _ (exact_routes-IsFound cooldowns accounts) in
      elim (Bool-cases (is_eligible q cooldowns e.key e.value)) [
        | inl eligible ↦ rw eligible (
            All-append (IsFound cooldowns (e ∷ accounts))
              (candidates_of json e.key e.value (filter_by (offers json q.model) e.value.models)) _
              (candidates_of-IsFound cooldowns e accounts _ eligible (
                filter_by-holds (λ m. IsMember m e.value.models × (offers json q.model m ≡ true))
                  (offers json q.model) e.value.models (λ m known h. (known, h))))
              rest)
        | inr barred ↦ rw barred rest
      ]

  fallback_routes-IsFound :
      (cooldowns : Cooldowns) (accounts : Accounts)
      → All (IsFound cooldowns accounts) (fallback_routes q cooldowns accounts)
  unfolding fallback_routes
  fallback_routes-IsFound cooldowns [] = tt
  fallback_routes-IsFound cooldowns (e ∷ accounts) =
      let rest =
        later-IsFound cooldowns e accounts _ (fallback_routes-IsFound cooldowns accounts) in
      elim (Bool-cases (is_eligible q cooldowns e.key e.value && offers_fallback q.model e.value)) [
        | inl both ↦ rw both (
          record {
            account = e.value;
            known = inl refl;
            eligible = (&&-eq-true _ _ both).0;
            offered = inr ((&&-eq-true _ _ both).1, refl);
          },
          rest,
        )
        | inr barred ↦ rw barred rest
      ]

  collect_routes-IsFound :
      (cooldowns : Cooldowns) (accounts : Accounts)
      → All (IsFound cooldowns accounts) (collect_routes json q cooldowns accounts)
  unfolding collect_routes
  collect_routes-IsFound cooldowns accounts =
      elim (Bool-cases (is_empty (exact_routes json q cooldowns accounts))) [
        | inl nothing ↦ rw nothing (fallback_routes-IsFound cooldowns accounts)
        | inr found ↦ rw found (exact_routes-IsFound cooldowns accounts)
      ]

  pub routes-IsFound :
      (now : Instant) (r : Router)
      → All (IsFound (cooling now r.cooldowns) r.accounts) (routes json now q r).routes
  routes-IsFound now r =
      routes-All (IsFound (cooling now r.cooldowns) r.accounts) json now q r
        (collect_routes-IsFound (cooling now r.cooldowns) r.accounts)
