-- ===== src/Router/Removal.antt =====
-- What is left of an account that has been removed.
use provider_core.Prelude.{
  ◌≡◌, ◌≢◌, ap, Bool, true, not, none, List, [], ◌∷◌, arith, All, IsMember, Bool-cases,
  Option-cases, inl, inr, holds, holds_same, Map, Entry, Text-discrete, get, retain, remove,
}
use provider_core.Router.Bindings.{Instant, AccountId}
use provider_core.Router.Accounts.{
  MetadataJson, RoutedAccount, ProviderRouteCandidate, ProviderRouteQuery, Cooldowns,
}
use provider_core.Router.Candidates.{Accounts}
use provider_core.Router.Found.{IsFound, routes-IsFound}
use provider_core.Router.Routes.{Router, cooling, routes}
use provider_core.Router.Updates.{remove_account}

retain-IsMember :
    {K V : Type 0} (keeps : Entry K V → Bool) (m : Map K V) (e : Entry K V)
    → IsMember e (retain keeps m)
    → keeps e ≡ true
unfolding retain
retain-IsMember keeps [] e h = absurd h
retain-IsMember keeps (x ∷ m) e h = elim (Bool-cases (keeps x)) [
  | inr gone ↦ retain-IsMember keeps m e (rw gone at h)
  | inl kept ↦ elim (rw kept at h) [
    | inl same ↦ rw same kept
    | inr later ↦ retain-IsMember keeps m e later
  ]
]

removed-ne :
    (accounts : Accounts) (account_id id : AccountId) (account : RoutedAccount)
    → IsMember (record { key = id; value = account }) (remove Text-discrete accounts account_id)
    → id ≢ account_id
unfolding remove
removed-ne accounts account_id id account h same = absurd (
    ground (
      arith,
      retain-IsMember
          (λ (e : Entry AccountId RoutedAccount). not (holds (Text-discrete e.key account_id)))
          accounts (record { key = id; value = account }) h,
      ap (λ a. holds (Text-discrete a account_id)) same,
      holds_same Text-discrete account_id,
    ))

absent-ne :
    (accounts : Accounts) (account_id id : AccountId) (account : RoutedAccount)
    → get Text-discrete accounts account_id ≡ none
    → IsMember (record { key = id; value = account }) accounts
    → id ≢ account_id
unfolding get
absent-ne [] account_id id account none_there h same = absurd h
absent-ne (e ∷ accounts) account_id id account none_there h same = elim h [
  | inl here ↦ absurd (
      ground (
        arith,
        ap (λ (x : Entry AccountId RoutedAccount). holds (Text-discrete x.key account_id)) here,
        ap (λ a. holds (Text-discrete a account_id)) same,
        holds_same Text-discrete account_id,
      ))
  | inr later ↦ absent-ne accounts account_id id account (ground arith) later same
]

offered-ne :
    (json : MetadataJson) (q : ProviderRouteQuery) (cooldowns : Cooldowns) (accounts : Accounts)
    (account_id : AccountId) (cs : List ProviderRouteCandidate)
    → ((id : AccountId) (account : RoutedAccount)
        → IsMember (record { key = id; value = account }) accounts
        → id ≢ account_id)
    → All (IsFound json q cooldowns accounts) cs
    → All (λ (c : ProviderRouteCandidate). c.account_id ≢ account_id) cs
offered-ne json q cooldowns accounts account_id [] f h = tt
offered-ne json q cooldowns accounts account_id (c ∷ cs) f h =
    (f c.account_id h.0.account h.0.known, offered-ne json q cooldowns accounts account_id cs f h.1)

-- After an account is removed, known to the router or not, no request at any time is routed to
-- it, whatever sessions, cooldowns and bindings the router remembers.
pub routes-remove_account :
    (json : MetadataJson) (q : ProviderRouteQuery) (now : Instant) (account_id : AccountId)
    (r : Router)
    → All
        (λ (c : ProviderRouteCandidate). c.account_id ≢ account_id)
        (routes json now q (remove_account account_id r).router).routes
unfolding remove_account
routes-remove_account json q now account_id r =
    elim (Option-cases (get Text-discrete r.accounts account_id)) [
      | inl absent ↦ rw absent (
          offered-ne json q (cooling now r.cooldowns) r.accounts account_id _
            (λ id account. absent-ne r.accounts account_id id account absent)
            (routes-IsFound json q now r))
      | inr (account, found) ↦ rw found (
          offered-ne json q _ _ account_id _
            (λ id account. removed-ne r.accounts account_id id account)
            (routes-IsFound json q now _))
    ]
