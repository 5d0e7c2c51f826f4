-- ===== src/Router/Choice.antt =====
-- What holds of every candidate that is found holds of every route that is chosen.
use provider_core.Prelude.{
  ℕ, zero, suc, ◌%◌, ◌≡◌, refl, Bool, true, not, Option, none, some, List, [], ◌∷◌, All, All-append,
  IsMember, Bool-cases, inl, inr, ltb, length, take, drop, is_empty, Text,
}
use provider_core.Router.Bindings.{Instant, ResponseBinding}
use provider_core.Router.Accounts.{
  same_text, MetadataJson, ProviderRouteCandidate, ProviderRouteQuery,
}
use provider_core.Router.Candidates.{
  filter_by, not_after, insert_route, sort_routes, collect_routes,
}
use provider_core.Router.RoundRobin.{
  SelectionKey, Selections, cursor_of, rotate_left, tier_len, tier_key, rotate_tier, rotate_tiers,
  rotate_round_robin,
}
use provider_core.Router.Routes.{
  Router, SessionAffinityKey, SessionAffinity, follow_affinity, by_affinity, by_session,
  continue_response, choose, routes, cooling, used_session, supports_previous_response_id, first_of,
}

module _ {A : Type 0} (P : A → Type 0) where
  All-take : (n : ℕ) (xs : List A) → All P xs → All P (take n xs)
  All-take zero xs h = tt
  All-take (suc n) [] h = tt
  All-take (suc n) (x ∷ xs) h = (h.0, All-take n xs h.1)

  All-drop : (n : ℕ) (xs : List A) → All P xs → All P (drop n xs)
  All-drop zero xs h = h
  All-drop (suc n) [] h = tt
  All-drop (suc n) (x ∷ xs) h = All-drop n xs h.1

  pub rotate_left-All : (n : ℕ) (xs : List A) → All P xs → All P (rotate_left n xs)
  rotate_left-All n xs h = All-append P (drop n xs) (take n xs) (All-drop n xs h) (All-take n xs h)

  pub filter_by-All : (keeps : A → Bool) (xs : List A) → All P xs → All P (filter_by keeps xs)
  unfolding filter_by
  filter_by-All keeps [] h = tt
  filter_by-All keeps (x ∷ xs) h = elim (Bool-cases (keeps x)) [
    | inl kept ↦ rw kept (h.0, filter_by-All keeps xs h.1)
    | inr gone ↦ rw gone (filter_by-All keeps xs h.1)
  ]

  pub filter_by-holds :
      (keeps : A → Bool) (xs : List A)
      → ((x : A) → IsMember x xs → keeps x ≡ true → P x)
      → All P (filter_by keeps xs)
  unfolding filter_by
  filter_by-holds keeps [] f = tt
  filter_by-holds keeps (x ∷ xs) f = elim (Bool-cases (keeps x)) [
    | inl kept ↦ rw kept (f x (inl refl) kept, filter_by-holds keeps xs (λ y m. f y (inr m)))
    | inr gone ↦ rw gone (filter_by-holds keeps xs (λ y m. f y (inr m)))
  ]

module _ (P : ProviderRouteCandidate → Type 0) where
  insert_route-All :
      (c : ProviderRouteCandidate) (cs : List ProviderRouteCandidate)
      → P c
      → All P cs
      → All P (insert_route c cs)
  unfolding insert_route
  insert_route-All c [] p h = (p, tt)
  insert_route-All c (d ∷ cs) p h = elim (Bool-cases (not_after c d)) [
    | inl before ↦ rw before (p, h)
    | inr after ↦ rw after (h.0, insert_route-All c cs p h.1)
  ]

  sort_routes-All : (cs : List ProviderRouteCandidate) → All P cs → All P (sort_routes cs)
  unfolding sort_routes
  sort_routes-All [] h = tt
  sort_routes-All (c ∷ cs) h = insert_route-All c (sort_routes cs) h.0 (sort_routes-All cs h.1)

  rotate_tier-All :
      (key : SelectionKey) (tier : List ProviderRouteCandidate) (s : Selections)
      → All P tier
      → All P (rotate_tier key tier s).routes
  unfolding rotate_tier
  rotate_tier-All key tier s h = elim (Bool-cases (ltb 1 (length tier))) [
    | inl choice ↦ rw choice (rotate_left-All P (cursor_of s key % length tier) tier h)
    | inr only ↦ rw only h
  ]

  rotate_tiers-All :
      (fuel : ℕ) (scope model : Text) (cs : List ProviderRouteCandidate) (s : Selections)
      → All P cs
      → All P (rotate_tiers fuel scope model cs s).routes
  unfolding rotate_tiers
  rotate_tiers-All zero scope model cs s h = h
  rotate_tiers-All (suc fuel) scope model [] s h = tt
  rotate_tiers-All (suc fuel) scope model (c ∷ cs) s h =
      All-append P
        (rotate_tier (tier_key scope model c) (take (tier_len c.priority (c ∷ cs)) (c ∷ cs))
          s).routes
        _
        (rotate_tier-All (tier_key scope model c) (take (tier_len c.priority (c ∷ cs)) (c ∷ cs)) s
          (All-take P _ (c ∷ cs) h))
        (rotate_tiers-All fuel scope model (drop (tier_len c.priority (c ∷ cs)) (c ∷ cs)) _
          (All-drop P _ (c ∷ cs) h))

  rotated-All :
      (q : ProviderRouteQuery) (cs : List ProviderRouteCandidate) (s : Selections)
      → All P cs
      → All P (rotate_round_robin q.routing_scope q.model cs s).routes
  unfolding rotate_round_robin
  rotated-All q cs s h = rotate_tiers-All (length cs) q.routing_scope q.model cs s h

  follow_affinity-All :
      (now : Instant) (q : ProviderRouteQuery) (key : SessionAffinityKey) (a : SessionAffinity)
      (index : Option ℕ) (cs : List ProviderRouteCandidate) (r : Router)
      → All P cs
      → All P (follow_affinity now q key a index cs r).routes
  unfolding follow_affinity
  follow_affinity-All now q key a (some index) cs r h = rotate_left-All P index cs h
  follow_affinity-All now q key a none cs r h = rotated-All q cs r.selections h

  by_affinity-All :
      (now : Instant) (q : ProviderRouteQuery) (key : SessionAffinityKey)
      (found : Option SessionAffinity) (cs : List ProviderRouteCandidate) (r : Router)
      → All P cs
      → All P (by_affinity now q key found cs r).routes
  unfolding by_affinity
  by_affinity-All now q key none cs r h = rotated-All q cs r.selections h
  by_affinity-All now q key (some affinity) cs r h = follow_affinity-All now q key affinity _ cs r h

  pub by_session-All :
      (now : Instant) (q : ProviderRouteQuery) (session : Option Text)
      (cs : List ProviderRouteCandidate) (r : Router)
      → All P cs
      → All P (by_session now q session cs r).routes
  unfolding by_session
  by_session-All now q none cs r h = rotated-All q cs r.selections h
  by_session-All now q (some id) cs r h = by_affinity-All now q _ _ cs _ h

  pub first_of-All : (cs : List ProviderRouteCandidate) → All P cs → All P (first_of cs)
  first_of-All [] h = tt
  first_of-All (c ∷ cs) h = (h.0, tt)

  continue_response-All :
      (now : Instant) (q : ProviderRouteQuery) (bound : Option ResponseBinding)
      (cs : List ProviderRouteCandidate) (r : Router)
      → All P cs
      → All P (continue_response now q bound cs r).routes
  unfolding continue_response
  continue_response-All now q (some bound) cs r h =
      first_of-All (filter_by (λ c. same_text c.account_id bound.account_id) cs)
        (filter_by-All P _ cs h)
  continue_response-All now q none cs r h =
      elim (Bool-cases (is_empty (filter_by (λ c. not (supports_previous_response_id c)) cs))) [
        | inl nothing ↦ rw nothing tt
        | inr some_left ↦ rw some_left (
            by_session-All now q (used_session q.session_id) _ r
              (filter_by-All P (λ c. not (supports_previous_response_id c)) cs h))
      ]

  choose-All :
      (now : Instant) (q : ProviderRouteQuery) (previous : Option Text)
      (cs : List ProviderRouteCandidate) (r : Router)
      → All P cs
      → All P (choose now q previous cs r).routes
  unfolding choose
  choose-All now q none cs r h = by_session-All now q (used_session q.session_id) cs r h
  choose-All now q (some id) cs r h = continue_response-All now q _ cs _ h

  pub routes-All :
      (json : MetadataJson) (now : Instant) (q : ProviderRouteQuery) (r : Router)
      → All P (collect_routes json q (cooling now r.cooldowns) r.accounts)
      → All P (routes json now q r).routes
  unfolding routes
  routes-All json now q r h =
      elim (Bool-cases (is_empty (collect_routes json q (cooling now r.cooldowns) r.accounts))) [
        | inl nothing ↦ rw nothing tt
        | inr found ↦ rw found (choose-All now q q.previous_response_id _ _ (sort_routes-All _ h))
      ]
