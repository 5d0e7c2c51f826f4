-- ===== src/Grok/Own.antt =====
-- What is replayed to a request comes from its own conversation.
use provider_core.Prelude.{
  ℕ, ◌≡◌, refl, ap, ◌-◌, ◌<◌, true, not, ◌&&◌, Option, none, some, List, [], ◌∷◌, ltb, ltb→lt,
  is_empty, retain, IsMember, members, All, Every, Every-some, Every-unless, Every-if, &&-eq-true,
  holds, Text, Bool-cases, inl, inr,
}
use provider_core.Router.Accounts.{same_text}
use provider_core.Router.Continuation.{same_text-eq}
use provider_core.Claude.Event.{EventJson}
use provider_core.Grok.Cache.{
  GrokReplayScope, GrokReplayScope-discrete, ReplayEntry, GrokReplayCache, Stored, replay_ttl,
  is_scope, latest, latest_of, expire, values_of, only, is_response, in_session, by_session,
  in_scope, is_invalidated, matching, choose, entry,
}
use provider_core.Grok.Kept.{retain-All}

module _ (json : EventJson) where
  only-All : (P : Stored json → Type 0) (m : GrokReplayCache json) → All P m → Every P (only json m)
  only-All P [] h = tt
  only-All P (e ∷ []) h = h.0
  only-All P (e ∷ f ∷ m) h = tt

  latest-All :
      (P : Stored json → Type 0) (e : Stored json) (m : GrokReplayCache json)
      → P e
      → All P m
      → P (latest json e m)
  unfolding latest
  latest-All P e [] p h = p
  latest-All P e (f ∷ m) p h = elim (Bool-cases (ltb f.value.stored_at e.value.stored_at)) [
    | inl earlier ↦ simp earlier (latest-All P e m p h.1)
    | inr later ↦ simp later (latest-All P f m h.0 h.1)
  ]

  latest_of-All :
      (P : Stored json → Type 0) (m : GrokReplayCache json) → All P m → Every P (latest_of json m)
  latest_of-All P [] h = tt
  latest_of-All P (e ∷ m) h = latest-All P e m h.0 h.1

  by_session-All :
      (P : Stored json → Type 0) (exact candidates : GrokReplayCache json)
      → All P exact
      → All P candidates
      → Every P (by_session json exact candidates)
  by_session-All P [] candidates h k = only-All P candidates k
  by_session-All P (e ∷ exact) candidates h k = only-All P (e ∷ exact) h

  -- A response of the same routing scope and model.
  abbrev pub IsOwn : GrokReplayScope → Stored json → Type 0
  IsOwn scope e =
      (e.key.scope.routing_scope ≡ scope.routing_scope) × (e.key.scope.model ≡ scope.model)

  pub is_response-IsOwn :
      (scope : GrokReplayScope) (response_id : Text) (e : Stored json)
      → is_response json scope response_id e ≡ true
      → IsOwn scope e
  is_response-IsOwn scope response_id e h =
      let scopes = same_text e.key.scope.routing_scope scope.routing_scope in
      let models = same_text e.key.scope.model scope.model in
      let parts = &&-eq-true (same_text e.key.response_id response_id && scopes) models h in
      let both = &&-eq-true (same_text e.key.response_id response_id) scopes parts.0 in
      (
        same_text-eq e.key.scope.routing_scope scope.routing_scope both.1,
        same_text-eq e.key.scope.model scope.model parts.1,
      )

  is_scope-IsOwn :
      (scope : GrokReplayScope) (e : Stored json)
      → is_scope e.key.scope scope ≡ true
      → IsOwn scope e
  is_scope-IsOwn scope e h =
      elim (GrokReplayScope-discrete e.key.scope scope) as (λ d. holds d ≡ true → IsOwn scope e) [
        | yes same ↦ λ t. (ap (λ s. s.routing_scope) same, ap (λ s. s.model) same)
        | no other ↦ λ t. cc
      ]
        h

  -- Where `P` holds of all that is stored, it holds of what is chosen, which is of the same scope.
  pub choose-All :
      (P : Stored json → Type 0) (scope : GrokReplayScope) (previous : Option Text)
      (outputs : List Text) (m : GrokReplayCache json)
      → All P m
      → Every (λ e. P e × IsOwn scope e) (choose json scope previous outputs m)
  choose-All P scope (some response_id) outputs m h =
      let Q : Stored json → Type 0 = λ e. P e × IsOwn scope e in
      let candidates = retain (is_response json scope response_id) m in
      let own =
        retain-All P Q (is_response json scope response_id) m
          (λ e k p. (p, is_response-IsOwn scope response_id e k)) h in
      Every-if Q (is_empty scope.session_id) (only json candidates)
        (by_session json (in_session json scope candidates) candidates) (only-All Q candidates own)
        (by_session-All Q (in_session json scope candidates) candidates
          (retain-All Q Q _ candidates (λ e k q. q) own) own)
  choose-All P scope none outputs m h =
      let Q : Stored json → Type 0 = λ e. P e × IsOwn scope e in
      let found = matching json scope outputs m in
      let own =
        retain-All P Q _ m
          (λ e k p. (p, is_scope-IsOwn scope e (&&-eq-true (is_scope e.key.scope scope) _ k).0))
          h in
      Every-unless Q (is_empty scope.session_id && is_empty outputs) _ (
        Every-unless Q (is_invalidated json (latest_of json (in_scope json scope m))) _ (
          Every-if Q (not (is_empty outputs)) (only json found) (latest_of json found)
            (only-All Q found own) (latest_of-All Q found own)))

  pub values_of-eq-some :
      (o : Option (Stored json)) (v : ReplayEntry json)
      → values_of json o ≡ some v
      → (e : Stored json) × (o ≡ some e) × (e.value ≡ v)
  values_of-eq-some none v h = cc
  values_of-eq-some (some e) v h = (e, refl, cc h)

  -- An entry that is found was stored for the same routing scope and the same model, and that not
  -- an hour ago.
  pub entry-IsOwn :
      (scope : GrokReplayScope) (previous : Option Text) (outputs : List Text) (now : ℕ)
      (m : GrokReplayCache json) (found : ReplayEntry json)
      → entry json scope previous outputs now m ≡ some found
      → (e : Stored json) × IsMember e m
        × (e.value ≡ found)
        × IsOwn scope e
        × (now - found.stored_at < replay_ttl)
  unfolding entry expire
  entry-IsOwn scope previous outputs now m found h =
      let P : Stored json → Type 0 = λ e. IsMember e m × (now - e.value.stored_at < replay_ttl) in
      let fresh =
        retain-All (λ e. IsMember e m) P _ m
          (λ e k p. (p, ltb→lt (now - e.value.stored_at) replay_ttl k)) (members m) in
      let (e, chosen, same) =
        values_of-eq-some (choose json scope previous outputs (expire json now m)) found h in
      let own =
        Every-some (λ e. P e × IsOwn scope e) _ e (choose-All P scope previous outputs _ fresh)
          chosen in
      (e, own.0.0, same, own.1, rw (ap (λ v. v.stored_at) same) at (own.0.1))
