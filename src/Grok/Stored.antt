-- ===== src/Grok/Stored.antt =====
-- What is stored of a response is found by the request that continues it.
use provider_core.Prelude.{
  ℕ, ◌≡◌, ◌+◌, ◌≤◌, length, sym, refl, ◌∙◌, ap, arith, ◌-◌, ◌<◌, Bool, true, false, not, ◌&&◌, some,
  List, [], ◌∷◌, ltb, lt→ltb, is_empty, trim, Map, Entry, insert, remove, retain, IsMember, members,
  All, holds, holds_same, Text, Text-discrete,
}
use provider_core.Router.Accounts.{same_text}
use provider_core.Claude.Event.{EventJson}
use provider_core.Grok.Cache.{
  GrokReplayScope, GrokReplayKey-discrete, GrokReplayCache, Stored, replay_ttl, expire, values_of,
  is_response, by_response, max_replay_sessions, entry, store_entry, key_of, make_room,
}
use provider_core.Grok.Kept.{retain-All}
use provider_core.Grok.Spared.{
  in_this_session, same_key, passes, CacheUse, use_all, Spares, use_all-passes, retain_twice,
}

retain-cons :
    {K V : Type 0} (keeps : Entry K V → Bool) (e : Entry K V) (m : Map K V)
    → keeps e ≡ true
    → retain keeps (e ∷ m) ≡ e ∷ retain keeps m
unfolding retain
retain-cons keeps e m h = rw h refl

same_text_self : (a : Text) → same_text a a ≡ true
same_text_self a = holds_same Text-discrete a

module _ (json : EventJson) where
  open json use {Value}

  none_left : (m : GrokReplayCache json) → All (λ e. ⊥) m → m ≡ []
  none_left [] h = refl
  none_left (e ∷ m) h = absurd h.0

  -- No other entry than the one of the key is of the response and the session.
  others-nil :
      (scope : GrokReplayScope) (response_id : Text) (now : ℕ) (m : GrokReplayCache json)
      → retain (in_this_session json scope) (
          retain
            (is_response json scope (trim response_id))
            (expire json now (remove GrokReplayKey-discrete m (key_of json scope response_id))))
        ≡ []
  unfolding expire remove
  others-nil scope response_id now m =
      let key = key_of json scope response_id in
      let P : Stored json → Type 0 = λ e. holds (GrokReplayKey-discrete e.key key) ≡ false in
      let removed =
        retain-All (λ e. IsMember e m) P (λ e. not (holds (GrokReplayKey-discrete e.key key))) m
          (λ e k p. ground arith) (members m) in
      let fresh = retain-All P P _ _ (λ e k p. p) removed in
      let Q : Stored json → Type 0 =
        λ e. P e × (is_response json scope (trim response_id) e ≡ true) in
      let responses =
        retain-All P Q (is_response json scope (trim response_id)) _ (λ e k p. (p, k)) fresh in
      none_left _ (
        retain-All Q (λ e. ⊥) (in_this_session json scope) _
          (λ e k q.
            let same = same_key json scope response_id e q.1 k in
            let found =
              ap (λ j. holds (GrokReplayKey-discrete j key)) same
              ∙ holds_same GrokReplayKey-discrete key in
            cc (found, q.0))
          responses)

  is_response_self :
      (scope : GrokReplayScope) (response_id : Text) (e : Stored json)
      → e.key ≡ key_of json scope response_id
      → is_response json scope (trim response_id) e ≡ true
  is_response_self scope response_id e h =
      ap
        (λ k.
          same_text k.response_id (trim response_id)
          && same_text k.scope.routing_scope scope.routing_scope
          && same_text k.scope.model scope.model)
        h
      ∙ (rw (same_text_self (trim response_id))
          (rw (same_text_self scope.routing_scope) (same_text_self scope.model)))

  passes_self :
      (scope : GrokReplayScope) (response_id : Text) (later : ℕ) (e : Stored json)
      → e.key ≡ key_of json scope response_id
      → ltb (later - e.value.stored_at) replay_ttl ≡ true
      → passes json scope response_id later e ≡ true
  passes_self scope response_id later e h young =
      let session =
        ap (λ k. same_text k.scope.session_id scope.session_id) h
        ∙ same_text_self scope.session_id in
      rw (young, is_response_self scope response_id e h, session) refl

  -- The three readings of the cache that make up `passes`.
  in_steps :
      (scope : GrokReplayScope) (response_id : Text) (later : ℕ) (m : GrokReplayCache json)
      → retain
          (in_this_session json scope)
          (retain (is_response json scope (trim response_id)) (expire json later m))
        ≡ retain (passes json scope response_id later) m
  unfolding expire
  in_steps scope response_id later m =
      ap (retain (in_this_session json scope)) (
        retain_twice (is_response json scope (trim response_id))
          (λ e. ltb (later - e.value.stored_at) replay_ttl) m)
      ∙ retain_twice (in_this_session json scope) _ m

  by_response_only :
      (scope : GrokReplayScope) (response_id : Text) (e : Stored json) (m : GrokReplayCache json)
      → is_empty scope.session_id ≡ false
      → retain (in_this_session json scope) (retain (is_response json scope response_id) m) ≡ e ∷ []
      → by_response json scope response_id m ≡ some e
  by_response_only scope response_id e m session found = rw session (rw found refl)

  -- After the store, the entry of the key is the only one that passes.
  store_entry-passes :
      (scope : GrokReplayScope) (response_id : Text) (items : List Value) (now later : ℕ)
      (m : GrokReplayCache json)
      → is_empty (trim response_id) ≡ false
      → later - now < replay_ttl
      → retain
          (passes json scope response_id later)
          (store_entry json scope response_id items now m)
        ≡ record {
          key = key_of json scope response_id;
          value = record { items = items; stored_at = now };
        }
          ∷ []
  unfolding store_entry insert
  store_entry-passes scope response_id items now later m named young =
      let key = key_of json scope response_id in
      let e : Stored json = record {
        key = key;
        value = record { items = items; stored_at = now };
      } in
      let room = make_room json key m in
      let passed =
        passes_self scope response_id later e refl (lt→ltb (later - now) replay_ttl young) in
      rw named (
        retain-cons (passes json scope response_id later) e (remove GrokReplayKey-discrete room key)
          passed
        ∙ ap (λ l. e ∷ l)
            (sym (in_steps scope response_id later (remove GrokReplayKey-discrete room key))
              ∙ others-nil scope response_id later room))

  -- The items that are stored of a response with an id, in a session, are found by the id of the
  -- response, in its session, for an hour. In between, other responses may be stored or invalidated,
  -- and the cache read at times no later than that, but not the response itself, as long as the
  -- entries after the store and the number of those uses together do not exceed the capacity, so
  -- that no entry is dropped to make room.
  pub store_entry-entry :
      (scope : GrokReplayScope) (response_id : Text) (items : List Value) (now later : ℕ)
      (outputs : List Text) (uses : List (CacheUse json)) (m : GrokReplayCache json)
      → is_empty (trim response_id) ≡ false
      → is_empty scope.session_id ≡ false
      → later - now < replay_ttl
      → All (Spares json scope response_id later) uses
      → length (store_entry json scope response_id items now m) + length uses ≤ max_replay_sessions
      → entry json scope
          (some (trim response_id))
          outputs
          later
          (use_all json uses (store_entry json scope response_id items now m))
        ≡ some (record { items = items; stored_at = now })
  unfolding entry
  store_entry-entry scope response_id items now later outputs uses m named session young spared
        room =
      let c = store_entry json scope response_id items now m in
      let e : Stored json = record {
        key = key_of json scope response_id;
        value = record { items = items; stored_at = now };
      } in
      let left =
        in_steps scope response_id later (use_all json uses c)
        ∙ use_all-passes json scope response_id later uses c spared room
        ∙ store_entry-passes scope response_id items now later m named young in
      ap (values_of json) (
        by_response_only scope (trim response_id) e (expire json later (use_all json uses c))
          session left)
