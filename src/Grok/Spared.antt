-- ===== src/Grok/Spared.antt =====
-- What the later uses of the cache leave of a response: `GrokReplayCache` of
-- crates/provider-drivers/src/grok/replay.rs.
use provider_core.Prelude.{
  ℕ, suc, ◌+◌, ◌≤◌, ◌≡◌, ◌≢◌, refl, sym, ◌∙◌, ap, arith, ◌-◌, ◌<◌, Bool, true, not, ◌&&◌, List, [],
  ◌∷◌, ltb, leb, leb→le, lt→ltb, ltb→lt, is_empty, trim, Map, Entry, insert, remove, retain, length,
  length-remove, length-retain, All, &&-eq-true, Bool-cases, inl, inr, holds, Text,
}
use provider_core.Router.Accounts.{same_text}
use provider_core.Router.Continuation.{same_text-eq}
use provider_core.Claude.Event.{EventJson}
use provider_core.Grok.Cache.{
  GrokReplayScope, GrokReplayKey, GrokReplayKey-discrete, GrokReplayCache, Stored, ReplayEntry,
  replay_ttl, max_replay_sessions, expire, is_response, store_entry, key_of, make_room,
}
use provider_core.Grok.Own.{is_response-IsOwn}

module _ {K V : Type 0} (p q : Entry K V → Bool) where
  pub retain_twice : (m : Map K V) → retain p (retain q m) ≡ retain (λ e. q e && p e) m
  unfolding retain
  retain_twice [] = refl
  retain_twice (e ∷ m) = elim (Bool-cases (q e)) [
    | inl yes_q ↦ elim (Bool-cases (p e)) [
      | inl yes_p ↦ rw (yes_q, yes_p) (ap (λ l. e ∷ l) (retain_twice m))
      | inr no_p ↦ rw (yes_q, no_p) (retain_twice m)
    ]
    | inr no_q ↦ rw no_q (retain_twice m)
  ]

  -- What the second test lets pass is not lost to the first one.
  retain-spared :
      (m : Map K V)
      → ((e : Entry K V) → p e ≡ true → q e ≡ true)
      → retain p (retain q m) ≡ retain p m
  unfolding retain
  retain-spared [] h = refl
  retain-spared (e ∷ m) h = elim (Bool-cases (p e)) [
    | inl yes_p ↦ rw (h e yes_p) (rw yes_p (ap (λ l. e ∷ l) (retain-spared m h)))
    | inr no_p ↦ elim (Bool-cases (q e)) [
      | inl yes_q ↦ rw (yes_q, no_p) (retain-spared m h)
      | inr no_q ↦ rw (no_q, no_p) (retain-spared m h)
    ]
  ]

module _ (json : EventJson) where
  open json use {Value}

  abbrev pub in_this_session : GrokReplayScope → Stored json → Bool
  in_this_session scope e = same_text e.key.scope.session_id scope.session_id

  pub same_key :
      (scope : GrokReplayScope) (id : Text) (e : Stored json)
      → is_response json scope (trim id) e ≡ true
      → in_this_session scope e ≡ true
      → e.key ≡ key_of json scope id
  same_key scope id e r s =
      let own = is_response-IsOwn json scope (trim id) e r in
      let scopes = same_text e.key.scope.routing_scope scope.routing_scope in
      let first = &&-eq-true (same_text e.key.response_id (trim id) && scopes) _ r in
      let ids =
        same_text-eq e.key.response_id (trim id)
          (&&-eq-true (same_text e.key.response_id (trim id)) scopes first.0).0 in
      let sessions = same_text-eq e.key.scope.session_id scope.session_id s in
      λ i. record {
        scope = record { routing_scope = own.0 i; model = own.1 i; session_id = sessions i };
        response_id = ids i;
      }

  -- The test of a reading at `later` for the response and the session.
  abbrev pub passes : GrokReplayScope → Text → ℕ → Stored json → Bool
  passes scope id later e =
      (ltb (later - e.value.stored_at) replay_ttl && is_response json scope (trim id) e)
      && in_this_session scope e

  -- What else is done to the cache: a response is stored or invalidated, or one is read.
  pub data CacheUse : Type 0 where
    stored : GrokReplayScope → Text → List Value → ℕ → CacheUse
    read_at : ℕ → CacheUse

  abbrev pub use_one : CacheUse → GrokReplayCache json → GrokReplayCache json
  use_one (stored scope id items now) m = store_entry json scope id items now m
  use_one (read_at now) m = expire json now m

  unfoldable pub use_all : List CacheUse → GrokReplayCache json → GrokReplayCache json
  use_all [] m = m
  use_all (u ∷ uses) m = use_all uses (use_one u m)

  -- The use is of another response or session, or a reading no later than `later`.
  abbrev pub Spares : GrokReplayScope → Text → ℕ → CacheUse → Type 0
  Spares scope id later (stored other response_id items now) =
      key_of json other response_id ≢ key_of json scope id
  Spares scope id later (read_at now) = now ≤ later

  module _ (scope : GrokReplayScope) (id : Text) (later : ℕ) where
    passes-key : (e : Stored json) → passes scope id later e ≡ true → e.key ≡ key_of json scope id
    passes-key e h = same_key scope id e (ground (arith)) (ground (arith))

    ne-not : (k key : GrokReplayKey) → k ≢ key → not (holds (GrokReplayKey-discrete k key)) ≡ true
    ne-not k key h = elim (GrokReplayKey-discrete k key) as (λ d. not (holds d) ≡ true) [
      | yes same ↦ absurd (h same)
      | no differs ↦ refl
    ]

    make_room_below :
        (key : GrokReplayKey) (m : GrokReplayCache json)
        → length m < max_replay_sessions
        → make_room json key m ≡ m
    make_room_below key m room = elim (Bool-cases (leb max_replay_sessions (length m))) [
      | inl full ↦ absurd (ground (arith, leb→le max_replay_sessions (length m)))
      | inr space ↦ rw space refl
    ]

    length-insert :
        (key : GrokReplayKey) (v : ReplayEntry json) (m : GrokReplayCache json)
        → length (insert GrokReplayKey-discrete m key v) ≤ suc (length m)
    unfolding insert
    length-insert key v m = omega (arith, length-remove GrokReplayKey-discrete m key)

    store_other-passes :
        (key : GrokReplayKey) (v : ReplayEntry json) (m : GrokReplayCache json)
        → key ≢ key_of json scope id
        → retain (passes scope id later) (insert GrokReplayKey-discrete m key v)
          ≡ retain (passes scope id later) m
    unfolding insert remove retain
    store_other-passes key v m other =
        elim (Bool-cases (passes scope id later (record { key = key; value = v }))) [
          | inl passed ↦ absurd (other (passes-key (record { key = key; value = v }) passed))
          | inr fails ↦ rw fails (
              retain-spared (passes scope id later)
                (λ e. not (holds (GrokReplayKey-discrete e.key key))) m
                (λ e p. ne-not e.key key (λ same. other (sym same ∙ passes-key e p))))
        ]

    store_entry-spared :
        (s : GrokReplayScope) (response_id : Text) (items : List Value) (now : ℕ)
        (m : GrokReplayCache json)
        → key_of json s response_id ≢ key_of json scope id
        → length m < max_replay_sessions
        → (retain (passes scope id later) (store_entry json s response_id items now m)
            ≡ retain (passes scope id later) m)
          × (length (store_entry json s response_id items now m) ≤ suc (length m))
    unfolding store_entry
    store_entry-spared s response_id items now m other room =
        let key = key_of json s response_id in
        let v : ReplayEntry json = record { items = items; stored_at = now } in
        elim (Bool-cases (is_empty (trim response_id))) [
          | inl unnamed ↦ rw unnamed (refl, omega arith)
          | inr named ↦
              rw (named, make_room_below key m room)
                (store_other-passes key v m other, length-insert key v m)
        ]

    use_one-spared :
        (u : CacheUse) (m : GrokReplayCache json)
        → Spares scope id later u
        → length m < max_replay_sessions
        → (retain (passes scope id later) (use_one u m) ≡ retain (passes scope id later) m)
          × (length (use_one u m) ≤ suc (length m))
    unfolding expire
    use_one-spared (stored s response_id items now) m other room =
        store_entry-spared s response_id items now m other room
    use_one-spared (read_at now) m early room = (
      retain-spared (passes scope id later) (λ e. ltb (now - e.value.stored_at) replay_ttl) m
          (λ e p. lt→ltb (now - e.value.stored_at) replay_ttl (
            omega
              (arith, early, ltb→lt (later - e.value.stored_at) replay_ttl (ground (arith, p))))),
      omega (arith, length-retain (λ e. ltb (now - e.value.stored_at) replay_ttl) m),
    )

    pub use_all-passes :
        (uses : List CacheUse) (m : GrokReplayCache json)
        → All (Spares scope id later) uses
        → length m + length uses ≤ max_replay_sessions
        → retain (passes scope id later) (use_all uses m) ≡ retain (passes scope id later) m
    unfolding use_all
    use_all-passes [] m h room = refl
    use_all-passes (u ∷ uses) m h room =
        let (same, few) = use_one-spared u m h.0 (omega (arith, room)) in
        use_all-passes uses (use_one u m) h.1 (omega (arith, few, room)) ∙ same
