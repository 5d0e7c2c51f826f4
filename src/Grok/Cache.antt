-- ===== src/Grok/Cache.antt =====
-- The cache of the items of past responses: `GrokReplayCache` of
-- crates/provider-drivers/src/grok/replay.rs, but for `prepare_request`. An operation is a step
-- that reads the clock once, and an `Instant` is a number of nanoseconds.
use provider_core.Prelude.{
  ℕ, ◌*◌, ◌-◌, Bool, not, ◌&&◌, ◌||◌, Option, none, some, List, [], ◌∷◌, if◌then◌else◌, leb, ltb,
  is_some, is_some_and, is_empty, length, any, all, Map, Entry, get, insert, remove, retain, holds,
  Text, Text-discrete, trim,
}
use provider_core.Router.Accounts.{same_text}
use provider_core.Claude.Event.{EventJson}
use provider_core.Grok.Items.{str_of, has_type, call_types}

abbrev pub replay_ttl : ℕ
replay_ttl = 60 * 60 * 1_000_000_000

abbrev pub max_replay_sessions : ℕ
max_replay_sessions = 128

abbrev pub max_replay_items : ℕ
max_replay_items = 64

abbrev pub max_replay_bytes : ℕ
max_replay_bytes = 256 * 1024

pub record GrokReplayScope : Type 0 where
  pub routing_scope : Text
  pub model : Text
  pub session_id : Text

pub record GrokReplayKey : Type 0 where
  pub scope : GrokReplayScope
  pub response_id : Text

unfoldable pub GrokReplayScope-discrete : Discrete GrokReplayScope
GrokReplayScope-discrete = hlevel Text-discrete

unfoldable pub GrokReplayKey-discrete : Discrete GrokReplayKey
unfolding GrokReplayScope-discrete
GrokReplayKey-discrete = hlevel (GrokReplayScope-discrete, Text-discrete)

abbrev pub is_scope : GrokReplayScope → GrokReplayScope → Bool
is_scope a b = holds (GrokReplayScope-discrete a b)

-- What else is called of `serde_json`: `Value::is_object`, the payload with an id written to its
-- response, the length of `to_vec` where it succeeds, and the message that holds an input text.
pub record ReplayJson (json : EventJson) : Type 0 where
  pub is_object : json.Value → Bool
  pub set_response_id : json.Value → Text → json.Value
  pub serialized_len : List json.Value → Option ℕ
  pub user_message : Text → json.Value

module _ (json : EventJson) where
  open json use {Value}

  pub record ReplayEntry : Type 0 where
    pub items : List Value
    pub stored_at : ℕ

  abbrev pub GrokReplayCache : Type 0
  GrokReplayCache = Map GrokReplayKey ReplayEntry

  abbrev pub Stored : Type 0
  Stored = Entry GrokReplayKey ReplayEntry

  -- Where two were stored at the same instant, the code takes either, and this the first one.
  unfoldable pub oldest : Stored → GrokReplayCache → Stored
  oldest e [] = e
  oldest e (f ∷ m) = if ltb f.value.stored_at e.value.stored_at then oldest f m else oldest e m

  unfoldable pub latest : Stored → GrokReplayCache → Stored
  latest e [] = e
  latest e (f ∷ m) = if ltb f.value.stored_at e.value.stored_at then latest e m else latest f m

  -- `max_by_key`
  abbrev pub latest_of : GrokReplayCache → Option Stored
  latest_of [] = none
  latest_of (e ∷ m) = some (latest e m)

  -- `retain`, with which each reading begins.
  unfoldable pub expire : ℕ → GrokReplayCache → GrokReplayCache
  expire now m = retain (λ e. ltb (now - e.value.stored_at) replay_ttl) m

  abbrev pub drop_oldest : GrokReplayCache → GrokReplayCache
  drop_oldest [] = []
  drop_oldest (e ∷ m) = remove GrokReplayKey-discrete (e ∷ m) (oldest e m).key

  abbrev pub make_room : GrokReplayKey → GrokReplayCache → GrokReplayCache
  make_room key m =
      if leb max_replay_sessions (length m) && not (is_some (get GrokReplayKey-discrete m key))
      then drop_oldest m
      else m

  abbrev pub key_of : GrokReplayScope → Text → GrokReplayKey
  key_of scope response_id = record { scope = scope; response_id = trim response_id }

  unfoldable pub store_entry :
      GrokReplayScope → Text → List Value → ℕ → GrokReplayCache → GrokReplayCache
  unfolding oldest
  store_entry scope response_id items now m =
      if is_empty (trim response_id)
      then m
      else insert GrokReplayKey-discrete (make_room (key_of scope response_id) m)
          (key_of scope response_id) (record { items = items; stored_at = now })

  abbrev pub invalidate_response_id : GrokReplayScope → Text → ℕ → GrokReplayCache → GrokReplayCache
  invalidate_response_id scope response_id now m = store_entry scope response_id [] now m

  unfoldable pub replay_entry_matches_outputs : ReplayEntry → List Text → Bool
  unfolding any all
  replay_entry_matches_outputs entry output_call_ids =
      all
        (λ id.
          any
            (λ item.
              has_type json call_types item
              && is_some_and (str_of json item "call_id") (λ call_id. same_text call_id id))
            entry.items)
        output_call_ids

  abbrev pub values_of : Option Stored → Option ReplayEntry
  values_of none = none
  values_of (some e) = some e.value

  -- The one candidate, if there is exactly one.
  abbrev pub only : GrokReplayCache → Option Stored
  only [] = none
  only (e ∷ []) = some e
  only (e ∷ f ∷ m) = none

  abbrev pub is_response : GrokReplayScope → Text → Stored → Bool
  is_response scope response_id e =
      same_text e.key.response_id response_id
      && same_text e.key.scope.routing_scope scope.routing_scope
      && same_text e.key.scope.model scope.model

  abbrev pub in_session : GrokReplayScope → GrokReplayCache → GrokReplayCache
  in_session scope m = retain (λ e. same_text e.key.scope.session_id scope.session_id) m

  -- Of the responses with the id, the one of the session, or else the only one.
  abbrev pub by_session : GrokReplayCache → GrokReplayCache → Option Stored
  by_session [] candidates = only candidates
  by_session (e ∷ exact) candidates = only (e ∷ exact)

  abbrev pub by_response : GrokReplayScope → Text → GrokReplayCache → Option Stored
  by_response scope response_id m =
      let candidates = retain (is_response scope response_id) m in
      if is_empty scope.session_id
      then only candidates
      else by_session (in_session scope candidates) candidates

  abbrev pub in_scope : GrokReplayScope → GrokReplayCache → GrokReplayCache
  in_scope scope m = retain (λ e. is_scope e.key.scope scope) m

  abbrev pub is_invalidated : Option Stored → Bool
  is_invalidated last = is_some_and last (λ e. is_empty e.value.items)

  abbrev pub matching : GrokReplayScope → List Text → GrokReplayCache → GrokReplayCache
  matching scope output_call_ids m =
      retain
        (λ e.
          is_scope e.key.scope scope
          && (is_empty output_call_ids || replay_entry_matches_outputs e.value output_call_ids))
        m

  abbrev pub by_outputs : GrokReplayScope → List Text → GrokReplayCache → Option Stored
  by_outputs scope output_call_ids m =
      if is_empty scope.session_id && is_empty output_call_ids
      then none
      else if is_invalidated (latest_of (in_scope scope m))
      then none
      else if not (is_empty output_call_ids)
      then only (matching scope output_call_ids m)
      else latest_of (matching scope output_call_ids m)

  abbrev pub choose : GrokReplayScope → Option Text → List Text → GrokReplayCache → Option Stored
  choose scope (some previous) output_call_ids m = by_response scope previous m
  choose scope none output_call_ids m = by_outputs scope output_call_ids m

  unfoldable pub entry :
      GrokReplayScope → Option Text → List Text → ℕ → GrokReplayCache → Option ReplayEntry
  unfolding expire latest replay_entry_matches_outputs
  entry scope previous output_call_ids now m =
      values_of (choose scope previous output_call_ids (expire now m))
