-- ===== src/Grok/Kept.antt =====
-- What the cache keeps: few sessions, and of each few items, which can all be replayed.
use provider_core.Prelude.{
  ℕ, ◌≤◌, ◌<◌, suc, ◌≡◌, refl, arith, Bool, true, not, ◌&&◌, ◌||◌, List, [], ◌∷◌, leb, leb→le,
  &&-eq-true, is_some, is_empty, length, all, filter, Map, Entry, get, insert, remove, retain,
  length-remove, length-retain, trim, All, holds_same, Text, Bool-cases, inl, inr,
}
use provider_core.Claude.Event.{EventJson}
use provider_core.Grok.Items.{is_replayable_item}
use provider_core.Grok.Cache.{
  GrokReplayScope, GrokReplayKey, GrokReplayKey-discrete, ReplayJson, ReplayEntry, GrokReplayCache,
  Stored, max_replay_sessions, max_replay_items, oldest, make_room, drop_oldest, store_entry,
  key_of,
}
use provider_core.Grok.Stream.{fits_cache, kept_items}

-- What holds of all entries holds of those that are retained, with the test.
pub retain-All :
    {K V : Type 0} (P Q : Entry K V → Type 0) (keeps : Entry K V → Bool) (m : Map K V)
    → ((e : Entry K V) → keeps e ≡ true → P e → Q e)
    → All P m
    → All Q (retain keeps m)
unfolding retain
retain-All P Q keeps [] f h = tt
retain-All P Q keeps (e ∷ m) f h =
    let rest = retain-All P Q keeps m f h.1 in
    elim (Bool-cases (keeps e)) [
      | inl kept ↦ simp kept ((f e kept h.0, rest))
      | inr dropped ↦ simp dropped rest
    ]

module _ {K V : Type 0} (same : Discrete K) where
  length-remove_found :
      (m : Map K V) (k : K)
      → is_some (get same m k) ≡ true
      → suc (length (remove same m k)) ≤ length m
  unfolding get remove retain
  length-remove_found [] k h = cc
  length-remove_found (e ∷ m) k h = ground (arith, length-remove same m k, length-remove_found m k)

module _ (json : EventJson) where
  open json use {Value}

  oldest-found :
      (e : Stored json) (m : GrokReplayCache json)
      → is_some (get GrokReplayKey-discrete (e ∷ m) (oldest json e m).key) ≡ true
  unfolding oldest get
  oldest-found e [] = rw (holds_same GrokReplayKey-discrete e.key) refl
  oldest-found e (f ∷ m) = ground (arith, oldest-found e m, oldest-found f m)

  length-drop_oldest :
      (m : GrokReplayCache json) → 0 < length m → suc (length (drop_oldest json m)) ≤ length m
  length-drop_oldest [] h = h
  length-drop_oldest (e ∷ m) h =
      length-remove_found GrokReplayKey-discrete (e ∷ m) _ (oldest-found e m)

  -- After room is made, one more entry fits.
  length-insert_room :
      (key : GrokReplayKey) (v : ReplayEntry json) (m : GrokReplayCache json)
      → length m ≤ max_replay_sessions
      → length (insert GrokReplayKey-discrete (make_room json key m) key v) ≤ max_replay_sessions
  unfolding insert
  length-insert_room key v m h = ground (
    arith,
    leb→le max_replay_sessions (length m),
    length-remove GrokReplayKey-discrete m key,
    length-remove_found GrokReplayKey-discrete m key,
    length-drop_oldest m,
    length-remove GrokReplayKey-discrete (drop_oldest json m) key,
  )

  all-filter : (test : Value → Bool) (xs : List Value) → all test (filter test xs) ≡ true
  unfolding all filter
  all-filter test [] = refl
  all-filter test (x ∷ xs) = ground (arith, all-filter test xs)

module _ (json : EventJson) (replay : ReplayJson json) where
  open json use {Value}

  -- What is kept of a response is short, and can all be replayed.
  abbrev pub AreKept : List Value → Type 0
  AreKept items =
      (length items ≤ max_replay_items)
      × (all (is_replayable_item json) items ≡ true)
      × ((is_empty items || fits_cache json replay items) ≡ true)

  pub record IsValid (m : GrokReplayCache json) : Type 0 where
    pub few : length m ≤ max_replay_sessions
    pub kept : All (λ e. AreKept e.value.items) m

  pub nothing-AreKept : AreKept []
  unfolding all
  nothing-AreKept = (omega arith, refl, refl)

  pub kept_items-AreKept : (output : List Value) → AreKept (kept_items json replay output)
  unfolding kept_items
  kept_items-AreKept output =
      let found = filter (is_replayable_item json) output in
      let every = all-filter json (is_replayable_item json) output in
      elim (Bool-cases (leb (length found) max_replay_items && fits_cache json replay found)) [
        | inl fits ↦ simp fits (
            let both =
              &&-eq-true (leb (length found) max_replay_items) (fits_cache json replay found)
                fits in
            (leb→le (length found) max_replay_items both.0, every, ground (arith, both.1)))
        | inr long ↦ simp long nothing-AreKept
      ]

  pub retain-IsValid :
      (keeps : Stored json → Bool) (m : GrokReplayCache json) → IsValid m → IsValid (retain keeps m)
  retain-IsValid keeps m h = record {
    few = omega (arith, length-retain keeps m, h.few);
    kept = retain-All (λ e. AreKept e.value.items) _ keeps m (λ e k p. p) h.kept;
  }

  remove-kept :
      (key : GrokReplayKey) (m : GrokReplayCache json)
      → All (λ e. AreKept e.value.items) m
      → All (λ e. AreKept e.value.items) (remove GrokReplayKey-discrete m key)
  unfolding remove
  remove-kept key m h =
      retain-All (λ e. AreKept e.value.items) (λ e. AreKept e.value.items) _ m (λ e k p. p) h

  drop_oldest-kept :
      (m : GrokReplayCache json)
      → All (λ e. AreKept e.value.items) m
      → All (λ e. AreKept e.value.items) (drop_oldest json m)
  drop_oldest-kept [] h = h
  drop_oldest-kept (e ∷ m) h = remove-kept (oldest json e m).key (e ∷ m) h

  make_room-kept :
      (key : GrokReplayKey) (m : GrokReplayCache json)
      → All (λ e. AreKept e.value.items) m
      → All (λ e. AreKept e.value.items) (make_room json key m)
  make_room-kept key m h =
      let test =
        leb max_replay_sessions (length m) && not (is_some (get GrokReplayKey-discrete m key)) in
      elim (Bool-cases test) [
        | inl full ↦ simp full (drop_oldest-kept m h)
        | inr room ↦ simp room h
      ]

  pub store_entry-IsValid :
      (scope : GrokReplayScope) (response_id : Text) (items : List Value) (now : ℕ)
      (m : GrokReplayCache json)
      → AreKept items
      → IsValid m
      → IsValid (store_entry json scope response_id items now m)
  unfolding store_entry insert
  store_entry-IsValid scope response_id items now m k h =
      elim (Bool-cases (is_empty (trim response_id))) [
        | inl unnamed ↦ simp unnamed h
        | inr named ↦ simp named (record {
          few =
              length-insert_room json (key_of json scope response_id)
                (record { items = items; stored_at = now }) m h.few;
          kept = (
            k,
            remove-kept (key_of json scope response_id) _
                (make_room-kept (key_of json scope response_id) m h.kept),
          );
        })
      ]
