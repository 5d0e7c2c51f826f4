-- ===== src/Grok/References.antt =====
-- The references to past items: `expand_item_references` and `cached_items_for_session` of
-- crates/provider-drivers/src/grok/replay.rs.
use provider_core.Prelude.{
  ℕ, Bool, Option, none, some, List, [], ◌∷◌, ◌++◌, if◌then◌else◌, ltb, is_some, is_empty, Text,
  Text-discrete, codes, retain, Map, get, insert, contains,
}
use provider_core.Prelude.Results.{Result, ok, err, ok_or, ◌>>=◌}
use provider_core.Proxy.Errors.{ProviderError, new_error, invalid_request}
use provider_core.Claude.Event.{EventJson, and_then}
use provider_core.Grok.Items.{str_of, has_type, reference_types, trimmed}
use provider_core.Grok.Cache.{
  GrokReplayScope, GrokReplayCache, Stored, ReplayEntry, expire, entry, is_scope,
}

module _ (json : EventJson) where
  open json use {Value}

  -- `sort_by_key`, which is stable.
  unfoldable pub insert_stored : Stored json → GrokReplayCache json → GrokReplayCache json
  insert_stored e [] = e ∷ []
  insert_stored e (f ∷ m) =
      let later = insert_stored e m in
      if ltb f.value.stored_at e.value.stored_at then f ∷ later else e ∷ f ∷ m

  unfoldable pub sort_stored : GrokReplayCache json → GrokReplayCache json
  unfolding insert_stored
  sort_stored [] = []
  sort_stored (e ∷ m) = insert_stored e (sort_stored m)

  unfoldable pub items_of : GrokReplayCache json → List Value
  items_of [] = []
  items_of (e ∷ m) = e.value.items ++ items_of m

  unfoldable pub cached_items_for_session : GrokReplayScope → ℕ → GrokReplayCache json → List Value
  unfolding expire sort_stored items_of
  cached_items_for_session scope now m =
      items_of (sort_stored (retain (λ e. is_scope e.key.scope scope) (expire json now m)))

  abbrev pub is_reference : Value → Bool
  is_reference item = has_type json reference_types item

  abbrev pub id_of : Value → Option Text
  id_of item = trimmed (str_of json item "id")

  -- The items by their ids.
  pub record Index : Type 0 where
    pub index : Map Text Value
    pub local_ids : List Text
    pub ambiguous_ids : List Text

  abbrev pub new_index : Index
  new_index = record { index = []; local_ids = []; ambiguous_ids = [] }

  abbrev pub add_local : Option Text → Value → Index → Index
  add_local none item x = x
  add_local (some id) item x = record {
    index =
        if is_some (get Text-discrete x.index id)
        then x.index
        else insert Text-discrete x.index id item;
    local_ids = id ∷ x.local_ids;
    ambiguous_ids =
        if contains Text-discrete x.local_ids id then id ∷ x.ambiguous_ids else x.ambiguous_ids;
  }

  unfoldable pub index_local : List Value → Index → Index
  index_local [] x = x
  index_local (item ∷ input) x =
      index_local input (if is_reference item then x else add_local (id_of item) item x)

  abbrev pub add_cached : Option Text → Value → Index → Index
  add_cached none item x = x
  add_cached (some id) item x = if contains Text-discrete x.local_ids id then x else record x {
    index = insert Text-discrete x.index id item;
    ambiguous_ids =
        if is_some (get Text-discrete x.index id) then id ∷ x.ambiguous_ids else x.ambiguous_ids;
  }

  unfoldable pub index_cached : List Value → Index → Index
  index_cached [] x = x
  index_cached (item ∷ items) x = index_cached items (add_cached (id_of item) item x)

  abbrev pub resolve_id : Option Text → Index → Option Value
  resolve_id none x = none
  resolve_id (some id) x =
      if contains Text-discrete x.ambiguous_ids id then none else get Text-discrete x.index id

  -- The item that is referred to, if it is known and there is no doubt; another item stays.
  abbrev pub resolve : Value → Index → Option Value
  resolve item x = if is_reference item then resolve_id (id_of item) x else some item

  -- `none` where one is unresolved.
  unfoldable pub resolve_all : List Value → Index → Option (List Value)
  resolve_all [] x = some []
  resolve_all (item ∷ input) x =
      and_then (resolve item x)
        (λ found. and_then (resolve_all input x) (λ rest. some (found ∷ rest)))

  abbrev unavailable : ProviderError
  unavailable = new_error invalid_request (
      codes
        "Grok continuation state is unavailable to resolve item_reference; resend complete input history")

  abbrev pub items_or : Option (ReplayEntry json) → Result ProviderError (List Value)
  items_or none = err unavailable
  items_or (some e) = ok e.items

  abbrev pub items_to_resolve :
      GrokReplayScope → Option Text → ℕ → GrokReplayCache json → Result ProviderError (List Value)
  items_to_resolve scope (some previous) now m =
      items_or (entry json scope (some previous) [] now m)
  items_to_resolve scope none now m =
      if is_empty scope.session_id
      then err unavailable
      else ok (cached_items_for_session scope now m)

  abbrev pub resolve_with : List Value → List Value → Result ProviderError (List Value)
  resolve_with input cached =
      ok_or (resolve_all input (index_cached cached (index_local input new_index))) (
        new_error invalid_request (
          codes
            "Grok continuation state is unavailable or ambiguous for item_reference; resend complete input history"))

  unfoldable pub expand_item_references :
      List Value
      → GrokReplayScope
      → Option Text
      → ℕ
      → GrokReplayCache json
      → Result ProviderError (List Value)
  unfolding cached_items_for_session index_local index_cached resolve_all
  expand_item_references input scope previous now m =
      items_to_resolve scope previous now m >>= resolve_with input
