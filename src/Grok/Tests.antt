-- ===== src/Grok/Tests.antt =====
-- Tests of the replay, and concrete runs.
use provider_core.Prelude.{
  ◌≡◌, ◌≢◌, ◌∷◌, ap, ℕ, List, Text, ◌-◌, ◌<◌, refl, arith, true, false, none, some, [], ◌∷◌,
  IsMember, Text-discrete, ℕ_discrete, codes, trim, trim_start, is_whitespace, insert, remove,
  retain, get, all, contains,
}
use provider_core.Prelude.Results.{ok}
use provider_core.Claude.Sample.{Json, empty, text, field, get_field, values}
use provider_core.Grok.Items.{has_type, is_replayable_item}
use provider_core.Grok.Cache.{
  key_of, GrokReplayKey, GrokReplayScope, GrokReplayScope-discrete, ReplayJson, ReplayEntry,
  GrokReplayCache, Stored, replay_ttl, store_entry, entry,
}
use provider_core.Grok.Stream.{read, observe, failure, run}
use provider_core.Grok.Body.{
  Body, items, object, input_has_item_reference, has_unpaired_tool_outputs, tool_output_call_ids,
}
use provider_core.Grok.Prepare.{ProviderRequest, Reading, previous_of, prepare_request}
use provider_core.Grok.References.{expand_item_references}
use provider_core.Grok.Kept.{IsValid}
use provider_core.Grok.Valid.{run-IsValid}
use provider_core.Grok.Own.{IsOwn, entry-IsOwn}
use provider_core.Grok.Spared.{CacheUse, read_at, use_all}
use provider_core.Grok.Stored.{store_entry-entry}
use provider_core.Grok.Paired.{IsSent}
use provider_core.Grok.Complete.{prepare_request-IsComplete}

abbrev replay : ReplayJson values
replay = record {
  is_object = λ v. true;
  set_response_id = λ v id. v;
  serialized_len = λ stored. some 0;
  user_message = λ t. field "role" (text "user") empty;
}

abbrev scope : GrokReplayScope
scope = record { routing_scope = codes "r"; model = codes "m"; session_id = codes "s" }

abbrev message : Json
message = field "type" (text "message") (field "id" (text "a") empty)

abbrev stored : GrokReplayCache values
stored = store_entry values scope (codes "x") (message ∷ []) 5 []

abbrev found : ReplayEntry values
found = record { items = message ∷ []; stored_at = 5 }

-- Another response is stored and the cache is read before the response is continued.
abbrev uses : List (CacheUse values)
uses = CacheUse.stored scope (codes "y") [] 6 ∷ read_at 7 ∷ []

abbrev codes_head : Text → ℕ
codes_head [] = 0
codes_head (c ∷ cs) = c

another_key : (key_of values scope (codes "y") ≢ key_of values scope (codes "x"))
unfolding trim trim_start is_whitespace
another_key h = absurd (ground (arith, ap (λ (k : GrokReplayKey). codes_head k.response_id) h))

store_entry-entry_example :
    entry values scope (some (trim (codes "x"))) [] 7 (use_all values uses stored) ≡ some found
unfolding trim trim_start is_whitespace store_entry insert remove retain
store_entry-entry_example =
    store_entry-entry values scope (codes "x") (message ∷ []) 5 7 [] uses [] refl refl (omega arith)
      (another_key, (omega arith, tt)) (omega arith)

stored_found : entry values scope (some (trim (codes "x"))) [] 7 stored ≡ some found
unfolding trim trim_start is_whitespace store_entry insert remove retain use_all
stored_found =
    store_entry-entry values scope (codes "x") (message ∷ []) 5 7 [] [] [] refl refl (omega arith)
      tt (omega arith)

entry-IsOwn_example :
    (e : Stored values) × IsMember e stored
    × (e.value ≡ found)
    × IsOwn values scope e
    × (7 - found.stored_at < replay_ttl)
entry-IsOwn_example =
    entry-IsOwn values scope (some (trim (codes "x"))) [] 7 stored found stored_found

empty-IsValid : IsValid values replay []
empty-IsValid = record { few = omega arith; kept = tt }

-- A stream that is broken off, and a reading.
run-IsValid_example : IsValid values replay (
    run values replay
      (λ b. none)
      (observe scope failure (record { response_id = codes "x"; terminal_seen = false }) 3
        ∷ read 4
        ∷ [])
      [])
run-IsValid_example =
    run-IsValid values replay (λ b. none)
      (observe scope failure (record { response_id = codes "x"; terminal_seen = false }) 3
        ∷ read 4
        ∷ [])
      [] empty-IsValid

abbrev reading : Reading values replay
reading = record { cache = stored; now = 7 }

stored-IsValid : IsValid values replay stored
unfolding store_entry insert remove retain trim trim_start is_whitespace all is_replayable_item
    has_type contains Text-discrete ℕ_discrete get_field
stored-IsValid = record { few = omega arith; kept = ((omega arith, refl, refl), tt) }

abbrev continued : Body Json
continued = record {
  input = items (field "type" (text "item_reference") (field "id" (text "a") empty) ∷ []);
  previous_response_id = none;
}

abbrev request : ProviderRequest Json
request = record {
  metadata = record {
    routing_scope = some (codes "r");
    routing_session_id = none;
    session_id = some (codes "s");
    previous_response_id = none;
  };
  model = codes "m";
  payload = object continued;
}

abbrev sent : ProviderRequest Json
sent = record request {
  payload = object (record { input = items (message ∷ []); previous_response_id = none });
}

prepared : prepare_request values replay request reading reading ≡ ok (sent, some scope)
unfolding prepare_request input_has_item_reference has_type get_field Text-discrete ℕ_discrete
    contains trim expand_item_references retain store_entry insert GrokReplayScope-discrete remove
    get has_unpaired_tool_outputs tool_output_call_ids
prepared = refl

prepare_request-IsComplete_example :
    (body : Body Json) × (object continued ≡ object body)
    × IsSent values replay (previous_of values replay request body) sent.payload
unfolding get_field Text-discrete ℕ_discrete
prepare_request-IsComplete_example =
    prepare_request-IsComplete values replay request reading reading sent (some scope) (λ t. refl)
      stored-IsValid prepared
