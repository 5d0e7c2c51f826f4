-- ===== src/Grok/Valid.antt =====
-- Whatever happens to the cache, it keeps few sessions and items that can be replayed.
use provider_core.Prelude.{
  ℕ, not, ◌&&◌, Option, none, some, List, [], ◌∷◌, is_empty, Text, Bool-cases, inl, inr,
}
use provider_core.Claude.Event.{EventJson}
use provider_core.Sse.{Bytes}
use provider_core.Grok.Items.{frame_payload}
use provider_core.Grok.Cache.{GrokReplayScope, ReplayJson, GrokReplayCache, expire}
use provider_core.Grok.Stream.{
  Call, read, observe, call, run, output_of, store_response, store_completed, invalidate_terminal,
  invalidate_named, EventKind, begun, completed, unsuccessful, other, Observed, chunk, failure, end,
  observe_item, observe_payload, observe_kind, broken_off,
}
use provider_core.Grok.Kept.{
  IsValid, nothing-AreKept, kept_items-AreKept, retain-IsValid, store_entry-IsValid,
}

module _ (json : EventJson) (replay : ReplayJson json) where
  open json use {Value}

  store_response-IsValid :
      (scope : GrokReplayScope) (response : Option Value) (now : ℕ) (m : GrokReplayCache json)
      → IsValid json replay m
      → IsValid json replay (store_response json replay scope response now m)
  store_response-IsValid scope none now m h = h
  store_response-IsValid scope (some response) now m h =
      store_entry-IsValid json replay scope _ _ now m
        (kept_items-AreKept json replay (output_of json replay response)) h

  invalidate_named-IsValid :
      (scope : GrokReplayScope) (response_id : Option Text) (now : ℕ) (m : GrokReplayCache json)
      → IsValid json replay m
      → IsValid json replay (invalidate_named json replay scope response_id now m)
  invalidate_named-IsValid scope none now m h = h
  invalidate_named-IsValid scope (some response_id) now m h =
      store_entry-IsValid json replay scope response_id [] now m (nothing-AreKept json replay) h

  broken_off-IsValid :
      (scope : GrokReplayScope) (now : ℕ) (s : Observed json replay) (m : GrokReplayCache json)
      → IsValid json replay m
      → IsValid json replay (broken_off json replay scope now s m).1
  broken_off-IsValid scope now s m h =
      elim (Bool-cases (not s.terminal_seen && not (is_empty s.response_id))) [
        | inl cut ↦ simp cut (
            store_entry-IsValid json replay scope s.response_id [] now m
              (nothing-AreKept json replay) h)
        | inr over ↦ simp over h
      ]

  observe_kind-IsValid :
      (kind : EventKind) (payload : Value) (scope : GrokReplayScope) (now : ℕ)
      (s : Observed json replay) (m : GrokReplayCache json)
      → IsValid json replay m
      → IsValid json replay (observe_kind json replay kind payload scope now s m).1
  unfolding store_completed invalidate_terminal
  observe_kind-IsValid begun payload scope now s m h = h
  observe_kind-IsValid completed payload scope now s m h = store_response-IsValid scope _ now m h
  observe_kind-IsValid unsuccessful payload scope now s m h =
      invalidate_named-IsValid scope _ now m h
  observe_kind-IsValid other payload scope now s m h = h

  observe_payload-IsValid :
      (payload : Option Value) (scope : GrokReplayScope) (now : ℕ) (s : Observed json replay)
      (m : GrokReplayCache json)
      → IsValid json replay m
      → IsValid json replay (observe_payload json replay payload scope now s m).1
  unfolding store_completed invalidate_terminal
  observe_payload-IsValid none scope now s m h = h
  observe_payload-IsValid (some payload) scope now s m h =
      observe_kind-IsValid _ payload scope now s m h

  call-IsValid :
      (parse : Bytes → Option Value) (c : Call json replay) (m : GrokReplayCache json)
      → IsValid json replay m
      → IsValid json replay (call json replay parse c m)
  unfolding call observe_item expire
  call-IsValid parse (read now) m h = retain-IsValid json replay _ m h
  call-IsValid parse (observe scope (chunk bytes) s now) m h =
      observe_payload-IsValid (frame_payload parse bytes) scope now s m h
  call-IsValid parse (observe scope failure s now) m h = broken_off-IsValid scope now s m h
  call-IsValid parse (observe scope end s now) m h = broken_off-IsValid scope now s m h

  -- Whatever is read and whatever the observed streams bring, the cache holds at most 128 responses
  -- and of each at most 64 items, all of a type that can be replayed and together within the limit of
  -- bytes.
  pub run-IsValid :
      (parse : Bytes → Option Value) (calls : List (Call json replay)) (m : GrokReplayCache json)
      → IsValid json replay m
      → IsValid json replay (run json replay parse calls m)
  unfolding run
  run-IsValid parse [] m h = h
  run-IsValid parse (c ∷ calls) m h = run-IsValid parse calls _ (call-IsValid parse c m h)
