-- ===== src/Proxy/Linkage/Binds.antt =====
-- What an observed stream binds, and how much of it is kept.
use provider_core.Prelude.{
  ◌≤◌, ◌≡◌, ◌∙◌, refl, Bool, true, false, not, ◌&&◌, Option, none, some, List, [], ◌∷◌, ◌++◌, arith,
  length, length-append, if◌then◌else◌, ltb, Bool-cases, inl, inr, Text,
}
use provider_core.Prelude.Results.{Result, ok, err}
use provider_core.Router.Accounts.{same_text}
use provider_core.Sse.{Bytes}
use provider_core.Proxy.Errors.{ProviderError}
use provider_core.Proxy.Linkage.{
  EventJson, LinkageEvent, Observer, observe_response_id, created, is_terminal, on_created,
  bind_known, on_terminal, on_event, on_events, limit_pending, observe_chunk, observe_item,
  observe_items, max_response_linkage_buffer_size, take_response_linkage_events,
}

-- At most one id is bound, and `bound` says whether; an id is bound before the end of the response
-- only where the route binds ids at once.
pub record IsLinked (s : Observer) : Type 0 where
  pub once : length s.bindings ≡ (if s.bound then 1 else 0)
  pub ended : s.bind_response_id_at_created ≡ false → s.bound ≡ true → s.completed ≡ true

on_created-IsLinked : (id : Option Text) (s : Observer) → IsLinked s → IsLinked (on_created id s)
on_created-IsLinked none s h = h
on_created-IsLinked (some id) s h = ground (arith, length-append s.bindings (id ∷ []))

bind_once :
    (id : Text) (s : Observer) → IsLinked s → s.bound ≡ false → length (s.bindings ++ id ∷ []) ≡ 1
bind_once id s h fresh = ground (arith, length-append s.bindings (id ∷ []))

bind_known-once :
    (id known : Option Text) (s : Observer)
    → IsLinked s
    → s.bound ≡ false
    → length (bind_known id known s).bindings ≡ (if (bind_known id known s).bound then 1 else 0)
bind_known-once (some id) known s h fresh = bind_once id s h fresh
bind_known-once none (some id) s h fresh = bind_once id s h fresh
bind_known-once none none s h fresh = h.once

on_terminal-IsLinked : (id : Option Text) (s : Observer) → IsLinked s → IsLinked (on_terminal id s)
on_terminal-IsLinked id s h = elim (Bool-cases s.bound) [
  | inl before ↦ record { once = ground arith; ended = λ a b. refl }
  | inr fresh ↦ record {
    once = ground (arith, bind_known-once id s.response_id s h fresh);
    ended = λ a b. refl;
  }
]

on_event-IsLinked : (e : LinkageEvent) (s : Observer) → IsLinked s → IsLinked (on_event e s)
unfolding on_event
on_event-IsLinked e s h = elim (Bool-cases (same_text e.event_type created)) [
  | inl first ↦ rw first (on_created-IsLinked e.response_id s h)
  | inr other ↦ rw other (elim (Bool-cases (is_terminal e.event_type)) [
    | inl last ↦ rw last (on_terminal-IsLinked e.response_id s h)
    | inr neither ↦ rw neither h
  ])
]

on_events-IsLinked :
    (events : List LinkageEvent) (s : Observer) → IsLinked s → IsLinked (on_events events s)
unfolding on_events
on_events-IsLinked [] s h = h
on_events-IsLinked (e ∷ events) s h =
    on_events-IsLinked events (on_event e s) (on_event-IsLinked e s h)

-- What a stream keeps: the flag it was opened with, and a bounded buffer.
record IsObserver (at_created : Bool) (s : Observer) : Type 0 where
  linked : IsLinked s
  kept : s.bind_response_id_at_created ≡ at_created
  bounded : length s.pending ≤ max_response_linkage_buffer_size

bind_known_kept :
    (id known : Option Text) (s : Observer)
    → (bind_known id known s).bind_response_id_at_created ≡ s.bind_response_id_at_created
bind_known_kept (some id) known s = refl
bind_known_kept none (some id) s = refl
bind_known_kept none none s = refl

on_created_kept :
    (id : Option Text) (s : Observer)
    → (on_created id s).bind_response_id_at_created ≡ s.bind_response_id_at_created
on_created_kept none s = refl
on_created_kept (some id) s = ground arith

on_event_kept :
    (e : LinkageEvent) (s : Observer)
    → (on_event e s).bind_response_id_at_created ≡ s.bind_response_id_at_created
unfolding on_event
on_event_kept e s =
    ground (arith, on_created_kept e.response_id s, bind_known_kept e.response_id s.response_id s)

on_events_kept :
    (events : List LinkageEvent) (s : Observer)
    → (on_events events s).bind_response_id_at_created ≡ s.bind_response_id_at_created
unfolding on_events
on_events_kept [] s = refl
on_events_kept (e ∷ events) s = on_events_kept events (on_event e s) ∙ on_event_kept e s

limit_pending-IsObserver :
    (at_created : Bool) (s : Observer)
    → IsLinked s
    → s.bind_response_id_at_created ≡ at_created
    → IsObserver at_created (limit_pending s)
limit_pending-IsObserver at_created s h k =
    elim (Bool-cases (ltb max_response_linkage_buffer_size (length s.pending))) [
      | inl over ↦ rw over (record {
        linked = record { once = h.once; ended = h.ended };
        kept = k;
        bounded = omega arith;
      })
      | inr under ↦ rw under (record { linked = h; kept = k; bounded = ground arith })
    ]

module _ (json : EventJson) where
  observe_chunk-IsObserver :
      (at_created : Bool) (chunk : Bytes) (s : Observer)
      → IsObserver at_created s
      → IsObserver at_created (observe_chunk json chunk s)
  unfolding observe_chunk
  observe_chunk-IsObserver at_created chunk s h =
      elim (Bool-cases (not s.completed && not s.linkage_disabled)) [
        | inl reads ↦
            let taken = take_response_linkage_events json (s.pending ++ chunk) in
            let fed : Observer = record s { pending = taken.pending } in
            rw reads (
              limit_pending-IsObserver at_created _
                (on_events-IsLinked taken.events fed
                  (record { once = h.linked.once; ended = h.linked.ended }))
                (on_events_kept taken.events fed ∙ h.kept))
        | inr passes ↦ rw passes h
      ]

  observe_items-IsObserver :
      (at_created : Bool) (items : List (Result ProviderError Bytes)) (s : Observer)
      → IsObserver at_created s
      → IsObserver at_created (observe_items json items s)
  unfolding observe_items observe_item
  observe_items-IsObserver at_created [] s h = h
  observe_items-IsObserver at_created (err error ∷ items) s h =
      observe_items-IsObserver at_created items s h
  observe_items-IsObserver at_created (ok chunk ∷ items) s h =
      observe_items-IsObserver at_created items _ (observe_chunk-IsObserver at_created chunk s h)

  no_binding : {A : Type 0} (ids : List A) → length ids ≡ 0 → ids ≡ []
  no_binding [] h = refl
  no_binding (id ∷ ids) h = absurd (omega arith)

  -- Whatever a stream brings, it binds at most one response id to its account; where the route
  -- does not bind ids at once it binds none before the response has completed; and it keeps no
  -- more than 64 KiB of the stream.
  pub observe_items-binds_once :
      (at_created : Bool) (items : List (Result ProviderError Bytes))
      → let s = observe_items json items (observe_response_id at_created) in
        (length s.bindings ≤ 1)
        × (at_created ≡ false → s.completed ≡ false → s.bindings ≡ [])
        × (length s.pending ≤ max_response_linkage_buffer_size)
  unfolding observe_response_id
  observe_items-binds_once at_created items =
      let s = observe_items json items (observe_response_id at_created) in
      let h = observe_items-IsObserver at_created items (observe_response_id at_created) (record {
        linked = record { once = refl; ended = λ a b. cc };
        kept = refl;
        bounded = omega arith;
      }) in
      (
        ground (arith, h.linked.once),
        λ a b. no_binding s.bindings (ground (arith, h.linked.once, h.linked.ended (h.kept ∙ a))),
        h.bounded,
      )
