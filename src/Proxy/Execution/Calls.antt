-- ===== src/Proxy/Execution/Calls.antt =====
-- Which candidates an execution calls, and that it returns.
use provider_core.Prelude.{
  ◌≤◌, ◌≡◌, refl, true, Option, none, some, List, [], ◌∷◌, arith, length, Text, Bool-cases, inl,
  inr,
}
use provider_core.Prelude.Results.{Result, ok, err}
use provider_core.Router.Accounts.{ProviderRouteCandidate, ProviderFailoverReason}
use provider_core.Proxy.Errors.{ProviderError}
use provider_core.Proxy.Execution.{
  ProxyRequest, ProviderRequest, Upstream, Event, dispatched, route_failed, route_succeeded,
  affinity_committed, is_continuation, is_skippable_conversion_error, Opened, Execution, Rest,
  replay_failed, replied, prepare_candidate, try_candidate, try_candidates, execute_stream,
}
use provider_core.Proxy.Execution.Protocol.{
  Ending, Protocol, nothing_known, exhausted, refused, passed_over, not_replayed, not_continued,
  replayed, opened_by,
}
use provider_core.Proxy.Execution.Trace.{execute_stream-Follows}

-- The candidates that are called, in order.
unfoldable pub calls : List Event → List ProviderRouteCandidate
calls [] = []
calls (dispatched c prepared ∷ es) = c ∷ calls es
calls (route_failed account_id model reason retry_after ∷ es) = calls es
calls (route_succeeded account_id model ∷ es) = calls es
calls (affinity_committed scope model session account_id ∷ es) = calls es

-- The first list is the second with some elements left out.
pub data IsSublist : List ProviderRouteCandidate → List ProviderRouteCandidate → Type 0 where
  none_of : (cs : List ProviderRouteCandidate) → IsSublist [] cs
  taken :
      (c : ProviderRouteCandidate) (taken_cs cs : List ProviderRouteCandidate)
      → IsSublist taken_cs cs
      → IsSublist (c ∷ taken_cs) (c ∷ cs)
  left_out :
      (c : ProviderRouteCandidate) (taken_cs cs : List ProviderRouteCandidate)
      → IsSublist taken_cs cs
      → IsSublist taken_cs (c ∷ cs)

module _ (upstream : Upstream) (request : ProxyRequest) where
  calls-IsSublist :
      (reports : List Text) (last : Option ProviderError) (cs : List ProviderRouteCandidate)
      (es : List Event) (ending : Ending upstream request)
      → Protocol upstream request reports last cs es ending
      → IsSublist (calls es) cs
  unfolding calls
  calls-IsSublist reports last cs es ending (nothing_known _) = none_of []
  calls-IsSublist reports last cs es ending (exhausted _ error result h) = none_of []
  calls-IsSublist reports last cs es ending (refused _ _ c later error result p s h) = none_of _
  calls-IsSublist reports last cs es ending (passed_over _ _ c later _ _ error p f k rest) =
      left_out c _ later (calls-IsSublist reports _ later es ending rest)
  calls-IsSublist reports last cs es ending
        (not_replayed _ _ c later prepared response error result p x r h) =
      taken c [] later (none_of later)
  calls-IsSublist reports last cs es ending
        (not_continued _ _ c later prepared response error reason id p x r h) =
      taken c [] later (none_of later)
  calls-IsSublist reports last cs es ending
        (replayed _ _ c later prepared response error reason es' _ p x r f rest) =
      taken c _ later (calls-IsSublist _ _ later es' ending rest)
  calls-IsSublist reports last cs es ending
        (opened_by _ _ c later prepared response stream scope session binds p x s t b) =
      taken c [] later (none_of later)

  continuation-calls :
      (reports : List Text) (last : Option ProviderError) (cs : List ProviderRouteCandidate)
      (es : List Event) (ending : Ending upstream request)
      → is_continuation request ≡ true
      → Protocol upstream request reports last cs es ending
      → length (calls es) ≤ 1
  unfolding calls
  continuation-calls reports last cs es ending h (nothing_known _) = omega arith
  continuation-calls reports last cs es ending h (exhausted _ error result e) = omega arith
  continuation-calls reports last cs es ending h (refused _ _ c later error result p s e) =
      omega arith
  continuation-calls reports last cs es ending h (passed_over _ _ c later _ _ error p f k rest) =
      continuation-calls reports _ later es ending h rest
  continuation-calls reports last cs es ending h
        (not_replayed _ _ c later prepared response error result p x r e) =
      omega arith
  continuation-calls reports last cs es ending h
        (not_continued _ _ c later prepared response error reason id p x r e) =
      omega arith
  continuation-calls reports last cs es ending h
        (replayed _ _ c later prepared response error reason es' _ p x r f rest) =
      absurd (ground (arith, rw f at h))
  continuation-calls reports last cs es ending h
        (opened_by _ _ c later prepared response stream scope session binds p x s t b) =
      omega arith

  -- The candidates that an execution calls are some of those planned, each at most once and in
  -- their order, and at most one where the request continues a response.
  pub execute_stream-calls :
      (cs : List ProviderRouteCandidate)
      → IsSublist (calls (execute_stream upstream request cs).events) cs
        × (is_continuation request ≡ true
            → length (calls (execute_stream upstream request cs).events) ≤ 1)
  execute_stream-calls cs = (
    calls-IsSublist [] none cs _ _ (execute_stream-Follows upstream request cs),
    λ h. continuation-calls [] none cs _ _ h (execute_stream-Follows upstream request cs),
  )

  abbrev pub Returns : Execution upstream request → Type 0
  Returns run = (r : Result ProviderError (Opened upstream request)) × (run.result ≡ some r)

  replay_failed-Returns :
      (c : ProviderRouteCandidate) (error : ProviderError) (texts : List Text)
      (rest : Rest upstream request) (reason : Option ProviderFailoverReason)
      → Returns (rest texts (some error))
      → Returns (replay_failed upstream request c error texts rest reason)
  replay_failed-Returns c error texts rest none h = (_, refl)
  replay_failed-Returns c error texts rest (some reason) h =
      elim (Bool-cases (is_continuation request)) [
        | inl continues ↦ rw continues (_, refl)
        | inr fresh ↦ rw fresh h
      ]

  replied-Returns :
      (c : ProviderRouteCandidate) (response : upstream.Translator) (texts : List Text)
      (rest : Rest upstream request) (reply : Result ProviderError upstream.Stream)
      → ((later : List Text) (e : ProviderError) → Returns (rest later (some e)))
      → Returns (replied upstream request c response texts rest reply)
  replied-Returns c response texts rest (ok stream) h = (_, refl)
  replied-Returns c response texts rest (err error) h =
      replay_failed-Returns c error _ rest error.failover_reason (h _ error)

  try_candidate-Returns :
      (c : ProviderRouteCandidate) (texts : List Text) (last : Option ProviderError)
      (rest : Rest upstream request)
      (prepared : Result ProviderError (ProviderRequest × upstream.Translator))
      → ((later : List Text) (e : ProviderError) → Returns (rest later (some e)))
      → Returns (try_candidate upstream request c texts last rest prepared)
  try_candidate-Returns c texts last rest (ok (prepared, response)) h =
      replied-Returns c response texts rest (upstream.execute (length texts) c prepared) h
  try_candidate-Returns c texts none rest (err error) h =
      elim (Bool-cases (is_skippable_conversion_error request c error)) [
        | inl skip ↦ rw skip (h texts error)
        | inr stays ↦ rw stays (_, refl)
      ]
  try_candidate-Returns c texts (some first) rest (err error) h =
      elim (Bool-cases (is_skippable_conversion_error request c error)) [
        | inl skip ↦ rw skip (h texts first)
        | inr stays ↦ rw stays (_, refl)
      ]

  try_candidates-Returns :
      (texts : List Text) (error : ProviderError) (cs : List ProviderRouteCandidate)
      → Returns (try_candidates upstream request texts (some error) cs)
  unfolding try_candidates
  try_candidates-Returns texts error [] = (_, refl)
  try_candidates-Returns texts error (c ∷ cs) =
      try_candidate-Returns c texts (some error)
        (λ later e. try_candidates upstream request later e cs)
        (prepare_candidate upstream request c) (λ later e. try_candidates-Returns later e cs)

  -- Over a plan with a candidate the execution returns a stream or an error: the code's `expect`
  -- does not panic.
  pub execute_stream-Returns :
      (c : ProviderRouteCandidate) (cs : List ProviderRouteCandidate)
      → Returns (execute_stream upstream request (c ∷ cs))
  unfolding execute_stream try_candidates
  execute_stream-Returns c cs =
      try_candidate-Returns c [] none (λ later e. try_candidates upstream request later e cs)
        (prepare_candidate upstream request c) (λ later e. try_candidates-Returns later e cs)
