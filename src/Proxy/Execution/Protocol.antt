-- ===== src/Proxy/Execution/Protocol.antt =====
-- The protocol that the execution of a request follows over its candidates, in its own words: the
-- events and the result of `PreparedProxyExecution` of crates/provider-core/src/proxy/service.rs.
use provider_core.Prelude.{
  ◌≡◌, ◌≢◌, ◌≤◌, ◌<◌, Bool, true, false, Option, none, some, List, [], ◌∷◌, ◌++◌, IsMember, length,
  join, Text, codes, ◌⊎◌,
}
use provider_core.Prelude.Results.{Result, ok, err}
use provider_core.Router.Accounts.{ProviderRouteCandidate, ProviderFailoverReason}
use provider_core.Proxy.Errors.{ProviderError, invalid_request}
use provider_core.Proxy.Execution.{
  ProxyRequest, ProviderRequest, Upstream, Event, dispatched, route_failed, route_succeeded,
  affinity_committed, Opened,
}

-- What is told of a call that failed.
abbrev pub report : ProviderRouteCandidate → ProviderError → Text
report c error =
    c.provider_name
    ++ codes " (upstream model '"
    ++ c.upstream_model
    ++ codes "'): "
    ++ error.message

-- The error that is returned where a request cannot be prepared: the error itself, or, after
-- failed calls, with the reports of these before it.
abbrev pub IsRefusal : List Text → ProviderError → ProviderError → Type 0
IsRefusal [] error returned = returned ≡ error
IsRefusal (t ∷ reports) error returned = returned ≡ record error {
  message =
      codes "previous upstream attempts: "
      ++ join (codes "; ") (t ∷ reports)
      ++ codes "; request preparation failed: "
      ++ error.message;
}

-- The error that is returned where a failed call allows no replay: the error itself, or, after
-- other failed calls, with the reports of all.
abbrev pub IsLast : List Text → ProviderRouteCandidate → ProviderError → ProviderError → Type 0
IsLast [] c error returned = returned ≡ error
IsLast (t ∷ reports) c error returned =
    returned ≡ record error { message = join (codes "; ") ((t ∷ reports) ++ report c error ∷ []) }

-- The error that is returned where no candidate is left.
abbrev pub IsExhausted : List Text → ProviderError → ProviderError → Type 0
IsExhausted reports error returned =
    (length reports ≤ 1) × (returned ≡ error)
    ⊎ ((1 < length reports)
        × (returned ≡ record error {
          message = codes "all upstream attempts failed: " ++ join (codes "; ") reports;
        }))

-- The first error that is known, where the candidate is passed over.
abbrev pub first_error : Option ProviderError → ProviderError → ProviderError
first_error none error = error
first_error (some first) error = first

-- The providers whose response ids are kept; only those of Codex are bound at once.
abbrev pub tracked : List Text
tracked = codes "codex" ∷ codes "grok" ∷ codes "antigravity" ∷ []

abbrev pub BindsIds : Text → Option Bool → Type 0
BindsIds provider binds =
    (provider ≡ codes "codex") × (binds ≡ some true)
    ⊎ ((provider ≢ codes "codex") × IsMember provider tracked × (binds ≡ some false)
        ⊎ ((¬ IsMember provider tracked) × (binds ≡ none)))

module _ (request : ProxyRequest) where
  -- The routing scope and the session that the router is told.
  abbrev pub IsScope : Text → Type 0
  IsScope scope =
      (request.metadata.routing_scope ≡ some scope)
      ⊎ ((request.metadata.routing_scope ≡ none) × (scope ≡ []))

  abbrev pub IsSession : Option Text → Type 0
  IsSession session =
      ((id : Text) × (request.metadata.routing_session_id ≡ some id) × (session ≡ some id))
      ⊎ ((request.metadata.routing_session_id ≡ none) × (session ≡ request.metadata.session_id))

module _ (upstream : Upstream) (request : ProxyRequest) where
  open upstream use {Stream, Translator, prepare, translate_stream, execute}

  pub data Ending : Type 0 where
    panicked : Ending
    returned : ProviderError → Ending
    served : Opened upstream request → Ending

  -- What the bridge makes of the request for the candidate.
  abbrev pub Prepares :
      ProviderRouteCandidate → Result ProviderError (ProviderRequest × Translator) → Type 0
  Prepares c prepared =
      prepare
        (record request {
          model = c.upstream_model;
          metadata = record request.metadata { responses_lite = c.responses_lite };
        })
        c.native_format c.input_modalities
      ≡ prepared

  -- What happens over the candidates, after failed calls with those reports, the error to return
  -- being known or not.
  pub data Protocol
      : List Text
        → Option ProviderError
        → List ProviderRouteCandidate
        → List Event
        → Ending
        → Type 0 where
    nothing_known : (reports : List Text) → Protocol reports none [] [] panicked
    exhausted :
        (reports : List Text) (error result : ProviderError)
        → IsExhausted reports error result
        → Protocol reports (some error) [] [] (returned result)
    refused :
        (reports : List Text) (last : Option ProviderError) (c : ProviderRouteCandidate)
        (cs : List ProviderRouteCandidate) (error result : ProviderError)
        → Prepares c (err error)
        → (c.native_format ≡ request.format) ⊎ (error.kind ≢ invalid_request)
        → IsRefusal reports error result
        → Protocol reports last (c ∷ cs) [] (returned result)
    passed_over :
        (reports : List Text) (last : Option ProviderError) (c : ProviderRouteCandidate)
        (cs : List ProviderRouteCandidate) (es : List Event) (ending : Ending)
        (error : ProviderError)
        → Prepares c (err error)
        → c.native_format ≢ request.format
        → error.kind ≡ invalid_request
        → Protocol reports (some (first_error last error)) cs es ending
        → Protocol reports last (c ∷ cs) es ending
    not_replayed :
        (reports : List Text) (last : Option ProviderError) (c : ProviderRouteCandidate)
        (cs : List ProviderRouteCandidate) (prepared : ProviderRequest) (response : Translator)
        (error result : ProviderError)
        → Prepares c (ok (prepared, response))
        → execute (length reports) c prepared ≡ err error
        → error.failover_reason ≡ none
        → IsLast reports c error result
        → Protocol reports last (c ∷ cs) (dispatched c prepared ∷ []) (returned result)
    not_continued :
        (reports : List Text) (last : Option ProviderError) (c : ProviderRouteCandidate)
        (cs : List ProviderRouteCandidate) (prepared : ProviderRequest) (response : Translator)
        (error : ProviderError) (reason : ProviderFailoverReason) (id : Text)
        → Prepares c (ok (prepared, response))
        → execute (length reports) c prepared ≡ err error
        → error.failover_reason ≡ some reason
        → request.metadata.previous_response_id ≡ some id
        → Protocol reports last (c ∷ cs) (dispatched c prepared ∷ []) (returned error)
    replayed :
        (reports : List Text) (last : Option ProviderError) (c : ProviderRouteCandidate)
        (cs : List ProviderRouteCandidate) (prepared : ProviderRequest) (response : Translator)
        (error : ProviderError) (reason : ProviderFailoverReason) (es : List Event)
        (ending : Ending)
        → Prepares c (ok (prepared, response))
        → execute (length reports) c prepared ≡ err error
        → error.failover_reason ≡ some reason
        → request.metadata.previous_response_id ≡ none
        → Protocol (reports ++ report c error ∷ []) (some error) cs es ending
        → Protocol reports last
            (c ∷ cs)
            (dispatched c prepared
              ∷ route_failed c.account_id request.model reason error.retry_after
              ∷ es)
            ending
    opened_by :
        (reports : List Text) (last : Option ProviderError) (c : ProviderRouteCandidate)
        (cs : List ProviderRouteCandidate) (prepared : ProviderRequest) (response : Translator)
        (stream : Stream) (scope : Text) (session : Option Text) (binds : Option Bool)
        → Prepares c (ok (prepared, response))
        → execute (length reports) c prepared ≡ ok stream
        → IsScope request scope
        → IsSession request session
        → BindsIds c.provider_name binds
        → Protocol reports last
            (c ∷ cs)
            (dispatched c prepared
              ∷ route_succeeded c.account_id request.model
              ∷ affinity_committed scope request.model session c.account_id
              ∷ [])
            (served (record {
              stream = translate_stream response stream;
              candidate = c;
              bind_response_id_at_created = binds;
            }))
