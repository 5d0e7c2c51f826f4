-- ===== src/Proxy/Execution/Trace.antt =====
-- The execution of a request follows its protocol.
use provider_core.Prelude.{
  suc, ◌≡◌, ◌≢◌, refl, ap, true, false, not, ◌&&◌, Option, none, some, List, [], ◌∷◌, ◌++◌, arith,
  length, length-append, ltb, if◌then◌else◌, holds_same, contains, contains-IsMember,
  IsMember-contains, holds, Text-discrete, Text, codes, Bool-cases, Option-cases, inl, inr, ◌⊎◌,
}
use provider_core.Prelude.Results.{Result, ok, err}
use provider_core.Router.Accounts.{
  WireFormat-discrete, ProviderRouteCandidate, ProviderFailoverReason, same_text,
}
use provider_core.Router.Routes.{supports_previous_response_id}
use provider_core.Router.Continuation.{same_text-eq}
use provider_core.Proxy.Errors.{
  ProviderError, ProviderErrorKind, invalid_request, authentication, rate_limited, capacity,
  internal,
}
use provider_core.Proxy.Execution.{
  ProxyRequest, ProviderRequest, Upstream, dispatched, is_invalid_request,
  is_skippable_conversion_error, scope_of, session_of, tracks_response_id, Opened, Execution, after,
  all_failed, not_prepared, replay_failed, replied, prepare_candidate, try_candidate,
  try_candidates, execute_stream,
}
use provider_core.Proxy.Execution.Protocol.{
  report, tracked, BindsIds, IsScope, IsSession, Ending, panicked, returned, served, Prepares,
  Protocol, nothing_known, exhausted, refused, passed_over, not_replayed, not_continued, replayed,
  opened_by,
}

one_more : (texts : List Text) (text : Text) → length (texts ++ text ∷ []) ≡ suc (length texts)
one_more texts text = omega (arith, length-append texts (text ∷ []))

is_invalid_request-eq :
    (kind : ProviderErrorKind) → is_invalid_request kind ≡ true → kind ≡ invalid_request
is_invalid_request-eq invalid_request h = refl
is_invalid_request-eq authentication h = cc
is_invalid_request-eq rate_limited h = cc
is_invalid_request-eq capacity h = cc
is_invalid_request-eq ProviderErrorKind.upstream h = cc
is_invalid_request-eq internal h = cc

module _ (request : ProxyRequest) where
  skipped :
      (c : ProviderRouteCandidate) (error : ProviderError)
      → is_skippable_conversion_error request c error ≡ true
      → (c.native_format ≢ request.format) × (error.kind ≡ invalid_request)
  skipped c error h =
      elim (WireFormat-discrete c.native_format request.format)
          as (λ d.
            (not (holds d) && is_invalid_request error.kind) ≡ true
            → (c.native_format ≢ request.format) × (error.kind ≡ invalid_request)) [
              | yes same ↦ λ t. absurd (ground arith)
              | no differs ↦ λ t. (differs, is_invalid_request-eq error.kind t)
            ]
        h

  not_skipped :
      (c : ProviderRouteCandidate) (error : ProviderError)
      → is_skippable_conversion_error request c error ≡ false
      → (c.native_format ≡ request.format) ⊎ (error.kind ≢ invalid_request)
  not_skipped c error h =
      elim (WireFormat-discrete c.native_format request.format)
          as (λ d.
            (not (holds d) && is_invalid_request error.kind) ≡ false
            → (c.native_format ≡ request.format) ⊎ (error.kind ≢ invalid_request)) [
              | yes same ↦ λ t. inl same
              | no differs ↦ λ t. inr (λ e. absurd (ground (arith, ap is_invalid_request e, t)))
            ]
        h

  scope_of-IsScope : IsScope request (scope_of request)
  scope_of-IsScope = elim (Option-cases request.metadata.routing_scope) [
    | inl absent ↦ inr (absent, rw absent refl)
    | inr (scope, e) ↦ inl (rw e refl)
  ]

  session_of-IsSession : IsSession request (session_of request)
  session_of-IsSession = elim (Option-cases request.metadata.routing_session_id) [
    | inl absent ↦ inr (absent, rw absent refl)
    | inr (session, e) ↦ inl (session, e, rw e refl)
  ]

tracks-BindsIds :
    (c : ProviderRouteCandidate)
    → BindsIds c.provider_name
        (if tracks_response_id c then some (supports_previous_response_id c) else none)
tracks-BindsIds c = elim (Bool-cases (contains Text-discrete tracked c.provider_name)) [
  | inl known ↦ elim (Bool-cases (supports_previous_response_id c)) [
    | inl codex_one ↦
        inl (same_text-eq c.provider_name (codes "codex") codex_one, rw (known, codex_one) refl)
    | inr other ↦ inr (
        inl (
          (λ e. absurd (
              ground (
                arith,
                other,
                ap (λ t. same_text t (codes "codex")) e,
                holds_same Text-discrete (codes "codex"),
              ))),
          contains-IsMember Text-discrete tracked c.provider_name known,
          rw (known, other) refl,
        ))
  ]
  | inr unknown ↦ inr (
      inr (
        λ m.
            absurd
              (ground (arith, unknown, IsMember-contains Text-discrete tracked c.provider_name m)),
        rw unknown refl,
      ))
]

module _ (upstream : Upstream) (request : ProxyRequest) where
  open upstream use {Translator, execute}

  abbrev pub ending_of :
      Option (Result ProviderError (Opened upstream request)) → Ending upstream request
  ending_of none = panicked
  ending_of (some (err error)) = returned error
  ending_of (some (ok opened)) = served opened

  abbrev pub Follows :
      List Text
      → Option ProviderError
      → List ProviderRouteCandidate
      → Execution upstream request
      → Type 0
  Follows texts last cs run =
      Protocol upstream request texts last cs run.events (ending_of run.result)

  all_failed-Follows :
      (texts : List Text) (last : Option ProviderError)
      → Follows texts last [] (all_failed upstream request texts last)
  all_failed-Follows texts none = nothing_known texts
  all_failed-Follows texts (some error) = elim (Bool-cases (ltb 1 (length texts))) [
    | inl several ↦ rw several (exhausted texts error _ (inr (ground arith, refl)))
    | inr few ↦ rw few (exhausted texts error error (inl (ground arith, refl)))
  ]

  not_prepared-Follows :
      (texts : List Text) (last : Option ProviderError) (c : ProviderRouteCandidate)
      (cs : List ProviderRouteCandidate) (error : ProviderError)
      → Prepares upstream request c (err error)
      → is_skippable_conversion_error request c error ≡ false
      → Follows texts last (c ∷ cs) (not_prepared upstream request texts error)
  not_prepared-Follows [] last c cs error p stays =
      refused [] last c cs error _ p (not_skipped request c error stays) refl
  not_prepared-Follows (t ∷ texts) last c cs error p stays =
      refused (t ∷ texts) last c cs error _ p (not_skipped request c error stays) refl

  module _ (c : ProviderRouteCandidate) (cs : List ProviderRouteCandidate) (texts : List Text)
      (last : Option ProviderError)
      (rest : List Text → Option ProviderError → Execution upstream request)
      (prepared : ProviderRequest) (response : Translator)
      (h : (later : List Text) (e : Option ProviderError) → Follows later e cs (rest later e))
      (p : Prepares upstream request c (ok (prepared, response))) where
    last_error-Follows :
        (reports : List Text) (error : ProviderError)
        → execute (length reports) c prepared ≡ err error
        → error.failover_reason ≡ none
        → Follows reports last (c ∷ cs) (
            after upstream request
              (dispatched c prepared)
              (replay_failed upstream request c error (reports ++ report c error ∷ []) rest none))
    last_error-Follows [] error x r =
        not_replayed [] last c cs prepared response error error p x r refl
    last_error-Follows (t ∷ reports) error x r =
        let several : ltb 1 (length ((t ∷ reports) ++ report c error ∷ [])) ≡ true =
          ground (arith, one_more (t ∷ reports) (report c error)) in
        rw several (not_replayed (t ∷ reports) last c cs prepared response error _ p x r refl)

    replay_failed-Follows :
        (error : ProviderError) (reason : Option ProviderFailoverReason)
        → execute (length texts) c prepared ≡ err error
        → error.failover_reason ≡ reason
        → Follows texts last (c ∷ cs) (
            after upstream request
              (dispatched c prepared)
              (replay_failed upstream request c error (texts ++ report c error ∷ []) rest reason))
    replay_failed-Follows error none x r = last_error-Follows texts error x r
    replay_failed-Follows error (some reason) x r =
        elim (Option-cases request.metadata.previous_response_id) [
          | inr (id, continues) ↦
              rw continues
                (not_continued texts last c cs prepared response error reason id p x r continues)
          | inl fresh ↦ rw fresh (
              replayed texts last c cs prepared response error reason _ _ p x r fresh
                (h (texts ++ report c error ∷ []) (some error)))
        ]

    replied-Follows :
        (reply : Result ProviderError upstream.Stream)
        → execute (length texts) c prepared ≡ reply
        → Follows texts last (c ∷ cs) (
            after upstream request
              (dispatched c prepared)
              (replied upstream request c response texts rest reply))
    replied-Follows (ok stream) x =
        opened_by texts last c cs prepared response stream _ _ _ p x (scope_of-IsScope request)
          (session_of-IsSession request) (tracks-BindsIds c)
    replied-Follows (err error) x = replay_failed-Follows error error.failover_reason x refl

  passed_over-Follows :
      (c : ProviderRouteCandidate) (cs : List ProviderRouteCandidate) (texts : List Text)
      (last : Option ProviderError) (error : ProviderError)
      (rest : List Text → Option ProviderError → Execution upstream request)
      → ((later : List Text) (e : Option ProviderError) → Follows later e cs (rest later e))
      → Prepares upstream request c (err error)
      → is_skippable_conversion_error request c error ≡ true
      → Follows texts last
          (c ∷ cs)
          (rest texts (elim last [ none ↦ some error | some first ↦ some first ]))
  passed_over-Follows c cs texts none error rest h p skip =
      let (differs, invalid) = skipped request c error skip in
      passed_over texts none c cs _ _ error p differs invalid (h texts (some error))
  passed_over-Follows c cs texts (some first) error rest h p skip =
      let (differs, invalid) = skipped request c error skip in
      passed_over texts (some first) c cs _ _ error p differs invalid (h texts (some first))

  try_candidate-Follows :
      (c : ProviderRouteCandidate) (cs : List ProviderRouteCandidate) (texts : List Text)
      (last : Option ProviderError)
      (rest : List Text → Option ProviderError → Execution upstream request)
      → ((later : List Text) (e : Option ProviderError) → Follows later e cs (rest later e))
      → (prepared : Result ProviderError (ProviderRequest × Translator))
      → Prepares upstream request c prepared
      → Follows texts last (c ∷ cs) (try_candidate upstream request c texts last rest prepared)
  try_candidate-Follows c cs texts last rest h (err error) p =
      elim (Bool-cases (is_skippable_conversion_error request c error)) [
        | inl skip ↦ rw skip (passed_over-Follows c cs texts last error rest h p skip)
        | inr stays ↦ rw stays (not_prepared-Follows texts last c cs error p stays)
      ]
  try_candidate-Follows c cs texts last rest h (ok (prepared, response)) p =
      replied-Follows c cs texts last rest prepared response h p (execute (length texts) c prepared)
        refl

  try_candidates-Follows :
      (texts : List Text) (last : Option ProviderError) (cs : List ProviderRouteCandidate)
      → Follows texts last cs (try_candidates upstream request texts last cs)
  unfolding try_candidates prepare_candidate
  try_candidates-Follows texts last [] = all_failed-Follows texts last
  try_candidates-Follows texts last (c ∷ cs) =
      try_candidate-Follows c cs texts last _ (λ later e. try_candidates-Follows later e cs)
        (prepare_candidate upstream request c) refl

  -- The events and the result of an execution are those of the protocol, from the first call on: a
  -- candidate to whose format the request cannot be converted is passed over, and any other
  -- failure to prepare the request ends the run; another candidate is called after a call only
  -- where that call failed for a reason that allows a replay, which is reported to the router, and
  -- the request does not continue a response; and a stream is served by the candidate whose call
  -- opened it, which is reported to the router too. An error is returned with the message that the
  -- protocol spells out, and for a continued response as the call gave it.
  pub execute_stream-Follows :
      (cs : List ProviderRouteCandidate) → Follows [] none cs (execute_stream upstream request cs)
  unfolding execute_stream
  execute_stream-Follows cs = try_candidates-Follows [] none cs
