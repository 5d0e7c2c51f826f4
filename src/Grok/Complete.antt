-- ===== src/Grok/Complete.antt =====
-- A request that is sent on is complete: it refers to no past item, and a tool's output has its call.
use std.Path.{subst}
use provider_core.Prelude.{
  ◌≡◌, refl, sym, ◌∙◌, ap, arith, Bool, true, false, not, ◌&&◌, ◌||◌, Option, none, some,
  if◌then◌else◌, is_some, is_none, Text, Bool-cases, inl, inr,
}
use provider_core.Prelude.Results.{Result, ok, err, >>=-eq-ok}
use provider_core.Claude.Event.{EventJson}
use provider_core.Grok.Cache.{GrokReplayScope, ReplayJson}
use provider_core.Grok.Body.{
  Body, Payload, not_json, not_object, object, tool_output_call_ids, has_unpaired_tool_outputs,
  request_contains_complete_history, input_has_item_reference, Replayed,
}
use provider_core.Grok.Prepare.{
  ProviderRequest, replay_scope, Reading, expand, entry_for, replay_in, check_body, check_replayed,
  finish_request, previous_of, prepare_body, prepare_payload, prepare_request,
}
use provider_core.Grok.Kept.{IsValid}
use provider_core.Grok.Paired.{IsSent, checked-IsComplete}
use provider_core.Grok.Sent.{
  IsUntyped, valid-NoReference, expand-NoReference, replay_in-NoReference,
}

guard-eq-ok :
    {E A : Type 0} (test : Bool) (why : E) (next : Result E A) (a : A)
    → (if test then err why else next) ≡ ok a
    → (test ≡ false) × (next ≡ ok a)
guard-eq-ok true why next a e = cc
guard-eq-ok false why next a e = (refl, e)

module _ (json : EventJson) (replay : ReplayJson json) where
  open json use {Value}

  -- What the tests of the code say of the body.
  record IsChecked (previous : Option Text) (body : Body Value) : Type 0 where
    pub resolved : input_has_item_reference json replay body ≡ false
    pub paired :
        has_unpaired_tool_outputs json replay body (tool_output_call_ids json replay body) ≡ true
        → (is_some previous ≡ true) × (request_contains_complete_history json replay body ≡ true)

  -- A payload whose body passes the tests.
  abbrev WasChecked : Option Text → Payload Value → Type 0
  WasChecked previous not_json = ⊥
  WasChecked previous not_object = ⊥
  WasChecked previous (object body) = IsChecked previous body

  is_none-not : (o : Option Text) → is_none o ≡ not (is_some o)
  is_none-not none = refl
  is_none-not (some a) = refl

  unpaired_only :
      (named unnamed no_entry replayed complete expanded unpaired : Bool)
      → unnamed ≡ not named
      → (named && (no_entry || not replayed) && not complete) ≡ false
      → (unpaired && (expanded || replayed || unnamed && (no_entry || not replayed))) ≡ false
      → unpaired ≡ true
      → (named ≡ true) × (complete ≡ true)
  unpaired_only named unnamed no_entry replayed complete expanded unpaired n t1 t2 u =
      (ground arith, ground arith)

  check_body-paired :
      (expanded : Bool) (previous : Option Text) (no_entry : Bool) (r : Replayed json replay)
      (body : Body Value)
      → check_body json replay expanded previous no_entry r ≡ ok body
      → (body ≡ r.body)
        × (has_unpaired_tool_outputs json replay r.body (tool_output_call_ids json replay r.body)
              ≡ true
            → (is_some previous ≡ true)
              × (request_contains_complete_history json replay r.body ≡ true))
  check_body-paired expanded previous no_entry r body e =
      let unpaired =
        has_unpaired_tool_outputs json replay r.body (tool_output_call_ids json replay r.body) in
      let complete = request_contains_complete_history json replay r.body in
      let (t1, e1) =
        guard-eq-ok (is_some previous && (no_entry || not r.replayed) && not complete) _ _ body e in
      let (t2, e2) =
        guard-eq-ok
          (unpaired && (expanded || r.replayed || is_none previous && (no_entry || not r.replayed)))
          _ _ body e1 in
      (
        cc e2,
        λ u.
            unpaired_only (is_some previous) (is_none previous) no_entry r.replayed complete
              expanded unpaired (is_none-not previous) t1 t2 u,
      )

  without_previous :
      (previous : Option Text) (body : Body Value)
      → IsChecked previous body
      → IsChecked previous (record body { previous_response_id = none })
  unfolding input_has_item_reference has_unpaired_tool_outputs tool_output_call_ids
      request_contains_complete_history
  without_previous previous body h = record { resolved = h.resolved; paired = h.paired }

  finish_request-WasChecked :
      (expanded : Bool) (previous : Option Text) (request : ProviderRequest Value)
      (r : Replayed json replay)
      → IsChecked previous r.body
      → WasChecked previous (finish_request json replay expanded previous request r).payload
  finish_request-WasChecked expanded previous request r h =
      elim (Bool-cases (is_some previous || r.replayed || expanded)) [
        | inl continued ↦ simp continued (without_previous previous r.body h)
        | inr fresh ↦ simp fresh h
      ]

  prepare_body-WasChecked :
      (request : ProviderRequest Value) (body : Body Value) (first second : Reading json replay)
      (prepared : ProviderRequest Value)
      → IsUntyped json replay
      → IsValid json replay first.cache
      → prepare_body json replay request body first second ≡ ok prepared
      → WasChecked (previous_of json replay request body) prepared.payload
  unfolding input_has_item_reference
  prepare_body-WasChecked request body first second prepared untyped valid e =
      let scope = replay_scope request.metadata request.model in
      let previous = previous_of json replay request body in
      let expanded = input_has_item_reference json replay body in
      let (b, e1, f1) = >>=-eq-ok (expand json replay scope previous first body) _ e in
      let found =
        entry_for json replay scope previous (tool_output_call_ids json replay b) second in
      let (r, e2, f2) = >>=-eq-ok (check_replayed json replay expanded previous found b) _ f1 in
      let t = replay_in json replay expanded found b in
      let (checked, e3, f3) =
        >>=-eq-ok (check_body json replay expanded previous (is_none found) t) _ e2 in
      let (same, paired) = check_body-paired expanded previous (is_none found) t checked e3 in
      let clean = replay_in-NoReference json replay expanded found b untyped (
        expand-NoReference json replay scope previous first body b
          (valid-NoReference json replay first.cache valid) e1) in
      let complete : IsChecked previous t.body = record { resolved = clean; paired = paired } in
      let sent =
        finish_request-WasChecked expanded previous request
          (record { body = checked; replayed = t.replayed })
          (subst (IsChecked previous) (sym same) complete) in
      let r_same : record { body = checked; replayed = t.replayed } ≡ r = cc f3 in
      let p_same : finish_request json replay expanded previous request r ≡ prepared = cc f2 in
      subst (λ q. WasChecked previous q.payload)
        (ap (finish_request json replay expanded previous request) r_same ∙ p_same) sent

  prepare_payload-WasChecked :
      (payload : Payload Value) (request : ProviderRequest Value)
      (first second : Reading json replay) (prepared : ProviderRequest Value)
      → IsUntyped json replay
      → IsValid json replay first.cache
      → prepare_payload json replay payload request first second ≡ ok prepared
      → (body : Body Value) × (payload ≡ object body)
        × WasChecked (previous_of json replay request body) prepared.payload
  prepare_payload-WasChecked not_json request first second prepared untyped valid e = cc
  prepare_payload-WasChecked not_object request first second prepared untyped valid e = cc
  prepare_payload-WasChecked (object body) request first second prepared untyped valid e =
      (body, refl, prepare_body-WasChecked request body first second prepared untyped valid e)

  WasChecked-IsSent :
      (previous : Option Text) (payload : Payload Value)
      → WasChecked previous payload
      → IsSent json replay previous payload
  WasChecked-IsSent previous not_json h = absurd h
  WasChecked-IsSent previous not_object h = absurd h
  WasChecked-IsSent previous (object body) h = (
    body,
    refl,
    λ input e. checked-IsComplete json replay previous body input e h.resolved h.paired,
  )

  -- A request that is sent on has a body. Where its input is a list of items, none of them is a
  -- reference to a past item, even where the request had such references; and for each output of a
  -- tool whose call id is not blank, the input has a call with that id, but for a request that names
  -- the previous response and holds a reasoning, a call or something that the assistant said. An
  -- output with a blank call id or none is not covered. For this the cache must be valid, and the
  -- message that is made of an input text must have no type.
  pub prepare_request-IsComplete :
      (request : ProviderRequest Value) (first second : Reading json replay)
      (prepared : ProviderRequest Value) (scope : Option GrokReplayScope)
      → IsUntyped json replay
      → IsValid json replay first.cache
      → prepare_request json replay request first second ≡ ok (prepared, scope)
      → (body : Body Value) × (request.payload ≡ object body)
        × IsSent json replay (previous_of json replay request body) prepared.payload
  unfolding prepare_request
  prepare_request-IsComplete request first second prepared scope untyped valid e =
      let (p, e1, e2) =
        >>=-eq-ok (prepare_payload json replay request.payload request first second) _ e in
      let (body, is_body, sent) =
        prepare_payload-WasChecked request.payload request first second p untyped valid e1 in
      let same : p ≡ prepared = cc e2 in
      (
        body,
        is_body,
        WasChecked-IsSent (previous_of json replay request body) prepared.payload
            (subst (λ q. WasChecked (previous_of json replay request body) q.payload) same sent),
      )
