-- ===== src/Grok/Sent.antt =====
-- No step of the preparation of a request leaves a reference to a past item.
use provider_core.Prelude.{
  ℕ, ◌≡◌, refl, sym, ◌∙◌, ap, arith, Bool, true, false, Option, none, some, List, [], ◌∷◌, ◌++◌,
  is_empty, any, contains, All, All-map, Every-some, Text, Text-discrete, ℕ_discrete, codes,
  Bool-cases, inl, inr,
}
use provider_core.Prelude.Results.{ok, >>=-eq-ok}
use provider_core.Claude.Event.{EventJson}
use provider_core.Grok.Items.{str_of, has_type, spoken_types, call_types, is_replayable_item}
use provider_core.Grok.Cache.{
  GrokReplayScope, ReplayJson, ReplayEntry, GrokReplayCache, Stored, expire, entry, choose,
}
use provider_core.Grok.References.{
  is_reference, cached_items_for_session, items_or, items_to_resolve, expand_item_references,
}
use provider_core.Grok.Body.{
  Input, Body, text, items, other, input_items, input_has_item_reference, is_lacking, lacking,
  prepend, inject_into, inject_replay_items,
}
use provider_core.Grok.Prepare.{Reading, expand_in, expand, replay_in}
use provider_core.Grok.Kept.{retain-All, IsValid, AreKept}
use provider_core.Grok.Own.{IsOwn, choose-All, values_of-eq-some}
use provider_core.Grok.Clean.{NoReference, any-append, any-filter, any-all, one_of-disjoint}
use provider_core.Grok.Resolved.{cached_items_for_session-NoReference, resolve_with-NoReference}

module _ (json : EventJson) (replay : ReplayJson json) where
  open json use {Value}

  type_disjoint :
      (names : List Text) (item : Value)
      → contains Text-discrete names (codes "item_reference") ≡ false
      → has_type json names item ≡ true
      → is_reference json item ≡ false
  unfolding has_type
  type_disjoint names item d h = one_of-disjoint names (str_of json item "type") d h

  kept-NoReference : (stored : List Value) → AreKept json replay stored → NoReference json stored
  unfolding is_replayable_item has_type contains Text-discrete ℕ_discrete
  kept-NoReference stored k =
      any-all (is_reference json) (is_replayable_item json) stored
        (λ item r. type_disjoint (spoken_types ++ call_types) item refl r) k.1

  pub valid-NoReference :
      (m : GrokReplayCache json)
      → IsValid json replay m
      → All (λ e. NoReference json e.value.items) m
  valid-NoReference m h =
      All-map (λ e. AreKept json replay e.value.items) (λ e. NoReference json e.value.items) m
        (λ e k. kept-NoReference e.value.items k) h.kept

  entry-NoReference :
      (scope : GrokReplayScope) (previous : Option Text) (outputs : List Text) (now : ℕ)
      (m : GrokReplayCache json) (found : ReplayEntry json)
      → All (λ e. NoReference json e.value.items) m
      → entry json scope previous outputs now m ≡ some found
      → NoReference json found.items
  unfolding entry expire
  entry-NoReference scope previous outputs now m found h e =
      let P : Stored json → Type 0 = λ s. NoReference json s.value.items in
      let (s, chosen, same) =
        values_of-eq-some json (choose json scope previous outputs (expire json now m)) found e in
      let own =
        Every-some (λ t. P t × IsOwn json scope t) _ s
          (choose-All json P scope previous outputs _ (retain-All P P _ m (λ t k p. p) h)) chosen in
      ap (λ v. any (is_reference json) v.items) (sym same) ∙ own.0

  items_or-NoReference :
      (o : Option (ReplayEntry json)) (cached : List Value)
      → ((found : ReplayEntry json) → o ≡ some found → NoReference json found.items)
      → items_or json o ≡ ok cached
      → NoReference json cached
  items_or-NoReference none cached f e = cc
  items_or-NoReference (some found) cached f e =
      let same : found.items ≡ cached = cc e in
      ap (any (is_reference json)) (sym same) ∙ f found refl

  items_to_resolve-NoReference :
      (scope : GrokReplayScope) (previous : Option Text) (now : ℕ) (m : GrokReplayCache json)
      (cached : List Value)
      → All (λ e. NoReference json e.value.items) m
      → items_to_resolve json scope previous now m ≡ ok cached
      → NoReference json cached
  items_to_resolve-NoReference scope none now m cached h e =
      elim (Bool-cases (is_empty scope.session_id)) [
        | inl empty ↦ let e2 = rw empty at e in cc
        | inr session ↦
            let e2 : ok (cached_items_for_session json scope now m) ≡ ok cached = rw session at e in
            let e3 : cached_items_for_session json scope now m ≡ cached = cc e2 in
            ap (any (is_reference json)) (sym e3)
            ∙ cached_items_for_session-NoReference json scope now m h
      ]
  items_to_resolve-NoReference scope (some previous) now m cached h e =
      items_or-NoReference (entry json scope (some previous) [] now m) cached
        (λ found f. entry-NoReference scope (some previous) [] now m found h f) e

  expand_in-NoReference :
      (scope : Option GrokReplayScope) (previous : Option Text) (at : Reading json replay)
      (body later : Body Value)
      → All (λ e. NoReference json e.value.items) at.cache
      → expand_in json replay scope previous at body ≡ ok later
      → NoReference json (input_items json replay later.input)
  unfolding expand_item_references
  expand_in-NoReference none previous at body later h e = cc
  expand_in-NoReference (some scope) previous at body later h e =
      let input = input_items json replay body.input in
      let (out, expanded, same) =
        >>=-eq-ok (expand_item_references json input scope previous at.now at.cache) _ e in
      let (cached, read, resolved) =
        >>=-eq-ok (items_to_resolve json scope previous at.now at.cache) _ expanded in
      let clean =
        resolve_with-NoReference json input cached out
          (items_to_resolve-NoReference scope previous at.now at.cache cached h read) resolved in
      let same2 : record body { input = items out } ≡ later = cc same in
      ap (λ b. any (is_reference json) (input_items json replay b.input)) (sym same2) ∙ clean

  pub expand-NoReference :
      (scope : Option GrokReplayScope) (previous : Option Text) (at : Reading json replay)
      (body later : Body Value)
      → All (λ e. NoReference json e.value.items) at.cache
      → expand json replay scope previous at body ≡ ok later
      → NoReference json (input_items json replay later.input)
  unfolding input_has_item_reference
  expand-NoReference scope previous at body later h e =
      elim (Bool-cases (input_has_item_reference json replay body)) [
        | inr clean ↦
            let same : ok body ≡ ok later = rw clean at e in
            let same2 : body ≡ later = cc same in
            ap (λ b. any (is_reference json) (input_items json replay b.input)) (sym same2) ∙ clean
        | inl refers ↦ expand_in-NoReference scope previous at body later h (rw refers at e)
      ]

  is_lacking-clean :
      (input : List Value) (item : Value)
      → is_lacking json replay input item ≡ true
      → is_reference json item ≡ false
  unfolding contains Text-discrete ℕ_discrete
  is_lacking-clean input item h = elim (Bool-cases (has_type json spoken_types item)) [
    | inl spoken ↦ type_disjoint spoken_types item refl spoken
    | inr silent ↦ elim (Bool-cases (has_type json call_types item)) [
      | inl called ↦ type_disjoint call_types item refl called
      | inr neither ↦ ground arith
    ]
  ]

  -- The message of an input text has no type.
  abbrev pub IsUntyped : Type 0
  IsUntyped = (t : Text) → json.get (replay.user_message t) "type" ≡ none

  prepend-NoReference :
      (found input : List Value) (body : Body Value)
      → NoReference json found
      → NoReference json input
      → NoReference json (input_items json replay (prepend json replay found input body).body.input)
  prepend-NoReference [] input body f n = n
  prepend-NoReference (item ∷ found) input body f n =
      any-append (is_reference json) (item ∷ found) input f n

  lacking-NoReference :
      (input cached : List Value) → NoReference json (lacking json replay input cached)
  unfolding lacking
  lacking-NoReference input cached =
      any-filter (is_reference json) (is_lacking json replay input) cached (is_lacking-clean input)

  inject-NoReference :
      (input : Input Value) (cached : List Value) (body : Body Value)
      → IsUntyped
      → NoReference json (input_items json replay input)
      → body.input ≡ input
      → NoReference json
          (input_items json replay (inject_into json replay input cached body).body.input)
  unfolding any has_type
  inject-NoReference other cached body untyped n e =
      ap (λ i. any (is_reference json) (input_items json replay i)) e ∙ n
  inject-NoReference (items input) cached body untyped n e =
      prepend-NoReference (lacking json replay input cached) input body
        (lacking-NoReference input cached) n
  inject-NoReference (text t) cached body untyped n e =
      let message = replay.user_message t ∷ [] in
      let clean : NoReference json message = rw (untyped t) refl in
      elim (Bool-cases (any (has_type json spoken_types) cached)) [
        | inl spoken ↦ simp spoken (
            prepend-NoReference (lacking json replay message cached) message body
              (lacking-NoReference message cached) clean)
        | inr silent ↦
            simp silent (ap (λ i. any (is_reference json) (input_items json replay i)) e ∙ n)
      ]

  pub replay_in-NoReference :
      (expanded : Bool) (found : Option (ReplayEntry json)) (body : Body Value)
      → IsUntyped
      → NoReference json (input_items json replay body.input)
      → NoReference json
          (input_items json replay (replay_in json replay expanded found body).body.input)
  unfolding inject_replay_items
  replay_in-NoReference true found body untyped n = n
  replay_in-NoReference false none body untyped n = n
  replay_in-NoReference false (some e) body untyped n =
      inject-NoReference body.input e.items body untyped n refl
