-- ===== src/Grok/Paired.antt =====
-- What a complete request is, in terms of its items: crates/provider-drivers/src/grok/replay.rs.
use Prim.Native.String.{String}
use provider_core.Prelude.{
  ◌≡◌, ◌⊎◌, refl, sym, ◌∙◌, ap, arith, Bool, true, false, not, Option, none, some, List, [], ◌∷◌,
  is_some, is_empty, trim, contains, any, IsMember, contains-IsMember, IsMember-contains,
  any-IsMember, none-IsMember, Text, Text-discrete, codes, Bool-cases, Option-cases, inl, inr,
  subst,
}
use provider_core.Router.Continuation.{same_text-eq}
use provider_core.Claude.Event.{EventJson}
use provider_core.Grok.Cache.{ReplayJson}
use provider_core.Grok.Items.{str_of, has_type, is_one_of, is_assistant}
use provider_core.Grok.Body.{
  Body, Payload, object, items, add_id, named_id, call_ids, trimmed_ids, is_history,
  tool_output_call_ids, has_unpaired_tool_outputs, request_contains_complete_history,
  input_has_item_reference,
}

abbrev references : List Text
references = codes "item_reference" ∷ []

abbrev tool_outputs : List Text
tool_outputs =
    codes "function_call_output"
    ∷ codes "custom_tool_call_output"
    ∷ codes "local_shell_call_output"
    ∷ codes "tool_search_output"
    ∷ codes "mcp_tool_call_output"
    ∷ []

abbrev tool_calls : List Text
tool_calls =
    codes "function_call"
    ∷ codes "custom_tool_call"
    ∷ codes "local_shell_call"
    ∷ codes "tool_search_call"
    ∷ codes "mcp_tool_call"
    ∷ []

module _ (json : EventJson) (replay : ReplayJson json) where
  open json use {Value, get, as_str}

  -- The item has the text under the key.
  abbrev pub Says : Value → String → Text → Type 0
  Says item key t = (value : Value) × (get item key ≡ some value) × (as_str value ≡ some t)

  -- The item is of one of the types.
  abbrev pub IsOf : List Text → Value → Type 0
  IsOf names item = (name : Text) × Says item "type" name × IsMember name names

  -- The input has a call with the id.
  abbrev pub HasCall : List Value → Text → Type 0
  HasCall input id =
      (item : Value) × IsMember item input × IsOf tool_calls item × Says item "call_id" id

  -- The input holds a reasoning, a call or something that the assistant said.
  abbrev pub HasHistory : List Value → Type 0
  HasHistory input =
      (item : Value) × IsMember item input
      × (IsOf (codes "reasoning" ∷ []) item
          ⊎ (IsOf tool_calls item ⊎ Says item "role" (codes "assistant")))

  -- No item is a reference to a past item, and each output of a tool with a call id has its call, or
  -- else the request names the previous response and the input holds a history of its own.
  pub record IsComplete (previous : Option Text) (input : List Value) : Type 0 where
    pub resolved : (item : Value) → IsMember item input → ¬ IsOf references item
    pub paired :
        (item : Value) (id : Text)
        → IsMember item input
        → IsOf tool_outputs item
        → Says item "call_id" id
        → is_empty (trim id) ≡ false
        → HasCall input (trim id) ⊎ ((is_some previous ≡ true) × HasHistory input)

  -- A payload with a body, of which the input is complete where it is a list of items.
  abbrev pub IsSent : Option Text → Payload Value → Type 0
  IsSent previous payload =
      (body : Body Value) × (payload ≡ object body)
      × ((input : List Value) → body.input ≡ items input → IsComplete previous input)

  str_of-Says :
      (item : Value) (key : String) (t : Text) → str_of json item key ≡ some t → Says item key t
  str_of-Says item key t h = elim (Option-cases (get item key)) [
    | inl absent ↦ absurd (ground (arith, rw absent at h))
    | inr (value, e) ↦ (value, e, rw e at h)
  ]

  Says-str_of :
      (item : Value) (key : String) (t : Text) → Says item key t → str_of json item key ≡ some t
  Says-str_of item key t (value, e, s) = rw e s

  has_type-IsOf :
      (names : List Text) (item : Value) → has_type json names item ≡ true → IsOf names item
  unfolding has_type
  has_type-IsOf names item h = elim (Option-cases (str_of json item "type")) [
    | inl absent ↦ absurd (ground (arith, rw absent at h))
    | inr (name, e) ↦ (
      name,
      str_of-Says item "type" name e,
      contains-IsMember Text-discrete names name (rw e at h),
    )
  ]

  IsOf-has_type :
      (names : List Text) (item : Value) → IsOf names item → has_type json names item ≡ true
  unfolding has_type
  IsOf-has_type names item (name, says, known) =
      ap (is_one_of names) (Says-str_of item "type" name says)
      ∙ IsMember-contains Text-discrete names name known

  is_assistant-Says :
      (item : Value) → is_assistant json item ≡ true → Says item "role" (codes "assistant")
  is_assistant-Says item h = elim (Option-cases (str_of json item "role")) [
    | inl absent ↦ absurd (ground (arith, rw absent at h))
    | inr (role, e) ↦
        str_of-Says item "role" (codes "assistant")
          (e ∙ ap some (same_text-eq role (codes "assistant") (rw e at h)))
  ]

  named_id-IsOf :
      (names : List Text) (item : Value) (id : Text)
      → named_id json replay names item ≡ some id
      → IsOf names item × Says item "call_id" id
  named_id-IsOf names item id h = elim (Bool-cases (has_type json names item)) [
    | inl typed ↦ (has_type-IsOf names item typed, str_of-Says item "call_id" id (rw typed at h))
    | inr untyped ↦ absurd (ground (arith, rw untyped at h))
  ]

  IsOf-named_id :
      (names : List Text) (item : Value) (id : Text)
      → IsOf names item
      → Says item "call_id" id
      → named_id json replay names item ≡ some id
  IsOf-named_id names item id o s =
      rw (IsOf-has_type names item o) (Says-str_of item "call_id" id s)

  call_ids-cons :
      (names : List Text) (item : Value) (input : List Value) (o : Option Text)
      → named_id json replay names item ≡ o
      → call_ids json replay names (item ∷ input)
        ≡ add_id json replay o (call_ids json replay names input)
  unfolding call_ids
  call_ids-cons names item input o e =
      ap (λ found. add_id json replay found (call_ids json replay names input)) e

  call_ids-IsMember :
      (names : List Text) (input : List Value) (id : Text)
      → IsMember id (call_ids json replay names input)
      → (item : Value) × IsMember item input × IsOf names item × Says item "call_id" id
  unfolding call_ids
  call_ids-IsMember names [] id h = absurd h
  call_ids-IsMember names (item ∷ input) id h =
      let later : IsMember id (call_ids json replay names input)
          → (found : Value) × IsMember found (item ∷ input)
            × IsOf names found
            × Says found "call_id" id =
        λ k.
          let (found, known, o, says) = call_ids-IsMember names input id k in
          (found, inr known, o, says) in
      elim (Option-cases (named_id json replay names item)) [
        | inl absent ↦ later (subst (IsMember id) (call_ids-cons names item input none absent) h)
        | inr (call_id, e) ↦
            let split : (id ≡ call_id) ⊎ IsMember id (call_ids json replay names input) =
              subst (IsMember id) (call_ids-cons names item input (some call_id) e) h in
            elim split [
              | inl same ↦
                  let (o, says) = named_id-IsOf names item id (e ∙ ap some (sym same)) in
                  (item, inl refl, o, says)
              | inr rest ↦ later rest
            ]
      ]

  IsMember-call_ids :
      (names : List Text) (input : List Value) (item : Value) (id : Text)
      → IsMember item input
      → IsOf names item
      → Says item "call_id" id
      → IsMember id (call_ids json replay names input)
  IsMember-call_ids names [] item id m o s = absurd m
  IsMember-call_ids names (first ∷ input) item id (inl same) o s =
      let e : named_id json replay names first ≡ some id =
        ap (named_id json replay names) (sym same) ∙ IsOf-named_id names item id o s in
      subst (IsMember id) (sym (call_ids-cons names first input (some id) e)) (inl refl)
  IsMember-call_ids names (first ∷ input) item id (inr later) o s =
      let known = IsMember-call_ids names input item id later o s in
      elim (Option-cases (named_id json replay names first)) [
        | inl absent ↦ subst (IsMember id) (sym (call_ids-cons names first input none absent)) known
        | inr (call_id, e) ↦
            subst (IsMember id) (sym (call_ids-cons names first input (some call_id) e)) (inr known)
      ]

  IsMember-trimmed_ids :
      (ids : List Text) (id : Text)
      → IsMember id ids
      → is_empty (trim id) ≡ false
      → IsMember (trim id) (trimmed_ids json replay ids)
  unfolding trimmed_ids
  IsMember-trimmed_ids [] id m h = absurd m
  IsMember-trimmed_ids (x ∷ ids) id (inl e) h =
      rw (ap (λ t. is_empty (trim t)) (sym e) ∙ h) (inl (ap trim e))
  IsMember-trimmed_ids (x ∷ ids) id (inr later) h =
      let known = IsMember-trimmed_ids ids id later h in
      elim (Bool-cases (is_empty (trim x))) [
        | inl blank ↦ rw blank known
        | inr full ↦ rw full (inr known)
      ]

  history_item :
      (item : Value)
      → is_history json replay item ≡ true
      → IsOf (codes "reasoning" ∷ []) item
        ⊎ (IsOf tool_calls item ⊎ Says item "role" (codes "assistant"))
  history_item item h = elim (Bool-cases (has_type json (codes "reasoning" ∷ []) item)) [
    | inl reasoning ↦ inl (has_type-IsOf (codes "reasoning" ∷ []) item reasoning)
    | inr silent ↦ elim (Bool-cases (has_type json tool_calls item)) [
      | inl called ↦ inr (inl (has_type-IsOf tool_calls item called))
      | inr neither ↦ inr (inr (is_assistant-Says item (rw (silent, neither) at h)))
    ]
  ]

  history-HasHistory :
      (input : List Value) → any (is_history json replay) input ≡ true → HasHistory input
  history-HasHistory input h =
      let (item, known, spoken) = any-IsMember (is_history json replay) input h in
      (item, known, history_item item spoken)

  -- The tests of the code, on the items of the body.
  tested-IsComplete :
      (previous : Option Text) (input : List Value)
      → any (has_type json references) input ≡ false
      → (any
              (λ id. not (contains Text-discrete (call_ids json replay tool_calls input) id))
              (trimmed_ids json replay (call_ids json replay tool_outputs input))
            ≡ true
          → (is_some previous ≡ true) × (any (is_history json replay) input ≡ true))
      → IsComplete previous input
  tested-IsComplete previous input clean paired = record {
    resolved = λ item known refers. absurd (
        ground (
          arith,
          none-IsMember (has_type json references) input item clean known,
          IsOf-has_type references item refers,
        ));
    paired = λ item id known o says full.
        let ids = trimmed_ids json replay (call_ids json replay tool_outputs input) in
        let calls = call_ids json replay tool_calls input in
        let unpaired : Text → Bool = λ i. not (contains Text-discrete calls i) in
        let asked : IsMember (trim id) ids =
          IsMember-trimmed_ids (call_ids json replay tool_outputs input) id
            (IsMember-call_ids tool_outputs input item id known o says) full in
        elim (Bool-cases (any unpaired ids)) [
          | inl some_left ↦
              let (named, history) = paired some_left in
              inr (named, history-HasHistory input history)
          | inr all_paired ↦ inl (
              call_ids-IsMember tool_calls input (trim id) (
                contains-IsMember Text-discrete calls (trim id)
                  (ground (arith, none-IsMember unpaired ids (trim id) all_paired asked))))
        ];
  }

  pub checked-IsComplete :
      (previous : Option Text) (body : Body Value) (input : List Value)
      → body.input ≡ items input
      → input_has_item_reference json replay body ≡ false
      → (has_unpaired_tool_outputs json replay body (tool_output_call_ids json replay body) ≡ true
          → (is_some previous ≡ true) × (request_contains_complete_history json replay body ≡ true))
      → IsComplete previous input
  unfolding input_has_item_reference has_unpaired_tool_outputs tool_output_call_ids
      request_contains_complete_history
  checked-IsComplete previous body input e clean paired =
      tested-IsComplete previous input (rw e at clean) (rw e at paired)
