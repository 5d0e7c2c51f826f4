-- ===== src/Grok/Clean.antt =====
-- No reference is left of an input whose references are expanded.
use provider_core.Prelude.{
  ◌≡◌, refl, sym, ◌∙◌, ap, arith, Bool, true, false, ◌||◌, Option, none, some, List, [], ◌∷◌, ◌++◌,
  if◌then◌else◌, is_some, any, all, filter, Map, get, insert, contains, holds, Text, Text-discrete,
  get-insert_self, get-insert_ne, codes, Bool-cases, inl, inr,
}
use provider_core.Claude.Event.{EventJson, and_then}
use provider_core.Grok.Items.{is_one_of, reference_types}
use provider_core.Grok.References.{
  Index, new_index, is_reference, id_of, add_local, index_local, add_cached, index_cached, resolve,
  resolve_id, resolve_all,
}

pub any-append :
    {A : Type 0} (test : A → Bool) (xs ys : List A)
    → any test xs ≡ false
    → any test ys ≡ false
    → any test (xs ++ ys) ≡ false
unfolding any
any-append test [] ys h k = k
any-append test (x ∷ xs) ys h k = ground (arith, any-append test xs ys)

pub any-filter :
    {A : Type 0} (test keeps : A → Bool) (xs : List A)
    → ((x : A) → keeps x ≡ true → test x ≡ false)
    → any test (filter keeps xs) ≡ false
unfolding any filter
any-filter test keeps [] f = refl
any-filter test keeps (x ∷ xs) f = ground (arith, any-filter test keeps xs f, f x)

pub any-all :
    {A : Type 0} (test keeps : A → Bool) (xs : List A)
    → ((x : A) → keeps x ≡ true → test x ≡ false)
    → all keeps xs ≡ true
    → any test xs ≡ false
unfolding any all
any-all test keeps [] f h = refl
any-all test keeps (x ∷ xs) f h = ground (arith, any-all test keeps xs f, f x)

-- An item of another type is no reference.
pub one_of-disjoint :
    (names : List Text) (kind : Option Text)
    → contains Text-discrete names (codes "item_reference") ≡ false
    → is_one_of names kind ≡ true
    → is_one_of reference_types kind ≡ false
unfolding contains
one_of-disjoint names none d h = refl
one_of-disjoint names (some kind) d h =
    elim (Text-discrete (codes "item_reference") kind) as (λ e. (holds e || false) ≡ false) [
      | yes e ↦ let e2 = ap (contains Text-discrete names) e in cc
      | no n ↦ refl
    ]

module _ (json : EventJson) where
  open json use {Value}

  abbrev pub NoReference : List Value → Type 0
  NoReference items = any (is_reference json) items ≡ false

  -- What stands in the index is no reference.
  abbrev pub IsClean : Index json → Type 0
  IsClean x =
      (id : Text) (item : Value)
      → get Text-discrete x.index id ≡ some item
      → is_reference json item ≡ false

  insert-clean :
      (m : Map Text Value) (id : Text) (item : Value)
      → is_reference json item ≡ false
      → ((j : Text) (v : Value) → get Text-discrete m j ≡ some v → is_reference json v ≡ false)
      → (j : Text) (v : Value) → get Text-discrete (insert Text-discrete m id item) j ≡ some v
      → is_reference json v ≡ false
  insert-clean m id item n h j v e = elim (Text-discrete id j) [
    | yes same ↦
        let m2 = insert Text-discrete m id item in
        let found : some item ≡ some v =
          sym (get-insert_self Text-discrete m id item) ∙ ap (get Text-discrete m2) same ∙ e in
        cc (found, n)
    | no other ↦ h j v (sym (get-insert_ne Text-discrete m id j item other) ∙ e)
  ]

  clean-if :
      (test : Bool) (m n : Map Text Value) (j : Text) (v : Value)
      → (get Text-discrete m j ≡ some v → is_reference json v ≡ false)
      → (get Text-discrete n j ≡ some v → is_reference json v ≡ false)
      → get Text-discrete (if test then m else n) j ≡ some v
      → is_reference json v ≡ false
  clean-if true m n j v f g = f
  clean-if false m n j v f g = g

  add_local-IsClean :
      (id : Option Text) (item : Value) (x : Index json)
      → is_reference json item ≡ false
      → IsClean x
      → IsClean (add_local json id item x)
  add_local-IsClean none item x n h = h
  add_local-IsClean (some id) item x n h = λ j v.
      clean-if (is_some (get Text-discrete x.index id)) x.index
        (insert Text-discrete x.index id item) j v (h j v) (insert-clean x.index id item n h j v)

  pub index_local-IsClean :
      (input : List Value) (x : Index json) → IsClean x → IsClean (index_local json input x)
  unfolding index_local
  index_local-IsClean [] x h = h
  index_local-IsClean (item ∷ input) x h =
      index_local-IsClean input _ (elim (Bool-cases (is_reference json item)) [
        | inl reference ↦ simp reference h
        | inr item_itself ↦
            simp item_itself (add_local-IsClean (id_of json item) item x item_itself h)
      ])

  add_cached-IsClean :
      (id : Option Text) (item : Value) (x : Index json)
      → is_reference json item ≡ false
      → IsClean x
      → IsClean (add_cached json id item x)
  add_cached-IsClean none item x n h = h
  add_cached-IsClean (some id) item x n h =
      elim (Bool-cases (contains Text-discrete x.local_ids id)) [
        | inl known ↦ simp known h
        | inr new ↦ simp new (insert-clean x.index id item n h)
      ]

  pub index_cached-IsClean :
      (items : List Value) (x : Index json)
      → NoReference items
      → IsClean x
      → IsClean (index_cached json items x)
  unfolding index_cached any
  index_cached-IsClean [] x n h = h
  index_cached-IsClean (item ∷ items) x n h =
      index_cached-IsClean items _ (ground arith)
        (add_cached-IsClean (id_of json item) item x (ground arith) h)

  resolve_id-clean :
      (id : Option Text) (x : Index json) (v : Value)
      → IsClean x
      → resolve_id json id x ≡ some v
      → is_reference json v ≡ false
  resolve_id-clean none x v h e = cc
  resolve_id-clean (some id) x v h e =
      elim (Bool-cases (contains Text-discrete x.ambiguous_ids id)) [
        | inl doubt ↦ let e2 = simp doubt at e in cc
        | inr sure ↦ h id v (simp sure at e)
      ]

  pub and_then-eq-some :
      {A B : Type 0} (o : Option A) (f : A → Option B) (b : B)
      → and_then o f ≡ some b
      → (a : A) × (o ≡ some a) × (f a ≡ some b)
  and_then-eq-some none f b e = cc
  and_then-eq-some (some a) f b e = (a, refl, e)

  resolve-clean :
      (item : Value) (x : Index json) (v : Value)
      → IsClean x
      → resolve json item x ≡ some v
      → is_reference json v ≡ false
  resolve-clean item x v h e = elim (Bool-cases (is_reference json item)) [
    | inl reference ↦ resolve_id-clean (id_of json item) x v h (rw reference at e)
    | inr item_itself ↦
        let same : some item ≡ some v = rw item_itself at e in cc (same, item_itself)
  ]

  pub resolve_all-NoReference :
      (input : List Value) (x : Index json) (out : List Value)
      → IsClean x
      → resolve_all json input x ≡ some out
      → NoReference out
  unfolding resolve_all any
  resolve_all-NoReference [] x out h e =
      let none_left : NoReference [] = refl in
      let same : [] ≡ out = cc e in ap (any (is_reference json)) (sym same) ∙ none_left
  resolve_all-NoReference (item ∷ input) x out h e =
      let (found, first, e2) = and_then-eq-some (resolve json item x) _ out e in
      let (rest, second, e3) = and_then-eq-some (resolve_all json input x) _ out e2 in
      let clean = resolve-clean item x found h first in
      let later = resolve_all-NoReference input x rest h second in
      let both : NoReference (found ∷ rest) = ground (arith, clean, later) in
      let same : found ∷ rest ≡ out = cc e3 in ap (any (is_reference json)) (sym same) ∙ both

  pub new_index-IsClean : IsClean (new_index json)
  unfolding get
  new_index-IsClean id item found = cc
