-- ===== src/Grok/Resolved.antt =====
-- The items that references are expanded to are no references themselves.
use provider_core.Prelude.{
  ℕ, ◌≡◌, refl, Option, none, some, List, [], ◌∷◌, ltb, any, All, Bool-cases, inl, inr,
}
use provider_core.Prelude.Results.{ok, ok_or}
use provider_core.Claude.Event.{EventJson}
use provider_core.Grok.Cache.{GrokReplayScope, GrokReplayCache, Stored, expire, is_scope}
use provider_core.Grok.References.{
  new_index, is_reference, index_local, index_cached, resolve_all, resolve_with,
  cached_items_for_session, sort_stored, insert_stored, items_of,
}
use provider_core.Grok.Kept.{retain-All}
use provider_core.Grok.Clean.{
  NoReference, any-append, index_local-IsClean, index_cached-IsClean, new_index-IsClean,
  resolve_all-NoReference,
}

ok_or-eq-ok : {E A : Type 0} (o : Option A) (why : E) (a : A) → ok_or o why ≡ ok a → o ≡ some a
ok_or-eq-ok none why a e = cc
ok_or-eq-ok (some b) why a e = cc

module _ (json : EventJson) where
  open json use {Value}

  insert_stored-All :
      (P : Stored json → Type 0) (e : Stored json) (m : GrokReplayCache json)
      → P e
      → All P m
      → All P (insert_stored json e m)
  unfolding insert_stored
  insert_stored-All P e [] p h = (p, tt)
  insert_stored-All P e (f ∷ m) p h = elim (Bool-cases (ltb f.value.stored_at e.value.stored_at)) [
    | inl earlier ↦ simp earlier ((h.0, insert_stored-All P e m p h.1))
    | inr here ↦ simp here ((p, h))
  ]

  sort_stored-All :
      (P : Stored json → Type 0) (m : GrokReplayCache json) → All P m → All P (sort_stored json m)
  unfolding sort_stored
  sort_stored-All P [] h = tt
  sort_stored-All P (e ∷ m) h =
      insert_stored-All P e (sort_stored json m) h.0 (sort_stored-All P m h.1)

  items_of-NoReference :
      (m : GrokReplayCache json)
      → All (λ e. NoReference json e.value.items) m
      → NoReference json (items_of json m)
  unfolding items_of any
  items_of-NoReference [] h = refl
  items_of-NoReference (e ∷ m) h =
      any-append (is_reference json) e.value.items (items_of json m) h.0
        (items_of-NoReference m h.1)

  pub cached_items_for_session-NoReference :
      (scope : GrokReplayScope) (now : ℕ) (m : GrokReplayCache json)
      → All (λ e. NoReference json e.value.items) m
      → NoReference json (cached_items_for_session json scope now m)
  unfolding cached_items_for_session expire
  cached_items_for_session-NoReference scope now m h =
      let P : Stored json → Type 0 = λ e. NoReference json e.value.items in
      items_of-NoReference _ (
        sort_stored-All P _ (
          retain-All P P (λ e. is_scope e.key.scope scope) _ (λ e k p. p)
            (retain-All P P _ m (λ e k p. p) h)))

  pub resolve_with-NoReference :
      (input cached out : List Value)
      → NoReference json cached
      → resolve_with json input cached ≡ ok out
      → NoReference json out
  unfolding index_local index_cached
  resolve_with-NoReference input cached out n e =
      let x = index_cached json cached (index_local json input (new_index json)) in
      resolve_all-NoReference json input x out
        (index_cached-IsClean json cached _ n
          (index_local-IsClean json input (new_index json) (new_index-IsClean json)))
        (ok_or-eq-ok (resolve_all json input x) _ out e)
