-- ===== src/Router/Bindings/Expiry.antt =====
-- Exactly the bindings whose time is up are forgotten.
use provider_core.Prelude.{
  ◌≤◌, ◌≡◌, ◌≢◌, ◌⊎◌, refl, sym, ◌∙◌, ap, subst, true, false, Option, none, some, List, [], ◌∷◌,
  if◌then◌else◌, arith, All, Bool-cases, Option-cases, inl, inr, is_some_and, get-remove_self,
  get-remove_ne,
}
use provider_core.Router.Bindings.{
  Instant, ResponseBindingKey, ResponseBindingKey-discrete, ResponseBinding, Entries, Queued,
  ResponseBindings, lookup, is_bound_at, drop_entry, is_old, can_go, expire, remove_expired,
}

-- The pair stands in the queue.
abbrev pub IsIn : Queued → List Queued → Type 0
IsIn q [] = ⊥
IsIn q (r ∷ queue) = (q ≡ r) ⊎ IsIn q queue

-- The queue holds every binding.
abbrev pub Holds : List Queued → Entries → Type 0
Holds queue entries =
    (key : ResponseBindingKey) (b : ResponseBinding)
    → lookup entries key ≡ some b
    → IsIn (record { bound_at = b.bound_at; key = key }) queue

-- The times of the queue ascend.
abbrev pub IsOrdered : List Queued → Type 0
IsOrdered [] = Unit {0}
IsOrdered (q ∷ queue) = All (λ (r : Queued). q.bound_at ≤ r.bound_at) queue × IsOrdered queue

-- The binding unless its time is up.
abbrev pub if_live : Instant → Option ResponseBinding → Option ResponseBinding
if_live now none = none
if_live now (some b) = if is_old now b.bound_at then none else some b

drop_entry-other :
    (q : Queued) (entries : Entries) (key : ResponseBindingKey)
    → q.key ≢ key
    → lookup (drop_entry q entries) key ≡ lookup entries key
unfolding drop_entry
drop_entry-other q entries key h =
    elim (Bool-cases (is_some_and (lookup entries q.key) (is_bound_at q.bound_at))) [
      | inl removed ↦ rw removed (get-remove_ne ResponseBindingKey-discrete entries q.key key h)
      | inr kept ↦ rw kept refl
    ]

-- At its own key, a pair takes away the binding of its time.
drop_entry_self :
    (q : Queued) (entries : Entries)
    → (lookup (drop_entry q entries) q.key ≡ none)
        × ((b : ResponseBinding) → lookup entries q.key ≡ some b → b.bound_at ≡ q.bound_at)
      ⊎ ((lookup (drop_entry q entries) q.key ≡ lookup entries q.key)
          × ((b : ResponseBinding) → lookup entries q.key ≡ some b → b.bound_at ≢ q.bound_at))
unfolding drop_entry
drop_entry_self q entries =
    elim (Bool-cases (is_some_and (lookup entries q.key) (is_bound_at q.bound_at))) [
      | inl removed ↦ inl (
        rw removed (get-remove_self ResponseBindingKey-discrete entries q.key),
        λ b e. ground (arith, rw e at removed),
      )
      | inr kept ↦ inr (rw kept refl, λ b e same. absurd (ground (arith, rw e at kept)))
    ]

-- What is left was there before, and is not the binding of the pair.
abbrev IsOther : Queued → Entries → ResponseBindingKey → Type 0
IsOther q entries key =
    (b : ResponseBinding)
    → lookup (drop_entry q entries) key ≡ some b
    → (lookup entries key ≡ some b) × (record { bound_at = b.bound_at; key = key } ≢ q)

drop_entry-IsOther_self : (q : Queued) (entries : Entries) → IsOther q entries q.key
drop_entry-IsOther_self q entries = elim (drop_entry_self q entries) [
  | inl (gone, times) ↦ λ b e. absurd (ground (arith, sym gone ∙ e))
  | inr (kept, times) ↦
      λ b e. (sym kept ∙ e, λ same. times b (sym kept ∙ e) (ap (λ (r : Queued). r.bound_at) same))
]

drop_entry-IsOther :
    (q : Queued) (entries : Entries) (key : ResponseBindingKey) → IsOther q entries key
drop_entry-IsOther q entries key = elim (ResponseBindingKey-discrete q.key key) [
  | yes same ↦ subst (IsOther q entries) same (drop_entry-IsOther_self q entries)
  | no other ↦ λ b e. (
    sym (drop_entry-other q entries key other) ∙ e,
    λ same. other (sym (ap (λ (r : Queued). r.key) same)),
  )
]

pub drop_entry-Holds :
    (q : Queued) (queue : List Queued) (entries : Entries)
    → Holds (q ∷ queue) entries
    → Holds queue (drop_entry q entries)
drop_entry-Holds q queue entries h key b e =
    let (before, other) = drop_entry-IsOther q entries key b e in
    elim (h key b before) [ inl same ↦ absurd (other same) | inr later ↦ later ]

drop_entry-if_live_self :
    (now : Instant) (q : Queued) (entries : Entries)
    → can_go now q entries ≡ true
    → if_live now (lookup (drop_entry q entries) q.key) ≡ if_live now (lookup entries q.key)
drop_entry-if_live_self now q entries go = elim (drop_entry_self q entries) [
  | inr (kept, times) ↦ ap (if_live now) kept
  | inl (gone, times) ↦ elim (Option-cases (lookup entries q.key)) [
    | inl absent ↦ rw (gone, absent) refl
    | inr (b, e) ↦ rw (gone, e) (old b e (times b e))
  ]
]
  where
    old :
        (b : ResponseBinding)
        → lookup entries q.key ≡ some b
        → b.bound_at ≡ q.bound_at
        → none ≡ if_live now (some b)
    old b e same = ground (arith, rw e at go)

drop_entry-if_live :
    (now : Instant) (q : Queued) (entries : Entries) (key : ResponseBindingKey)
    → can_go now q entries ≡ true
    → if_live now (lookup (drop_entry q entries) key) ≡ if_live now (lookup entries key)
drop_entry-if_live now q entries key go = elim (ResponseBindingKey-discrete q.key key) [
  | yes same ↦
      subst (λ k. if_live now (lookup (drop_entry q entries) k) ≡ if_live now (lookup entries k))
        same (drop_entry-if_live_self now q entries go)
  | no other ↦ ap (if_live now) (drop_entry-other q entries key other)
]

-- Where the oldest pair may stay, so may every binding.
live_in_queue :
    (now : Instant) (q : Queued) (queue : List Queued) (r : Queued)
    → is_old now q.bound_at ≡ false
    → IsOrdered (q ∷ queue)
    → IsIn r (q ∷ queue)
    → is_old now r.bound_at ≡ false
live_in_queue now q queue r young order h = elim h [
  | inl same ↦ rw (ap (λ (x : Queued). x.bound_at) same) young
  | inr later ↦ ground (arith, All-IsIn queue order.0 later)
]
  where
    All-IsIn :
        (rest : List Queued)
        → All (λ (x : Queued). q.bound_at ≤ x.bound_at) rest
        → IsIn r rest
        → q.bound_at ≤ r.bound_at
    All-IsIn [] v h = absurd h
    All-IsIn (x ∷ rest) v h = elim h [
      | inl same ↦ rw (ap (λ (y : Queued). y.bound_at) same) v.0
      | inr later ↦ All-IsIn rest v.1 later
    ]

all_live :
    (now : Instant) (q : Queued) (queue : List Queued) (entries : Entries)
    (key : ResponseBindingKey)
    → is_old now q.bound_at ≡ false
    → IsOrdered (q ∷ queue)
    → Holds (q ∷ queue) entries
    → lookup entries key ≡ if_live now (lookup entries key)
all_live now q queue entries key young order h = elim (Option-cases (lookup entries key)) [
  | inl absent ↦ rw absent refl
  | inr (b, e) ↦ rw e (ground (arith, live_in_queue now q queue _ young order (h key b e)))
]

expire-if_live :
    (now : Instant) (queue : List Queued) (entries : Entries) (key : ResponseBindingKey)
    → IsOrdered queue
    → Holds queue entries
    → lookup (expire now queue entries).entries key ≡ if_live now (lookup entries key)
unfolding expire
expire-if_live now [] entries key order h = elim (Option-cases (lookup entries key)) [
  | inl absent ↦ rw absent refl
  | inr (b, e) ↦ absurd (h key b e)
]
expire-if_live now (q ∷ queue) entries key order h =
    let rest =
      expire-if_live now queue (drop_entry q entries) key order.1
        (drop_entry-Holds q queue entries h) in
    elim (Bool-cases (can_go now q entries)) [
      | inl go ↦ rw go (rest ∙ drop_entry-if_live now q entries key go)
      | inr stays ↦ rw stays (all_live now q queue entries key (ground arith) order h)
    ]

-- Removing the expired bindings forgets exactly the bindings whose time is up: every other one
-- is still found, with the account that it had.
pub remove_expired-if_live :
    (now : Instant) (b : ResponseBindings) (key : ResponseBindingKey)
    → IsOrdered b.oldest_first
    → Holds b.oldest_first b.entries
    → lookup (remove_expired now b).entries key ≡ if_live now (lookup b.entries key)
unfolding remove_expired
remove_expired-if_live now b key order h = expire-if_live now b.oldest_first b.entries key order h
