-- ===== src/Router/Bindings/Bound.antt =====
-- The bindings stay bounded, and the first account that an id was bound to keeps it.
use provider_core.Prelude.{
  suc, ◌≤◌, ◌<◌, ◌≡◌, refl, sym, ◌∙◌, subst, Option, none, some, List, [], ◌∷◌, ◌++◌, arith, All,
  Bool-cases, Option-cases, inl, inr, length, leb, is_some, get, insert, get-insert_self,
  get-insert_ne, length-remove, holds_same, All-append,
}
use provider_core.Router.Bindings.{
  Instant, max_response_bindings, AccountId, ResponseBindingKey, ResponseBindingKey-discrete,
  ResponseBinding, Entries, Queued, ResponseBindings, lookup, drop_entry, can_go, expire,
  remove_expired, make_room, push_binding, insert_live, insert_binding,
}
use provider_core.Router.Bindings.Expiry.{
  IsIn, Holds, IsOrdered, if_live, drop_entry-Holds, remove_expired-if_live,
}

-- Every binding is queued, the queue is in the order of time, and the map is small enough.
pub record IsValid (b : ResponseBindings) : Type 0 where
  pub queued : Holds b.oldest_first b.entries
  pub ordered : IsOrdered b.oldest_first
  pub bounded : length b.entries ≤ max_response_bindings

-- No pair of the queue is later than `now`.
abbrev pub IsPast : Instant → ResponseBindings → Type 0
IsPast now b = All (λ (q : Queued). q.bound_at ≤ now) b.oldest_first

pub length-drop_entry :
    (q : Queued) (entries : Entries) → length (drop_entry q entries) ≤ length entries
unfolding drop_entry
length-drop_entry q entries =
    ground (arith, length-remove ResponseBindingKey-discrete entries q.key)

pub expire-IsValid :
    (now : Instant) (queue : List Queued) (entries : Entries)
    → IsValid (record { entries = entries; oldest_first = queue })
    → IsValid (expire now queue entries)
unfolding expire
expire-IsValid now [] entries h = h
expire-IsValid now (q ∷ queue) entries h = elim (Bool-cases (can_go now q entries)) [
  | inl go ↦ rw go (
      expire-IsValid now queue (drop_entry q entries) (record {
        queued = drop_entry-Holds q queue entries h.queued;
        ordered = h.ordered.1;
        bounded = omega (arith, length-drop_entry q entries, h.bounded);
      }))
  | inr stays ↦ rw stays h
]

pub expire-IsPast :
    (now t : Instant) (queue : List Queued) (entries : Entries)
    → All (λ (q : Queued). q.bound_at ≤ t) queue
    → IsPast t (expire now queue entries)
unfolding expire
expire-IsPast now t [] entries h = tt
expire-IsPast now t (q ∷ queue) entries h = elim (Bool-cases (can_go now q entries)) [
  | inl go ↦ rw go (expire-IsPast now t queue (drop_entry q entries) h.1)
  | inr stays ↦ rw stays h
]

-- Nothing is bound where nothing is queued.
no_entries : (entries : Entries) → Holds [] entries → length entries ≡ 0
unfolding get
no_entries [] h = refl
no_entries (e ∷ entries) h =
    absurd (h e.key e.value (rw (holds_same ResponseBindingKey-discrete e.key) refl))

make_room-IsValid :
    (queue : List Queued) (entries : Entries)
    → IsValid (record { entries = entries; oldest_first = queue })
    → IsValid (make_room queue entries)
      × (length (make_room queue entries).entries < max_response_bindings)
unfolding make_room
make_room-IsValid [] entries h = (h, omega (arith, no_entries entries h.queued))
make_room-IsValid (q ∷ queue) entries h =
    let rest = make_room-IsValid queue (drop_entry q entries) (record {
      queued = drop_entry-Holds q queue entries h.queued;
      ordered = h.ordered.1;
      bounded = omega (arith, length-drop_entry q entries, h.bounded);
    }) in
    elim (Bool-cases (leb max_response_bindings (length entries))) [
      | inl full ↦ rw full rest
      | inr space ↦ rw space (h, ground arith)
    ]

pub make_room-IsPast :
    (t : Instant) (queue : List Queued) (entries : Entries)
    → All (λ (q : Queued). q.bound_at ≤ t) queue
    → IsPast t (make_room queue entries)
unfolding make_room
make_room-IsPast t [] entries h = tt
make_room-IsPast t (q ∷ queue) entries h =
    elim (Bool-cases (leb max_response_bindings (length entries))) [
      | inl full ↦ rw full (make_room-IsPast t queue (drop_entry q entries) h.1)
      | inr space ↦ rw space h
    ]

IsIn-append : (q : Queued) (xs ys : List Queued) → IsIn q xs → IsIn q (xs ++ ys)
IsIn-append q (x ∷ xs) ys h = elim h [
  | inl same ↦ inl same
  | inr later ↦ inr (IsIn-append q xs ys later)
]
IsIn-append q [] ys h = absurd h

IsIn-last : (q : Queued) (xs : List Queued) → IsIn q (xs ++ q ∷ [])
IsIn-last q [] = inl refl
IsIn-last q (x ∷ xs) = inr (IsIn-last q xs)

append-IsOrdered :
    (xs : List Queued) (q : Queued)
    → IsOrdered xs
    → All (λ (x : Queued). x.bound_at ≤ q.bound_at) xs
    → IsOrdered (xs ++ q ∷ [])
append-IsOrdered [] q h v = (tt, tt)
append-IsOrdered (x ∷ xs) q h v = (
  All-append (λ (y : Queued). x.bound_at ≤ y.bound_at) xs (q ∷ []) h.0 (v.0, tt),
  append-IsOrdered xs q h.1 v.1,
)

pub length-insert :
    (entries : Entries) (key : ResponseBindingKey) (b : ResponseBinding)
    → length (insert ResponseBindingKey-discrete entries key b) ≤ suc (length entries)
unfolding insert
length-insert entries key b = omega (arith, length-remove ResponseBindingKey-discrete entries key)

push_binding-Holds :
    (now : Instant) (key : ResponseBindingKey) (account_id : AccountId) (b : ResponseBindings)
    → Holds b.oldest_first b.entries
    → Holds
        (push_binding now key account_id b).oldest_first
        (push_binding now key account_id b).entries
unfolding push_binding
push_binding-Holds now key account_id b h other binding e =
    elim (ResponseBindingKey-discrete key other) [
      | yes same ↦
          subst
            (λ k.
              IsIn (record { bound_at = binding.bound_at; key = k })
                (b.oldest_first ++ record { bound_at = now; key = key } ∷ []))
            same (rw (now_bound (rw (← same) at e)) (IsIn-last _ b.oldest_first))
      | no differs ↦ IsIn-append _ b.oldest_first _ (
          h other binding
            (sym (get-insert_ne ResponseBindingKey-discrete b.entries key other _ differs) ∙ e))
    ]
  where
    now_bound :
        lookup (push_binding now key account_id b).entries key ≡ some binding
        → binding.bound_at ≡ now
    now_bound found =
        ground (arith, sym (get-insert_self ResponseBindingKey-discrete b.entries key _) ∙ found)

push_binding-IsValid :
    (now : Instant) (key : ResponseBindingKey) (account_id : AccountId) (b : ResponseBindings)
    → IsValid b
    → IsPast now b
    → length b.entries < max_response_bindings
    → IsValid (push_binding now key account_id b)
unfolding push_binding
push_binding-IsValid now key account_id b h past space = record {
  queued = push_binding-Holds now key account_id b h.queued;
  ordered = append-IsOrdered b.oldest_first _ h.ordered past;
  bounded = omega (arith, length-insert b.entries key _);
}

pub insert_live-IsValid :
    (now : Instant) (key : ResponseBindingKey) (account_id : AccountId) (b : ResponseBindings)
    → IsValid b
    → IsPast now b
    → IsValid (insert_live now key account_id b)
unfolding insert_live
insert_live-IsValid now key account_id b h past =
    elim (Bool-cases (is_some (lookup b.entries key))) [
      | inl bound ↦ rw bound h
      | inr unbound ↦
          let (valid, space) = make_room-IsValid b.oldest_first b.entries h in
          rw unbound (
            push_binding-IsValid now key account_id (make_room b.oldest_first b.entries) valid
              (make_room-IsPast now b.oldest_first b.entries past) space)
    ]

-- Binding a response id keeps the bindings valid: at most the maximum of them, each of them
-- queued for its expiry, in the order of time. The clock must not run back.
pub insert_binding-IsValid :
    (now : Instant) (key : ResponseBindingKey) (account_id : AccountId) (b : ResponseBindings)
    → IsValid b
    → IsPast now b
    → IsValid (insert_binding now key account_id b)
unfolding insert_binding remove_expired
insert_binding-IsValid now key account_id b h past =
    insert_live-IsValid now key account_id (expire now b.oldest_first b.entries)
      (expire-IsValid now b.oldest_first b.entries h)
      (expire-IsPast now now b.oldest_first b.entries past)

-- The binding there is, else the new one.
abbrev pub first_of : Option ResponseBinding → ResponseBinding → ResponseBinding
first_of none b = b
first_of (some a) b = a

insert_live-lookup :
    (now : Instant) (key : ResponseBindingKey) (account_id : AccountId) (b : ResponseBindings)
    → lookup (insert_live now key account_id b).entries key
      ≡ some (first_of (lookup b.entries key) (record { account_id = account_id; bound_at = now }))
unfolding insert_live push_binding
insert_live-lookup now key account_id b = elim (Option-cases (lookup b.entries key)) [
  | inl absent ↦ rw absent (get-insert_self ResponseBindingKey-discrete _ key _)
  | inr (binding, e) ↦ rw e e
]

-- After a response id is bound, it belongs to the account that it was bound to first, unless
-- that binding's time is up: then to the new account, from now.
pub insert_binding-lookup :
    (now : Instant) (key : ResponseBindingKey) (account_id : AccountId) (b : ResponseBindings)
    → IsValid b
    → lookup (insert_binding now key account_id b).entries key
      ≡ some (
          first_of
            (if_live now (lookup b.entries key))
            (record { account_id = account_id; bound_at = now }))
unfolding insert_binding
insert_binding-lookup now key account_id b h =
    rw (← remove_expired-if_live now b key h.ordered h.queued)
      (insert_live-lookup now key account_id (remove_expired now b))
