-- ===== src/Router/Bindings/Tests.antt =====
-- The bindings at a concrete state.
use provider_core.Prelude.{
  ◌≡◌, refl, some, [], ◌∷◌, arith, get, Text-discrete, insert, remove, retain, ℕ_discrete,
}
use provider_core.Router.Bindings.{
  ResponseBindingKey, ResponseBindingKey-discrete, ResponseBindings, AccountId, lookup, expire,
  remove_expired, insert_binding, insert_live, make_room, push_binding, drop_entry,
}
use provider_core.Router.Bindings.Expiry.{if_live}
use provider_core.Router.Bindings.Bound.{
  IsValid, IsPast, first_of, insert_binding-IsValid, insert_binding-lookup,
}

abbrev first_key : ResponseBindingKey
first_key = record { routing_scope = b'u' ∷ []; response_id = b'1' ∷ [] }

abbrev second_key : ResponseBindingKey
second_key = record { routing_scope = b'u' ∷ []; response_id = b'2' ∷ [] }

abbrev account_a : AccountId
account_a = b'a' ∷ []

abbrev account_b : AccountId
account_b = b'b' ∷ []

abbrev empty : ResponseBindings
empty = record { entries = []; oldest_first = [] }

empty-IsValid : IsValid empty
unfolding get
empty-IsValid = record {
  queued = λ key b e. absurd (ground arith);
  ordered = tt;
  bounded = omega arith;
}

-- Bound at time 5 to the first account.
abbrev one : ResponseBindings
one = insert_binding 5 first_key account_a empty

one-IsValid : IsValid one
one-IsValid = insert_binding-IsValid 5 first_key account_a empty empty-IsValid tt

one-IsPast : IsPast 7 one
unfolding insert_binding insert_live remove_expired expire make_room push_binding get
one-IsPast = (omega arith, tt)

insert_binding-IsValid_example : IsValid (insert_binding 7 second_key account_b one)
insert_binding-IsValid_example =
    insert_binding-IsValid 7 second_key account_b one one-IsValid one-IsPast

insert_binding-lookup_example :
    lookup (insert_binding 7 first_key account_b one).entries first_key
    ≡ some (
        first_of
          (if_live 7 (lookup one.entries first_key))
          (record { account_id = account_b; bound_at = 7 }))
insert_binding-lookup_example = insert_binding-lookup 7 first_key account_b one one-IsValid

-- The first account keeps the id.
first_wins :
    lookup (insert_binding 7 first_key account_b one).entries first_key
    ≡ some (record { account_id = account_a; bound_at = 5 })
unfolding insert_binding insert_live remove_expired expire drop_entry make_room push_binding get
    insert remove retain ResponseBindingKey-discrete Text-discrete ℕ_discrete
first_wins = refl
