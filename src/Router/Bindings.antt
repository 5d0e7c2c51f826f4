-- ===== src/Router/Bindings.antt =====
-- Which account owns a response id: `ResponseBindings` of crates/provider-runtime/src/router.rs.
-- A time is a number of nanoseconds since some fixed instant, and a map the list of its entries.
pub mod Expiry
pub mod Bound
pub mod Kept
mod Tests
use provider_core.Prelude.{
  ℕ, ◌-◌, ◌*◌, Bool, ◌||◌, not, ◌==◌, Option, none, some, List, [], ◌∷◌, ◌++◌, if◌then◌else◌, leb,
  is_none_or, is_some_and, is_some, length, Map, get, remove, insert, Text, Text-discrete,
}

abbrev pub Instant : Type 0
Instant = ℕ

abbrev pub response_binding_ttl : ℕ
response_binding_ttl = 60 * 60 * 1_000_000_000

abbrev pub max_response_bindings : ℕ
max_response_bindings = 100_000

abbrev pub AccountId : Type 0
AccountId = Text

pub record ResponseBindingKey : Type 0 where
  pub routing_scope : Text
  pub response_id : Text

unfoldable pub ResponseBindingKey-discrete : Discrete ResponseBindingKey
ResponseBindingKey-discrete = hlevel Text-discrete

pub record ResponseBinding : Type 0 where
  pub account_id : AccountId
  pub bound_at : Instant

abbrev pub Entries : Type 0
Entries = Map ResponseBindingKey ResponseBinding

-- `(bound_at, key)`, in the order of binding.
pub record Queued : Type 0 where
  pub bound_at : Instant
  pub key : ResponseBindingKey

pub record ResponseBindings : Type 0 where
  pub entries : Entries
  pub oldest_first : List Queued

abbrev pub lookup : Entries → ResponseBindingKey → Option ResponseBinding
lookup entries key = get ResponseBindingKey-discrete entries key

abbrev pub is_bound_at : Instant → ResponseBinding → Bool
is_bound_at t binding = binding.bound_at == t

-- What `remove_oldest` does to the entries, for the pair that it takes off the queue.
unfoldable pub drop_entry : Queued → Entries → Entries
drop_entry q entries =
    if is_some_and (lookup entries q.key) (is_bound_at q.bound_at)
    then remove ResponseBindingKey-discrete entries q.key
    else entries

unfoldable pub remove_oldest : ResponseBindings → ResponseBindings
unfolding drop_entry
remove_oldest b = elim b.oldest_first [
  | [] ↦ b
  | q ∷ rest ↦ record { entries = drop_entry q b.entries; oldest_first = rest }
]

abbrev pub is_old : Instant → Instant → Bool
is_old now t = leb response_binding_ttl (now - t)

-- The test of the loop of `remove_expired`: the pair is stale, or its time is up.
abbrev pub can_go : Instant → Queued → Entries → Bool
can_go now q entries =
    is_none_or (lookup entries q.key) (λ b. not (is_bound_at q.bound_at b)) || is_old now q.bound_at

-- The loop of `remove_expired`, over the queue.
unfoldable pub expire : Instant → List Queued → Entries → ResponseBindings
expire now [] entries = record { entries = entries; oldest_first = [] }
expire now (q ∷ queue) entries =
    let rest = expire now queue (drop_entry q entries) in
    if can_go now q entries then rest else record { entries = entries; oldest_first = q ∷ queue }

unfoldable pub remove_expired : Instant → ResponseBindings → ResponseBindings
remove_expired now b = expire now b.oldest_first b.entries

-- The loop that makes room, over the queue.
unfoldable pub make_room : List Queued → Entries → ResponseBindings
make_room [] entries = record { entries = entries; oldest_first = [] }
make_room (q ∷ queue) entries =
    let rest = make_room queue (drop_entry q entries) in
    if leb max_response_bindings (length entries)
    then rest
    else record { entries = entries; oldest_first = q ∷ queue }

unfoldable pub push_binding :
    Instant → ResponseBindingKey → AccountId → ResponseBindings → ResponseBindings
push_binding now key account_id b = record {
  entries =
      insert ResponseBindingKey-discrete b.entries key
        (record { account_id = account_id; bound_at = now });
  oldest_first = b.oldest_first ++ record { bound_at = now; key = key } ∷ [];
}

-- What `insert` does once the expired bindings are gone.
unfoldable pub insert_live :
    Instant → ResponseBindingKey → AccountId → ResponseBindings → ResponseBindings
insert_live now key account_id b =
    if is_some (lookup b.entries key)
    then b
    else push_binding now key account_id (make_room b.oldest_first b.entries)

unfoldable pub insert_binding :
    Instant → ResponseBindingKey → AccountId → ResponseBindings → ResponseBindings
insert_binding now key account_id b = insert_live now key account_id (remove_expired now b)
