-- ===== src/Router/Bindings/Kept.antt =====
-- How long a binding is kept while the bindings are used: `ResponseBindings` of
-- crates/provider-runtime/src/router.rs.
use provider_core.Prelude.{
  ℕ, suc, ◌+◌, ◌≤◌, ◌<◌, ◌≡◌, refl, sym, ◌∙◌, ap, Option, none, some, List, [], ◌∷◌, arith,
  Bool-cases, Option-cases, inl, inr, length, leb, is_some, get-insert_ne, All-map, All-append,
}
use provider_core.Router.Bindings.{
  Instant, max_response_bindings, AccountId, ResponseBindingKey, ResponseBindingKey-discrete,
  ResponseBinding, Entries, Queued, ResponseBindings, lookup, can_go, expire, remove_expired,
  make_room, push_binding, insert_live, insert_binding, drop_entry, is_old,
}
use provider_core.Router.Bindings.Expiry.{if_live, remove_expired-if_live}
use provider_core.Router.Bindings.Bound.{
  IsValid, IsPast, insert_live-IsValid, expire-IsValid, expire-IsPast, make_room-IsPast,
  length-drop_entry, length-insert,
}

-- What the router does to its bindings: it binds a response, or it looks one up.
pub data BindingUse : Type 0 where
  bound : Instant → ResponseBindingKey → AccountId → BindingUse
  looked_up : Instant → BindingUse

abbrev pub use_one : BindingUse → ResponseBindings → ResponseBindings
use_one (bound now key account_id) b = insert_binding now key account_id b
use_one (looked_up now) b = remove_expired now b

unfoldable pub use_all : List BindingUse → ResponseBindings → ResponseBindings
use_all [] b = b
use_all (u ∷ uses) b = use_all uses (use_one u b)

abbrev pub used_at : BindingUse → Instant
used_at (bound now key account_id) = now
used_at (looked_up now) = now

-- The uses follow each other in time, from the one instant to the other.
abbrev pub IsDuring : Instant → Instant → List BindingUse → Type 0
IsDuring from until [] = from ≤ until
IsDuring from until (u ∷ uses) = (from ≤ used_at u) × IsDuring (used_at u) until uses

IsDuring-≤ :
    (from until : Instant) (uses : List BindingUse) → IsDuring from until uses → from ≤ until
IsDuring-≤ from until [] h = h
IsDuring-≤ from until (u ∷ uses) h = omega (arith, h.0, IsDuring-≤ (used_at u) until uses h.1)

if_live-if_live :
    (now later : Instant) (o : Option ResponseBinding)
    → now ≤ later
    → if_live later (if_live now o) ≡ if_live later o
if_live-if_live now later none h = refl
if_live-if_live now later (some b) h = elim (Bool-cases (is_old now b.bound_at)) [
  | inl old ↦ ground arith
  | inr young ↦ rw young refl
]

length-expire :
    (now : Instant) (queue : List Queued) (entries : Entries)
    → length (expire now queue entries).entries ≤ length entries
unfolding expire
length-expire now [] entries = omega arith
length-expire now (q ∷ queue) entries = elim (Bool-cases (can_go now q entries)) [
  | inl go ↦
      rw go
        (omega (arith, length-expire now queue (drop_entry q entries), length-drop_entry q entries))
  | inr stays ↦ rw stays (omega arith)
]

make_room_below :
    (queue : List Queued) (entries : Entries)
    → length entries < max_response_bindings
    → make_room queue entries ≡ record { entries = entries; oldest_first = queue }
unfolding make_room
make_room_below [] entries h = refl
make_room_below (q ∷ queue) entries h =
    elim (Bool-cases (leb max_response_bindings (length entries))) [
      | inl full ↦ absurd (ground arith)
      | inr space ↦ rw space refl
    ]

module _ (later : Instant) (key : ResponseBindingKey) (x : ResponseBinding) where
  -- The binding is found until `later`, and there is room for `n` more.
  record Keeps (now : Instant) (n : ℕ) (b : ResponseBindings) : Type 0 where
    pub valid : IsValid b
    pub past : IsPast now b
    pub found : if_live later (lookup b.entries key) ≡ some x
    pub space : length b.entries + n ≤ max_response_bindings

  remove_expired-Keeps :
      (from now : Instant) (n : ℕ) (b : ResponseBindings)
      → from ≤ now
      → now ≤ later
      → Keeps from n b
      → Keeps now n (remove_expired now b)
  unfolding remove_expired
  remove_expired-Keeps from now n b first last h = record {
    valid = expire-IsValid now b.oldest_first b.entries h.valid;
    past = expire-IsPast now now b.oldest_first b.entries (
        All-map (λ (q : Queued). q.bound_at ≤ from) (λ (q : Queued). q.bound_at ≤ now)
          b.oldest_first (λ q e. omega (arith, e, first)) h.past);
    found =
        ap (if_live later) (remove_expired-if_live now b key h.valid.ordered h.valid.queued)
        ∙ if_live-if_live now later (lookup b.entries key) last
        ∙ h.found;
    space = omega (arith, length-expire now b.oldest_first b.entries, h.space);
  }

  push_binding-found :
      (now : Instant) (other : ResponseBindingKey) (account_id : AccountId) (b : ResponseBindings)
      → lookup b.entries other ≡ none
      → if_live later (lookup b.entries key) ≡ some x
      → if_live later (lookup (push_binding now other account_id b).entries key) ≡ some x
  unfolding push_binding
  push_binding-found now other account_id b free found =
      elim (ResponseBindingKey-discrete other key) [
        | yes same ↦ absurd (
            ground (
              arith,
              sym found
                  ∙ ap (λ k. if_live later (lookup b.entries k)) (sym same)
                  ∙ ap (if_live later) free,
            ))
        | no differs ↦
            ap (if_live later)
              (get-insert_ne ResponseBindingKey-discrete b.entries other key _ differs)
            ∙ found
      ]

  push_binding-Keeps :
      (now : Instant) (n : ℕ) (other : ResponseBindingKey) (account_id : AccountId)
      (b : ResponseBindings)
      → IsValid (push_binding now other account_id b)
      → lookup b.entries other ≡ none
      → Keeps now (suc n) b
      → Keeps now n (push_binding now other account_id b)
  unfolding push_binding
  push_binding-Keeps now n other account_id b valid free h = record {
    valid = valid;
    past = All-append (λ (q : Queued). q.bound_at ≤ now) b.oldest_first _ h.past (omega arith, tt);
    found = push_binding-found now other account_id b free h.found;
    space = omega (
      arith,
      length-insert b.entries other (record { account_id = account_id; bound_at = now }),
      h.space,
    );
  }

  insert_live-Keeps :
      (now : Instant) (n : ℕ) (other : ResponseBindingKey) (account_id : AccountId)
      (b : ResponseBindings)
      → IsValid (insert_live now other account_id b)
      → Keeps now (suc n) b
      → Keeps now n (insert_live now other account_id b)
  unfolding insert_live
  insert_live-Keeps now n other account_id b valid h =
      elim (Option-cases (lookup b.entries other)) [
        | inr (binding, e) ↦ rw e (record {
          valid = h.valid;
          past = h.past;
          found = h.found;
          space = omega (arith, h.space);
        })
        | inl free ↦
            let same : make_room b.oldest_first b.entries ≡ b =
              make_room_below b.oldest_first b.entries (omega (arith, h.space)) in
            rw (free, same)
              (push_binding-Keeps now n other account_id b (rw (free, same) at valid) free h)
      ]

  use_one-Keeps :
      (u : BindingUse) (from : Instant) (n : ℕ) (b : ResponseBindings)
      → from ≤ used_at u
      → used_at u ≤ later
      → Keeps from (suc n) b
      → Keeps (used_at u) n (use_one u b)
  unfolding insert_binding
  use_one-Keeps (looked_up now) from n b first last h =
      let kept = remove_expired-Keeps from now (suc n) b first last h in
      record {
        valid = kept.valid;
        past = kept.past;
        found = kept.found;
        space = omega (arith, kept.space);
      }
  use_one-Keeps (bound now other account_id) from n b first last h =
      let kept = remove_expired-Keeps from now (suc n) b first last h in
      insert_live-Keeps now n other account_id (remove_expired now b)
        (insert_live-IsValid now other account_id (remove_expired now b) kept.valid kept.past) kept

  use_all-Keeps :
      (uses : List BindingUse) (from : Instant) (b : ResponseBindings)
      → IsDuring from later uses
      → Keeps from (length uses) b
      → Keeps later 0 (use_all uses b)
  unfolding use_all
  use_all-Keeps [] from b during h = record {
    valid = h.valid;
    past =
        All-map (λ (q : Queued). q.bound_at ≤ from) (λ (q : Queued). q.bound_at ≤ later)
          b.oldest_first (λ q e. omega (arith, e, during)) h.past;
    found = h.found;
    space = h.space;
  }
  use_all-Keeps (u ∷ uses) from b during h =
      use_all-Keeps uses (used_at u) (use_one u b) during.1 (
        use_one-Keeps u from (length uses) b during.0 (IsDuring-≤ (used_at u) later uses during.1)
          h)

  -- A binding that is live until `later` is found then, after all the uses for which there is
  -- room.
  pub use_all-found :
      (uses : List BindingUse) (from : Instant) (b : ResponseBindings)
      → IsDuring from later uses
      → IsValid b
      → IsPast from b
      → if_live later (lookup b.entries key) ≡ some x
      → length b.entries + length uses ≤ max_response_bindings
      → IsValid (use_all uses b) × (if_live later (lookup (use_all uses b).entries key) ≡ some x)
  use_all-found uses from b during valid past found space =
      let kept : Keeps later 0 (use_all uses b) =
        use_all-Keeps uses from b during
          (record { valid = valid; past = past; found = found; space = space }) in
      (kept.valid, kept.found)

insert_live-IsPast :
    (now : Instant) (key : ResponseBindingKey) (account_id : AccountId) (b : ResponseBindings)
    → IsPast now b
    → IsPast now (insert_live now key account_id b)
unfolding insert_live push_binding
insert_live-IsPast now key account_id b h = elim (Bool-cases (is_some (lookup b.entries key))) [
  | inl bound_before ↦ rw bound_before h
  | inr free ↦ rw free (
      All-append (λ (q : Queued). q.bound_at ≤ now)
        (make_room b.oldest_first b.entries).oldest_first _
        (make_room-IsPast now b.oldest_first b.entries h) (omega arith, tt))
]

pub insert_binding-IsPast :
    (now : Instant) (key : ResponseBindingKey) (account_id : AccountId) (b : ResponseBindings)
    → IsPast now b
    → IsPast now (insert_binding now key account_id b)
unfolding insert_binding remove_expired
insert_binding-IsPast now key account_id b h =
    insert_live-IsPast now key account_id (expire now b.oldest_first b.entries)
      (expire-IsPast now now b.oldest_first b.entries h)
