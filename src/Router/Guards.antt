-- ===== src/Router/Guards.antt =====
-- What the tests of the loop over the accounts mean: crates/provider-runtime/src/router.rs.
use provider_core.Prelude.{
  ◌≤◌, ◌||◌, false, is_some_and, is_none_or, is_none, contains, contains-IsMember, holds,
  Text-discrete, subst, ltb, ◌≡◌, ◌≢◌, ◌⊎◌, refl, ◌∙◌, ap, true, Option, none, some, List, [], ◌∷◌,
  arith, All, IsMember, Bool-cases, Option-cases, inl, inr, Text, get, retain, holds_same,
}
use provider_core.Router.Bindings.{Instant}
use provider_core.Router.Accounts.{
  StoredProviderModel, MetadataJson, RouteCooldown, Cooldowns, CooldownKey, CooldownKey-discrete,
  effective_model, ProviderAccountAccess, ProviderVisibility, shared, private, allows,
  allows_production_routing, is_shared, AccountAuthState, is_active, same_text,
  OfficialClientContractStatus, verified, unsupported, blocked, needs_review,
}
use provider_core.Router.Candidates.{
  any_of, model_contract_is_routable, official_client_contract_status, contract_allows, and_then,
}
use provider_core.Router.Routes.{cooling}
use provider_core.Router.Continuation.{same_text-eq}

-- The user owns the account, or its owner shares it.
abbrev pub MayUse : ProviderAccountAccess → Text → Type 0
MayUse access user_id =
    (owner : Text) × (access.owner_user_id ≡ some owner)
    × ((owner ≡ user_id) ⊎ (access.visibility ≡ shared))

pub allows-MayUse :
    (access : ProviderAccountAccess) (user_id : Text)
    → allows access user_id ≡ true
    → MayUse access user_id
allows-MayUse access user_id h = owner_of access.owner_user_id access.visibility user_id h refl refl
  where
    owner_of :
        (owner : Option Text) (visibility : ProviderVisibility) (user : Text)
        → is_some_and owner (λ o. same_text o user || is_shared visibility) ≡ true
        → access.owner_user_id ≡ owner
        → access.visibility ≡ visibility
        → (o : Text) × (access.owner_user_id ≡ some o) × ((o ≡ user) ⊎ (access.visibility ≡ shared))
    owner_of none visibility user h e v = cc
    owner_of (some o) shared user h e v = (o, e, inr v)
    owner_of (some o) private user h e v = (o, e, inl (same_text-eq o user (ground arith)))

pub is_active-eq :
    (state : AccountAuthState) → is_active state ≡ true → state ≡ AccountAuthState.active
is_active-eq AccountAuthState.active h = refl
is_active-eq AccountAuthState.reauth_required h = cc

pub listed_only :
    (ids : Option (List Text)) (id : Text)
    → is_none_or ids (λ l. contains Text-discrete l id) ≡ true
    → (l : List Text) → ids ≡ some l
    → IsMember id l
listed_only none id h l e = cc
listed_only (some k) id h l e =
    let same : k ≡ l = cc e in subst (IsMember id) same (contains-IsMember Text-discrete k id h)

pub is_none-eq : {A : Type 0} (o : Option A) → is_none o ≡ true → o ≡ none
is_none-eq none h = refl
is_none-eq (some a) h = cc

-- Where no cooldown is left, one that is known is over.
pub over :
    (now : Instant) (m : Cooldowns) (k : CooldownKey) (v : RouteCooldown)
    → get CooldownKey-discrete (cooling now m) k ≡ none
    → get CooldownKey-discrete m k ≡ some v
    → v.until ≤ now
unfolding get retain
over now [] k v h e = cc
over now (c ∷ m) k v h e = elim (Bool-cases (ltb now c.value.until)) [
  | inl lasting ↦ elim (Bool-cases (holds (CooldownKey-discrete c.key k))) [
    | inl here ↦ ground (arith)
    | inr elsewhere ↦ over now m k v (ground (arith)) (ground (arith))
  ]
  | inr ended ↦ elim (Bool-cases (holds (CooldownKey-discrete c.key k))) [
    | inl here ↦ ground (arith)
    | inr elsewhere ↦ over now m k v (ground (arith)) (ground (arith))
  ]
]

-- The model is named `name`: by its alias, or by the upstream's name where it has none.
abbrev pub IsNamed : StoredProviderModel → Text → Type 0
IsNamed m name = (m.alias ≡ some name) ⊎ ((m.alias ≡ none) × (m.upstream_model ≡ name))

pub effective_model-IsNamed :
    (m : StoredProviderModel) (name : Text)
    → same_text (effective_model m) name ≡ true
    → IsNamed m name
effective_model-IsNamed m name h = elim (Option-cases m.alias) [
  | inl upstream ↦ inr (upstream, same_text-eq m.upstream_model name (rw upstream at h))
  | inr (alias, e) ↦ inl (e ∙ ap some (same_text-eq alias name (rw e at h)))
]

-- Neither the alias nor the upstream's name of a model is `name`.
pub unknown :
    (models : List StoredProviderModel) (name : Text)
    → any_of (λ m. same_text (effective_model m) name || same_text m.upstream_model name) models
      ≡ false
    → All (λ (m : StoredProviderModel). (m.alias ≢ some name) × (m.upstream_model ≢ name)) models
unfolding any_of
unknown [] name h = tt
unknown (m ∷ models) name h = (
  (
    λ e. ground (arith, named e, holds_same Text-discrete name),
    λ e. ground (arith, ap (λ t. same_text t name) e, holds_same Text-discrete name),
  ),
  unknown models name (ground arith),
)
  where
    named : m.alias ≡ some name → effective_model m ≡ name
    named e = rw e refl

module _ (json : MetadataJson) where
  open json use {Value, from_str, get_field, status_from_value}

  -- Where the metadata names an official client contract, its status is verified.
  abbrev pub IsVerified : StoredProviderModel → Type 0
  IsVerified m =
      (value contract : Value)
      → from_str m.metadata_json ≡ some value
      → get_field value "official_client_contract" ≡ some contract
      → (field : Value) × (get_field contract "status" ≡ some field)
        × (status_from_value field ≡ some verified)

  verified_status :
      (contract : Value)
      → contract_allows json (some (and_then (get_field contract "status") status_from_value))
        ≡ true
      → (field : Value) × (get_field contract "status" ≡ some field)
        × (status_from_value field ≡ some verified)
  verified_status contract h = elim (Option-cases (get_field contract "status")) [
    | inl absent ↦ absurd (ground (arith, rw absent at h))
    | inr (field, e) ↦ elim (Option-cases (status_from_value field)) [
      | inl unread ↦ absurd (ground (arith, rw (e, unread) at h))
      | inr (status, s) ↦ (field, e, s ∙ ap some (verified_only status (rw (e, s) at h)))
    ]
  ]
    where
      verified_only :
          (status : OfficialClientContractStatus)
          → allows_production_routing status ≡ true
          → status ≡ verified
      verified_only verified h = refl
      verified_only unsupported h = cc
      verified_only blocked h = cc
      verified_only needs_review h = cc

  pub model_contract_is_routable-IsVerified :
      (m : StoredProviderModel) → model_contract_is_routable json m ≡ true → IsVerified m
  unfolding model_contract_is_routable official_client_contract_status
  model_contract_is_routable-IsVerified m h value contract read found =
      verified_status contract (rw (read, found) at h)
