-- ===== src/Registry/Reads.antt =====
-- dcontext/src/registry.rs: `Registry`, the read-only view of a map.
use dcontext.Base.{
  flatten, ℕ, String, Bool, false, Option, none, some, List, [], ◌∷◌, if◌then◌else◌, nat_eqb,
  map_or, and_then, nat_eq, string_eq,
}
use dcontext.Base.HashMap.{get}
use dcontext.Value.{TypeId, Value, downcast_ref}
use dcontext.Registry.{Registration, RegistryMap, SerializeFn}

pub record SerializationInfo (D : Type 0) : Type 0 where
  pub key_version : ℕ
  pub serialize_fn : Option (SerializeFn D)

module _ {D : Type 0} where
  abbrev pub info_of : Registration D → SerializationInfo D
  info_of r = record { key_version = r.key_version; serialize_fn = r.serialize_fn }

  -- `metadata.get(&TypeId::of::<M>()).and_then(|boxed| boxed.downcast_ref::<M>())`.
  unfoldable pub metadata_of : TypeId → Registration D → Option D
  metadata_of m r = and_then (get m r.metadata) (downcast_ref m)

  module _ (registry : RegistryMap D) where
    abbrev pub with_registration {ℓ} : {R : Type ℓ} → String → (Registration D → R) → Option R
    with_registration key f = and_then (get key registry) (λ r. some (f r))

    unfoldable pub get_serialization_info : String → Option (SerializationInfo D)
    get_serialization_info key = and_then (get key registry) (λ r. some (info_of r))

    unfoldable pub is_local_key : String → Bool
    is_local_key key = map_or false (λ r. r.local_only) (get key registry)

    unfoldable pub is_valid_value : String → Value D → Bool
    is_valid_value key value =
        map_or false (λ r. nat_eqb r.type_id value.type_id) (get key registry)

    unfoldable pub with_metadata : {R : Type 0} → TypeId → String → (D → R) → Option R
    unfolding metadata_of
    with_metadata m key f =
        flatten (with_registration key (λ r. and_then (metadata_of m r) (λ d. some (f d))))

  -- `iter().filter(cached).map(key)`.
  unfoldable pub cached_keys : RegistryMap D → List String
  cached_keys [] = []
  cached_keys ((k, r) ∷ m) = let rest = cached_keys m in if r.cached then k ∷ rest else rest

  -- `iter().filter_map(…)`.
  unfoldable pub keys_with_metadata :
      {R : Type 0} → TypeId → (String → D → R) → RegistryMap D → List R
  unfolding metadata_of
  keys_with_metadata m f [] = []
  keys_with_metadata m f ((k, r) ∷ rest) =
      let others = keys_with_metadata m f rest in
      elim (metadata_of m r) [ none ↦ others | some d ↦ f k d ∷ others ]
