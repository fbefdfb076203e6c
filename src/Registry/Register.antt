-- ===== src/Registry/Register.antt =====
-- dcontext/src/registry.rs: `do_register_with`, `do_register_migration` and `RegistryBuilder`.
-- A function that takes `&mut RegistryMap` returns the map as it leaves it, beside its result.
use dcontext.Base.{
  is_some, ℕ, String, List, ◌||◌, not, Option, none, some, [], ◌∷◌, if◌then◌else◌, nat_eqb, Result,
  ok, err, ◌>>=◌, map_ok, map_err, ok_or, and_then, nat_eq, string_eq,
}
use dcontext.Base.HashMap.{get, insert}
use dcontext.Error.{
  ContextError, serialization_failed, deserialization_failed, already_registered, not_registered,
  type_mismatch, decimal,
}
use dcontext.Value.{TypeId, Bytes, Value, Serde, downcast_ref}
use dcontext.Registry.{Registration, RegistryMap, DeserializeFn, SerializeFn}
use dcontext.Registry.Options.{RegistrationOptions, default_options}
use Prim.Native.String.{◌++◌}

abbrev pub codec_refused : ContextError
codec_refused =
    serialization_failed
      "local_only and codec are mutually exclusive: local-only entries are excluded from serialization"

abbrev pub version_refused : ContextError
version_refused =
    serialization_failed
      "local_only and version are mutually exclusive: local-only entries have no wire format"

abbrev pub migration_is_local : String → ContextError
migration_is_local key =
    serialization_failed ("cannot register migration for local-only key '" ++ key ++ "'")

abbrev pub migration_is_current : String → ℕ → ContextError
migration_is_current key v = deserialization_failed (
    "cannot register migration for key '"
    ++ key
    ++ "' at current version "
    ++ decimal v
    ++ " (would overwrite the native deserializer)")

module _ {D : Type 0} where
  -- The checks on `local_only` that stand before any change.
  unfoldable pub check_options : RegistrationOptions D → Result (Unit {0}) ContextError
  check_options opts =
      if opts.local_only
      then (if is_some opts.encode || is_some opts.decode
          then err codec_refused
          else if not (nat_eqb opts.version 1)
          then err version_refused
          else ok tt)
      else ok tt

  unfoldable pub box_as : TypeId → D → Value D
  box_as t d = record { type_id = t; data_of = d }

  -- The deserializer for the current version: the custom one, or bincode's.
  unfoldable pub native_deserializer :
      Serde D → TypeId → Option (Bytes → Result D String) → DeserializeFn D
  unfolding box_as
  native_deserializer serde t (some decode) bytes =
      map_err deserialization_failed (map_ok (box_as t) (decode bytes))
  native_deserializer serde t none bytes =
      map_err deserialization_failed (map_ok (box_as t) (serde.deserialize t bytes))

  unfoldable pub custom_serializer : TypeId → (D → Result Bytes String) → SerializeFn D
  custom_serializer t encode v = do
    typed ←
        ok_or (downcast_ref t v) (serialization_failed "type mismatch during custom serialization")
    map_err serialization_failed (encode typed)

  unfoldable pub make_registration :
      Serde D → TypeId → String → RegistrationOptions D → Registration D
  make_registration serde t key opts = record {
    key = key;
    type_id = t;
    key_version = opts.version;
    deserializers =
        if opts.local_only
        then []
        else (opts.version, native_deserializer serde t opts.decode) ∷ [];
    type_name = serde.type_name t;
    local_only = opts.local_only;
    serialize_fn = and_then opts.encode (λ encode. some (custom_serializer t encode));
    cached = opts.cached;
    metadata = opts.metadata;
  }

  -- The look-up of the key, and what follows it.
  unfoldable pub register_checked :
      Serde D
      → TypeId
      → RegistryMap D
      → String
      → RegistrationOptions D
      → RegistryMap D × Result (Unit {0}) ContextError
  register_checked serde t registry key opts = elim (get key registry) [
    | some existing ↦
        if nat_eqb existing.type_id t
        then (registry, ok tt)
        else (registry, err (already_registered key))
    | none ↦ (insert key (make_registration serde t key opts) registry, ok tt)
  ]

  unfoldable pub do_register_with :
      Serde D
      → TypeId
      → RegistryMap D
      → String
      → (RegistrationOptions D → RegistrationOptions D)
      → RegistryMap D × Result (Unit {0}) ContextError
  unfolding register_checked
  do_register_with serde t registry key configure =
      let opts = configure default_options in
      elim (check_options opts) [
        | err e ↦ (registry, err e)
        | ok _ ↦ register_checked serde t registry key opts
      ]

  unfoldable pub migration_deserializer : Serde D → TypeId → TypeId → (D → D) → DeserializeFn D
  unfolding box_as
  migration_deserializer serde t_old t_current migrate bytes = do
    old_val ← map_err deserialization_failed (serde.deserialize t_old bytes)
    ok (box_as t_current (migrate old_val))

  -- `reg.deserializers.insert(old_version, …)`, through the reference that `get_mut` returned.
  abbrev pub add_deserializer : ℕ → DeserializeFn D → Registration D → Registration D
  add_deserializer v f reg = record reg { deserializers = insert v f reg.deserializers }

  unfoldable pub do_register_migration :
      Serde D
      → TypeId
      → TypeId
      → RegistryMap D
      → String
      → ℕ
      → (D → D)
      → RegistryMap D × Result (Unit {0}) ContextError
  do_register_migration serde t_old t_current registry key old_version migrate =
      elim (get key registry) [
        | none ↦ (registry, err (not_registered key))
        | some reg ↦
            if not (nat_eqb reg.type_id t_current)
            then (registry, err (type_mismatch key reg.type_name (serde.type_name t_current)))
            else if reg.local_only
            then (registry, err (migration_is_local key))
            else if nat_eqb old_version reg.key_version
            then (registry, err (migration_is_current key old_version))
            else (
              insert key
                  (add_deserializer old_version
                    (migration_deserializer serde t_old t_current migrate) reg)
                  registry,
              ok tt,
            )
      ]

  abbrev pub new_builder : RegistryMap D
  new_builder = []

  -- `unwrap_or_else(|e| panic!(…))`: a panic is `none`.
  abbrev or_panic : RegistryMap D × Result (Unit {0}) ContextError → Option (RegistryMap D)
  or_panic (registry, ok _) = some registry
  or_panic (registry, err e) = none

  module _ (serde : Serde D) (t : TypeId) (registry : RegistryMap D) (key : String) where
    unfoldable pub try_register : RegistryMap D × Result (Unit {0}) ContextError
    unfolding do_register_with
    try_register = do_register_with serde t registry key (λ opts. opts)

    unfoldable pub register : Option (RegistryMap D)
    unfolding try_register
    register = or_panic try_register

    unfoldable pub try_register_with :
        (RegistrationOptions D → RegistrationOptions D)
        → RegistryMap D × Result (Unit {0}) ContextError
    unfolding do_register_with
    try_register_with configure = do_register_with serde t registry key configure

    unfoldable pub register_with :
        (RegistrationOptions D → RegistrationOptions D) → Option (RegistryMap D)
    unfolding try_register_with
    register_with configure = or_panic (try_register_with configure)

    unfoldable pub try_register_migration :
        TypeId → ℕ → (D → D) → RegistryMap D × Result (Unit {0}) ContextError
    unfolding do_register_migration
    try_register_migration t_old = do_register_migration serde t_old t registry key

    unfoldable pub register_migration : TypeId → ℕ → (D → D) → Option (RegistryMap D)
    unfolding try_register_migration
    register_migration t_old old_version migrate =
        or_panic (try_register_migration t_old old_version migrate)

  -- `register_contexts!`: one `register` after another, up to the first panic.
  unfoldable pub register_contexts :
      Serde D → RegistryMap D → List (String × TypeId) → Option (RegistryMap D)
  unfolding register
  register_contexts serde builder [] = some builder
  register_contexts serde builder ((key, t) ∷ rest) =
      and_then (register serde t builder key) (λ next. register_contexts serde next rest)
