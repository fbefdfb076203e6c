-- ===== src/Wire/Safe.antt =====
-- Registries that a builder made, with codecs of any kind: what their deserializers return.
use dcontext.Base.{
  ℕ, ◌≡◌, ◌⊎◌, inl, inr, refl, sym, String, true, false, Option, none, some, [], Result, ok, err,
  map_ok, map_err, ◌>>=◌, arith, nat_eq, string_eq, ◌==◌, Bool-cases,
}
use mathlib.Core.Path.{subst}
use dcontext.Base.HashMap.{get, insert, get-insert}
use dcontext.Error.{ContextError, deserialization_failed}
use dcontext.Value.{TypeId, Bytes, Value, Serde}
use dcontext.Registry.{Registration, RegistryMap, DeserializeFn}
use dcontext.Registry.Options.{RegistrationOptions, default_options}
use dcontext.Registry.Register.{
  new_builder, box_as, make_registration, native_deserializer, migration_deserializer,
  do_register_with, do_register_migration, add_deserializer,
}
use dcontext.Registry.Outcomes.{do_register_with_cases, do_register_migration_cases}

-- The one error that reading ends with.
abbrev pub Fails : {A : Type 0} → Result A ContextError → Type 0
Fails r = (text : String) × (r ≡ err (deserialization_failed text))

module _ {D : Type 0} where
  abbrev pub Boxes : TypeId → Result (Value D) ContextError → Type 0
  Boxes t r = Fails r ⊎ ((v : Value D) × (r ≡ ok v) × (v.type_id ≡ t))

  -- An entry whose deserializers make values of its type, and which has none if it is local-only.
  pub record IsSafe (r : Registration D) : Type 0 where
    pub unwired : r.local_only ≡ true → r.deserializers ≡ []
    pub boxes :
        (v : ℕ) (f : DeserializeFn D) (bytes : Bytes)
        → get v r.deserializers ≡ some f
        → Boxes r.type_id (f bytes)

  pub record RegistryIsSafe (registry : RegistryMap D) : Type 0 where
    pub at_key : (k : String) (r : Registration D) → get k registry ≡ some r → r.key ≡ k
    pub safe : (k : String) (r : Registration D) → get k registry ≡ some r → IsSafe r

  boxed :
      (t : TypeId) (m : Result D String)
      → Boxes t (map_err deserialization_failed (map_ok (box_as t) m))
  unfolding box_as
  boxed t (ok d) = inr (record { type_id = t; data_of = d }, refl, refl)
  boxed t (err text) = inl (text, refl)

  native_deserializer-Boxes :
      (serde : Serde D) (t : TypeId) (decode : Option (Bytes → Result D String)) (bytes : Bytes)
      → Boxes t (native_deserializer serde t decode bytes)
  unfolding native_deserializer
  native_deserializer-Boxes serde t none bytes = boxed t (serde.deserialize t bytes)
  native_deserializer-Boxes serde t (some decode) bytes = boxed t (decode bytes)

  migrated :
      (t : TypeId) (migrate : D → D) (m : Result D String)
      → Boxes t (map_err deserialization_failed m >>= λ d. ok (box_as t (migrate d)))
  unfolding box_as
  migrated t migrate (ok d) = inr (record { type_id = t; data_of = migrate d }, refl, refl)
  migrated t migrate (err text) = inl (text, refl)

  migration_deserializer-Boxes :
      (serde : Serde D) (t_old t : TypeId) (migrate : D → D) (bytes : Bytes)
      → Boxes t (migration_deserializer serde t_old t migrate bytes)
  unfolding migration_deserializer
  migration_deserializer-Boxes serde t_old t migrate bytes =
      migrated t migrate (serde.deserialize t_old bytes)

  make_registration-IsSafe :
      (serde : Serde D) (t : TypeId) (key : String) (opts : RegistrationOptions D)
      → IsSafe (make_registration serde t key opts)
  unfolding make_registration get
  make_registration-IsSafe serde t key opts = record {
    unwired = λ local. rw local;
    boxes = λ v f bytes found.
        let e : native_deserializer serde t opts.decode ≡ f = ground (arith, found) in
        subst (λ g. Boxes t (g bytes)) e (native_deserializer-Boxes serde t opts.decode bytes);
  }

  add_deserializer-IsSafe :
      (v : ℕ) (f : DeserializeFn D) (r : Registration D)
      → IsSafe r
      → r.local_only ≡ false
      → ((bytes : Bytes) → Boxes r.type_id (f bytes))
      → IsSafe (add_deserializer v f r)
  add_deserializer-IsSafe v f r s wired new = record {
    unwired = λ local. cc;
    boxes = λ w g bytes found. elim (Bool-cases (v == w)) [
      | inl same ↦
          let e : f ≡ g = ground (arith, get-insert w v f r.deserializers) in
          subst (λ h. Boxes r.type_id (h bytes)) e (new bytes)
      | inr other ↦ s.boxes w g bytes (ground (arith, get-insert w v f r.deserializers))
    ];
  }

  insert-IsSafe :
      (k : String) (r : Registration D) (registry : RegistryMap D)
      → RegistryIsSafe registry
      → r.key ≡ k
      → IsSafe r
      → RegistryIsSafe (insert k r registry)
  insert-IsSafe k r registry s named safe = record {
    at_key = λ j q found.
        ground (arith, get-insert j k r registry, string_eq.same_iff k j, s.at_key j q);
    safe = λ j q found. elim (Bool-cases (k == j)) [
      | inl same ↦
          subst IsSafe (let e : r ≡ q = ground (arith, get-insert j k r registry) in e) safe
      | inr other ↦ s.safe j q (ground (arith, get-insert j k r registry))
    ];
  }

  -- The maps that calls on a builder lead to, those that return errors included. The options of a
  -- registration have any codec, and each call has its own serde.
  pub data Built : RegistryMap D → Type 0 where
    built_new : Built new_builder
    built_with :
        {registry : RegistryMap D}
        → Built registry
        → (serde : Serde D) (t : TypeId) (key : String)
          (configure : RegistrationOptions D → RegistrationOptions D)
        → Built (do_register_with serde t registry key configure).0
    built_migration :
        {registry : RegistryMap D}
        → Built registry
        → (serde : Serde D) (t_old t : TypeId) (key : String) (version : ℕ) (migrate : D → D)
        → Built (do_register_migration serde t_old t registry key version migrate).0

  do_register_with-IsSafe :
      (serde : Serde D) (t : TypeId) (registry : RegistryMap D) (key : String)
      (configure : RegistrationOptions D → RegistrationOptions D)
      → RegistryIsSafe registry
      → RegistryIsSafe (do_register_with serde t registry key configure).0
  do_register_with-IsSafe serde t registry key configure s =
      elim (do_register_with_cases serde t registry key configure) [
        | inl same ↦ rw same s
        | inr added ↦ rw added (
            insert-IsSafe key _ registry s (unfold make_registration in refl)
              (make_registration-IsSafe serde t key (configure default_options)))
      ]

  do_register_migration-IsSafe :
      (serde : Serde D) (t_old t : TypeId) (registry : RegistryMap D) (key : String) (version : ℕ)
      (migrate : D → D)
      → RegistryIsSafe registry
      → RegistryIsSafe (do_register_migration serde t_old t registry key version migrate).0
  do_register_migration-IsSafe serde t_old t registry key version migrate s =
      elim (do_register_migration_cases serde t_old t registry key version migrate) [
        | inl same ↦ rw same s
        | inr (r, found, wired, typed, other, added) ↦ rw added (
            insert-IsSafe key _ registry s (s.at_key key r found) (
              add_deserializer-IsSafe version _ r (s.safe key r found) wired (λ bytes.
                subst (λ u. Boxes u (migration_deserializer serde t_old t migrate bytes))
                  (sym typed) (migration_deserializer-Boxes serde t_old t migrate bytes))))
      ]

  pub Built-IsSafe : {registry : RegistryMap D} → Built registry → RegistryIsSafe registry
  unfolding get
  Built-IsSafe built_new = record { at_key = λ k r found. cc; safe = λ k r found. cc }
  Built-IsSafe (built_with {registry} built serde t key configure) =
      do_register_with-IsSafe serde t registry key configure (Built-IsSafe built)
  Built-IsSafe (built_migration {registry} built serde t_old t key version migrate) =
      do_register_migration-IsSafe serde t_old t registry key version migrate (Built-IsSafe built)
