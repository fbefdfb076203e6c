-- ===== src/Wire/Sound.antt =====
-- Registries whose codecs decode what they encode: every registry that a builder makes from
-- lawful codecs is one.
use dcontext.Base.{
  ℕ, ◌≡◌, ◌≢◌, refl, ap, ◌∙◌, sym, String, true, false, Option, none, some, [], Result, ok, err,
  map_err, arith, nat_eq, string_eq, ◌==◌, ==-refl, Bool-cases, inl, inr, and_then,
}
use dcontext.Base.HashMap.{get, insert, get-insert}
use dcontext.Error.{serialization_failed}
use dcontext.Value.{TypeId, Bytes, Value, Serde, serialize_value, downcast_ref}
use dcontext.Registry.{Registration, RegistryMap, DeserializeFn}
use dcontext.Registry.Options.{RegistrationOptions, default_options}
use dcontext.Registry.Register.{
  make_registration, native_deserializer, custom_serializer, do_register_with,
  do_register_migration, add_deserializer,
}
use dcontext.Registry.Outcomes.{do_register_with_cases, do_register_migration_cases}
use dcontext.Registry.Reads.{info_of}
use dcontext.Wire.Encode.{value_bytes}

pub map_err-eq-ok :
    {A E F : Type 0} (f : E → F) (m : Result A E) {a : A} → map_err f m ≡ ok a → m ≡ ok a
map_err-eq-ok f (ok b) h = ground arith
map_err-eq-ok f (err e) h = cc

module _ {D : Type 0} (serde : Serde D) where
  -- The codec of the options decodes what it encodes. The builder sets both halves or none, and
  -- with none the type's own codec serves.
  abbrev pub IsInverse :
      TypeId → Option (D → Result Bytes String) → Option (Bytes → Result D String) → Type 0
  IsInverse t none none =
      (d : D) (bytes : Bytes) → serde.serialize t d ≡ ok bytes → serde.deserialize t bytes ≡ ok d
  IsInverse t none (some decode) = ⊥
  IsInverse t (some encode) none = ⊥
  IsInverse t (some encode) (some decode) =
      (d : D) (bytes : Bytes) → encode d ≡ ok bytes → decode bytes ≡ ok d

  abbrev Decodes : Registration D → Type 0
  Decodes r =
      (v : Value D) (bytes : Bytes)
      → v.type_id ≡ r.type_id
      → value_bytes serde (some (info_of r)) v ≡ ok bytes
      → (f : DeserializeFn D) × (get r.key_version r.deserializers ≡ some f) × (f bytes ≡ ok v)

  -- A local-only entry has no deserializer; any other decodes at its current version.
  pub record IsSound (r : Registration D) : Type 0 where
    pub unwired : r.local_only ≡ true → r.deserializers ≡ []
    pub decodes : r.local_only ≡ false → Decodes r

  pub record RegistryIsSound (registry : RegistryMap D) : Type 0 where
    pub at_key : (k : String) (r : Registration D) → get k registry ≡ some r → r.key ≡ k
    pub sound : (k : String) (r : Registration D) → get k registry ≡ some r → IsSound r

  own_codec :
      (t : TypeId) (v : Value D) (bytes : Bytes)
      → IsInverse t none none
      → v.type_id ≡ t
      → serialize_value serde v ≡ ok bytes
      → native_deserializer serde t none bytes ≡ ok v
  unfolding serialize_value native_deserializer
  own_codec t v bytes inv e h =
      let raw = map_err-eq-ok _ (serde.serialize v.type_id v.data_of) h in
      rw (inv v.data_of bytes (rw e at raw)) (ap (λ x. ok (record v { type_id = x })) (sym e))

  custom_serializer-typed :
      (t : TypeId) (encode : D → Result Bytes String) (v : Value D)
      → v.type_id ≡ t
      → custom_serializer t encode v ≡ map_err serialization_failed (encode v.data_of)
  unfolding custom_serializer downcast_ref
  custom_serializer-typed t encode v e = ground arith

  custom_codec :
      (t : TypeId) (encode : D → Result Bytes String) (decode : Bytes → Result D String)
      (v : Value D) (bytes : Bytes)
      → IsInverse t (some encode) (some decode)
      → v.type_id ≡ t
      → custom_serializer t encode v ≡ ok bytes
      → native_deserializer serde t (some decode) bytes ≡ ok v
  unfolding native_deserializer
  custom_codec t encode decode v bytes inv e h =
      let raw =
        map_err-eq-ok _ (encode v.data_of) (sym (custom_serializer-typed t encode v e) ∙ h) in
      rw (inv v.data_of bytes raw) (ap (λ x. ok (record v { type_id = x })) (sym e))

  codec_decodes :
      (t : TypeId) (encode : Option (D → Result Bytes String))
      (decode : Option (Bytes → Result D String)) (v : Value D) (bytes : Bytes)
      → IsInverse t encode decode
      → v.type_id ≡ t
      → (elim (and_then encode (λ c. some (custom_serializer t c))) [
        | some c ↦ c v
        | none ↦ serialize_value serde v
      ])
        ≡ ok bytes
      → native_deserializer serde t decode bytes ≡ ok v
  codec_decodes t none none v bytes inv e h = own_codec t v bytes inv e h
  codec_decodes t none (some decode) v bytes inv e h = absurd inv
  codec_decodes t (some encode) none v bytes inv e h = absurd inv
  codec_decodes t (some encode) (some decode) v bytes inv e h =
      custom_codec t encode decode v bytes inv e h

  make_registration-IsSound :
      (t : TypeId) (key : String) (opts : RegistrationOptions D)
      → IsInverse t opts.encode opts.decode
      → IsSound (make_registration serde t key opts)
  unfolding make_registration value_bytes get
  make_registration-IsSound t key opts inv = record {
    unwired = λ local. rw local;
    decodes = λ wired v bytes e h. (
      native_deserializer serde t opts.decode,
      rw wired (rw (==-refl opts.version)),
      codec_decodes t opts.encode opts.decode v bytes inv e h,
    );
  }

  -- `with_registration` of a key that the builder has just changed.
  insert-IsSound :
      (k : String) (r : Registration D) (registry : RegistryMap D)
      → RegistryIsSound registry
      → r.key ≡ k
      → IsSound r
      → RegistryIsSound (insert k r registry)
  insert-IsSound k r registry s named sound = record {
    at_key = λ j q found.
        ground (arith, get-insert j k r registry, string_eq.same_iff k j, s.at_key j q);
    sound = λ j q found. elim (Bool-cases (k == j)) [
      | inl same ↦ rw (let e : r ≡ q = ground (arith, get-insert j k r registry) in sym e) sound
      | inr other ↦ s.sound j q (ground (arith, get-insert j k r registry))
    ];
  }

  -- Registering with options whose codec decodes what it encodes, successfully or not, takes a
  -- sound registry to a sound one.
  pub do_register_with-IsSound :
      (t : TypeId) (registry : RegistryMap D) (key : String)
      (configure : RegistrationOptions D → RegistrationOptions D)
      → RegistryIsSound registry
      → IsInverse t (configure default_options).encode (configure default_options).decode
      → RegistryIsSound (do_register_with serde t registry key configure).0
  do_register_with-IsSound t registry key configure s inv =
      elim (do_register_with_cases serde t registry key configure) [
        | inl same ↦ rw same s
        | inr added ↦ rw added (
            insert-IsSound key _ registry s (unfold make_registration in refl)
              (make_registration-IsSound t key (configure default_options) inv))
      ]

  -- A migration adds a deserializer beside the current one.
  add_deserializer-IsSound :
      (v : ℕ) (f : DeserializeFn D) (r : Registration D)
      → IsSound r
      → r.local_only ≡ false
      → v ≢ r.key_version
      → IsSound (add_deserializer v f r)
  unfolding value_bytes
  add_deserializer-IsSound v f r s wired other = record {
    unwired = λ local. cc;
    decodes = λ _ x bytes e h.
        let (g, found, back) = s.decodes wired x bytes e h in
        (g, ground (arith, get-insert r.key_version v f r.deserializers, found), back);
  }

  -- Registering a migration, successfully or not, takes a sound registry to a sound one.
  do_register_migration-IsSound :
      (t_old t : TypeId) (registry : RegistryMap D) (key : String) (old_version : ℕ)
      (migrate : D → D)
      → RegistryIsSound registry
      → RegistryIsSound (do_register_migration serde t_old t registry key old_version migrate).0
  do_register_migration-IsSound t_old t registry key old_version migrate s =
      elim (do_register_migration_cases serde t_old t registry key old_version migrate) [
        | inl same ↦ rw same s
        | inr (r, found, wired, _, other, added) ↦ rw added (
            insert-IsSound key _ registry s (s.at_key key r found)
              (add_deserializer-IsSound old_version _ r (s.sound key r found) wired other))
      ]
