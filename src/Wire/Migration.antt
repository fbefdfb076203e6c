-- ===== src/Wire/Migration.antt =====
-- Bytes of an older version of a key, read under a registry with a migration.
use dcontext.Base.{
  ℕ, ◌≡◌, ◌≢◌, refl, ap, ◌∙◌, String, false, some, [], ◌∷◌, ok, arith, nat_eq, string_eq, ==-refl,
}
use dcontext.Base.HashMap.{get, insert, get-insert}
use dcontext.Value.{TypeId, Bytes, Value, Serde}
use dcontext.Registry.{Registration, RegistryMap}
use dcontext.Registry.Register.{do_register_migration, migration_deserializer, add_deserializer}
use dcontext.Wire.{WireEntry, WireContext, Bincode}
use dcontext.Wire.Encode.{make_wire_bytes, make_wire_bytes_v}
use dcontext.Wire.Decode.{deserialize_to_snapshot, deserialize_entries}
use dcontext.Wire.RoundTrip.{ReadsBack, deserialize-found, decode-wired, deserialize_wire-current}

-- The record that `make_wire_bytes` writes.
abbrev pub single_entry : String → ℕ → Bytes → WireContext
single_entry key key_version value = record {
  version = 2;
  entries = record { key = key; key_version = key_version; value = value } ∷ [];
  scope_chain = [];
}

module _ {D : Type 0} (serde : Serde D) where
  migrated :
      (t_old t : TypeId) (registry : RegistryMap D) (key : String) (v : ℕ) (migrate : D → D)
      (r : Registration D)
      → get key registry ≡ some r
      → r.type_id ≡ t
      → r.local_only ≡ false
      → v ≢ r.key_version
      → (do_register_migration serde t_old t registry key v migrate).0
        ≡ insert key (add_deserializer v (migration_deserializer serde t_old t migrate) r) registry
  unfolding do_register_migration
  migrated t_old t registry key v migrate r found typed wired other = ground arith

  migration_deserializer-ok :
      (t_old t : TypeId) (migrate : D → D) (value : Bytes) (old : D)
      → serde.deserialize t_old value ≡ ok old
      → migration_deserializer serde t_old t migrate value
        ≡ ok (record { type_id = t; data_of = migrate old })
  unfolding migration_deserializer
  migration_deserializer-ok t_old t migrate value old h = rw h

  make_wire_bytes-ok :
      (bincode : Bincode) (key : String) (v : ℕ) (value : Bytes) {bytes : Bytes}
      → bincode.serialize (single_entry key v value) ≡ ok bytes
      → make_wire_bytes bincode key v value ≡ bytes
  unfolding make_wire_bytes make_wire_bytes_v
  make_wire_bytes-ok bincode key v value h = rw h

  -- For a key that is registered at the current type, not local-only, and at another version,
  -- where bincode reads back what it wrote and the old type reads the value: after the migration
  -- is registered, bytes with one entry of the old version are read as a snapshot that has the
  -- migrated value at the current type under the key, and nothing else.
  pub deserialize-migration :
      (t_old t : TypeId) (registry : RegistryMap D) (key : String) (v : ℕ) (migrate : D → D)
      (r : Registration D) (bincode : Bincode) (value : Bytes) (old : D) {bytes : Bytes}
      → ReadsBack bincode
      → bincode.serialize (single_entry key v value) ≡ ok bytes
      → get key registry ≡ some r
      → r.key ≡ key
      → r.type_id ≡ t
      → r.local_only ≡ false
      → v ≢ r.key_version
      → serde.deserialize t_old value ≡ ok old
      → deserialize_to_snapshot bincode
          (do_register_migration serde t_old t registry key v migrate).0
          (make_wire_bytes bincode key v value)
        ≡ ok (record {
          values = (key, record { type_id = t; data_of = migrate old }) ∷ [];
          scope_chain = [];
        })
  unfolding deserialize_to_snapshot deserialize_entries insert
  deserialize-migration t_old t registry key v migrate r bincode value old {bytes} reads written
        found named typed wired other read =
      let f = migration_deserializer serde t_old t migrate in
      let r' = add_deserializer v f r in
      let e : WireEntry = record { key = key; key_version = v; value = value } in
      let now : Value D = record { type_id = t; data_of = migrate old } in
      let at_key : get key (insert key r' registry) ≡ some r' =
        get-insert key key r' registry ∙ rw (==-refl key) in
      let at_version : get v r'.deserializers ≡ some f =
        get-insert v v f r.deserializers ∙ rw (==-refl v) in
      let entry =
        deserialize-found (insert key r' registry) e r' at_key
        ∙ decode-wired r' e f now at_version
            (migration_deserializer-ok t_old t migrate value old read)
        ∙ ap (λ k. ok (some (k, now))) named in
      rw (migrated t_old t registry key v migrate r found typed wired other) (
        rw (make_wire_bytes-ok bincode key v value written) (
          rw (deserialize_wire-current bincode bytes (e ∷ []) [] (reads _ bytes written))
            (rw entry refl)))
