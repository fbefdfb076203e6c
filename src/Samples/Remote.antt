-- ===== src/Samples/Remote.antt =====
-- What programs of samples/src/bin that send context to another process print, for all values that
-- they set and all codecs that read back what they wrote.
use dcontext.Base.{
  if◌then◌else◌, Bool, false, ℕ, ◌≡◌, ◌≤◌, ◌<◌, ltb_of_le, lt→ltb, refl, some, List, [], ◌∷◌, true,
  ok, length, take, min,
}
use dcontext.Base.HashMap.{get, insert, extend, extend_missing, filter}
use dcontext.Config
use dcontext.Config.{check_size}
use dcontext.Value.{Bytes, Serde, downcast_ref, serialize_value}
use dcontext.Registry.Reads
use dcontext.Registry.Register
use dcontext.Registry.Register.{
  try_register, do_register_with, check_options, register_checked, make_registration,
  native_deserializer, box_as, try_register_with, try_register_migration, do_register_migration,
  migration_deserializer,
}
use dcontext.Registry.Globals
use dcontext.Registry.Globals.{global_registry, try_initialize}
use dcontext.Store.Lookup.{
  set_value, get_value, find_local, find_fallback, find_frozen, collect_values, collect_local,
  collect_frozen,
}
use dcontext.Store.Chain
use dcontext.Store.Chain.{full_chain, local_names, parent_names, frozen_names, limit_chain}
use dcontext.Snapshot.{capture_with_registry, store_from_snapshot_with_registry}
use dcontext.Wire.{Bincode, WireContext, WireEntry}
use dcontext.Wire.Encode.{
  make_wire_bytes, make_wire_bytes_v, value_bytes, serialize_entry, serialize_entries,
  serialize_from,
}
use dcontext.Wire.Decode.{
  deserialize_wire, decode_registered, deserialize_entry, deserialize_entries,
  deserialize_to_snapshot,
}
use dcontext.Context
use dcontext.Context.{try_apply, try_read, store_from_snapshot}
use dcontext.Context.Typed.{set_context_variable, get_context_variable}
use dcontext.Samples.Program.{Line, line, value, number, bytes, part, printed}
use dcontext.Samples.CrossProcess
use dcontext.Samples.SizeLimits
use dcontext.Samples.SizeLimits.{payload_type}
use dcontext.Samples.VersionMigration
use dcontext.Samples.VersionMigration.{v1_type, v2_type}
use dcontext.Samples.CrossProcess.{Base64, trace_type, auth_type, two_orders, body}

abbrev trace_entry : Bytes → WireEntry
trace_entry trace = record { key = "trace_context"; key_version = 1; value = trace }

abbrev auth_entry : Bytes → WireEntry
auth_entry auth = record { key = "auth_info"; key_version = 1; value = auth }

-- The wire record of one process with the two values, in one of the two orders.
abbrev pub both_entries : Bool → Bytes → Bytes → WireContext
both_entries swapped trace auth = record {
  version = 2;
  entries =
      if swapped
      then auth_entry auth ∷ trace_entry trace ∷ []
      else trace_entry trace ∷ auth_entry auth ∷ [];
  scope_chain = [];
}

abbrev pub one_entry : ℕ → Bytes → WireContext
one_entry key_version b = record {
  version = 2;
  entries = record { key = "trace_ctx"; key_version = key_version; value = b } ∷ [];
  scope_chain = [];
}

abbrev pub cross_process_lines :
    Base64 → CrossProcess.Data → CrossProcess.Data → Bytes → List (Line CrossProcess.Data)
cross_process_lines base64 t a wire =
    line "=== Sender ===" []
    ∷ line "trace = {:?}" (value t ∷ [])
    ∷ line "auth  = {:?}" (value a ∷ [])
    ∷ line "\nSerialized to {} bytes" (number (length wire) ∷ [])
    ∷ line "Base64: {}..."
        (bytes (take (min 40 (length (base64.encode wire))) (base64.encode wire)) ∷ [])
    ∷ line "\n=== Receiver (bytes) ===" []
    ∷ line "trace = {:?}" (value t ∷ [])
    ∷ line "auth  = {:?}" (value a ∷ [])
    ∷ line "\n=== Receiver (base64 string) ===" []
    ∷ line "trace = {:?}" (value t ∷ [])
    ∷ line "auth  = {:?}" (value a ∷ [])
    ∷ line "\n=== Partial receiver (only trace_context registered) ===" []
    ∷ line "(In production, unregistered keys are skipped during deserialization)" []
    ∷ []

-- In every build, for all values that it sets, and whichever of its two keys the iteration of the
-- captured map meets first: if both values and the wire record of both in that order are
-- serialized, and their bytes and the base64 text are read back as what was written, the program
-- does not panic, and both receivers print what the sender printed.
pub cross_process-printed :
    (serde : Serde CrossProcess.Data) (bincode : Bincode) (base64 : Base64) (swapped : Bool)
    (t a : CrossProcess.Data) {bt ba wire : Bytes}
    → serde.serialize trace_type t ≡ ok bt
    → serde.deserialize trace_type bt ≡ ok t
    → serde.serialize auth_type a ≡ ok ba
    → serde.deserialize auth_type ba ≡ ok a
    → bincode.serialize (both_entries swapped bt ba) ≡ ok wire
    → bincode.deserialize wire ≡ ok (both_entries swapped bt ba)
    → base64.decode (base64.encode wire) ≡ ok wire
    → printed serde bincode (body base64 (two_orders swapped) t a)
      ≡ some (cross_process_lines base64 t a wire)
unfolding body two_orders CrossProcess.show_context CrossProcess.receive Register.register
    try_register do_register_with check_options register_checked make_registration
    native_deserializer box_as get insert extend extend_missing filter global_registry
    try_initialize Globals.initialize set_context_variable get_context_variable try_apply try_read
    set_value get_value find_local find_fallback find_frozen downcast_ref Reads.cached_keys
    Context.capture store_from_snapshot capture_with_registry store_from_snapshot_with_registry
    collect_values collect_local collect_frozen Chain.scope_chain full_chain local_names
    parent_names frozen_names limit_chain Reads.is_local_key Reads.is_valid_value Context.serialize
    Context.deserialize Context.attach_store Context.attach_snapshot Context.drop_attach_guard
    value_bytes serialize_value serialize_entry serialize_entries serialize_from deserialize_wire
    decode_registered deserialize_entry deserialize_entries deserialize_to_snapshot check_size
    Reads.get_serialization_info
cross_process-printed serde bincode base64 false t a et dt ea da ew dw back =
    rw et (rw ea (rw ew (rw dw (rw dt (rw da (rw back (rw dw (rw dt (rw da refl)))))))))
cross_process-printed serde bincode base64 true t a et dt ea da ew dw back =
    rw ea (rw et (rw ew (rw dw (rw da (rw dt (rw back (rw dw (rw da (rw dt refl)))))))))

abbrev pub version_migration_lines :
    VersionMigration.Data → VersionMigration.TraceContextV1 → List (Line VersionMigration.Data)
version_migration_lines current old =
    let migrated =
      VersionMigration.v2 (record { trace_id = old.trace_id; span_id = ""; sampled = true }) in
    line "=== Version Migration ===\n" []
    ∷ line "1. Current version roundtrip (V2 → V2):" []
    ∷ line "   trace_id = {}" (part "trace_id" current ∷ [])
    ∷ line "   span_id  = {}" (part "span_id" current ∷ [])
    ∷ line "   sampled  = {}" (part "sampled" current ∷ [])
    ∷ line "\n2. Receiving old V1 bytes → auto-migrated to V2:" []
    ∷ line "   (Simulating bytes from a node running the old schema)" []
    ∷ line "   trace_id = {} (preserved from V1)" (part "trace_id" migrated ∷ [])
    ∷ line "   span_id  = {:?} (default — V1 didn't have it)" (part "span_id" migrated ∷ [])
    ∷ line "   sampled  = {} (default — V1 didn't have it)" (part "sampled" migrated ∷ [])
    ∷ line "\n3. Both V1 and V2 deserializers registered:" []
    ∷ line "   The receiver can handle bytes from any known version." []
    ∷ line "   Unknown versions return a clear error listing supported versions." []
    ∷ line "\nDone! Version migration enables safe rolling upgrades." []
    ∷ []

-- In every build, for the current value and the value of the old type that it is given: if both
-- values and both wire records are serialized, and their bytes are read back as what was written,
-- the program does not panic, and prints the fields of the current value and then those of the
-- migrated one, which has the old trace id, no span id and is sampled.
pub version_migration-printed :
    (serde : Serde VersionMigration.Data) (bincode : Bincode) (current : VersionMigration.Data)
    (old : VersionMigration.TraceContextV1) {b1 b2 wire1 wire2 : Bytes}
    → serde.serialize v1_type (VersionMigration.v1 old) ≡ ok b1
    → serde.deserialize v1_type b1 ≡ ok (VersionMigration.v1 old)
    → serde.serialize v2_type current ≡ ok b2
    → serde.deserialize v2_type b2 ≡ ok current
    → bincode.serialize (one_entry 1 b1) ≡ ok wire1
    → bincode.deserialize wire1 ≡ ok (one_entry 1 b1)
    → bincode.serialize (one_entry 2 b2) ≡ ok wire2
    → bincode.deserialize wire2 ≡ ok (one_entry 2 b2)
    → printed serde bincode (VersionMigration.body current (VersionMigration.v1 old))
      ≡ some (version_migration_lines current old)
unfolding VersionMigration.body VersionMigration.registered VersionMigration.receive
    VersionMigration.migrate Register.register_with try_register_with Register.register_migration
    try_register_migration do_register_migration migration_deserializer do_register_with
    check_options register_checked make_registration native_deserializer box_as get insert extend
    extend_missing filter global_registry try_initialize Globals.initialize set_context_variable
    get_context_variable try_apply try_read set_value get_value find_local find_fallback find_frozen
    downcast_ref Reads.cached_keys Context.capture store_from_snapshot capture_with_registry
    store_from_snapshot_with_registry collect_values collect_local collect_frozen Chain.scope_chain
    full_chain local_names parent_names frozen_names limit_chain Reads.is_local_key
    Reads.is_valid_value Context.serialize Context.deserialize Context.attach_store
    Context.attach_snapshot Context.drop_attach_guard value_bytes serialize_value serialize_entry
    serialize_entries serialize_from deserialize_wire decode_registered deserialize_entry
    deserialize_entries deserialize_to_snapshot check_size Reads.get_serialization_info
    make_wire_bytes make_wire_bytes_v
version_migration-printed serde bincode current old e1 d1 e2 d2 w1 r1 w2 r2 =
    rw e2 (rw w2 (rw r2 (rw d2 (rw e1 (rw w1 (rw r1 (rw d1 refl)))))))

abbrev pub payload_entry : Bytes → WireContext
payload_entry b = record {
  version = 2;
  entries = record { key = "payload"; key_version = 1; value = b } ∷ [];
  scope_chain = [];
}

abbrev pub size_limits_lines : Bytes → Bytes → List (Line SizeLimits.Data)
size_limits_lines small large =
    line "Small payload serialized: {} bytes" (number (length small) ∷ [])
    ∷ line "Current limit: {} (0 = no limit)" (number 0 ∷ [])
    ∷ line "\nSetting max context size to 50 bytes..." []
    ∷ line "Current limit: {}" (number 50 ∷ [])
    ∷ line "Small payload OK: {} bytes" (number (length small) ∷ [])
    ∷ line "\nContextTooLarge: {} bytes > {} byte limit" (number (length large) ∷ number 50 ∷ [])
    ∷ line "\nDisabling size limit..." []
    ∷ line "Large payload OK after disabling limit: {} bytes" (number (length large) ∷ [])
    ∷ []

-- In every build, for a small and a large value that it sets: if both are serialized, the wire
-- record of the small one to at most 50 bytes and that of the large one to more, the program does
-- not panic; under the limit of 50 bytes the small one is serialized and the large one is refused
-- with its size and the limit, and with no limit both are serialized.
pub size_limits-printed :
    (serde : Serde SizeLimits.Data) (bincode : Bincode) (small large : SizeLimits.Data)
    {bs bl ws wl : Bytes}
    → serde.serialize payload_type small ≡ ok bs
    → serde.serialize payload_type large ≡ ok bl
    → bincode.serialize (payload_entry bs) ≡ ok ws
    → bincode.serialize (payload_entry bl) ≡ ok wl
    → length ws ≤ 50
    → 50 < length wl
    → printed serde bincode (SizeLimits.body small large) ≡ some (size_limits_lines ws wl)
unfolding SizeLimits.body SizeLimits.show_large Register.register try_register do_register_with
    check_options register_checked make_registration get insert extend extend_missing filter
    global_registry try_initialize Globals.initialize set_context_variable try_apply try_read
    set_value Context.capture capture_with_registry collect_values collect_local collect_frozen
    Chain.scope_chain full_chain local_names parent_names frozen_names limit_chain
    Reads.is_local_key Context.serialize value_bytes serialize_value serialize_entry
    serialize_entries serialize_from check_size Reads.get_serialization_info
    Config.set_max_context_size
size_limits-printed serde bincode small large {ws = ws} {wl = wl} es el fs fl low high =
    let fits = ltb_of_le 50 (length ws) low in
    let too_large = lt→ltb 50 (length wl) high in
    rw es (rw fs (rw es (rw fs (rw fits (rw el (rw fl (rw too_large (rw el (rw fl refl)))))))))
