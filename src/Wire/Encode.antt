-- ===== src/Wire/Encode.antt =====
-- dcontext/src/wire.rs: `serialize_from` and `make_wire_bytes`.
use dcontext.Base.{
  ℕ, String, Option, none, some, List, [], ◌∷◌, Result, ok, err, ◌>>=◌, map_err, map_or, and_then,
  length,
}
use dcontext.Config.{Config, check_size}
use dcontext.Error.{ContextError, serialization_failed, to_string}
use dcontext.Value.{Bytes, Value, Serde, serialize_value}
use dcontext.Scope.{Values}
use dcontext.Registry.{RegistryMap}
use dcontext.Registry.Reads.{SerializationInfo, get_serialization_info}
use dcontext.Wire.{WireEntry, Bincode, wire_version}
use Prim.Native.String.{◌++◌}

-- `format!("key '{}': {}", key, e)`.
abbrev pub at_key : String → ContextError → ContextError
at_key key e = serialization_failed ("key '" ++ key ++ "': " ++ to_string e)

module _ {D : Type 0} (serde : Serde D) where
  -- The custom serializer of the key, or the value's own.
  unfoldable pub value_bytes : Option (SerializationInfo D) → Value D → Result Bytes ContextError
  value_bytes info v = elim (and_then info (λ i. i.serialize_fn)) [
    | some custom_ser ↦ custom_ser v
    | none ↦ serialize_value serde v
  ]

  -- One round of the loop over the values.
  unfoldable pub serialize_entry : RegistryMap D → String → Value D → Result WireEntry ContextError
  unfolding value_bytes
  serialize_entry registry key v = do
    let info = get_serialization_info registry key
    bytes ← map_err (at_key key) (value_bytes info v)
    ok (record { key = key; key_version = map_or 1 (λ i. i.key_version) info; value = bytes })

  unfoldable pub serialize_entries : RegistryMap D → Values D → Result (List WireEntry) ContextError
  unfolding serialize_entry
  serialize_entries registry [] = ok []
  serialize_entries registry ((k, v) ∷ values) = do
    entry ← serialize_entry registry k v
    entries ← serialize_entries registry values
    ok (entry ∷ entries)

  unfoldable pub serialize_from :
      Bincode → Config → RegistryMap D → Values D → List String → Result Bytes ContextError
  serialize_from bincode config registry values scope_chain = do
    entries ← serialize_entries registry values
    bytes ← map_err serialization_failed (
        bincode.serialize
          (record { version = wire_version; entries = entries; scope_chain = scope_chain }))
    _ ← check_size config (length bytes)
    ok bytes

abbrev or_default : Result Bytes String → Bytes
or_default (ok bytes) = bytes
or_default (err e) = []

-- `make_wire_bytes_v`, where a failure leaves no bytes.
unfoldable pub make_wire_bytes_v : Bincode → ℕ → String → ℕ → Bytes → Bytes
make_wire_bytes_v bincode version key key_version value = or_default (
    bincode.serialize (record {
      version = version;
      entries = record { key = key; key_version = key_version; value = value } ∷ [];
      scope_chain = [];
    }))

unfoldable pub make_wire_bytes : Bincode → String → ℕ → Bytes → Bytes
unfolding make_wire_bytes_v
make_wire_bytes bincode = make_wire_bytes_v bincode 2
