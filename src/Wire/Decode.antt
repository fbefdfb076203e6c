-- ===== src/Wire/Decode.antt =====
-- dcontext/src/wire.rs: `deserialize_wire`, `deserialize_entry` and `deserialize_to_snapshot`.
use dcontext.Base.{
  ℕ, String, ◌||◌, Option, none, some, List, [], ◌∷◌, Result, ok, err, ◌>>=◌, map_err,
  if◌then◌else◌, nat_eqb, nat_eq, string_eq,
}
use dcontext.Base.HashMap.{HashMap, get, insert, is_empty}
use dcontext.Error.{ContextError, deserialization_failed, decimal}
use dcontext.Value.{Bytes, Value}
use dcontext.Scope.{Values}
use dcontext.Registry.{Registration, RegistryMap}
use dcontext.Snapshot.{ContextSnapshot}
use dcontext.Wire.{WireEntry, Bincode}
use Prim.Native.String.{◌++◌}

-- `{:?}` of the versions, after the first.
versions_from : {A : Type 0} → HashMap ℕ A → String
versions_from [] = "]"
versions_from ((v, f) ∷ rest) = ", " ++ decimal v ++ versions_from rest

versions : {A : Type 0} → HashMap ℕ A → String
versions [] = "[]"
versions ((v, f) ∷ rest) = "[" ++ decimal v ++ versions_from rest

unfoldable pub deserialize_wire :
    Bincode → Bytes → Result (List WireEntry × List String) ContextError
deserialize_wire bincode bytes = do
  wire ← map_err deserialization_failed (bincode.deserialize bytes)
  if nat_eqb wire.version 1 || nat_eqb wire.version 2
      then ok (wire.entries, wire.scope_chain)
      else err (
          deserialization_failed (
            "unsupported wire version: "
            ++ decimal wire.version
            ++ " (this library supports versions 1 and 2)"))

module _ {D : Type 0} where
  unfoldable pub no_deserializer : String → WireEntry → Registration D → ContextError
  unfolding versions versions_from
  no_deserializer key entry reg = deserialization_failed (
      "no deserializer for key '"
      ++ key
      ++ "' wire version "
      ++ decimal entry.key_version
      ++ " (registered versions: "
      ++ versions reg.deserializers
      ++ ")")

  -- The entry under the registration of its key.
  unfoldable pub decode_registered :
      Registration D → WireEntry → Result (Option (String × Value D)) ContextError
  unfolding no_deserializer
  decode_registered reg entry =
      if is_empty reg.deserializers
      then ok none
      else elim (get entry.key_version reg.deserializers) [
        | some deser_fn ↦ (do v ← deser_fn entry.value; ok (some (reg.key, v)))
        | none ↦ err (no_deserializer entry.key entry reg)
      ]

  unfoldable pub deserialize_entry :
      RegistryMap D → WireEntry → Result (Option (String × Value D)) ContextError
  unfolding decode_registered
  deserialize_entry registry entry = elim (get entry.key registry) [
    | none ↦ ok none
    | some reg ↦ decode_registered reg entry
  ]

  abbrev pub insert_entry : Option (String × Value D) → Values D → Values D
  insert_entry none values = values
  insert_entry (some (k, v)) values = insert k v values

  -- The loop over the entries.
  unfoldable pub deserialize_entries :
      RegistryMap D → Values D → List WireEntry → Result (Values D) ContextError
  unfolding deserialize_entry
  deserialize_entries registry values [] = ok values
  deserialize_entries registry values (entry ∷ entries) = do
    restored ← deserialize_entry registry entry
    deserialize_entries registry (insert_entry restored values) entries

  unfoldable pub deserialize_to_snapshot :
      Bincode → RegistryMap D → Bytes → Result (ContextSnapshot D) ContextError
  deserialize_to_snapshot bincode registry bytes = do
    (entries, scope_chain) ← deserialize_wire bincode bytes
    values ← deserialize_entries registry [] entries
    ok (record { values = values; scope_chain = scope_chain })
