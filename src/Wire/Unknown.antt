-- ===== src/Wire/Unknown.antt =====
-- Entries that a process does not know.
use dcontext.Base.{
  ◌>>=◌, fun_ext, nat_eqb, ◌||◌, ◌≡◌, refl, ap, String, Bool, false, not, none, List, [], ◌∷◌, ok,
  arith, map_or, if◌then◌else◌, Bool-cases, Option-cases, inl, inr, string_eq,
}
use dcontext.Base.HashMap.{get, is_empty}
use dcontext.Value.{Bytes}
use dcontext.Scope.{Values}
use dcontext.Registry.{RegistryMap}
use dcontext.Wire.{WireEntry, WireContext, Bincode}
use dcontext.Wire.Decode.{
  insert_entry, deserialize_to_snapshot, deserialize_wire, deserialize_entries, deserialize_entry,
  decode_registered,
}

module _ {D : Type 0} (registry : RegistryMap D) where
  -- The key is registered and has a deserializer, of some version.
  unfoldable pub is_known : String → Bool
  is_known key = map_or false (λ r. not (is_empty r.deserializers)) (get key registry)

  abbrev pub known : List WireEntry → List WireEntry
  known [] = []
  known (e ∷ entries) = if is_known e.key then e ∷ known entries else known entries

  deserialize_entry-unknown :
      (e : WireEntry) → is_known e.key ≡ false → deserialize_entry registry e ≡ ok none
  unfolding is_known deserialize_entry decode_registered
  deserialize_entry-unknown e h = elim (Option-cases (get e.key registry)) [
    | inl missing ↦ ground arith
    | inr (r, found) ↦ elim (Bool-cases (is_empty r.deserializers)) [
      | inl empty ↦ rw (found, deserialize_entry) (rw (empty, decode_registered))
      | inr wired ↦ absurd (ground arith)
    ]
  ]

  deserialize_entries-known :
      (entries : List WireEntry) (acc : Values D)
      → deserialize_entries registry acc entries ≡ deserialize_entries registry acc (known entries)
  unfolding deserialize_entries
  deserialize_entries-known [] acc = refl
  deserialize_entries-known (e ∷ entries) acc = elim (Bool-cases (is_known e.key)) [
    | inl here ↦ rw here (
        ap (λ k. deserialize_entry registry e >>= k)
          (fun_ext (λ x. deserialize_entries-known entries (insert_entry x acc))))
    | inr unknown ↦
        rw unknown
          (rw (deserialize_entry-unknown e unknown) (deserialize_entries-known entries acc))
  ]

  -- Bytes that hold entries of unknown keys, or of keys without a deserializer, are read with the
  -- same outcome as bytes that hold the other entries only, in the same order, with the same
  -- version and scope chain.
  pub deserialize-known :
      (bincode : Bincode) (bytes bytes' : Bytes) (wire : WireContext)
      → bincode.deserialize bytes ≡ ok wire
      → bincode.deserialize bytes' ≡ ok (record wire { entries = known wire.entries })
      → deserialize_to_snapshot bincode registry bytes
        ≡ deserialize_to_snapshot bincode registry bytes'
  unfolding deserialize_to_snapshot deserialize_wire
  deserialize-known bincode bytes bytes' wire all some_of = rw all (
      rw some_of (elim (Bool-cases (nat_eqb wire.version 1 || nat_eqb wire.version 2)) [
        | inl supported ↦ rw supported (rw (deserialize_entries-known wire.entries []) refl)
        | inr refused ↦ rw refused refl
      ]))
