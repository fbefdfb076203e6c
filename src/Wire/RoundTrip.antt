-- ===== src/Wire/RoundTrip.antt =====
-- Serialising and deserialising under one registry.
use dcontext.Base.{
  ℕ, ◌≡◌, refl, ap, ◌∙◌, sym, String, Bool, false, not, none, some, List, [], ◌∷◌, ok, >>=-eq-ok,
  map_or, arith, if◌then◌else◌, string_eq, nat_eq, Option-cases, Bool-cases, inl, inr,
}
use dcontext.Base.HashMap.{
  HashMap, is_empty, get, insert, extend, filter, Distinct, get-extend_nil, get-filter,
  filter-Distinct, extend-Distinct,
}
use dcontext.Config.{Config}
use dcontext.Value.{Bytes, Value, Serde}
use dcontext.Scope.{Values}
use dcontext.Registry.{Registration, RegistryMap, DeserializeFn}
use dcontext.Registry.Reads.{info_of, get_serialization_info}
use dcontext.Snapshot.{ContextSnapshot}
use dcontext.Wire.{WireEntry, WireContext, Bincode, wire_version}
use dcontext.Wire.Encode.{value_bytes, serialize_entry, serialize_entries, serialize_from}
use dcontext.Wire.Decode.{
  deserialize_wire, decode_registered, deserialize_entry, deserialize_entries,
  deserialize_to_snapshot,
}
use dcontext.Wire.Sound.{RegistryIsSound, map_err-eq-ok}
use dcontext.Wire.Size.{serialize_from_parts}

-- What bincode promises for the wire record: it reads back what it wrote.
abbrev pub ReadsBack : Bincode → Type 0
ReadsBack bincode =
    (wire : WireContext) (bytes : Bytes)
    → bincode.serialize wire ≡ ok bytes
    → bincode.deserialize bytes ≡ ok wire

pub deserialize_wire-current :
    (bincode : Bincode) (bytes : Bytes) (entries : List WireEntry) (chain : List String)
    → bincode.deserialize bytes
      ≡ ok (record { version = wire_version; entries = entries; scope_chain = chain })
    → deserialize_wire bincode bytes ≡ ok (entries, chain)
unfolding deserialize_wire
deserialize_wire-current bincode bytes entries chain h = rw h

module _ {D : Type 0} where
  -- The key is registered, and not as local-only.
  unfoldable pub is_wired : RegistryMap D → String → Bool
  is_wired registry key = map_or false (λ r. not r.local_only) (get key registry)

  -- Values under registered keys have the registered type. `set_context_variable` does not check
  -- that.
  abbrev pub AreTyped : RegistryMap D → Values D → Type 0
  AreTyped registry [] = Unit
  AreTyped registry ((k, v) ∷ values) =
      ((r : Registration D) → get k registry ≡ some r → v.type_id ≡ r.type_id)
      × AreTyped registry values

  is_wired-missing :
      (registry : RegistryMap D) (k : String) → get k registry ≡ none → is_wired registry k ≡ false
  unfolding is_wired
  is_wired-missing registry k h = ground arith

  is_wired-found :
      (registry : RegistryMap D) (k : String) (r : Registration D)
      → get k registry ≡ some r
      → is_wired registry k ≡ not r.local_only
  unfolding is_wired
  is_wired-found registry k r h = ground arith

  info-missing :
      (registry : RegistryMap D) (k : String)
      → get k registry ≡ none
      → get_serialization_info registry k ≡ none
  unfolding get_serialization_info
  info-missing registry k h = ground arith

  info-found :
      (registry : RegistryMap D) (k : String) (r : Registration D)
      → get k registry ≡ some r
      → get_serialization_info registry k ≡ some (info_of r)
  unfolding get_serialization_info
  info-found registry k r h = ground arith

  deserialize-missing :
      (registry : RegistryMap D) (e : WireEntry)
      → get e.key registry ≡ none
      → deserialize_entry registry e ≡ ok none
  unfolding deserialize_entry
  deserialize-missing registry e h = ground arith

  pub deserialize-found :
      (registry : RegistryMap D) (e : WireEntry) (r : Registration D)
      → get e.key registry ≡ some r
      → deserialize_entry registry e ≡ decode_registered r e
  unfolding deserialize_entry
  deserialize-found registry e r h = rw (h, deserialize_entry)

  decode-unwired :
      (r : Registration D) (e : WireEntry) → r.deserializers ≡ [] → decode_registered r e ≡ ok none
  unfolding decode_registered
  decode-unwired r e h = rw (h, decode_registered)

  pub is_empty-get :
      (v : ℕ) (m : HashMap ℕ (DeserializeFn D)) (f : DeserializeFn D)
      → get v m ≡ some f
      → is_empty m ≡ false
  unfolding get
  is_empty-get v [] f h = cc
  is_empty-get v (x ∷ m) f h = refl

  pub decode-wired :
      (r : Registration D) (e : WireEntry) (f : DeserializeFn D) (v : Value D)
      → get e.key_version r.deserializers ≡ some f
      → f e.value ≡ ok v
      → decode_registered r e ≡ ok (some (r.key, v))
  unfolding decode_registered
  decode-wired r e f v known decoded =
      rw (is_empty-get e.key_version r.deserializers f known)
        (rw (known, decode_registered) (rw decoded))

module _ {D : Type 0} (serde : Serde D) (registry : RegistryMap D)
    (s : RegistryIsSound serde registry) where
  entry_parts :
      (k : String) (v : Value D) (entry : WireEntry)
      → serialize_entry serde registry k v ≡ ok entry
      → let info = get_serialization_info registry k in
        (bytes : Bytes) × (value_bytes serde info v ≡ ok bytes)
        × (entry
            ≡ record { key = k; key_version = map_or 1 (λ i. i.key_version) info; value = bytes })
  unfolding serialize_entry
  entry_parts k v entry h =
      let (bytes, encoded, made) = >>=-eq-ok _ _ h in
      (bytes, map_err-eq-ok _ _ encoded, ground arith)

  decode_found :
      (k : String) (v : Value D) (r : Registration D) (entry : WireEntry) (bytes : Bytes)
      → get k registry ≡ some r
      → v.type_id ≡ r.type_id
      → value_bytes serde (some (info_of r)) v ≡ ok bytes
      → entry.key_version ≡ r.key_version
      → entry.value ≡ bytes
      → decode_registered r entry ≡ ok (if not r.local_only then some (k, v) else none)
  decode_found k v r entry bytes found typed encoded version value =
      let sound = s.sound k r found in
      elim (Bool-cases r.local_only) [
        | inl local ↦ simp local (decode-unwired r entry (sound.unwired local))
        | inr wired ↦
            let (f, known, decoded) = sound.decodes wired v bytes typed encoded in
            simp wired (
              decode-wired r entry f v (ap (λ x. get x r.deserializers) version ∙ known)
                (ap f value ∙ decoded)
              ∙ ap (λ x. ok (some (x, v))) (s.at_key k r found))
      ]

  -- What an entry that was written is read back as.
  decode_entry :
      (k : String) (v : Value D) (entry : WireEntry)
      → ((r : Registration D) → get k registry ≡ some r → v.type_id ≡ r.type_id)
      → serialize_entry serde registry k v ≡ ok entry
      → deserialize_entry registry entry ≡ ok (if is_wired registry k then some (k, v) else none)
  decode_entry k v entry typed h =
      let (bytes, encoded, made) = entry_parts k v entry h in
      let at_k : entry.key ≡ k = ap (λ x. x.key) made in
      elim (Option-cases (get k registry)) [
        | inl missing ↦
            rw (is_wired-missing registry k missing)
              (deserialize-missing registry entry (ap (λ x. get x registry) at_k ∙ missing))
        | inr (r, found) ↦ rw (is_wired-found registry k r found) (
            deserialize-found registry entry r (ap (λ x. get x registry) at_k ∙ found)
            ∙ decode_found k v r entry bytes found (typed r found)
                (ap (λ i. value_bytes serde i v) (sym (info-found registry k r found)) ∙ encoded)
                (ap (λ x. x.key_version) made
                  ∙ ap (map_or 1 (λ i. i.key_version)) (info-found registry k r found))
                (ap (λ x. x.value) made))
      ]

  decode_all :
      (values acc : Values D) (entries : List WireEntry)
      → AreTyped registry values
      → serialize_entries serde registry values ≡ ok entries
      → deserialize_entries registry acc entries
        ≡ ok (extend acc (filter (λ k v. is_wired registry k) values))
  unfolding serialize_entries deserialize_entries filter extend
  decode_all [] acc entries typed h =
      let e : [] ≡ entries = ground arith in ap (deserialize_entries registry acc) (sym e)
  decode_all ((k, v) ∷ values) acc entries typed h =
      let (entry, written, h') = >>=-eq-ok _ _ h in
      let (rest, others, h'') = >>=-eq-ok (serialize_entries serde registry values) _ h' in
      let e : entry ∷ rest ≡ entries = ground arith in
      let here = decode_entry k v entry typed.0 written in
      ap (deserialize_entries registry acc) (sym e)
      ∙ rw here (elim (Bool-cases (is_wired registry k)) [
        | inl wired ↦ rw wired (decode_all values (insert k v acc) rest typed.1 others)
        | inr skipped ↦ rw skipped (decode_all values acc rest typed.1 others)
      ])

  -- Under a sound registry, where bincode reads back what it wrote, for values with distinct keys
  -- and the registered types: bytes that `serialize_from` makes are read back as a snapshot with
  -- distinct keys and the same scope chain, which holds at each key what the values held, if the
  -- key is registered and not local-only, and nothing at other keys.
  pub deserialize-serialize :
      (bincode : Bincode) (config : Config) (values : Values D) (chain : List String)
      {bytes : Bytes}
      → ReadsBack bincode
      → Distinct values
      → AreTyped registry values
      → serialize_from serde bincode config registry values chain ≡ ok bytes
      → (snap : ContextSnapshot D) × (deserialize_to_snapshot bincode registry bytes ≡ ok snap)
        × (snap.scope_chain ≡ chain)
        × Distinct snap.values
        × ((k : String) → get k snap.values ≡ (if is_wired registry k then get k values else none))
  unfolding deserialize_to_snapshot
  deserialize-serialize bincode config values chain {bytes} reads d typed h =
      let (entries, encoded, written, fits) =
        serialize_from_parts serde registry bincode config values chain h in
      let kept = filter (λ k v. is_wired registry k) values in
      (
        record { values = extend [] kept; scope_chain = chain },
        rw (deserialize_wire-current bincode bytes entries chain (reads _ bytes written))
            (rw (decode_all values [] entries typed encoded)),
        refl,
        extend-Distinct [] kept tt,
        λ k.
            get-extend_nil k kept (filter-Distinct _ values d)
            ∙ get-filter _ k values d
            ∙ ground arith,
      )
