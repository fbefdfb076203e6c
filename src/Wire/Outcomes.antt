-- ===== src/Wire/Outcomes.antt =====
-- How `serialize_from` ends, on every branch.
use dcontext.Base.{
  ◌≡◌, ◌⊎◌, ◌<◌, ◌≤◌, inl, inr, refl, String, none, some, List, [], ◌∷◌, ok, err, Result, ◌>>=◌,
  arith, length, string_eq, ◌==◌, ==-refl, Bool-cases, Result-cases,
}
use mathlib.Core.Path.{subst}
use native.Mathlib.Decide.{dec_lt}
use dcontext.Base.HashMap.{get, Distinct}
use dcontext.Error.{ContextError, serialization_failed, context_too_large}
use dcontext.Config.{Config, check_size}
use dcontext.Value.{Bytes, Value, Serde}
use dcontext.Scope.{Values}
use dcontext.Registry.{RegistryMap}
use dcontext.Registry.Reads.{get_serialization_info}
use dcontext.Wire.{WireEntry, WireContext, Bincode, wire_version}
use dcontext.Wire.Encode.{at_key, value_bytes, serialize_entry, serialize_entries, serialize_from}

module _ {D : Type 0} (serde : Serde D) (registry : RegistryMap D) where
  abbrev pub encoded : String → Value D → Result Bytes ContextError
  encoded k v = value_bytes serde (get_serialization_info registry k) v

  abbrev pub Encodes : String → Value D → Type 0
  Encodes k v = (bytes : Bytes) × (encoded k v ≡ ok bytes)

  -- A value of the map is refused by its serializer, and the result says so.
  abbrev pub Refuses : {A : Type 0} → Values D → Result A ContextError → Type 0
  Refuses values result =
      (k : String) × (v : Value D) × (e : ContextError) × (get k values ≡ some v)
      × (encoded k v ≡ err e)
      × (result ≡ err (at_key k e))

  abbrev pub AllEncode : Values D → Type 0
  AllEncode values = (k : String) (v : Value D) → get k values ≡ some v → Encodes k v

  get-other :
      (j k : String) (v w : Value D) (m : Values D)
      → get k m ≡ none
      → get j m ≡ some w
      → get j ((k, v) ∷ m) ≡ some w
  unfolding get
  get-other j k v w m new found = ground (arith, string_eq.same_iff k j)

  AllEncode-cons :
      (k : String) (v : Value D) (m : Values D) → Encodes k v → AllEncode m → AllEncode ((k, v) ∷ m)
  unfolding get
  AllEncode-cons k v m one all j w found = elim (Bool-cases (k == j)) [
    | inl same ↦
        let here : k ≡ j = ground (arith, string_eq.same_iff k j) in
        let this : v ≡ w = ground arith in
        subst (λ i. Encodes i w) here (subst (Encodes k) this one)
    | inr other ↦ all j w (ground arith)
  ]

  serialize_entries-outcome :
      (values : Values D)
      → Distinct values
      → Refuses values (serialize_entries serde registry values)
        ⊎ ((entries : List WireEntry) × (serialize_entries serde registry values ≡ ok entries)
            × AllEncode values)
  unfolding serialize_entries serialize_entry get
  serialize_entries-outcome [] d = inr ([], refl, λ k v found. cc)
  serialize_entries-outcome ((k, v) ∷ m) d = elim (Result-cases (encoded k v)) [
    | inl (e, refused) ↦ inl (k, v, e, rw (==-refl k) refl, refused, rw refused refl)
    | inr (bytes, done) ↦ elim (serialize_entries-outcome m d.1) [
      | inl (j, w, e, found, refused, failed) ↦
          inl (j, w, e, get-other j k v w m d.0 found, refused, rw done (rw failed refl))
      | inr (entries, all_done, all) ↦
          rw done (rw all_done (inr (_, refl, AllEncode-cons k v m (bytes, done) all)))
    ]
  ]

  -- How a serialization ends whose values have been encoded: with bincode's error for the wire
  -- record, with a size above a positive limit, or with bincode's bytes.
  abbrev pub IsWritten : Bincode → Config → WireContext → Result Bytes ContextError → Type 0
  IsWritten bincode config wire result =
      ((text : String) × (bincode.serialize wire ≡ err text)
        × (result ≡ err (serialization_failed text)))
      ⊎ ((bytes : Bytes) × (bincode.serialize wire ≡ ok bytes)
          × (((0 < config.max_context_size)
                × (config.max_context_size < length bytes)
                × (result ≡ err (context_too_large (length bytes) config.max_context_size)))
              ⊎ ((0 < config.max_context_size → length bytes ≤ config.max_context_size)
                  × (result ≡ ok bytes))))

  -- The wire record has the current version and the scope chain.
  abbrev pub Written : Bincode → Config → List String → Result Bytes ContextError → Type 0
  Written bincode config chain result =
      (entries : List WireEntry) × IsWritten bincode config
        (record { version = wire_version; entries = entries; scope_chain = chain }) result

  size_checked :
      (config : Config) (bytes : Bytes)
      → let result = check_size config (length bytes) >>= λ _. ok bytes in
        ((0 < config.max_context_size)
          × (config.max_context_size < length bytes)
          × (result ≡ err (context_too_large (length bytes) config.max_context_size)))
        ⊎ ((0 < config.max_context_size → length bytes ≤ config.max_context_size)
            × (result ≡ ok bytes))
  unfolding check_size
  size_checked config bytes = elim (dec_lt 0 config.max_context_size) [
    | yes limited ↦ elim (dec_lt config.max_context_size (length bytes)) [
      | yes over ↦ inl (limited, over, ground arith)
      | no fits ↦ inr (λ pos. omega arith, ground arith)
    ]
    | no unlimited ↦ inr (λ pos. absurd (unlimited pos), ground arith)
  ]

  pub serialize_from-outcome :
      (bincode : Bincode) (config : Config) (values : Values D) (chain : List String)
      → Distinct values
      → let result = serialize_from serde bincode config registry values chain in
        Refuses values result ⊎ (AllEncode values × Written bincode config chain result)
  unfolding serialize_from
  serialize_from-outcome bincode config values chain d = elim (serialize_entries-outcome values d) [
    | inl (k, v, e, found, refused, failed) ↦ inl (k, v, e, found, refused, rw failed refl)
    | inr (entries, done, all) ↦
        let wire : WireContext = record {
          version = wire_version;
          entries = entries;
          scope_chain = chain;
        } in
        elim (Result-cases (bincode.serialize wire)) [
          | inl (text, failed) ↦ inr (all, (entries, inl (text, failed, rw done (rw failed refl))))
          | inr (bytes, written) ↦ inr (
            all,
            (entries, inr (bytes, written, rw done (rw written (size_checked config bytes)))),
          )
        ]
  ]
