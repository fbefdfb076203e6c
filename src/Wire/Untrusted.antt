-- ===== src/Wire/Untrusted.antt =====
-- Bytes of any origin, read under a registry that a builder made.
use dcontext.Base.{
  ℕ, ◌≡◌, ◌⊎◌, inl, inr, refl, ap, ◌∙◌, sym, String, false, Option, none, some, List, [], ◌∷◌,
  Result, ok, arith, nat_eq, nat_eqb, string_eq, ◌==◌, Bool-cases, ◌||◌, Option-cases, Result-cases,
}
use mathlib.Core.Path.{subst}
use dcontext.Base.HashMap.{get, insert, get-insert, is_empty, Distinct, insert-Distinct}
use dcontext.Error.{ContextError}
use dcontext.Value.{Bytes, Value}
use dcontext.Scope.{Values}
use dcontext.Registry.{Registration, RegistryMap, DeserializeFn}
use dcontext.Snapshot.{ContextSnapshot}
use dcontext.Wire.{WireEntry, Bincode}
use dcontext.Wire.Decode.{
  no_deserializer, deserialize_wire, decode_registered, deserialize_entry, deserialize_entries,
  deserialize_to_snapshot,
}
use dcontext.Wire.RoundTrip.{is_empty-get, deserialize-found, decode-wired}
use dcontext.Wire.Safe.{Fails, IsSafe, RegistryIsSafe, Built, Built-IsSafe}

deserialize_wire-any :
    (bincode : Bincode) (bytes : Bytes)
    → Fails (deserialize_wire bincode bytes)
      ⊎ ((wire : List WireEntry × List String) × (deserialize_wire bincode bytes ≡ ok wire))
unfolding deserialize_wire
deserialize_wire-any bincode bytes = elim (Result-cases (bincode.deserialize bytes)) [
  | inl (text, failed) ↦ inl (text, rw failed)
  | inr (wire, read) ↦ elim (Bool-cases (nat_eqb wire.version 1 || nat_eqb wire.version 2)) [
    | inl supported ↦ inr ((wire.entries, wire.scope_chain), rw read (rw supported))
    | inr refused ↦ rw (read, deserialize_wire) (rw refused (inl (_, refl)))
  ]
]

module _ {D : Type 0} (registry : RegistryMap D) where
  -- The key is registered, not as local-only, and the value has its type.
  abbrev pub Admits : String → Value D → Type 0
  Admits k v =
      (r : Registration D) × (get k registry ≡ some r)
      × (r.local_only ≡ false)
      × (v.type_id ≡ r.type_id)

  abbrev pub AllAdmitted : Values D → Type 0
  AllAdmitted values =
      Distinct values × ((k : String) (v : Value D) → get k values ≡ some v → Admits k v)

  abbrev IsRead : Result (Option (String × Value D)) ContextError → Type 0
  IsRead m =
      Fails m ⊎ (m ≡ ok none) ⊎ ((k : String) × (v : Value D) × (m ≡ ok (some (k, v))) × Admits k v)

  wired_if_known :
      (r : Registration D) (v : ℕ) (f : DeserializeFn D)
      → IsSafe r
      → get v r.deserializers ≡ some f
      → r.local_only ≡ false
  unfolding get
  wired_if_known r v f safe found = elim (Bool-cases r.local_only) [
    | inl local ↦ absurd (ground (arith, found, safe.unwired local))
    | inr wired ↦ wired
  ]

  decode_registered-IsRead :
      RegistryIsSafe registry
      → (e : WireEntry) (r : Registration D) → get e.key registry ≡ some r
      → IsRead (decode_registered r e)
  unfolding decode_registered no_deserializer
  decode_registered-IsRead s e r found = elim (Option-cases (get e.key_version r.deserializers)) [
    | inl unknown ↦ elim (Bool-cases (is_empty r.deserializers)) [
      | inl empty ↦ inr (inl (rw (empty, decode_registered)))
      | inr some_of ↦
          rw (some_of, decode_registered) (rw (unknown, decode_registered) (inl (_, refl)))
    ]
    | inr (f, known) ↦ elim ((s.safe e.key r found).boxes e.key_version f e.value known) [
      | inl (text, failed) ↦ inl (
        text,
        rw (is_empty-get e.key_version r.deserializers f known)
            (rw (known, decode_registered) (rw failed)),
      )
      | inr (v, decoded, typed) ↦ inr (
          inr (
            r.key,
            v,
            decode-wired r e f v known decoded,
            (
              r,
              ap (λ k. get k registry) (s.at_key e.key r found) ∙ found,
              wired_if_known r e.key_version f (s.safe e.key r found) known,
              typed,
            ),
          ))
    ]
  ]

  deserialize_entry-IsRead :
      RegistryIsSafe registry → (e : WireEntry) → IsRead (deserialize_entry registry e)
  unfolding deserialize_entry
  deserialize_entry-IsRead s e = elim (Option-cases (get e.key registry)) [
    | inl missing ↦ inr (inl (rw (missing, deserialize_entry)))
    | inr (r, found) ↦
        subst IsRead (sym (deserialize-found registry e r found))
          (decode_registered-IsRead s e r found)
  ]

  insert-AllAdmitted :
      (k : String) (v : Value D) (values : Values D)
      → AllAdmitted values
      → Admits k v
      → AllAdmitted (insert k v values)
  insert-AllAdmitted k v values (d, all) admitted = (
    insert-Distinct k v values d,
    λ j w found. elim (Bool-cases (k == j)) [
      | inl same ↦
          let here : k ≡ j = ground (arith, string_eq.same_iff k j) in
          let this : v ≡ w = ground (arith, get-insert j k v values) in
          subst (λ i. Admits i w) here (subst (Admits k) this admitted)
      | inr other ↦ all j w (ground (arith, get-insert j k v values))
    ],
  )

  deserialize_entries-any :
      RegistryIsSafe registry
      → (entries : List WireEntry) (values : Values D) → AllAdmitted values
      → Fails (deserialize_entries registry values entries)
        ⊎ ((restored : Values D) × (deserialize_entries registry values entries ≡ ok restored)
            × AllAdmitted restored)
  unfolding deserialize_entries
  deserialize_entries-any s [] values all = inr (values, refl, all)
  deserialize_entries-any s (e ∷ entries) values all = elim (deserialize_entry-IsRead s e) [
    | inl (text, failed) ↦ inl (text, rw failed)
    | inr (inl skipped) ↦ rw skipped (deserialize_entries-any s entries values all)
    | inr (inr (k, v, read, admitted)) ↦ rw read (
        deserialize_entries-any s entries (insert k v values)
          (insert-AllAdmitted k v values all admitted))
  ]

  -- Whatever the bytes are and whatever bincode makes of them: reading them under a registry that
  -- calls on a builder led to ends with `DeserializationFailed`, or with a snapshot that has each
  -- key once, registered and not as local-only, with a value of the registered type.
  pub deserialize_to_snapshot-any :
      (bincode : Bincode) (bytes : Bytes)
      → Built registry
      → Fails (deserialize_to_snapshot bincode registry bytes)
        ⊎ ((snap : ContextSnapshot D) × (deserialize_to_snapshot bincode registry bytes ≡ ok snap)
            × AllAdmitted snap.values)
  unfolding deserialize_to_snapshot get
  deserialize_to_snapshot-any bincode bytes built = elim (deserialize_wire-any bincode bytes) [
    | inl (text, failed) ↦ inl (text, rw failed)
    | inr ((entries, chain), read) ↦
        elim (deserialize_entries-any (Built-IsSafe built) entries [] (tt, λ k v found. cc)) [
          | inl (text, failed) ↦ inl (text, rw read (rw failed))
          | inr (values, restored, all) ↦
              inr (record { values = values; scope_chain = chain }, rw read (rw restored refl), all)
        ]
  ]
