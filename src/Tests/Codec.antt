-- ===== src/Tests/Codec.antt =====
-- A codec for the wire records of one key and one scope, which stands for bincode in the tests.
use dcontext.Base.{
  zero, suc, refl, Option, none, some, ℕ, ◌≡◌, refl, ap, ◌∙◌, sym, String, Bool, true, false, List,
  [], ◌∷◌, Result, ok, err, arith, nat_eqb, nat_eqb_iff, Bool-cases, inl, inr, string_eq, ◌==◌,
  ◌&&◌, if◌then◌else◌,
}
use dcontext.Value.{Bytes}
use dcontext.Wire.{WireEntry, WireContext, Bincode}
use dcontext.Wire.RoundTrip.{ReadsBack}

abbrev pub one_entry : List String → ℕ → ℕ → WireContext
one_entry chain key_version value = record {
  version = 2;
  entries = record { key = "request_id"; key_version = key_version; value = value ∷ [] } ∷ [];
  scope_chain = chain;
}

abbrev is_one_byte : Bytes → Bool
is_one_byte (b ∷ []) = true
is_one_byte bytes = false

abbrev first : Bytes → ℕ
first [] = 0
first (b ∷ rest) = b

-- The scope chains that are written, each by a number.
abbrev chain_code : List String → Option ℕ
chain_code [] = some 0
chain_code (name ∷ []) = if name == "api" then some 1 else none
chain_code (name ∷ next ∷ more) = none

abbrev chain_of : ℕ → List String
chain_of zero = []
chain_of (suc c) = "api" ∷ []

-- The test for the entries that are written.
abbrev is_written : ℕ → WireEntry → Bool
is_written version entry =
    nat_eqb version 2 && (entry.key == "request_id" && is_one_byte entry.value)

abbrev write_one : ℕ → WireEntry → Option ℕ → Result Bytes String
write_one version entry none = err "unsupported"
write_one version entry (some c) =
    if is_written version entry
    then ok (c ∷ entry.key_version ∷ first entry.value ∷ [])
    else err "unsupported"

abbrev write : ℕ → List WireEntry → List String → Result Bytes String
write version [] chain = err "unsupported"
write version (entry ∷ []) chain = write_one version entry (chain_code chain)
write version (entry ∷ other ∷ rest) chain = err "unsupported"

-- No bytes are read as a record with no entry.
abbrev read : Bytes → Result WireContext String
read [] = ok (record { version = 2; entries = []; scope_chain = "api" ∷ [] })
read (c ∷ v ∷ b ∷ []) = ok (one_entry (chain_of c) v b)
read bytes = err "unsupported"

abbrev pub codec : Bincode
codec = record {
  serialize = λ wire. write wire.version wire.entries wire.scope_chain;
  deserialize = λ bytes. read bytes;
}

value_is_one : (b : Bytes) → is_one_byte b ≡ true → first b ∷ [] ≡ b
value_is_one [] h = cc
value_is_one (b ∷ []) h = refl
value_is_one (b ∷ c ∷ rest) h = cc

chain_of-chain_code : (chain : List String) (c : ℕ) → chain_code chain ≡ some c → chain_of c ≡ chain
chain_of-chain_code [] zero h = refl
chain_of-chain_code [] (suc c) h = ground arith
chain_of-chain_code (name ∷ []) zero h = ground (arith, string_eq.same_iff name "api")
chain_of-chain_code (name ∷ []) (suc c) h =
    ap (λ n. n ∷ []) (ground (arith, string_eq.same_iff name "api"))
chain_of-chain_code (name ∷ next ∷ more) c h = cc

read-write_one :
    (version : ℕ) (entry : WireEntry) (chain : List String) (code : Option ℕ) (bytes : Bytes)
    → chain_code chain ≡ code
    → write_one version entry code ≡ ok bytes
    → read bytes ≡ ok (record { version = version; entries = entry ∷ []; scope_chain = chain })
read-write_one version entry chain none bytes coded h = cc
read-write_one version entry chain (some c) bytes coded h =
    elim (Bool-cases (is_written version entry)) [
      | inr bad ↦ ground arith
      | inl good ↦
          let two : version ≡ 2 = ground (arith, nat_eqb_iff version 2) in
          let key : entry.key ≡ "request_id" =
            ground (arith, string_eq.same_iff entry.key "request_id") in
          let one : first entry.value ∷ [] ≡ entry.value =
            value_is_one entry.value (ground arith) in
          let e : c ∷ entry.key_version ∷ first entry.value ∷ [] ≡ bytes = ground arith in
          ap read (sym e)
          ∙ ap {B = Result WireContext String}
              (λ names. ok (one_entry names entry.key_version (first entry.value)))
              (chain_of-chain_code chain c coded)
          ∙ ap {B = Result WireContext String}
              (λ b. ok (record {
                version = 2;
                entries =
                    record { key = "request_id"; key_version = entry.key_version; value = b } ∷ [];
                scope_chain = chain;
              }))
              one
          ∙ ap {B = Result WireContext String}
              (λ k. ok (record {
                version = 2;
                entries =
                    record { key = k; key_version = entry.key_version; value = entry.value } ∷ [];
                scope_chain = chain;
              }))
              (sym key)
          ∙ ap {B = Result WireContext String}
              (λ v. ok (record { version = v; entries = entry ∷ []; scope_chain = chain }))
              (sym two)
    ]

read-write :
    (version : ℕ) (entries : List WireEntry) (chain : List String) (bytes : Bytes)
    → write version entries chain ≡ ok bytes
    → read bytes ≡ ok (record { version = version; entries = entries; scope_chain = chain })
read-write version [] chain bytes h = cc
read-write version (entry ∷ []) chain bytes h =
    read-write_one version entry chain (chain_code chain) bytes refl h
read-write version (entry ∷ other ∷ rest) chain bytes h = cc

pub codec-ReadsBack : ReadsBack codec
codec-ReadsBack wire bytes h = read-write wire.version wire.entries wire.scope_chain bytes h
