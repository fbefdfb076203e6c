-- ===== src/Context/Sent.antt =====
-- How `capture_serialized` ends, on every branch.
use dcontext.Base.{◌≡◌, ◌⊎◌, inl, inr, String, false, some, err, arith, string_eq, Bool-cases}
use mathlib.Core.Path.{subst}
use dcontext.Base.HashMap.{get}
use dcontext.Error.{ContextError}
use dcontext.Value.{Value}
use dcontext.Registry.Reads.{is_local_key}
use dcontext.Store.{ContextStore}
use dcontext.Store.Shape.{IsWellFormed}
use dcontext.Store.Lookup.{get_value}
use dcontext.Wire.Encode.{at_key}
use dcontext.Wire.Outcomes.{encoded, Encodes, Written, serialize_from-outcome}
use dcontext.Context.{Env, registry_of, capture, serialize, capture_serialized, scope_chain}
use dcontext.Context.Transfer.{get-capture, capture-Distinct, scope_chain-capture}

module _ {D : Type 0} (env : Env D) (s : ContextStore D) where
  -- The store shows the value at the key, which is not local-only.
  abbrev pub Sends : String → Value D → Type 0
  Sends k v = (get_value s k ≡ some v) × (is_local_key (registry_of env) k ≡ false)

  get-sent :
      (k : String) (v : Value D)
      → IsWellFormed s
      → get k (capture env (some s)).values ≡ some v
      → Sends k v
  get-sent k v w found = elim (Bool-cases (is_local_key (registry_of env) k)) [
    | inl local ↦ absurd (ground (arith, get-capture env s k w))
    | inr wired ↦ (ground (arith, get-capture env s k w), wired)
  ]

  sent-get :
      (k : String) (v : Value D)
      → IsWellFormed s
      → Sends k v
      → get k (capture env (some s)).values ≡ some v
  sent-get k v w (shown, wired) = ground (arith, get-capture env s k w)

  -- From a well-formed store, either the serializer of a value refuses it, of those that the store
  -- shows under keys that are not local-only, and the result is its error, marked with the key.
  -- Or each of those values is encoded; then, for a wire record of the current version with the
  -- scope chain of the store, the result is bincode's error, or `ContextTooLarge` with the size of
  -- bincode's bytes, above a positive limit, or those bytes, with a size that a positive limit
  -- allows.
  pub capture_serialized-outcome :
      IsWellFormed s
      → let result = capture_serialized env (some s) in
        ((k : String) × (v : Value D) × (e : ContextError) × Sends k v
          × (encoded env.serde (registry_of env) k v ≡ err e)
          × (result ≡ err (at_key k e)))
        ⊎ (((k : String) (v : Value D) → Sends k v → Encodes env.serde (registry_of env) k v)
            × Written env.serde
                (registry_of env)
                env.bincode
                env.config
                (scope_chain env (some s))
                result)
  unfolding capture_serialized serialize
  capture_serialized-outcome w =
      let snap = capture env (some s) in
      elim (serialize_from-outcome env.serde (registry_of env) env.bincode env.config snap.values
        snap.scope_chain (capture-Distinct env s)) [
          | inl (k, v, e, found, refused, failed) ↦
              inl (k, v, e, get-sent k v w found, refused, failed)
          | inr (all, written) ↦ inr (
            λ k v sends. all k v (sent-get k v w sends),
            subst
                (λ c.
                  Written env.serde (registry_of env) env.bincode env.config c
                    (capture_serialized env (some s)))
                (scope_chain-capture env s) written,
          )
        ]
