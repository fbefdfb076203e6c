-- ===== src/Context/Transfer.antt =====
-- Values on their way from one store to another, by snapshot. `Wired` is about bytes.
pub mod Wired
use dcontext.Base.{
  ==-refl, nat_eq, ◌≡◌, refl, ap, ◌∙◌, String, not, ◌&&◌, Option, none, some, [], ◌∷◌, ok, arith,
  if◌then◌else◌, string_eq, Bool, true, false, sym, nat_eqb_iff,
}
use dcontext.Base.HashMap.{get, Distinct, get-filter, filter-Distinct}
use dcontext.Value.{Bytes, Value}
use dcontext.Scope.{Values}
use dcontext.Registry.{Registration, RegistryMap}
use dcontext.Registry.Reads.{is_local_key, is_valid_value}
use dcontext.Store.{ContextStore}
use dcontext.Store.Shape.{IsWellFormed}
use dcontext.Store.Keeps.{from_values_with_chain-IsWellFormed}
use dcontext.Store.Lookup.{get_value, collect_values, find_local, find_fallback, find_frozen}
use dcontext.Store.Chain
use dcontext.Store.Snapshots.{get-collect_values, collect_values-Distinct}
use dcontext.Snapshot.{ContextSnapshot, capture_with_registry, store_from_snapshot_with_registry}
use dcontext.Wire.Sound.{RegistryIsSound}
use dcontext.Wire.RoundTrip.{ReadsBack, AreTyped, is_wired, deserialize-serialize}
use dcontext.Wire.Decode.{deserialize_to_snapshot}
use dcontext.Store.Names.{limit_chain-limit_chain, full_chain-from_values_with_chain}
use dcontext.Store.Chain.{limit_chain, full_chain}
use dcontext.Context.{
  Env, Cell, registry_of, scope_chain, capture, capture_serialized, attach_from_bytes,
  store_from_snapshot,
}

module _ {D : Type 0} where
  -- What crosses a snapshot: a value of the registered type under a key that is not local-only.
  unfoldable pub transferable : RegistryMap D → String → Option (Value D) → Option (Value D)
  transferable registry k none = none
  transferable registry k (some v) =
      if is_valid_value registry k v && not (is_local_key registry k) then some v else none

  pub get-capture :
      (env : Env D) (s : ContextStore D) (k : String)
      → IsWellFormed s
      → get k (capture env (some s)).values
        ≡ (if is_local_key (registry_of env) k then none else get_value s k)
  unfolding capture capture_with_registry
  get-capture env s k w =
      get-filter _ k (collect_values s) (collect_values-Distinct s)
      ∙ ground (arith, get-collect_values s k w.distinct)

  pub capture-Distinct : (env : Env D) (s : ContextStore D) → Distinct (capture env (some s)).values
  unfolding capture capture_with_registry
  capture-Distinct env s = filter-Distinct _ (collect_values s) (collect_values-Distinct s)

  pub store_from_snapshot-IsWellFormed :
      (env : Env D) (snap : ContextSnapshot D)
      → Distinct snap.values
      → IsWellFormed (store_from_snapshot env snap)
  unfolding store_from_snapshot store_from_snapshot_with_registry
  store_from_snapshot-IsWellFormed env snap d =
      from_values_with_chain-IsWellFormed _ _ (filter-Distinct _ snap.values d)

  pub get_value-store_from_snapshot :
      (env : Env D) (snap : ContextSnapshot D) (k : String)
      → Distinct snap.values
      → get_value (store_from_snapshot env snap) k
        ≡ transferable (registry_of env) k (get k snap.values)
  unfolding store_from_snapshot store_from_snapshot_with_registry get_value find_local find_fallback
      find_frozen transferable
  get_value-store_from_snapshot env snap k d = ground (
    arith,
    get-filter
        (λ j v. is_valid_value (registry_of env) j v && not (is_local_key (registry_of env) j)) k
        snap.values d,
  )

  -- A store made from the capture of a well-formed store shows at each key what that store
  -- showed, if it may cross, and nothing otherwise.
  pub get_value-capture :
      (env : Env D) (s : ContextStore D) (k : String)
      → IsWellFormed s
      → get_value (store_from_snapshot env (capture env (some s))) k
        ≡ transferable (registry_of env) k (get_value s k)
  unfolding transferable
  get_value-capture env s k w =
      get_value-store_from_snapshot env (capture env (some s)) k (capture-Distinct env s)
      ∙ ground (arith, get-capture env s k w)

  pub scope_chain-capture :
      (env : Env D) (s : ContextStore D)
      → (capture env (some s)).scope_chain ≡ scope_chain env (some s)
  unfolding capture capture_with_registry scope_chain
  scope_chain-capture env s = refl

  pub scope_chain-attached :
      (env : Env D) (s : ContextStore D) (snap : ContextSnapshot D)
      → snap.scope_chain ≡ scope_chain env (some s)
      → scope_chain env (some (store_from_snapshot env snap)) ≡ scope_chain env (some s)
  unfolding scope_chain store_from_snapshot store_from_snapshot_with_registry Chain.scope_chain
  scope_chain-attached env s snap e =
      let n = env.config.max_scope_chain_len in
      ap (limit_chain n) (full_chain-from_values_with_chain _ snap.scope_chain ∙ e)
      ∙ limit_chain-limit_chain n (full_chain s)

  -- The values of a store have the types that their keys are registered with.
  abbrev pub IsTyped : RegistryMap D → ContextStore D → Type 0
  IsTyped registry s =
      (k : String) (v : Value D) (r : Registration D)
      → get_value s k ≡ some v
      → get k registry ≡ some r
      → v.type_id ≡ r.type_id
