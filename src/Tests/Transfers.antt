-- ===== src/Tests/Transfers.antt =====
-- Values that are written, captured, sent and attached.
use dcontext.Base.{
  ℕ, ◌⊎◌, err, ◌≡◌, refl, sym, add_usize, sub_usize, String, some, none, ok, [], ◌∷◌, arith,
  string_eq, nat_eq, if◌then◌else◌,
}
use dcontext.Base.HashMap.{get, Distinct, insert, or_insert, filter, extend, extend_missing}
use dcontext.Config.{check_size}
use dcontext.Value.{Value, serialize_value}
use dcontext.Scope.{Values}
use dcontext.Store.{ContextStore}
use dcontext.Store.Lookup.{
  get_value, set_value, collect_values, collect_local, collect_frozen, find_local, find_fallback,
  find_frozen,
}
use dcontext.Store.Push.{push_scope, push_real, effective_values}
use dcontext.Store.Chain
use dcontext.Store.Chain.{full_chain, local_names, frozen_names, parent_names, limit_chain}
use dcontext.Registry.Reads.{cached_keys, is_local_key, get_serialization_info}
use dcontext.Registry.Register.{do_register_with, make_registration, check_options}
use dcontext.Registry.Globals.{global_registry}
use dcontext.Store.Pop.{pop_scope}
use dcontext.Snapshot.{ContextSnapshot, empty, capture_with_registry}
use dcontext.Wire.Outcomes.{encoded, Encodes, Written}
use dcontext.Context.Sent.{Sends, capture_serialized-outcome}
use dcontext.Error.{ContextError}
use dcontext.Wire.Encode.{at_key, serialize_from, serialize_entries, serialize_entry, value_bytes}
use dcontext.Wire.Decode.{deserialize_to_snapshot}
use dcontext.Wire.RoundTrip.{is_wired, AreTyped, deserialize-serialize}
use dcontext.Context.{
  serialize, registry_of, scope_chain, capture, capture_serialized, attach_from_bytes,
  store_from_snapshot, drop_attach_guard, drop_scope_guard, attach_snapshot_with_scope,
}
use dcontext.Context.Guards.{attach_snapshot_with_scope-drops}
use dcontext.Context.Transfer.{transferable, get_value-capture}
use dcontext.Context.Transfer.Wired.{attach_from_bytes-capture_serialized}
use dcontext.Tests.Fixtures.{
  number, byte_serde, registry, registry-IsSound, in_api, request_store, request_store-IsWellFormed,
  request_store-depth, env, env-IsSound, env-IsTyped, registry-typed,
}
use dcontext.Wire.Unknown.{is_known, deserialize-known}
use dcontext.Tests.Codec.{one_entry, codec, codec-ReadsBack}

get_value-capture_example :
    get_value (store_from_snapshot env (capture env (some request_store))) "secret"
    ≡ transferable (registry_of env) "secret" (get_value request_store "secret")
get_value-capture_example = get_value-capture env request_store "secret" request_store-IsWellFormed

attach_snapshot_with_scope-drops_example :
    (drop_attach_guard (attach_snapshot_with_scope env empty "job" (some request_store)).1 (
        drop_scope_guard
          (attach_snapshot_with_scope env empty "job" (some request_store)).2
          (attach_snapshot_with_scope env empty "job" (some request_store)).0)
      ≡ some request_store)
    × (drop_scope_guard (attach_snapshot_with_scope env empty "job" (some request_store)).2 (
          drop_attach_guard
            (attach_snapshot_with_scope env empty "job" (some request_store)).1
            (attach_snapshot_with_scope env empty "job" (some request_store)).0)
        ≡ some (pop_scope 2 request_store).0)
    × ((pop_scope 2 request_store).0.depth ≡ 1)
attach_snapshot_with_scope-drops_example =
    attach_snapshot_with_scope-drops env empty "job" request_store request_store-IsWellFormed
      (omega (arith, request_store-depth))

abbrev sent_values : Values ℕ
sent_values = ("request_id", number 7) ∷ []

sent :
    serialize_from byte_serde codec env.config registry sent_values ("api" ∷ [])
    ≡ ok (1 ∷ 1 ∷ 7 ∷ [])
unfolding serialize_from serialize_entries serialize_entry value_bytes serialize_value
    get_serialization_info get insert do_register_with make_registration check_options check_size
sent = refl

sent_values-Distinct : Distinct sent_values
unfolding get
sent_values-Distinct = (refl, tt)

sent_values-AreTyped : AreTyped registry sent_values
sent_values-AreTyped = (λ r found. sym (registry-typed "request_id" r found), tt)

deserialize-serialize_example :
    (snap : ContextSnapshot ℕ) × (deserialize_to_snapshot codec registry (1 ∷ 1 ∷ 7 ∷ []) ≡ ok snap)
    × (snap.scope_chain ≡ "api" ∷ [])
    × Distinct snap.values
    × ((k : String) → get k snap.values ≡ (if is_wired registry k then get k sent_values else none))
deserialize-serialize_example =
    deserialize-serialize byte_serde registry registry-IsSound codec env.config sent_values
      ("api" ∷ []) codec-ReadsBack sent_values-Distinct sent_values-AreTyped sent

capture_serialized-outcome_example :
    ((k : String) × (v : Value ℕ) × (e : ContextError) × Sends env request_store k v
      × (encoded byte_serde (registry_of env) k v ≡ err e)
      × (capture_serialized env (some request_store) ≡ err (at_key k e)))
    ⊎ (((k : String) (v : Value ℕ)
          → Sends env request_store k v
          → Encodes byte_serde (registry_of env) k v)
        × Written byte_serde
            (registry_of env)
            codec
            env.config
            (scope_chain env (some request_store))
            (capture_serialized env (some request_store)))
capture_serialized-outcome_example =
    capture_serialized-outcome env request_store request_store-IsWellFormed

pub captured : capture_serialized env (some request_store) ≡ ok (1 ∷ 1 ∷ 7 ∷ [])
unfolding capture_serialized serialize capture capture_with_registry global_registry collect_values
    collect_local collect_frozen or_insert set_value push_scope push_real effective_values
    cached_keys get_value find_local find_fallback find_frozen filter is_local_key extend
    extend_missing Chain.scope_chain full_chain local_names frozen_names parent_names limit_chain
    add_usize sub_usize serialize_from serialize_entries serialize_entry value_bytes serialize_value
    get_serialization_info get insert do_register_with make_registration check_options check_size
captured = refl

attach_from_bytes-capture_serialized_example :
    (s' : ContextStore ℕ) × (attach_from_bytes env (1 ∷ 1 ∷ 7 ∷ []) (some in_api)
      ≡ ok (some s', record { prev = some in_api }))
    × (scope_chain env (some s') ≡ scope_chain env (some request_store))
    × ((k : String) → get_value s' k ≡ transferable (registry_of env) k (get_value request_store k))
attach_from_bytes-capture_serialized_example =
    attach_from_bytes-capture_serialized env request_store (some in_api) env-IsSound codec-ReadsBack
      request_store-IsWellFormed env-IsTyped captured

-- A process that registers nothing.
deserialize-known_example :
    deserialize_to_snapshot {D = ℕ} codec [] (1 ∷ 1 ∷ 7 ∷ []) ≡ deserialize_to_snapshot codec [] []
unfolding is_known get
deserialize-known_example =
    deserialize-known [] codec (1 ∷ 1 ∷ 7 ∷ []) [] (one_entry ("api" ∷ []) 1 7) refl refl
