-- ===== src/Tests/Relays.antt =====
-- Context that goes through two processes, and bytes of an entry with an unknown version.
use dcontext.Base.{
  ℕ, ◌⊎◌, ◌≡◌, none, refl, add_usize, sub_usize, String, some, ok, [], ◌∷◌, string_eq,
}
use dcontext.Base.HashMap.{get, insert, or_insert, filter, extend, extend_missing}
use dcontext.Config.{Config, check_size}
use dcontext.Value.{Value, serialize_value}
use dcontext.Store.{ContextStore}
use dcontext.Store.Lookup.{
  get_value, collect_values, collect_local, collect_frozen, find_local, find_fallback, find_frozen,
}
use dcontext.Store.Shape.{IsWellFormed}
use dcontext.Store.Chain
use dcontext.Store.Chain.{full_chain, local_names, frozen_names, parent_names, limit_chain}
use dcontext.Registry.Reads.{is_local_key, get_serialization_info, is_valid_value}
use dcontext.Registry.Register.{
  do_register_with, make_registration, check_options, native_deserializer,
}
use dcontext.Registry.Globals.{global_registry}
use dcontext.Snapshot.{capture_with_registry, store_from_snapshot_with_registry}
use dcontext.Wire.Encode.{serialize_from, serialize_entries, serialize_entry, value_bytes}
use dcontext.Wire.Decode.{
  deserialize_to_snapshot, deserialize_wire, deserialize_entries, deserialize_entry,
  decode_registered,
}
use dcontext.Context.{
  registry_of, serialize, capture, capture_serialized, attach_from_bytes, scope_chain,
  store_from_snapshot,
}
use dcontext.Context.Transfer.{transferable, IsTyped}
use dcontext.Context.Limits.{under, cut_in}
use dcontext.Context.Relay.{Hop, first, further, Relay-Arrived}
use dcontext.Context.Received.{attach_from_bytes-any}
use dcontext.Wire.Safe.{Fails, Built, built_new, built_with}
use dcontext.Wire.Untrusted.{Admits}
use dcontext.Registry.Options
use dcontext.Tests.Fixtures.{
  u64, byte_serde, number, in_api, request_store, request_store-IsWellFormed, env, env-IsSound,
  env-IsTyped,
}
use dcontext.Tests.Codec.{codec-ReadsBack}
use dcontext.Tests.Transfers.{captured}

-- What a process has attached.
abbrev relayed : ContextStore ℕ
relayed = record {
  scope_chain = [];
  current_values = ("request_id", number 7) ∷ [];
  current_name = none;
  depth = 1;
  remote_chain = "api" ∷ [];
  remote_chain_base_depth = 1;
  frozen_parent = [];
  scope_barrier = none;
}

-- The limits of a second process.
abbrev narrow : Config
narrow = record { max_context_size = 0; max_scope_chain_len = 1 }

received :
    (limits : Config)
    → attach_from_bytes (under env limits) (1 ∷ 1 ∷ 7 ∷ []) (some in_api)
      ≡ ok (some relayed, record { prev = some in_api })
unfolding attach_from_bytes deserialize_to_snapshot deserialize_wire deserialize_entries
    deserialize_entry decode_registered store_from_snapshot store_from_snapshot_with_registry
    is_valid_value is_local_key get insert filter do_register_with make_registration check_options
    global_registry native_deserializer
received limits = refl

sent_on : capture_serialized (under env narrow) (some relayed) ≡ ok (1 ∷ 1 ∷ 7 ∷ [])
unfolding capture_serialized serialize capture capture_with_registry global_registry collect_values
    collect_local collect_frozen or_insert get_value find_local find_fallback find_frozen filter
    is_local_key extend extend_missing Chain.scope_chain full_chain local_names frozen_names
    parent_names limit_chain add_usize sub_usize serialize_from serialize_entries serialize_entry
    value_bytes serialize_value get_serialization_info get insert do_register_with make_registration
    check_options check_size
sent_on = refl

abbrev hop_1 : Hop env env.config narrow request_store relayed
hop_1 = record {
  bytes = 1 ∷ 1 ∷ 7 ∷ [];
  cell = some in_api;
  guard = record { prev = some in_api };
  sent = captured;
  received = received narrow;
}

abbrev hop_2 : Hop env narrow env.config relayed relayed
hop_2 = record {
  bytes = 1 ∷ 1 ∷ 7 ∷ [];
  cell = some in_api;
  guard = record { prev = some in_api };
  sent = sent_on;
  received = received env.config;
}

Relay-Arrived_example :
    IsWellFormed relayed
    × IsTyped (registry_of env) relayed
    × (scope_chain env (some relayed)
        ≡ cut_in (narrow ∷ env.config ∷ []) (scope_chain env (some request_store)))
    × ((k : String)
        → get_value relayed k ≡ transferable (registry_of env) k (get_value request_store k))
Relay-Arrived_example =
    Relay-Arrived env env-IsSound codec-ReadsBack request_store-IsWellFormed env-IsTyped
      (further (first hop_1) hop_2)

env-Built : Built (registry_of env)
unfolding global_registry
env-Built =
    built_with (built_with built_new byte_serde u64 "request_id" Options.cached) byte_serde u64
      "secret" Options.local_only

attach_from_bytes-any_example :
    Fails (attach_from_bytes env (1 ∷ 9 ∷ 7 ∷ []) (some in_api))
    ⊎ ((s : ContextStore ℕ) × (attach_from_bytes env (1 ∷ 9 ∷ 7 ∷ []) (some in_api)
          ≡ ok (some s, record { prev = some in_api }))
        × IsWellFormed s
        × ((k : String) (v : Value ℕ) → get_value s k ≡ some v → Admits (registry_of env) k v))
attach_from_bytes-any_example = attach_from_bytes-any env (1 ∷ 9 ∷ 7 ∷ []) (some in_api) env-Built
