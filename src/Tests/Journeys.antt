-- ===== src/Tests/Journeys.antt =====
-- A request to an actor of another process, whose handler sends it on in its own process.
use dcontext.Config.{Config}
use dcontext.Context.Limits.{under}
use dcontext.Base.{
  List, ℕ, ◌≡◌, refl, none, some, false, String, [], ◌∷◌, ◌++◌, map, add_usize, sub_usize,
  string_eq,
}
use dcontext.Base.HashMap.{get, insert, or_insert, filter, extend, extend_missing}
use dcontext.Store.{ContextStore}
use dcontext.Store.Shape.{IsWellFormed}
use dcontext.Store.Lookup.{
  get_value, collect_values, collect_local, collect_frozen, find_local, find_fallback, find_frozen,
}
use dcontext.Store.Push
use dcontext.Store.Push.{push_real, effective_values}
use dcontext.Store.Pop.{pop_scope, pop_loop, gather, garbage_of}
use dcontext.Store.Chain
use dcontext.Store.Chain.{full_chain, local_names, frozen_names, parent_names, limit_chain}
use dcontext.Registry.Reads.{is_local_key, is_valid_value, cached_keys}
use dcontext.Registry.Register.{
  do_register_with, make_registration, check_options, native_deserializer,
}
use dcontext.Registry.Globals.{global_registry}
use dcontext.Snapshot.{capture_with_registry, store_from_snapshot_with_registry}
use dcontext.Wire.Decode.{
  deserialize_to_snapshot, deserialize_wire, deserialize_entries, deserialize_entry,
  decode_registered,
}
use dcontext.Context.{
  registry_of, capture, scope_chain, store_from_snapshot, deserialize, push_scope, enter,
  drop_scope_guard,
}
use dcontext.Context.Transfer.{transferable, IsTyped}
use dcontext.Future.{attach}
use dcontext.Dactor.{reject}
use dcontext.Dactor.Outbound.{on_send}
use dcontext.Dactor.Inbound.{
  on_receive, wrap_handler, wrap_next, scoped_block, bytes_to_snapshot, remote_scope,
}
use dcontext.Dactor.Hops.{transport}
use dcontext.Dactor.Journey.{
  Delivery, Journey, in_process, to_process, sent, sent_on, entered, Journey-Reached, Journey-chain,
}
use dcontext.Tests.Fixtures.{
  number, in_api, request_store, request_store-IsWellFormed, env, env-IsSound, env-IsTyped,
}
use dcontext.Tests.Codec.{codec-ReadsBack}
use dcontext.Tests.Transfers.{captured}
use dcontext.Tests.Actors.{header_pair, handler}

-- The limits of the process of both actors.
abbrev narrow : Config
narrow = record { max_context_size = 0; max_scope_chain_len = 2 }

abbrev at_worker : ContextStore ℕ
at_worker = record {
  scope_chain = [];
  current_values = ("request_id", number 7) ∷ [];
  current_name = none;
  depth = 1;
  remote_chain = "api" ∷ "remote:Worker" ∷ [];
  remote_chain_base_depth = 1;
  frozen_parent = [];
  scope_barrier = none;
}

abbrev at_logger : ContextStore ℕ
at_logger = record at_worker { remote_chain = "remote:Worker" ∷ "remote:Logger" ∷ [] }

wrapped_at_worker :
    wrap_handler header_pair
      (under env narrow)
      "Worker"
      (on_receive header_pair reject
        (under env narrow)
        (transport header_pair (record { bytes = 1 ∷ 1 ∷ 7 ∷ [] }) (none, none))).0
      (some in_api)
      handler
    ≡ some (record { inner = handler; store = some at_worker })
unfolding wrap_handler on_receive transport wrap_next attach scoped_block bytes_to_snapshot
    deserialize push_scope enter drop_scope_guard pop_scope pop_loop gather garbage_of
    Push.push_scope push_real effective_values cached_keys capture capture_with_registry
    store_from_snapshot store_from_snapshot_with_registry deserialize_to_snapshot deserialize_wire
    deserialize_entries deserialize_entry decode_registered native_deserializer global_registry
    do_register_with make_registration check_options get insert or_insert filter extend
    extend_missing is_local_key is_valid_value get_value find_local find_fallback find_frozen
    collect_values collect_local collect_frozen Chain.scope_chain full_chain local_names
    frozen_names parent_names limit_chain add_usize sub_usize
wrapped_at_worker = refl

wrapped_at_logger :
    wrap_handler header_pair
      (under env narrow)
      "Logger"
      (on_receive header_pair reject
        (under env narrow)
        (on_send header_pair reject (under env narrow) false (some at_worker) (none, none)).0).0
      none
      handler
    ≡ some (record { inner = handler; store = some at_logger })
unfolding wrap_handler on_receive on_send wrap_next attach scoped_block push_scope enter
    drop_scope_guard pop_scope pop_loop gather garbage_of Push.push_scope push_real effective_values
    cached_keys capture capture_with_registry store_from_snapshot store_from_snapshot_with_registry
    global_registry do_register_with make_registration check_options get insert or_insert filter
    extend extend_missing is_local_key is_valid_value get_value find_local find_fallback find_frozen
    collect_values collect_local collect_frozen Chain.scope_chain full_chain local_names
    frozen_names parent_names limit_chain add_usize sub_usize
wrapped_at_logger = refl

abbrev to_worker : Delivery ℕ header_pair env env.config request_store at_worker "Worker" narrow
to_worker =
    to_process reject (none, none) (some in_api) handler (1 ∷ 1 ∷ 7 ∷ []) captured refl
      wrapped_at_worker

abbrev to_logger : Delivery ℕ header_pair env narrow at_worker at_logger "Logger" narrow
to_logger = in_process reject reject (none, none) none handler wrapped_at_logger

abbrev both_actors : List (Config × String)
both_actors = (narrow, "Worker") ∷ (narrow, "Logger") ∷ []

abbrev to_both : Journey ℕ header_pair env env.config request_store both_actors narrow at_logger
to_both = sent_on (sent to_worker) to_logger

Journey-Reached_example :
    IsWellFormed at_logger
    × IsTyped (registry_of env) at_logger
    × ((k : String)
        → get_value at_logger k ≡ transferable (registry_of env) k (get_value request_store k))
    × (scope_chain (under env narrow) (some at_logger)
        ≡ entered both_actors (scope_chain env (some request_store)))
Journey-Reached_example =
    Journey-Reached ℕ header_pair env env-IsSound codec-ReadsBack request_store-IsWellFormed
      env-IsTyped to_both

Journey-chain_example :
    scope_chain (under env narrow) (some at_logger)
    ≡ limit_chain 2
        (scope_chain env (some request_store) ++ map (λ a. remote_scope a.1) both_actors)
Journey-chain_example =
    Journey-chain ℕ header_pair env 2 env-IsSound codec-ReadsBack request_store-IsWellFormed
      env-IsTyped (refl, (refl, tt)) to_both
