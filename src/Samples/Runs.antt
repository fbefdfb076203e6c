-- ===== src/Samples/Runs.antt =====
-- What programs of samples/src/bin print, for all values that they set.
use dcontext.Base.{◌≡◌, refl, none, some, List, [], ◌∷◌, add_usize, sub_usize}
use dcontext.Base.HashMap.{get, insert, extend, extend_missing, filter}
use dcontext.Error.{decimal}
use dcontext.Value.{Serde, downcast_ref}
use dcontext.Registry.Reads
use dcontext.Registry.Register
use dcontext.Registry.Register.{
  try_register, do_register_with, check_options, register_checked, make_registration,
}
use dcontext.Registry.Globals
use dcontext.Registry.Globals.{global_registry, try_initialize}
use dcontext.Store.Lookup.{
  set_value, get_value, find_local, find_fallback, find_frozen, collect_values, collect_local,
  collect_frozen,
}
use dcontext.Store.Push
use dcontext.Store.Push.{push_real, effective_values}
use dcontext.Store.Pop.{pop_scope, pop_loop, gather, garbage_of}
use dcontext.Store.Chain
use dcontext.Store.Chain.{full_chain, local_names, parent_names, frozen_names, limit_chain}
use dcontext.Snapshot.{capture_with_registry, store_from_snapshot_with_registry}
use dcontext.Wire.{Bincode}
use dcontext.Context
use dcontext.Context.{try_apply, try_read, enter, drop_scope_guard, store_from_snapshot}
use dcontext.Context.Typed.{set_context_variable, get_context_variable}
use dcontext.Future
use dcontext.Future.{with_store}
use dcontext.Samples.Program.{Line, line, value, maybe, number, text, names, printed}
use dcontext.Samples.BasicScope
use dcontext.Samples.AsyncScopes
use dcontext.Samples.DualBridging

abbrev basic_scope_lines : BasicScope.Data → BasicScope.Data → List (Line BasicScope.Data)
basic_scope_lines r u =
    line "[root] request_id = {:?}" (value r ∷ [])
    ∷ line "[root] user_id    = {:?}" (value u ∷ [])
    ∷ line "[child] request_id = {:?}" (value (BasicScope.request_id "req-002-child") ∷ [])
    ∷ line "[child] user_id    = {:?}" (value u ∷ [])
    ∷ line "[root] request_id = {:?}" (value r ∷ [])
    ∷ line "[scope] user_id = {:?}" (value (BasicScope.user_id 99) ∷ [])
    ∷ line "[root] user_id = {:?}" (value u ∷ [])
    ∷ []

-- In every build, for all values that it sets first: the program does not panic, each scope sees
-- what it set and what the root set, and after each scope the root reads what it had set.
basic_scope-printed :
    (serde : Serde BasicScope.Data) (bincode : Bincode) (r u : BasicScope.Data)
    → printed serde bincode (BasicScope.body r u) ≡ some (basic_scope_lines r u)
unfolding BasicScope.body Register.register try_register do_register_with check_options
    register_checked make_registration get insert extend global_registry try_initialize
    Globals.initialize set_context_variable get_context_variable try_apply try_read set_value
    get_value find_local find_fallback find_frozen downcast_ref Push.push_scope Context.push_scope
    enter drop_scope_guard pop_scope pop_loop gather garbage_of push_real effective_values
    Reads.cached_keys add_usize sub_usize
basic_scope-printed serde bincode r u = refl

-- In every build, for all values that it sets: the program panics.
async_scopes-panics :
    (serde : Serde AsyncScopes.Data) (bincode : Bincode) (r p : AsyncScopes.Data)
    → printed serde bincode (AsyncScopes.body r p) ≡ none
unfolding AsyncScopes.body AsyncScopes.main_task AsyncScopes.processing AsyncScopes.child_task
    Register.register try_register do_register_with check_options register_checked make_registration
    get insert extend extend_missing global_registry try_initialize Globals.initialize
    set_context_variable get_context_variable try_apply try_read set_value get_value find_local
    find_fallback find_frozen downcast_ref Push.push_scope push_real effective_values
    Reads.cached_keys add_usize sub_usize Context.capture Context.fork Future.capture Future.fork
    Future.scope with_store store_from_snapshot capture_with_registry
    store_from_snapshot_with_registry collect_values collect_local collect_frozen Chain.scope_chain
    full_chain local_names parent_names frozen_names limit_chain filter Reads.is_local_key
    Reads.is_valid_value
async_scopes-panics serde bincode r p = refl

abbrev dual_bridging_lines : DualBridging.Data → List (Line DualBridging.Data)
dual_bridging_lines r =
    line "=== Async → Thread Bridging ===\n" []
    ∷ line "[async] request_id = {:?}" (maybe (some r) ∷ [])
    ∷ line "\n--- Pattern 1: spawn_blocking with snapshot ---" []
    ∷ line "  [blocking] request_id = {:?}" (maybe none ∷ [])
    ∷ line "  [blocking] user_id    = {:?}" (maybe none ∷ [])
    ∷ line "  [blocking] chain      = {:?}"
        (names ("handle_request" ∷ "heavy_computation" ∷ []) ∷ [])
    ∷ line "  [async] got result: {:?}" (text "computation_result" ∷ [])
    ∷ line "\n--- Pattern 2: OS thread with ContextStore ---" []
    ∷ line "  [OS thread] request_id = {:?}" (maybe (some r) ∷ [])
    ∷ line "  [OS thread] chain      = {:?}" (names ("handle_request" ∷ []) ∷ [])
    ∷ line "\n  [async] request_id still = {:?}" (maybe (some r) ∷ [])
    ∷ line "\n--- Pattern 3: Fan-out to multiple blocking threads ---" []
    ∷ line "  [worker {}] chain = {:?}" (number 0 ∷ names ("handle_request" ∷ "worker_0" ∷ []) ∷ [])
    ∷ line "  [worker {}] chain = {:?}" (number 1 ∷ names ("handle_request" ∷ "worker_1" ∷ []) ∷ [])
    ∷ line "  [worker {}] chain = {:?}" (number 2 ∷ names ("handle_request" ∷ "worker_2" ∷ []) ∷ [])
    ∷ line "\nDone!" []
    ∷ []

-- In every build, for all values that it sets, if the blocking threads of the last pattern print in
-- the order of their spawning: the program does not panic, and the closure that attaches a snapshot
-- prints none of the two values. The thread with the forked store prints "request_id", and what it
-- sets is not seen outside.
dual_bridging-printed :
    (serde : Serde DualBridging.Data) (bincode : Bincode) (r u : DualBridging.Data)
    → printed serde bincode (DualBridging.body r u (0 ∷ 1 ∷ 2 ∷ [])) ≡ some (dual_bridging_lines r)
unfolding DualBridging.body DualBridging.handle_request DualBridging.blocking DualBridging.os_thread
    DualBridging.workers DualBridging.worker get insert extend extend_missing global_registry
    set_context_variable get_context_variable try_apply try_read set_value get_value find_local
    find_fallback find_frozen downcast_ref Push.push_scope push_real effective_values
    Reads.cached_keys add_usize sub_usize Context.capture Context.fork Context.push_scope enter
    drop_scope_guard pop_scope pop_loop gather garbage_of Future.capture Future.scope with_store
    store_from_snapshot capture_with_registry store_from_snapshot_with_registry collect_values
    collect_local collect_frozen Context.attach_store Context.attach_snapshot
    Context.drop_attach_guard Context.scope_chain Chain.scope_chain full_chain local_names
    parent_names frozen_names limit_chain filter Reads.is_local_key Reads.is_valid_value decimal
dual_bridging-printed serde bincode r u = refl
