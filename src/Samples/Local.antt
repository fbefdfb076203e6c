-- ===== src/Samples/Local.antt =====
-- The programs of samples/src/bin that stay in one process.
use dcontext.Base.{◌≡◌, refl, is_some, true, add_usize, sub_usize}
use dcontext.Base.HashMap.{get, insert, extend, extend_missing, filter}
use dcontext.Error.{decimal}
use dcontext.Value.{Serde, downcast_ref}
use dcontext.Registry.Reads
use dcontext.Registry.Register
use dcontext.Registry.Register.{
  try_register, do_register_with, check_options, register_checked, make_registration,
}
use dcontext.Registry.Globals
use dcontext.Registry.Globals.{global_registry, try_initialize}
use dcontext.Store.Lookup.{
  set_value, get_value, find_local, find_fallback, find_frozen, collect_values, collect_local,
  collect_frozen,
}
use dcontext.Store.Push
use dcontext.Store.Push.{push_real, effective_values}
use dcontext.Store.Pop.{pop_scope, pop_loop, gather, garbage_of}
use dcontext.Store.Chain
use dcontext.Store.Chain.{full_chain, local_names, parent_names, frozen_names, limit_chain}
use dcontext.Snapshot.{capture_with_registry, store_from_snapshot_with_registry}
use dcontext.Wire.{Bincode}
use dcontext.Context
use dcontext.Context.{try_apply, try_read, enter, drop_scope_guard, store_from_snapshot}
use dcontext.Context.Typed
use dcontext.Context.Typed.{set_context_variable, get_context_variable}
use dcontext.Future
use dcontext.Future.{with_store}
use dcontext.Samples.Program.{Program, printed}
use dcontext.Samples.BasicScope
use dcontext.Samples.FeatureFlags
use dcontext.Samples.TypedKeys
use dcontext.Samples.RegisterMacro
use dcontext.Samples.CrossThread
use dcontext.Samples.WorkerPool
use dcontext.Samples.AsyncTasks
use dcontext.Samples.DualSyncCtx
use dcontext.Samples.DualAsyncCtx

-- In no build does the program panic.
abbrev Runs : {D : Type 0} → Program D (Unit {0}) → Type 0
Runs {D = D} program =
    (serde : Serde D) (bincode : Bincode) → is_some (printed serde bincode program) ≡ true

-- The samples basic_scope, feature_flags, typed_keys, macros, cross_thread, worker_pool,
-- async_tasks, dual_sync_ctx and dual_async_ctx panic in no build: each variable that they unwrap
-- is there, at its type.
samples-Run :
    Runs BasicScope.main
    × Runs FeatureFlags.main
    × Runs TypedKeys.main
    × Runs RegisterMacro.main
    × Runs CrossThread.main
    × Runs WorkerPool.main
    × Runs AsyncTasks.main
    × Runs DualSyncCtx.main
    × Runs DualAsyncCtx.main
unfolding BasicScope.main BasicScope.body FeatureFlags.main FeatureFlags.body
    FeatureFlags.render_pricing FeatureFlags.render_page TypedKeys.main TypedKeys.child_request
    RegisterMacro.main RegisterMacro.handler CrossThread.main CrossThread.worker
    CrossThread.callback WorkerPool.main WorkerPool.serve WorkerPool.worker WorkerPool.enqueue
    WorkerPool.dispatch AsyncTasks.main AsyncTasks.child_task DualSyncCtx.main
    DualSyncCtx.named_scopes DualSyncCtx.child_thread DualSyncCtx.cross_thread DualAsyncCtx.main
    DualAsyncCtx.scoped_context DualAsyncCtx.across_await DualAsyncCtx.child_task
    DualAsyncCtx.propagate Register.register Register.register_contexts try_register
    do_register_with check_options register_checked make_registration get insert extend
    extend_missing filter global_registry try_initialize Globals.initialize set_context_variable
    get_context_variable Typed.register_on Typed.set Typed.get try_apply try_read set_value
    get_value find_local find_fallback find_frozen downcast_ref Push.push_scope Context.push_scope
    enter drop_scope_guard pop_scope pop_loop gather garbage_of push_real effective_values
    Reads.cached_keys add_usize sub_usize Context.capture Context.fork Future.capture Future.fork
    Future.scope with_store store_from_snapshot capture_with_registry
    store_from_snapshot_with_registry collect_values collect_local collect_frozen Chain.scope_chain
    Context.scope_chain full_chain local_names parent_names frozen_names limit_chain
    Reads.is_local_key Reads.is_valid_value Context.attach_store Context.attach_snapshot
    Context.drop_attach_guard Context.clear decimal
samples-Run = (
  λ serde bincode. refl,
  λ serde bincode. refl,
  λ serde bincode. refl,
  λ serde bincode. refl,
  λ serde bincode. refl,
  λ serde bincode. refl,
  λ serde bincode. refl,
  λ serde bincode. refl,
  λ serde bincode. refl,
)
