-- ===== src/Future.antt =====
-- dcontext/src/future_ext.rs: `WithContext` and the adapters of `ContextFutureExt`. A future is a
-- state of type `F` with a poll function over the thread's cell, which user code gives.
pub mod Turns
pub mod Fair
pub mod Unwinding
use dcontext.Base.{String, Option, some}
use dcontext.Registry.{RegistryMap}
use dcontext.Store.{ContextStore}
use dcontext.Store.Push
use dcontext.Snapshot.{ContextSnapshot}
use dcontext.Context
use dcontext.Context.{Env, Cell, registry_of, store_from_snapshot}

-- `none` is `Poll::Pending`.
abbrev pub PollFn : Type 0 → Type 0 → Type 0 → Type 0
PollFn D F O = F → Cell D → F × Cell D × Option O

pub record WithContext (D F : Type 0) : Type 0 where
  pub inner : F
  pub store : Cell D

module _ {D F : Type 0} where
  -- The store goes into the cell, the inner future is polled, and what the cell then holds is kept
  -- while the thread's own store goes back.
  abbrev pub poll : {O : Type 0} → PollFn D F O → PollFn D (WithContext D F) O
  poll poll_inner this cell =
      let (inner, store, result) = poll_inner this.inner this.store in
      (record { inner = inner; store = store }, cell, result)

  unfoldable pub with_store : ContextStore D → F → WithContext D F
  with_store store future = record { inner = future; store = some store }

  unfoldable pub attach : Env D → ContextSnapshot D → F → WithContext D F
  unfolding with_store
  attach env snap = with_store (store_from_snapshot env snap)

  -- The other adapters read the thread's cell when they are called.
  unfoldable pub fork : Cell D → F → WithContext D F
  unfolding with_store
  fork cell = with_store (Context.fork cell)

  unfoldable pub capture : Env D → Cell D → F → WithContext D F
  unfolding with_store
  capture env cell = with_store (store_from_snapshot env (Context.capture env cell))

  unfoldable pub scope : Env D → String → Cell D → F → WithContext D F
  unfolding with_store
  scope env name cell =
      with_store (Push.push_scope (registry_of env) (some name) (Context.fork cell)).0
