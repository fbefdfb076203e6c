-- ===== src/Context.antt =====
-- dcontext/src/lib.rs, with `try_apply` of store.rs, the guards of scope.rs and attach.rs: the
-- public functions on the thread-local cell. `Typed` has those that take a value's type.
pub mod Typed
pub mod Variables
pub mod Guards
pub mod Transfer
pub mod Reach
pub mod Process
pub mod Typing
pub mod TypedReach
pub mod Limits
pub mod Relay
pub mod Received
pub mod Sent
pub mod Reentry
use dcontext.Base.{
  ℕ, String, Option, none, some, List, [], ◌∷◌, if◌then◌else◌, nat_eqb, usize_max, unwrap_or,
  Result, ok, ◌>>=◌,
}
use dcontext.Config.{Config}
use dcontext.Error.{ContextError}
use dcontext.Value.{Bytes, Value, Serde}
use dcontext.Scope.{ScopeGuard, noop, Values}
use dcontext.Registry.{RegistryMap}
use dcontext.Registry.Globals.{Globals, global_registry, with_global_registry}
use dcontext.Store
use dcontext.Store.{ContextStore, new_store, fork_child}
use dcontext.Store.Chain
use dcontext.Store.Lookup.{set_value, collect_values}
use dcontext.Store.Push
use dcontext.Store.Pop.{pop_scope}
use dcontext.Snapshot.{
  ContextSnapshot, empty, capture_with_registry, store_from_snapshot_with_registry,
}
use dcontext.Wire.{Bincode}
use dcontext.Wire.Encode.{serialize_from}
use dcontext.Wire.Decode.{deserialize_to_snapshot}

-- The process-wide state that the functions read, and the codecs of the build.
pub record Env (D : Type 0) : Type 0 where
  pub globals : Globals D
  pub config : Config
  pub serde : Serde D
  pub bincode : Bincode

-- `Cell<Option<ContextStore>>` of one thread; `none` while an operation holds the store.
abbrev pub Cell : Type 0 → Type 0
Cell D = Option (ContextStore D)

-- `prev` of an `AttachGuard`.
pub record AttachGuard (D : Type 0) : Type 0 where
  pub prev : Cell D

module _ {D : Type 0} where
  abbrev pub registry_of : Env D → RegistryMap D
  registry_of env = global_registry env.globals

  -- Take the store, apply, put it back. `None` when the store is out. A thread whose local storage
  -- is gone is not modelled.
  unfoldable pub try_apply :
      {R : Type 0} → (ContextStore D → ContextStore D × R) → Cell D → Cell D × Option R
  try_apply f none = (none, none)
  try_apply f (some store) = let (store', result) = f store in (some store', some result)

  -- A read leaves the store as it is.
  unfoldable pub try_read : {R : Type 0} → (ContextStore D → R) → Cell D → Option R
  unfolding try_apply
  try_read f cell = (try_apply (λ store. (store, f store)) cell).1

  unfoldable pub enter : RegistryMap D → String → ContextStore D → ContextStore D × ScopeGuard
  enter registry name store =
      let (store', depth) = Push.push_scope registry (some name) store in
      (store', record { expected_depth = depth })

  unfoldable pub push_scope : Env D → String → Cell D → Cell D × ScopeGuard
  unfolding try_apply enter
  push_scope env name cell =
      let (cell', guard) = try_apply (enter (registry_of env) name) cell in
      (cell', unwrap_or noop guard)

  -- `Drop for ScopeGuard`, that is `leave_scope`.
  unfoldable pub drop_scope_guard : ScopeGuard → Cell D → Cell D
  unfolding try_apply
  drop_scope_guard guard cell =
      if nat_eqb guard.expected_depth usize_max
      then cell
      else (try_apply (pop_scope guard.expected_depth) cell).0

  unfoldable pub scope_chain : Env D → Cell D → List String
  unfolding try_read
  scope_chain env cell = unwrap_or [] (try_read (Chain.scope_chain env.config) cell)

  unfoldable pub capture : Env D → Cell D → ContextSnapshot D
  unfolding try_read
  capture env cell =
      unwrap_or empty
        (try_read (λ store. capture_with_registry env.config store (registry_of env)) cell)

  unfoldable pub fork : Cell D → ContextStore D
  unfolding try_read
  fork cell = unwrap_or new_store (try_read fork_child cell)

  -- `ContextSnapshot::serialize` and `ContextSnapshot::deserialize`.
  unfoldable pub serialize : Env D → ContextSnapshot D → Result Bytes ContextError
  serialize env snap =
      serialize_from env.serde env.bincode env.config (registry_of env) snap.values snap.scope_chain

  unfoldable pub deserialize : Env D → Bytes → Result (ContextSnapshot D) ContextError
  deserialize env bytes = deserialize_to_snapshot env.bincode (registry_of env) bytes

  unfoldable pub capture_serialized : Env D → Cell D → Result Bytes ContextError
  unfolding serialize capture
  capture_serialized env cell = serialize env (capture env cell)

  -- `From<ContextSnapshot> for ContextStore`.
  unfoldable pub store_from_snapshot : Env D → ContextSnapshot D → ContextStore D
  store_from_snapshot env snap = store_from_snapshot_with_registry snap (registry_of env)

  unfoldable pub attach_store : ContextStore D → Cell D → Cell D × AttachGuard D
  attach_store store cell = (some store, record { prev = cell })

  unfoldable pub attach_snapshot : Env D → ContextSnapshot D → Cell D → Cell D × AttachGuard D
  unfolding attach_store store_from_snapshot
  attach_snapshot env snap cell = attach_store (store_from_snapshot env snap) cell

  -- `Drop for AttachGuard`.
  unfoldable pub drop_attach_guard : AttachGuard D → Cell D → Cell D
  drop_attach_guard guard cell = guard.prev

  unfoldable pub attach_from_bytes :
      Env D → Bytes → Cell D → Result (Cell D × AttachGuard D) ContextError
  unfolding attach_snapshot deserialize
  attach_from_bytes env bytes cell = do
    snap ← deserialize env bytes
    ok (attach_snapshot env snap cell)

  unfoldable pub attach_snapshot_with_scope :
      Env D → ContextSnapshot D → String → Cell D → Cell D × AttachGuard D × ScopeGuard
  unfolding attach_snapshot push_scope
  attach_snapshot_with_scope env snap name cell =
      let (attached, guard) = attach_snapshot env snap cell in
      let (scoped, scope) = push_scope env name attached in (scoped, guard, scope)

  -- `for (key, val) in values { store.set_value(key, val) }`.
  unfoldable pub set_all : Values D → ContextStore D → ContextStore D
  set_all [] store = store
  set_all ((key, val) ∷ values) store = set_all values (set_value key val store).0

  unfoldable pub merge_with : ContextStore D → Cell D → Cell D
  unfolding try_apply set_all
  merge_with source cell =
      (try_apply (λ store. (set_all (collect_values source) store, tt {0})) cell).0

  unfoldable pub clear : Cell D → Cell D
  unfolding try_apply
  clear cell = (try_apply (λ store. (new_store, tt {0})) cell).0
