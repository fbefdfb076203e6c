-- ===== src/Context/Reach.antt =====
-- A thread and what its client holds: the cell, attach guards and detached stores, and the calls of
-- the public functions as steps, in whatever order the client makes them.
pub mod Safe
use dcontext.Base.{
  or_else, ℕ, ◌+◌, ◌<◌, ◌≡◌, refl, String, none, some, List, [], ◌∷◌, inl, inr, string_eq,
  Bool-cases, nat_eqb, usize_max,
}
use dcontext.Base.HashMap.{Distinct, get}
use dcontext.Value.{TypeId, Value}
use dcontext.Scope.{Values, ScopeGuard}
use dcontext.Store.{ContextStore, new_store, fork_child}
use dcontext.Store.Shape.{IsWellFormed}
use dcontext.Store.Lookup.{set_value, get_value, collect_values, find_frozen}
use dcontext.Store.Barrier.{
  IsUnbarred, set_value-IsUnbarred, push_scope-IsUnbarred, pop_scope-IsUnbarred,
}
use dcontext.Store.Visible.{get_value-fork_child}
use dcontext.Store.Rewind.{unwind, pop_scope-unwind}
use dcontext.Store.Snapshots.{get-collect_values}
use dcontext.Store.Pop.{pop_scope}
use dcontext.Store.Keeps.{
  new_store-IsWellFormed, set_value-IsWellFormed, push_scope-IsWellFormed, pop_scope-IsWellFormed,
  fork_child-IsWellFormed,
}
use dcontext.Snapshot.{ContextSnapshot, store_from_snapshot_with_registry}
use dcontext.Context.{
  Env, Cell, AttachGuard, registry_of, push_scope, drop_scope_guard, clear, fork, merge_with,
  set_all, attach_store, drop_attach_guard, store_from_snapshot, try_apply,
}
use dcontext.Context.Transfer.{store_from_snapshot-IsWellFormed}
use dcontext.Context.Typed.{set_context_variable, update_context_variable}

pub record Thread (D : Type 0) : Type 0 where
  pub cell : Cell D
  pub guards : List (AttachGuard D)
  pub stores : List (ContextStore D)

-- One element of a list, and the others.
pub data Pick (A : Type 0) (x : A) : List A → List A → Type 0 where
  this : {xs : List A} → Pick A x (x ∷ xs) xs
  that : {y : A} {xs ys : List A} → Pick A x xs ys → Pick A x (y ∷ xs) (y ∷ ys)

abbrev pub All : {A : Type 0} → (A → Type 0) → List A → Type 0
All P [] = Unit
All P (x ∷ xs) = P x × All P xs

pub All-Pick :
    {A : Type 0} (P : A → Type 0) {x : A} {xs ys : List A}
    → Pick A x xs ys
    → All P xs
    → P x × All P ys
All-Pick P this h = h
All-Pick P (that p) h = let (here, rest) = All-Pick P p h.1 in (here, (h.0, rest))

module _ {D : Type 0} where
  abbrev pub IsIntact : ContextStore D → Type 0
  IsIntact s = IsWellFormed s × IsUnbarred s

  -- The thread is between two calls, with a store.
  abbrev pub IsReady : Cell D → Type 0
  IsReady none = ⊥
  IsReady (some s) = IsIntact s

  abbrev pub HasRoom : Cell D → Type 0
  HasRoom none = Unit
  HasRoom (some s) = s.depth + 1 < usize_max

  abbrev pub GuardIsReady : AttachGuard D → Type 0
  GuardIsReady g = IsReady g.prev

  abbrev pub IsSafe : Thread D → Type 0
  IsSafe t = IsReady t.cell × All GuardIsReady t.guards × All IsIntact t.stores

  pub ready :
      (cell : Cell D)
      → IsReady cell
      → (s : ContextStore D) × (cell ≡ some s)
        × IsWellFormed s
        × (s.scope_barrier ≡ none)
        × ((k : String) → get k (collect_values s) ≡ get_value s k)
        × ((k : String)
            → get_value s k ≡ or_else (get_value (fork_child s) k) (find_frozen k s.frozen_parent))
        × ((e : ℕ) → (pop_scope e s).0 ≡ unwind e s)
  ready none w = absurd w
  ready (some s) w = (
    s,
    refl,
    w.0,
    w.1.0,
    λ k. get-collect_values s k w.0.distinct,
    λ k. get_value-fork_child s k w.0 w.1.0,
    λ e. pop_scope-unwind e s w.0,
  )

  abbrev pub start : Thread D
  start = record { cell = some new_store; guards = []; stores = [] }

module _ {D : Type 0} (env : Env D) where
  -- The calls. A scope guard is a depth, and may be dropped at any time and more than once.
  pub data Step : Thread D → Thread D → Type 0 where
    step_push_scope :
        (t : Thread D) (name : String)
        → HasRoom t.cell
        → Step t (record t { cell = (push_scope env name t.cell).0 })
    step_drop_scope_guard :
        (t : Thread D) (guard : ScopeGuard)
        → Step t (record t { cell = drop_scope_guard guard t.cell })
    step_set :
        (t : Thread D) (u : TypeId) (k : String) (v : D)
        → Step t (record t { cell = set_context_variable u k v t.cell })
    step_update :
        (t : Thread D) (u : TypeId) (default : D) (k : String) (f : D → D)
        → Step t (record t { cell = update_context_variable u default k f t.cell })
    step_clear : (t : Thread D) → Step t (record t { cell = clear t.cell })
    step_fork : (t : Thread D) → Step t (record t { stores = fork t.cell ∷ t.stores })
    step_from_snapshot :
        (t : Thread D) (snap : ContextSnapshot D)
        → Distinct snap.values
        → Step t (record t { stores = store_from_snapshot env snap ∷ t.stores })
    step_attach_store :
        (t : Thread D) (s : ContextStore D) (rest : List (ContextStore D))
        → Pick (ContextStore D) s t.stores rest
        → Step t (record {
          cell = (attach_store s t.cell).0;
          guards = (attach_store s t.cell).1 ∷ t.guards;
          stores = rest;
        })
    step_merge_with :
        (t : Thread D) (s : ContextStore D) (rest : List (ContextStore D))
        → Pick (ContextStore D) s t.stores rest
        → Step t (record t { cell = merge_with s t.cell; stores = rest })
    step_drop_attach_guard :
        (t : Thread D) (guard : AttachGuard D) (rest : List (AttachGuard D))
        → Pick (AttachGuard D) guard t.guards rest
        → Step t (record t { cell = drop_attach_guard guard t.cell; guards = rest })

  pub data Reach (s : Thread D) : Thread D → Type 0 where
    here : Reach s s
    next : {t u : Thread D} → Reach s t → Step t u → Reach s u
