-- ===== src/Context/Reach/Safe.antt =====
-- Every call of a client keeps its thread safe.
use dcontext.Base.{
  or_else, ℕ, ◌≡◌, refl, String, none, some, [], ◌∷◌, inl, inr, string_eq, Bool-cases, nat_eqb,
  usize_max,
}
use dcontext.Base.HashMap.{Distinct, get}
use dcontext.Value.{TypeId, Value}
use dcontext.Scope.{Values, ScopeGuard}
use dcontext.Store.{ContextStore, fork_child}
use dcontext.Store.Shape.{IsWellFormed}
use dcontext.Store.Lookup.{set_value, get_value, collect_values, find_frozen}
use dcontext.Store.Barrier.{set_value-IsUnbarred, push_scope-IsUnbarred, pop_scope-IsUnbarred}
use dcontext.Store.Rewind.{unwind}
use dcontext.Store.Pop.{pop_scope}
use dcontext.Store.Keeps.{
  new_store-IsWellFormed, set_value-IsWellFormed, push_scope-IsWellFormed, pop_scope-IsWellFormed,
  fork_child-IsWellFormed,
}
use dcontext.Snapshot.{ContextSnapshot, store_from_snapshot_with_registry}
use dcontext.Context.{
  Env, Cell, registry_of, push_scope, drop_scope_guard, clear, fork, merge_with, set_all,
  attach_store, drop_attach_guard, store_from_snapshot, try_apply,
}
use dcontext.Context.Transfer.{store_from_snapshot-IsWellFormed}
use dcontext.Context.Typed.{set_context_variable, update_context_variable}
use dcontext.Context.Reach.{
  Thread, All-Pick, IsIntact, IsReady, HasRoom, GuardIsReady, IsSafe, ready, start, Step, Reach,
  step_push_scope, step_drop_scope_guard, step_set, step_update, step_clear, step_fork,
  step_from_snapshot, step_attach_store, step_merge_with, step_drop_attach_guard, here, next,
}

module _ {D : Type 0} (env : Env D) where
  push_scope-IsReady :
      (name : String) (cell : Cell D)
      → IsReady cell
      → HasRoom cell
      → IsReady (push_scope env name cell).0
  unfolding push_scope
  push_scope-IsReady name none w room = w
  push_scope-IsReady name (some s) w room = (
    push_scope-IsWellFormed (registry_of env) (some name) s w.0 room,
    push_scope-IsUnbarred (registry_of env) (some name) s w.0.bounded w.1,
  )

  drop_scope_guard-IsReady :
      (guard : ScopeGuard) (cell : Cell D) → IsReady cell → IsReady (drop_scope_guard guard cell)
  unfolding drop_scope_guard
  drop_scope_guard-IsReady guard none w = absurd w
  drop_scope_guard-IsReady guard (some s) w =
      elim (Bool-cases (nat_eqb guard.expected_depth usize_max)) [
        | inl noop ↦ rw noop w
        | inr real ↦ rw real (
          pop_scope-IsWellFormed guard.expected_depth s w.0,
          pop_scope-IsUnbarred guard.expected_depth s w.0 w.1,
        )
      ]

  set_value-IsIntact :
      (k : String) (v : Value D) (s : ContextStore D) → IsIntact s → IsIntact (set_value k v s).0
  set_value-IsIntact k v s w = (set_value-IsWellFormed k v s w.0, set_value-IsUnbarred k v s w.1)

  set-IsReady :
      (u : TypeId) (k : String) (v : D) (cell : Cell D)
      → IsReady cell
      → IsReady (set_context_variable u k v cell)
  unfolding set_context_variable try_apply
  set-IsReady u k v none w = w
  set-IsReady u k v (some s) w = set_value-IsIntact k (record { type_id = u; data_of = v }) s w

  clear-IsReady : (cell : Cell D) → IsReady cell → IsReady (clear cell)
  unfolding clear
  clear-IsReady none w = w
  clear-IsReady (some s) w = (new_store-IsWellFormed, (refl, tt))

  fork-IsIntact : (cell : Cell D) → IsReady cell → IsIntact (fork cell)
  unfolding fork
  fork-IsIntact none w = absurd w
  fork-IsIntact (some s) w = (fork_child-IsWellFormed s w.0, (refl, tt))

  set_all-IsIntact :
      (values : Values D) (s : ContextStore D) → IsIntact s → IsIntact (set_all values s)
  unfolding set_all
  set_all-IsIntact [] s w = w
  set_all-IsIntact ((k, v) ∷ values) s w =
      set_all-IsIntact values (set_value k v s).0 (set_value-IsIntact k v s w)

  merge_with-IsReady :
      (source : ContextStore D) (cell : Cell D) → IsReady cell → IsReady (merge_with source cell)
  unfolding merge_with
  merge_with-IsReady source none w = w
  merge_with-IsReady source (some s) w = set_all-IsIntact (collect_values source) s w

  store_from_snapshot-IsIntact :
      (snap : ContextSnapshot D) → Distinct snap.values → IsIntact (store_from_snapshot env snap)
  unfolding store_from_snapshot store_from_snapshot_with_registry
  store_from_snapshot-IsIntact snap d = (store_from_snapshot-IsWellFormed env snap d, (refl, tt))

  pub Step-IsSafe : {t u : Thread D} → Step env t u → IsSafe t → IsSafe u
  unfolding update_context_variable attach_store drop_attach_guard
  Step-IsSafe (step_push_scope t name room) (w, gs, ss) =
      (push_scope-IsReady name t.cell w room, gs, ss)
  Step-IsSafe (step_drop_scope_guard t guard) (w, gs, ss) =
      (drop_scope_guard-IsReady guard t.cell w, gs, ss)
  Step-IsSafe (step_set t u k v) (w, gs, ss) = (set-IsReady u k v t.cell w, gs, ss)
  Step-IsSafe (step_update t u default k f) (w, gs, ss) = (set-IsReady u k _ t.cell w, gs, ss)
  Step-IsSafe (step_clear t) (w, gs, ss) = (clear-IsReady t.cell w, gs, ss)
  Step-IsSafe (step_fork t) (w, gs, ss) = (w, gs, (fork-IsIntact t.cell w, ss))
  Step-IsSafe (step_from_snapshot t snap d) (w, gs, ss) =
      (w, gs, (store_from_snapshot-IsIntact snap d, ss))
  Step-IsSafe (step_attach_store t s rest p) (w, gs, ss) =
      let (ws, others) = All-Pick IsIntact p ss in (ws, (w, gs), others)
  Step-IsSafe (step_merge_with t s rest p) (w, gs, ss) =
      (merge_with-IsReady s t.cell w, gs, (All-Pick IsIntact p ss).1)
  Step-IsSafe (step_drop_attach_guard t guard rest p) (w, gs, ss) =
      let (wg, others) = All-Pick GuardIsReady p gs in (wg, others, ss)

  pub Reach-IsSafe : {t : Thread D} → Reach env start t → IsSafe t
  Reach-IsSafe here = ((new_store-IsWellFormed, (refl, tt)), tt, tt)
  Reach-IsSafe (next r step) = Step-IsSafe step (Reach-IsSafe r)

  -- On a thread that starts with a new store, after any calls of its client in any order, with
  -- guards dropped in any order and more than once, where each push finds a depth below the
  -- largest `usize`: the cell holds a store, the store is well-formed, no barrier is active in
  -- it, its collected values agree with its reads at every key, it shows what its fork shows and
  -- where that is nothing what its own frozen parent holds, and `pop_scope` to any depth ends
  -- where the description without a loop says.
  Reach-cell :
      {t : Thread D}
      → Reach env start t
      → (s : ContextStore D) × (t.cell ≡ some s)
        × IsWellFormed s
        × (s.scope_barrier ≡ none)
        × ((k : String) → get k (collect_values s) ≡ get_value s k)
        × ((k : String)
            → get_value s k ≡ or_else (get_value (fork_child s) k) (find_frozen k s.frozen_parent))
        × ((e : ℕ) → (pop_scope e s).0 ≡ unwind e s)
  Reach-cell {t} r = ready t.cell (Reach-IsSafe r).0
