-- ===== src/Context/TypedReach.antt =====
-- Types of variables on a thread whose client writes each key at the type it is registered with.
use dcontext.Base.{
  ◌≡◌, refl, ap, ◌∙◌, sym, String, none, some, [], ◌∷◌, arith, string_eq, nat_eqb, usize_max,
  map_or, or_else, Option-cases, unwrap_or, Bool-cases, inl, inr,
}
use mathlib.Core.Path.{subst}
use dcontext.Base.HashMap.{get, Distinct}
use dcontext.Value.{TypeId, Value, downcast_ref}
use dcontext.Scope.{ScopeGuard, Values}
use dcontext.Registry.{Registration}
use dcontext.Store.{ContextStore, new_store}
use dcontext.Store.Lookup.{
  set_value, get_value, find_local, find_fallback, find_frozen, collect_values,
}
use dcontext.Store.Visible.{get_value-fork_child}
use dcontext.Store.Refines.{abs, abs-set_value, abs-push_scope, abs-pop_scope}
use dcontext.Snapshot.{ContextSnapshot, store_from_snapshot_with_registry}
use dcontext.Context.{
  Env, Cell, AttachGuard, registry_of, push_scope, drop_scope_guard, clear, fork, merge_with,
  set_all, attach_store, drop_attach_guard, store_from_snapshot, try_apply, try_read,
}
use dcontext.Context.Typed.{set_context_variable, get_context_variable, update_context_variable}
use dcontext.Context.Transfer.{get_value-store_from_snapshot}
use dcontext.Context.Transfer.Wired.{transferable-IsTyped}
use dcontext.Context.Variables.{get_value-merged}
use dcontext.Context.Reach.{
  Thread, All, All-Pick, Step, Reach, start, IsSafe, IsReady, IsIntact, here, next, step_push_scope,
  step_drop_scope_guard, step_set, step_update, step_clear, step_fork, step_from_snapshot,
  step_attach_store, step_merge_with, step_drop_attach_guard,
}
use dcontext.Context.Reach.Safe.{Reach-IsSafe}
use dcontext.Context.Typing.{
  Fits, AllTyped, StackIsTyped, open_level-IsTyped, write_top-IsTyped, close_level-IsTyped,
}

module _ {D : Type 0} (env : Env D) where
  abbrev StoreIsTyped : ContextStore D → Type 0
  StoreIsTyped s = StackIsTyped (registry_of env) (abs s)

  abbrev CellIsTyped : Cell D → Type 0
  CellIsTyped none = Unit
  CellIsTyped (some s) = StoreIsTyped s

  abbrev ThreadIsTyped : Thread D → Type 0
  ThreadIsTyped t =
      CellIsTyped t.cell
      × All (λ g. CellIsTyped (AttachGuard.prev g)) t.guards
      × All StoreIsTyped t.stores

  -- The step writes at the type of the key, if it writes.
  abbrev pub IsFitting : {t u : Thread D} → Step env t u → Type 0
  IsFitting (step_set t u k v) = Fits (registry_of env) k (record { type_id = u; data_of = v })
  IsFitting (step_update t u default k f) =
      Fits (registry_of env) k (record { type_id = u; data_of = default })
  IsFitting step = Unit

  abbrev pub AllFit : {t : Thread D} → Reach env start t → Type 0
  AllFit here = Unit
  AllFit (next r step) = AllFit r × IsFitting step

  set_value-IsTyped :
      (k : String) (v : Value D) (s : ContextStore D)
      → Fits (registry_of env) k v
      → StoreIsTyped s
      → StoreIsTyped (set_value k v s).0
  set_value-IsTyped k v s f t =
      subst (StackIsTyped (registry_of env)) (sym (abs-set_value k v s))
        (write_top-IsTyped (registry_of env) k v (abs s) f t)

  push_scope-IsTyped :
      (name : String) (cell : Cell D)
      → IsReady cell
      → CellIsTyped cell
      → CellIsTyped (push_scope env name cell).0
  unfolding push_scope
  push_scope-IsTyped name none w t = t
  push_scope-IsTyped name (some s) w t =
      subst (StackIsTyped (registry_of env))
        (sym (abs-push_scope (registry_of env) (some name) s w.0))
        (open_level-IsTyped (registry_of env) (some name) (abs s) t)

  drop_scope_guard-IsTyped :
      (guard : ScopeGuard) (cell : Cell D)
      → IsReady cell
      → CellIsTyped cell
      → CellIsTyped (drop_scope_guard guard cell)
  unfolding drop_scope_guard
  drop_scope_guard-IsTyped guard none w t = absurd w
  drop_scope_guard-IsTyped guard (some s) w t =
      elim (Bool-cases (nat_eqb guard.expected_depth usize_max)) [
        | inl noop ↦ rw noop t
        | inr real ↦ rw real (
            subst (StackIsTyped (registry_of env)) (sym (abs-pop_scope guard.expected_depth s w.0))
              (close_level-IsTyped (registry_of env) guard.expected_depth (abs s) t))
      ]

  set-IsTyped :
      (u : TypeId) (k : String) (v : D) (cell : Cell D)
      → Fits (registry_of env) k (record { type_id = u; data_of = v })
      → CellIsTyped cell
      → CellIsTyped (set_context_variable u k v cell)
  unfolding set_context_variable try_apply
  set-IsTyped u k v none f t = t
  set-IsTyped u k v (some s) f t = set_value-IsTyped k (record { type_id = u; data_of = v }) s f t

  new_store-IsTyped : StoreIsTyped new_store
  unfolding get_value find_local find_fallback find_frozen get
  new_store-IsTyped = (λ k v found r reg. cc, tt)

  clear-IsTyped : (cell : Cell D) → CellIsTyped cell → CellIsTyped (clear cell)
  unfolding clear
  clear-IsTyped none t = t
  clear-IsTyped (some s) t = new_store-IsTyped

  fork-IsTyped : (cell : Cell D) → IsReady cell → CellIsTyped cell → StoreIsTyped (fork cell)
  unfolding fork
  fork-IsTyped none w t = absurd w
  fork-IsTyped (some s) w t = (
    λ k v found r reg.
        t.0 k v
          (get_value-fork_child s k w.0 w.1.0
            ∙ ap (λ o. or_else o (find_frozen k s.frozen_parent)) found)
          r reg,
    tt,
  )

  store_from_snapshot-IsTyped :
      (snap : ContextSnapshot D)
      → Distinct snap.values
      → StoreIsTyped (store_from_snapshot env snap)
  unfolding store_from_snapshot store_from_snapshot_with_registry
  store_from_snapshot-IsTyped snap d = (
    λ k v found r reg.
        transferable-IsTyped (registry_of env) k (get k snap.values) v r
          (sym (get_value-store_from_snapshot env snap k d) ∙ found) reg,
    tt,
  )

  -- A merge changes the values of the active scope alone.
  set_all-frame :
      (values : Values D) (s : ContextStore D)
      → set_all values s ≡ record s { current_values = (set_all values s).current_values }
  unfolding set_all set_value
  set_all-frame [] s = refl
  set_all-frame ((k, v) ∷ values) s = set_all-frame values (set_value k v s).0

  merge_with-IsTyped :
      (source : ContextStore D) (cell : Cell D)
      → IsIntact source
      → StoreIsTyped source
      → CellIsTyped cell
      → CellIsTyped (merge_with source cell)
  unfolding merge_with
  merge_with-IsTyped source none w ts t = t
  merge_with-IsTyped source (some s) w ts t = (
    λ k v found r reg.
        let shown = sym (get_value-merged source s k w.0) ∙ found in
        elim (Option-cases (get_value source k)) [
          | inl unset ↦
              t.0 k v (let q : get_value s k ≡ some v = ground (arith, unset, shown) in q) r reg
          | inr (x, set) ↦
              ts.0 k v (let q : get_value source k ≡ some v = ground (arith, set, shown) in q) r reg
        ],
    subst (λ x. AllTyped (registry_of env) (abs x).outer)
        (sym (set_all-frame (collect_values source) s)) t.1,
  )

  Step-IsTyped :
      {t u : Thread D} (step : Step env t u)
      → IsFitting step
      → IsSafe t
      → ThreadIsTyped t
      → ThreadIsTyped u
  unfolding update_context_variable attach_store drop_attach_guard
  Step-IsTyped (step_push_scope t name room) f w (c, gs, ss) =
      (push_scope-IsTyped name t.cell w.0 c, gs, ss)
  Step-IsTyped (step_drop_scope_guard t guard) f w (c, gs, ss) =
      (drop_scope_guard-IsTyped guard t.cell w.0 c, gs, ss)
  Step-IsTyped (step_set t u k v) f w (c, gs, ss) = (set-IsTyped u k v t.cell f c, gs, ss)
  Step-IsTyped (step_update t u default k g) f w (c, gs, ss) =
      (set-IsTyped u k (g (unwrap_or default (get_context_variable u k t.cell))) t.cell f c, gs, ss)
  Step-IsTyped (step_clear t) f w (c, gs, ss) = (clear-IsTyped t.cell c, gs, ss)
  Step-IsTyped (step_fork t) f w (c, gs, ss) = (c, gs, (fork-IsTyped t.cell w.0 c, ss))
  Step-IsTyped (step_from_snapshot t snap d) f w (c, gs, ss) =
      (c, gs, (store_from_snapshot-IsTyped snap d, ss))
  Step-IsTyped (step_attach_store t s rest p) f w (c, gs, ss) =
      let (typed, others) = All-Pick StoreIsTyped p ss in (typed, (c, gs), others)
  Step-IsTyped (step_merge_with t s rest p) f w (c, gs, ss) =
      let (typed, others) = All-Pick StoreIsTyped p ss in
      (merge_with-IsTyped s t.cell (All-Pick IsIntact p w.2).0 typed c, gs, others)
  Step-IsTyped (step_drop_attach_guard t guard rest p) f w (c, gs, ss) =
      let (typed, others) = All-Pick (λ g. CellIsTyped (AttachGuard.prev g)) p gs in
      (typed, others, ss)

  Reach-IsTyped : {t : Thread D} (r : Reach env start t) → AllFit r → ThreadIsTyped t
  Reach-IsTyped here f = (new_store-IsTyped, tt, tt)
  Reach-IsTyped (next r step) f = Step-IsTyped step f.1 (Reach-IsSafe env r) (Reach-IsTyped r f.0)

  read_typed :
      (cell : Cell D) (k : String) (r : Registration D)
      → CellIsTyped cell
      → get k (registry_of env) ≡ some r
      → get_context_variable r.type_id k cell
        ≡ map_or none (λ s. map_or none (λ v. some v.data_of) (get_value s k)) cell
  unfolding get_context_variable downcast_ref try_read try_apply
  read_typed none k r t reg = refl
  read_typed (some s) k r t reg = elim (Option-cases (get_value s k)) [
    | inl unset ↦ ground (arith, unset)
    | inr (v, set) ↦ let typed = t.0 k v set r reg in ground (arith, set, typed)
  ]

  -- On a thread that starts with a new store, after any calls of its client in any order, where
  -- each write is at the type that its key is registered with, an update at any default and
  -- function among them, and each push finds a depth below the largest `usize`: reading a
  -- registered key at its type gives the data that the store shows there, so no read fails
  -- because of a type, whatever snapshots were attached and whatever stores were merged.
  pub get_context_variable-Reach :
      {t : Thread D} (reach : Reach env start t) (k : String) (r : Registration D)
      → AllFit reach
      → get k (registry_of env) ≡ some r
      → get_context_variable r.type_id k t.cell
        ≡ map_or none (λ s. map_or none (λ v. some v.data_of) (get_value s k)) t.cell
  get_context_variable-Reach {t} reach k r f reg =
      read_typed t.cell k r (Reach-IsTyped reach f).0 reg
