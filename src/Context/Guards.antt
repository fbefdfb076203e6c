-- ===== src/Context/Guards.antt =====
-- What the guards of the public functions give back.
use dcontext.Base.{ℕ, ◌+◌, ◌<◌, ◌≡◌, refl, ap, ◌∙◌, String, some, arith, usize_max}
use dcontext.Scope.{ScopeGuard}
use dcontext.Store.{ContextStore}
use dcontext.Store.Shape.{IsWellFormed}
use dcontext.Store.Pop.{pop_scope}
use dcontext.Store.Keeps.{depth-pop_scope}
use dcontext.Store.Scoped.{depth-push_scope}
use dcontext.Snapshot.{ContextSnapshot, store_from_snapshot_with_registry}
use dcontext.Context.{
  Env, registry_of, push_scope, drop_scope_guard, store_from_snapshot, drop_attach_guard,
  attach_snapshot_with_scope,
}

module _ {D : Type 0} where
  drop_scope_guard-pop :
      (e : ℕ) (s : ContextStore D)
      → e < usize_max
      → drop_scope_guard (record { expected_depth = e }) (some s) ≡ some (pop_scope e s).0
  unfolding drop_scope_guard
  drop_scope_guard-pop e s h = ground arith

  push_scope-depth :
      (env : Env D) (name : String) (s : ContextStore D)
      → s.depth < usize_max
      → (push_scope env name (some s)).1 ≡ record { expected_depth = s.depth + 1 }
  unfolding push_scope
  push_scope-depth env name s h =
      ap {B = ScopeGuard} (λ d. record { expected_depth = d })
        (depth-push_scope (registry_of env) (some name) s h).0

  -- The two guards of `attach_snapshot_with_scope` on a thread whose store is well-formed and
  -- inside a scope. Dropping the scope guard and then the attach guard gives the old store back.
  -- Dropping the attach guard first, as the fields of the pair are dropped, the scope guard then
  -- pops the old store to depth 1.
  pub attach_snapshot_with_scope-drops :
      (env : Env D) (snap : ContextSnapshot D) (name : String) (s : ContextStore D)
      → IsWellFormed s
      → 1 < s.depth
      → let (cell, guard, scope) = attach_snapshot_with_scope env snap name (some s) in
        (drop_attach_guard guard (drop_scope_guard scope cell) ≡ some s)
        × (drop_scope_guard scope (drop_attach_guard guard cell) ≡ some (pop_scope 2 s).0)
        × ((pop_scope 2 s).0.depth ≡ 1)
  unfolding attach_snapshot_with_scope drop_attach_guard store_from_snapshot_with_registry
  attach_snapshot_with_scope-drops env snap name s w deep = (
    refl,
    ap (λ g. drop_scope_guard g (some s))
          (push_scope-depth env name (store_from_snapshot env snap) (omega arith))
        ∙ drop_scope_guard-pop 2 s (omega arith),
    depth-pop_scope 2 s w (omega arith) (omega arith),
  )
