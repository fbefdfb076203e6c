-- ===== src/Store/DeadScopes.antt =====
-- dcontext/src/store.rs, the test that values survive scopes beyond the depth limit.
use dcontext.Base.{
  ℕ, zero, suc, ◌+◌, ◌-◌, ◌≤◌, ◌<◌, ◌≡◌, refl, ap, ◌∙◌, String, none, some, [], Bool, true, ◌&&◌,
  is_some, arith, usize_max, string_eq, if◌then◌else◌,
}
use dcontext.Value.{Value}
use dcontext.Registry.{RegistryMap}
use dcontext.Store.{ContextStore, new_store, max_scope_depth}
use dcontext.Store.Shape.{IsWellFormed}
use dcontext.Store.Lookup.{get_value, set_value}
use dcontext.Store.Push.{push_scope}
use dcontext.Store.Pop.{pop_scope}
use dcontext.Store.Rewind.{unwind_dead, pop_scope-unwind}
use dcontext.Store.Keeps.{
  new_store-IsWellFormed, push_scope-IsWellFormed, set_value-IsWellFormed, pop_scope-IsWellFormed,
}
use dcontext.Store.Scoped.{depth-push_scope}
use dcontext.Store.Visible.{get_value-push_scope, get_value-set_value}
use dcontext.Store.DepthLimit.{push_all, depth-push_all}

module _ {D : Type 0} where
  -- The loop that pops to the depth of the moment.
  unfoldable pub pop_current : ℕ → ContextStore D → ContextStore D
  pop_current zero s = s
  pop_current (suc n) s = pop_current n (pop_scope s.depth s).0

  -- The assertions of the test, at a key and a value.
  unfoldable pub values_survive : String → Value D → Bool
  unfolding push_all pop_current get_value
  values_survive k v =
      let s = (set_value k v (push_scope [] none new_store).0).0 in
      let pushed = (push_all [] (max_scope_depth + 5) s).0 in
      is_some (get_value pushed k) && is_some (get_value (pop_current 5 pushed) k)

  push_all-IsWellFormed :
      (registry : RegistryMap D) (n : ℕ) (s : ContextStore D)
      → IsWellFormed s
      → s.depth + n < usize_max
      → IsWellFormed (push_all registry n s).0
  unfolding push_all
  push_all-IsWellFormed registry zero s w b = w
  push_all-IsWellFormed registry (suc n) s w b =
      push_all-IsWellFormed registry n (push_scope registry none s).0
        (push_scope-IsWellFormed registry none s w (omega (arith, b)))
        (omega (arith, b, depth-push_scope registry none s w.bounded))

  get_value-push_all :
      (registry : RegistryMap D) (n : ℕ) (s : ContextStore D) (k : String)
      → IsWellFormed s
      → s.depth + n < usize_max
      → get_value (push_all registry n s).0 k ≡ get_value s k
  unfolding push_all
  get_value-push_all registry zero s k w b = refl
  get_value-push_all registry (suc n) s k w b =
      get_value-push_all registry n (push_scope registry none s).0 k
        (push_scope-IsWellFormed registry none s w (omega (arith, b)))
        (omega (arith, b, depth-push_scope registry none s w.bounded))
      ∙ get_value-push_scope registry none s k w

  get_value-pop_current :
      (m : ℕ) (s : ContextStore D) (k : String)
      → IsWellFormed s
      → max_scope_depth + 1 + m ≤ s.depth
      → get_value (pop_current m s) k ≡ get_value s k
  unfolding pop_current get_value
  get_value-pop_current zero s k w deep = refl
  get_value-pop_current (suc m) s k w deep =
      let popped : (pop_scope s.depth s).0 ≡ record s { depth = s.depth - 1 } =
        pop_scope-unwind s.depth s w
        ∙ unwind_dead s.depth s (omega (arith, deep)) (omega arith) (omega (arith, deep)) in
      get_value-pop_current m (pop_scope s.depth s).0 k (pop_scope-IsWellFormed s.depth s w)
        (omega (arith, deep, ap (λ x. x.depth) popped))
      ∙ ap (λ x. get_value x k) popped

  -- From a well-formed store, where the counter does not overflow: after pushes without a value, and
  -- pops that end beyond the depth limit, every variable has its value of before.
  pub get_value-pop_current_pushed :
      (registry : RegistryMap D) (n m : ℕ) (s : ContextStore D) (k : String)
      → IsWellFormed s
      → s.depth + n < usize_max
      → max_scope_depth + 1 + m ≤ s.depth + n
      → get_value (pop_current m (push_all registry n s).0) k ≡ get_value s k
  get_value-pop_current_pushed registry n m s k w b deep =
      get_value-pop_current m (push_all registry n s).0 k (push_all-IsWellFormed registry n s w b)
        (omega (arith, deep, depth-push_all registry n s b))
      ∙ get_value-push_all registry n s k w b

  -- The test passes.
  values_survive_lem : (k : String) (v : Value D) → values_survive k v ≡ true
  unfolding values_survive set_value
  values_survive_lem k v =
      let t : ContextStore D = (push_scope [] none new_store).0 in
      let s = (set_value k v t).0 in
      let depth : t.depth ≡ 2 =
        omega (arith, depth-push_scope {D = D} [] none new_store (omega arith)) in
      let w : IsWellFormed s =
        set_value-IsWellFormed k v t
          (push_scope-IsWellFormed [] none new_store new_store-IsWellFormed (omega arith)) in
      let found : get_value s k ≡ some v =
        get_value-set_value k k v t
        ∙ ap (λ b. if b then some v else get_value t k) ((string_eq.same_iff k k).1 refl) in
      let pushed =
        get_value-push_all [] (max_scope_depth + 5) s k w (omega (arith, depth)) ∙ found in
      let popped =
        get_value-pop_current_pushed [] (max_scope_depth + 5) 5 s k w (omega (arith, depth))
          (omega (arith, depth))
        ∙ found in
      ap
        (λ o.
          is_some o
          && is_some (get_value (pop_current 5 (push_all [] (max_scope_depth + 5) s).0) k))
        pushed
      ∙ ap (λ o. is_some o) popped
