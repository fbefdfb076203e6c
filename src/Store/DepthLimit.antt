-- ===== src/Store/DepthLimit.antt =====
-- dcontext/src/store.rs, the test of a round trip beyond the depth limit, for any number of scopes.
use dcontext.Base.{
  ℕ, zero, suc, ◌+◌, ◌≤◌, ◌<◌, ◌≡◌, refl, ap, ◌∙◌, none, List, [], ◌∷◌, ◌++◌, Bool, true, false,
  ◌&&◌, arith, usize_max, nat_eqb, nat_eqb_iff,
}
use dcontext.Registry.{RegistryMap}
use dcontext.Scope.{ScopeNode}
use dcontext.Store.{ContextStore, new_store, max_scope_depth}
use dcontext.Store.Shape.{IsWellFormed}
use dcontext.Store.Push.{push_scope}
use dcontext.Store.Pop.{pop_scope}
use dcontext.Store.Keeps.{new_store-IsWellFormed}
use dcontext.Store.Scoped.{
  Block, done, scoped, nesting, run, run-scoped, if_either, depth-push_scope,
}

module _ {D : Type 0} where
  -- The loop that pushes, with the depths in reverse order.
  unfoldable pub push_all : RegistryMap D → ℕ → ContextStore D → ContextStore D × List ℕ
  push_all registry zero s = (s, [])
  push_all registry (suc n) s =
      let (t, depth) = push_scope registry none s in
      let (u, depths) = push_all registry n t in (u, depths ++ depth ∷ [])

  unfoldable pub pop_all : List ℕ → ContextStore D → ContextStore D
  pop_all [] s = s
  pop_all (depth ∷ depths) s = pop_all depths (pop_scope depth s).0

  abbrev is_empty : List (ScopeNode D) → Bool
  is_empty [] = true
  is_empty (node ∷ nodes) = false

  -- The assertions of the test.
  unfoldable pub full_roundtrip : RegistryMap D → ℕ → Bool
  unfolding push_all pop_all
  full_roundtrip registry total =
      let (pushed, depths) = push_all registry total new_store in
      let popped = pop_all depths pushed in
      nat_eqb pushed.depth (total + 1) && (nat_eqb popped.depth 1 && is_empty popped.scope_chain)

  pop_all-append :
      (ds es : List ℕ) (s : ContextStore D) → pop_all (ds ++ es) s ≡ pop_all es (pop_all ds s)
  unfolding pop_all
  pop_all-append [] es s = refl
  pop_all-append (d ∷ ds) es s = pop_all-append ds es (pop_scope d s).0

  -- The same pushes and pops as a block.
  nested : ℕ → Block D
  nested zero = done
  nested (suc n) = scoped none (nested n) done

nesting-nested : (D : Type 0) (n : ℕ) → nesting (nested {D = D} n) ≡ n
unfolding nested
nesting-nested D zero = refl
nesting-nested D (suc n) = omega (arith, nesting-nested D n)

module _ {D : Type 0} where
  pop_all-push_all :
      (registry : RegistryMap D) (n : ℕ) (s : ContextStore D)
      → pop_all (push_all registry n s).1 (push_all registry n s).0 ≡ (run registry (nested n) s).0
  unfolding push_all pop_all nested run
  pop_all-push_all registry zero s = refl
  pop_all-push_all registry (suc n) s =
      let (t, depth) = push_scope registry none s in
      let (u, panicked) = run registry (nested n) t in
      let v = (pop_scope depth u).0 in
      pop_all-append (push_all registry n t).1 (depth ∷ []) (push_all registry n t).0
      ∙ ap (λ x. (pop_scope depth x).0) (pop_all-push_all registry n t)
      ∙ if_either {A = ContextStore D × Bool} panicked (v, true) (v, false) (λ r. v ≡ r.0) refl refl

  -- From a well-formed store within the depth limit, where the counter does not overflow: any number
  -- of pushes, and the pops in reverse, lead back to the store.
  pub pop_all-restores :
      (registry : RegistryMap D) (n : ℕ) (s : ContextStore D)
      → IsWellFormed s
      → s.depth ≤ max_scope_depth
      → s.depth + n < usize_max
      → pop_all (push_all registry n s).1 (push_all registry n s).0 ≡ s
  unfolding push_all pop_all nested run
  pop_all-restores registry zero s w h b = refl
  pop_all-restores registry (suc n) s w h b =
      let p = (run registry (nested n) (push_scope registry none s).0).1 in
      pop_all-push_all registry (suc n) s
      ∙ ap {A = ContextStore D × Bool} {B = ContextStore D} (λ r. r.0)
          (run-scoped registry none (nested n) done s w h (omega (arith, b, nesting-nested D n)))
      ∙ if_either {A = ContextStore D × Bool} p (s, true) (s, false) (λ r. r.0 ≡ s) refl refl

  pub depth-push_all :
      (registry : RegistryMap D) (n : ℕ) (s : ContextStore D)
      → s.depth + n < usize_max
      → (push_all registry n s).0.depth ≡ s.depth + n
  unfolding push_all
  depth-push_all registry zero s b = omega arith
  depth-push_all registry (suc n) s b =
      let pushed = depth-push_scope registry none s (omega (arith, b)) in
      omega (
        arith,
        pushed,
        depth-push_all registry n (push_scope registry none s).0 (omega (arith, b, pushed)),
      )

  -- The test passes, for any number of scopes.
  full_roundtrip_lem :
      (registry : RegistryMap D) (total : ℕ)
      → total + 1 < usize_max
      → full_roundtrip registry total ≡ true
  unfolding full_roundtrip
  full_roundtrip_lem registry total b =
      let popped =
        pop_all-restores registry total new_store new_store-IsWellFormed (omega arith)
          (omega (arith, b)) in
      let pushed : (push_all registry total new_store).0.depth ≡ total + 1 =
        omega (arith, depth-push_all registry total new_store (omega (arith, b))) in
      ap
        (λ d.
          nat_eqb d (total + 1)
          && (nat_eqb
                (pop_all (push_all registry total new_store).1
                  (push_all registry total new_store).0).depth
                1
              && is_empty
                  (pop_all (push_all registry total new_store).1
                    (push_all registry total new_store).0).scope_chain))
        pushed
      ∙ ap (λ s. nat_eqb (total + 1) (total + 1) && (nat_eqb s.depth 1 && is_empty s.scope_chain))
          popped
      ∙ ap (λ b. b && true) ((nat_eqb_iff (total + 1) (total + 1)).1 refl)
