-- ===== src/Store/Keeps.antt =====
-- Every operation of the store keeps its shape.
use dcontext.Base.{
  ℕ, ◌+◌, ◌-◌, ◌≤◌, ◌<◌, ◌≡◌, refl, ap, ◌∙◌, String, Option, List, [], ◌∷◌, arith, length,
  usize_max, string_eq, sub_usize, add_usize-eq, sub_usize-eq, ltb_of_le, lt→ltb, inl, inr,
}
use native.Mathlib.Decide.{dec_lt}
use dcontext.Base.HashMap.{Distinct, extend, insert-Distinct, extend-Distinct}
use dcontext.Value.{Value}
use dcontext.Scope.{ScopeNode, Values}
use dcontext.Registry.{RegistryMap}
use dcontext.Registry.Reads.{cached_keys}
use dcontext.Store.{
  ContextStore, max_scope_depth, new_store, from_values_with_chain, freeze, fork_child,
}
use dcontext.Store.Shape.{IsLinked, AllDistinct, IsWellFormed}
use dcontext.Store.Lookup.{set_value}
use dcontext.Store.Push.{effective_values, push_real, push_scope}
use dcontext.Store.Pop.{pop_scope}
use dcontext.Store.Rewind.{
  rewind, unwind, rewind_here, rewind_further, unwind_dead, unwind_real, unwind_outside,
  pop_scope-unwind,
}

module _ {D : Type 0} where
  pub new_store-IsWellFormed : IsWellFormed (new_store {D = D})
  new_store-IsWellFormed = omega arith

  pub from_values_with_chain-IsWellFormed :
      (values : Values D) (chain : List String)
      → Distinct values
      → IsWellFormed (from_values_with_chain values chain)
  from_values_with_chain-IsWellFormed values chain d = record {
    positive = omega arith;
    bounded = omega arith;
    levels = refl;
    below = omega arith;
    linked = tt;
    distinct = d;
    based = omega arith;
    frozen_distinct = tt;
  }

  IsLinked-AllDistinct : (chain : List (ScopeNode D)) → IsLinked chain → AllDistinct chain
  IsLinked-AllDistinct [] l = tt
  IsLinked-AllDistinct (n ∷ p) l = (l.2, IsLinked-AllDistinct p l.3)

  pub fork_child-IsWellFormed : (s : ContextStore D) → IsWellFormed s → IsWellFormed (fork_child s)
  fork_child-IsWellFormed s w = record {
    positive = omega arith;
    bounded = omega arith;
    levels = refl;
    below = omega arith;
    linked = tt;
    distinct = tt;
    based = w.based;
    frozen_distinct = (w.distinct, IsLinked-AllDistinct s.scope_chain w.linked);
  }

  pub set_value-IsWellFormed :
      (k : String) (v : Value D) (s : ContextStore D)
      → IsWellFormed s
      → IsWellFormed (set_value k v s).0
  unfolding set_value
  set_value-IsWellFormed k v s w = record {
    positive = w.positive;
    bounded = w.bounded;
    levels = w.levels;
    below = w.below;
    linked = w.linked;
    distinct = insert-Distinct k v s.current_values w.distinct;
    based = w.based;
    frozen_distinct = w.frozen_distinct;
  }

  -- The two branches of a push, with the machine arithmetic resolved.
  unfoldable pub real_child : RegistryMap D → Option String → ContextStore D → ContextStore D
  real_child registry name s = record s {
    scope_chain = freeze s s.depth ∷ s.scope_chain;
    current_name = name;
    current_values =
        extend [] (effective_values (record s { depth = s.depth + 1 }) (cached_keys registry));
    depth = s.depth + 1;
  }

  pub push_scope-real :
      (registry : RegistryMap D) (name : Option String) (s : ContextStore D)
      → s.depth ≤ max_scope_depth
      → push_scope registry name s ≡ (real_child registry name s, s.depth + 1)
  unfolding push_scope push_real real_child
  push_scope-real registry name s h = rw (add_usize-eq s.depth 1 (omega arith)) (
      rw (ltb_of_le (max_scope_depth + 1) (s.depth + 1) (omega arith)) (
        rw (
          let q : sub_usize (s.depth + 1) 1 ≡ s.depth =
            sub_usize-eq (s.depth + 1) 1 (omega arith) (omega arith) ∙ omega arith in
          q)))

  pub push_scope-dead :
      (registry : RegistryMap D) (name : Option String) (s : ContextStore D)
      → max_scope_depth < s.depth
      → s.depth < usize_max
      → push_scope registry name s ≡ (record s { depth = s.depth + 1 }, s.depth + 1)
  unfolding push_scope
  push_scope-dead registry name s h b =
      rw (add_usize-eq s.depth 1 (omega arith))
        (rw (lt→ltb (max_scope_depth + 1) (s.depth + 1) (omega arith)))

  -- A push on a well-formed store, at a depth whose successor is below the largest `usize`, gives
  -- a well-formed store.
  pub push_scope-IsWellFormed :
      (registry : RegistryMap D) (name : Option String) (s : ContextStore D)
      → IsWellFormed s
      → s.depth + 1 < usize_max
      → IsWellFormed (push_scope registry name s).0
  unfolding real_child
  push_scope-IsWellFormed registry name s w b = elim (dec_lt max_scope_depth s.depth) [
    | no real ↦ rw (push_scope-real registry name s (omega arith)) (record {
      positive = omega arith;
      bounded = omega arith;
      levels = omega (arith, w.levels);
      below = omega (arith, w.below);
      linked = (omega (arith, w.levels), w.below, w.distinct, w.linked, w.based);
      distinct = extend-Distinct [] _ tt;
      based = w.based;
      frozen_distinct = w.frozen_distinct;
    })
    | yes dead ↦ rw (push_scope-dead registry name s dead w.bounded) (record {
      positive = omega arith;
      bounded = omega arith;
      levels = omega (arith, w.levels);
      below = w.below;
      linked = w.linked;
      distinct = w.distinct;
      based = w.based;
      frozen_distinct = w.frozen_distinct;
    })
  ]

  rewind-IsWellFormed :
      (t : ℕ) (chain : List (ScopeNode D)) (s : ContextStore D)
      → IsLinked chain
      → AllDistinct s.frozen_parent
      → 0 < t
      → t ≤ length chain
      → length chain ≤ max_scope_depth
      → IsWellFormed (rewind t chain s) × ((rewind t chain s).depth ≡ t)
  rewind-IsWellFormed t [] s l f lo h real = absurd (omega arith)
  rewind-IsWellFormed t (n ∷ p) s l f lo h real = elim (dec_lt t n.depth) [
    | yes below ↦
        rw (rewind_further t n p s below)
          (rewind-IsWellFormed t p s l.3 f lo (omega (arith, l.0)) (omega arith))
    | no here ↦
        let e : n.depth ≡ t = omega (arith, l.0) in
        rw (rewind_here t n p s e) (
          record {
            positive = omega arith;
            bounded = omega arith;
            levels = omega (arith, l.0);
            below = l.1;
            linked = l.3;
            distinct = l.2;
            based = l.4;
            frozen_distinct = f;
          },
          e,
        )
  ]

  pub unwind-IsWellFormed :
      (e : ℕ) (s : ContextStore D)
      → IsWellFormed s
      → 1 < e
      → e ≤ s.depth
      → IsWellFormed (unwind e s) × ((unwind e s).depth ≡ e - 1)
  unwind-IsWellFormed e s w lo h = elim (dec_lt (max_scope_depth + 1) e) [
    | yes dead ↦ rw (unwind_dead e s lo h dead) (
      record {
        positive = omega arith;
        bounded = omega (arith, w.bounded);
        levels = omega (arith, w.levels);
        below = w.below;
        linked = w.linked;
        distinct = w.distinct;
        based = w.based;
        frozen_distinct = w.frozen_distinct;
      },
      refl,
    )
    | no real ↦ rw (unwind_real e s lo h (omega arith)) (
        rewind-IsWellFormed (e - 1) s.scope_chain s w.linked w.frozen_distinct (omega arith)
          (omega (arith, w.levels)) (omega (arith, w.levels)))
  ]

  unwind-kept :
      (e : ℕ) (s : ContextStore D)
      → IsWellFormed s
      → IsWellFormed (unwind e s) × ((unwind e s).depth ≤ s.depth)
  unwind-kept e s w = elim (dec_lt 1 e) [
    | no small ↦ rw (unwind_outside e s (inl (omega arith))) (w, omega arith)
    | yes lo ↦ elim (dec_lt s.depth e) [
      | yes above ↦ rw (unwind_outside e s (inr above)) (w, omega arith)
      | no h ↦
          let inside = unwind-IsWellFormed e s w lo (omega arith) in
          (inside.0, omega (arith, inside.1))
    ]
  ]

  -- A pop of a well-formed store, to any expected depth, gives a well-formed store.
  pub pop_scope-IsWellFormed :
      (e : ℕ) (s : ContextStore D) → IsWellFormed s → IsWellFormed (pop_scope e s).0
  pop_scope-IsWellFormed e s w = rw (pop_scope-unwind e s w) (unwind-kept e s w).0

  pub depth-pop_scope_bounded :
      (e : ℕ) (s : ContextStore D) → IsWellFormed s → (pop_scope e s).0.depth ≤ s.depth
  depth-pop_scope_bounded e s w = rw (pop_scope-unwind e s w) (unwind-kept e s w).1

  -- On a well-formed store, leaving an open scope that is not the root ends one level below it.
  pub depth-pop_scope :
      (e : ℕ) (s : ContextStore D)
      → IsWellFormed s
      → 1 < e
      → e ≤ s.depth
      → (pop_scope e s).0.depth ≡ e - 1
  depth-pop_scope e s w lo h =
      ap (λ t. t.depth) (pop_scope-unwind e s w) ∙ (unwind-IsWellFormed e s w lo h).1
