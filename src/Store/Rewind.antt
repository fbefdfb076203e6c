-- ===== src/Store/Rewind.antt =====
-- The loop of `pop_scope` against a direct description: the store jumps to the frozen scope that
-- stands at the wanted depth.
use dcontext.Base.{
  ℕ, zero, suc, ◌+◌, ◌-◌, ◌≤◌, ◌<◌, ◌≡◌, refl, ap, ◌∙◌, sym, ◌||◌, Option, none, some, List, [],
  ◌∷◌, arith, length, if◌then◌else◌, nat_eqb, ltb, leb, inl, inr, ◌⊎◌,
}
use native.Mathlib.Decide.{dec_lt}
use dcontext.Scope.{ScopeNode, Values}
use dcontext.Store.{ContextStore, max_scope_depth}
use dcontext.Store.Shape.{IsLinked, IsWellFormed}
use dcontext.Store.Pop.{restore, gather, finish, is_dead, pop_loop, garbage_of, pop_scope}

module _ {D : Type 0} where
  -- The store as it was in the frozen scope at depth `t`.
  unfoldable pub rewind : ℕ → List (ScopeNode D) → ContextStore D → ContextStore D
  rewind t [] s = s
  rewind t (n ∷ parent) s =
      let further = rewind t parent s in
      if nat_eqb n.depth t
      then record (restore n s) { scope_chain = parent; depth = t }
      else further

  -- The store after the scopes from `expected` on are left. Dead scopes have no node.
  unfoldable pub unwind : ℕ → ContextStore D → ContextStore D
  unfolding rewind
  unwind expected s =
      if leb expected 1 || ltb s.depth expected
      then s
      else if is_dead expected
      then record s { depth = expected - 1 }
      else rewind (expected - 1) s.scope_chain s

  pub unwind_outside : (e : ℕ) (s : ContextStore D) → (e ≤ 1) ⊎ (s.depth < e) → unwind e s ≡ s
  unfolding unwind
  unwind_outside e s h = ground arith

  pub unwind_dead :
      (e : ℕ) (s : ContextStore D)
      → 1 < e
      → e ≤ s.depth
      → max_scope_depth + 1 < e
      → unwind e s ≡ record s { depth = e - 1 }
  unfolding unwind
  unwind_dead e s lo h dead = ground arith

  pub unwind_real :
      (e : ℕ) (s : ContextStore D)
      → 1 < e
      → e ≤ s.depth
      → e ≤ max_scope_depth + 1
      → unwind e s ≡ rewind (e - 1) s.scope_chain s
  unfolding unwind
  unwind_real e s lo h real = ground arith

  pub pop_loop_stop :
      (e : ℕ) (chain : List (ScopeNode D)) (d : ℕ) (s : ContextStore D) (g : Option (Values D))
      → d < e
      → pop_loop e chain d s g ≡ finish chain d s g
  unfolding pop_loop
  pop_loop_stop e [] zero s g h = refl
  pop_loop_stop e [] (suc d) s g h = ground arith
  pop_loop_stop e (n ∷ p) zero s g h = refl
  pop_loop_stop e (n ∷ p) (suc d) s g h = ground arith

  pub pop_loop_dead :
      (e : ℕ) (chain : List (ScopeNode D)) (d : ℕ) (s : ContextStore D) (g : Option (Values D))
      → 1 < e
      → e ≤ suc d
      → max_scope_depth + 1 < suc d
      → pop_loop e chain (suc d) s g ≡ pop_loop e chain d s g
  unfolding pop_loop
  pop_loop_dead e [] d s g lo h dead = ground arith
  pop_loop_dead e (n ∷ p) d s g lo h dead = ground arith

  pub pop_loop_real :
      (e : ℕ) (n : ScopeNode D) (p : List (ScopeNode D)) (d : ℕ) (s : ContextStore D)
      (g : Option (Values D))
      → 1 < e
      → e ≤ suc d
      → suc d ≤ max_scope_depth + 1
      → pop_loop e (n ∷ p) (suc d) s g
        ≡ pop_loop e p n.depth (restore n s) (gather g s.current_values)
  unfolding pop_loop
  pop_loop_real e n p d s g lo h real = ground arith

  -- Above the limit the loop counts down, to `expected` or to the limit.
  pop_loop_skip :
      (e : ℕ) (chain : List (ScopeNode D)) (k base : ℕ) (s : ContextStore D) (g : Option (Values D))
      → 1 < e
      → e ≤ suc base
      → max_scope_depth + 1 ≤ base
      → pop_loop e chain (k + base) s g ≡ pop_loop e chain base s g
  pop_loop_skip e chain zero base s g lo h dead = ap (λ d. pop_loop e chain d s g) (omega arith)
  pop_loop_skip e chain (suc k) base s g lo h dead =
      ap (λ d. pop_loop e chain d s g) (omega arith)
      ∙ pop_loop_dead e chain (k + base) s g lo (omega arith) (omega arith)
      ∙ pop_loop_skip e chain k base s g lo h dead

  -- Where the depth is found, only the frozen parent of the start is kept.
  pub rewind_base :
      (t : ℕ) (chain : List (ScopeNode D)) (s s' : ContextStore D)
      → IsLinked chain
      → 0 < t
      → t ≤ length chain
      → s.frozen_parent ≡ s'.frozen_parent
      → rewind t chain s ≡ rewind t chain s'
  unfolding rewind
  rewind_base t [] s s' l lo h same = absurd (omega arith)
  rewind_base t (n ∷ p) s s' l lo h same = ground (arith, rewind_base t p s s' l.3 lo)

  pub rewind_here :
      (t : ℕ) (n : ScopeNode D) (p : List (ScopeNode D)) (s : ContextStore D)
      → n.depth ≡ t
      → rewind t (n ∷ p) s ≡ record (restore n s) { scope_chain = p; depth = n.depth }
  unfolding rewind
  rewind_here t n p s h = ground arith

  pub rewind_further :
      (t : ℕ) (n : ScopeNode D) (p : List (ScopeNode D)) (s : ContextStore D)
      → t < n.depth
      → rewind t (n ∷ p) s ≡ rewind t p s
  unfolding rewind
  rewind_further t n p s h = ground arith

  pop_loop-rewind :
      (t : ℕ) (chain : List (ScopeNode D)) (s : ContextStore D) (g : Option (Values D))
      → IsLinked chain
      → 0 < t
      → t ≤ length chain
      → length chain ≤ max_scope_depth
      → (pop_loop (suc t) chain (suc (length chain)) s g).0 ≡ rewind t chain s
  pop_loop-rewind t [] s g l lo h real = absurd (omega arith)
  pop_loop-rewind t (n ∷ p) s g l lo h real =
      let e : n.depth ≡ suc (length p) = omega arith in
      let g' = gather g s.current_values in
      ap (λ r. r.0)
        (pop_loop_real (suc t) n p (suc (length p)) s g (omega arith) (omega arith) (omega arith))
      ∙ elim (dec_lt t n.depth) [
        | yes below ↦
            ap (λ d. (pop_loop (suc t) p d (restore n s) g').0) e
            ∙ pop_loop-rewind t p (restore n s) g' l.3 lo (omega arith) (omega arith)
            ∙ rewind_base t p (restore n s) s l.3 lo (omega arith) refl
            ∙ sym (rewind_further t n p s below)
        | no not_below ↦
            ap (λ r. r.0) (pop_loop_stop (suc t) p n.depth (restore n s) g' (omega arith))
            ∙ sym (rewind_here t n p s (omega arith))
      ]

  garbage_of-first : (r : ContextStore D × Option (Values D)) → (garbage_of r).0 ≡ r.0
  unfolding garbage_of
  garbage_of-first (s, none) = refl
  garbage_of-first (s, some old) = refl

  -- The loop, started on a well-formed store whose depth is at least `e`.
  pop_loop-unwind :
      (e : ℕ) (s : ContextStore D)
      → IsWellFormed s
      → 1 < e
      → e ≤ s.depth
      → (pop_loop e s.scope_chain s.depth s none).0 ≡ unwind e s
  unfolding unwind
  pop_loop-unwind e s w lo h = elim (dec_lt (max_scope_depth + 1) e) [
    | yes dead ↦
        ap (λ d. (pop_loop e s.scope_chain d s none).0)
          (let q : s.depth ≡ (s.depth - (e - 1)) + (e - 1) = omega arith in q)
        ∙ ap (λ r. r.0)
            (pop_loop_skip e s.scope_chain (s.depth - (e - 1)) (e - 1) s none lo (omega arith)
                (omega arith)
              ∙ pop_loop_stop e s.scope_chain (e - 1) s none (omega arith))
        ∙ ground arith
    | no real ↦
        let chain = s.scope_chain in
        let t = e - 1 in
        ap (λ d. (pop_loop e chain d s none).0)
          (let q : s.depth ≡ (s.depth - suc (length chain)) + suc (length chain) = omega arith in q)
        ∙ ap (λ r. r.0) (skip_real chain (s.depth - suc (length chain)) (omega arith))
        ∙ ap (λ x. (pop_loop x chain (suc (length chain)) s none).0)
            (let q : e ≡ suc t = omega arith in q)
        ∙ pop_loop-rewind t chain s none w.linked (omega arith) (omega arith) (omega arith)
        ∙ ground arith
  ]
    where
      skip_real :
          (chain : List (ScopeNode D)) (k : ℕ)
          → (k ≡ 0) ⊎ ((e ≤ suc (suc (length chain))) × (max_scope_depth + 1 ≤ suc (length chain)))
          → pop_loop e chain (k + suc (length chain)) s none
            ≡ pop_loop e chain (suc (length chain)) s none
      skip_real chain k (inl z) = ap (λ d. pop_loop e chain d s none) (omega arith)
      skip_real chain k (inr c) = pop_loop_skip e chain k (suc (length chain)) s none lo c.0 c.1

  pub pop_scope-loop :
      (e : ℕ) (s : ContextStore D)
      → 1 < e
      → e ≤ s.depth
      → pop_scope e s ≡ garbage_of (pop_loop e s.scope_chain s.depth s none)
  unfolding pop_scope
  pop_scope-loop e s lo h = ground arith

  -- On every well-formed store and for every expected depth, `pop_scope` ends in the store that
  -- the description without a loop gives: the frozen scope at the depth below, or for a dead
  -- scope the same store at that depth, and the store itself if the scope is not open.
  pub pop_scope-unwind :
      (e : ℕ) (s : ContextStore D) → IsWellFormed s → (pop_scope e s).0 ≡ unwind e s
  unfolding pop_scope unwind
  pop_scope-unwind e s w = elim (dec_lt 1 e) [
    | no small ↦ ground arith
    | yes lo ↦ elim (dec_lt s.depth e) [
      | yes above ↦ ground arith
      | no h ↦
          ap (λ r. r.0) (pop_scope-loop e s lo (omega arith))
          ∙ garbage_of-first (pop_loop e s.scope_chain s.depth s none)
          ∙ pop_loop-unwind e s w lo (omega arith)
    ]
  ]
