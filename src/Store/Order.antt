-- ===== src/Store/Order.antt =====
-- Guards that are dropped out of order.
use dcontext.Base.{
  ℕ, ◌+◌, ◌-◌, ◌≤◌, ◌<◌, ◌≡◌, refl, ap, ◌∙◌, sym, List, [], ◌∷◌, arith, length, usize_max, inr, min,
}
use native.Mathlib.Decide.{dec_lt}
use dcontext.Scope.{ScopeNode}
use dcontext.Store.{ContextStore, max_scope_depth}
use dcontext.Store.Shape.{IsLinked, IsWellFormed}
use dcontext.Store.Pop.{pop_scope}
use dcontext.Store.Rewind.{
  rewind, unwind, rewind_base, rewind_here, rewind_further, unwind_dead, unwind_real,
  unwind_outside, pop_scope-unwind,
}
use dcontext.Store.Keeps.{unwind-IsWellFormed, pop_scope-IsWellFormed, depth-pop_scope}

-- The outermost guard; an empty list counts as the guard that does nothing.
abbrev pub outermost : List ℕ → ℕ
outermost [] = usize_max
outermost (e ∷ es) = min e (outermost es)

abbrev pub AreOpen : List ℕ → Type 0
AreOpen [] = Unit
AreOpen (e ∷ es) = (1 < e) × AreOpen es

outermost-open : (es : List ℕ) → AreOpen es → 1 < outermost es
outermost-open [] o = omega arith
outermost-open (e ∷ es) o = omega (arith, o.0, outermost-open es o.1)

module _ {D : Type 0} where
  -- Going back to `t` by way of a later depth `u`.
  rewind-rewind :
      (t u : ℕ) (chain : List (ScopeNode D)) (s : ContextStore D)
      → IsLinked chain
      → 0 < t
      → t < u
      → u ≤ length chain
      → rewind t (rewind u chain s).scope_chain (rewind u chain s) ≡ rewind t chain s
  rewind-rewind t u [] s l lo lt h = absurd (omega arith)
  rewind-rewind t u (n ∷ p) s l lo lt h = elim (dec_lt u n.depth) [
    | yes below ↦
        ap {A = ContextStore D} {B = ContextStore D} (λ x. rewind t x.scope_chain x)
          (rewind_further u n p s below)
        ∙ rewind-rewind t u p s l.3 lo lt (omega (arith, l.0))
        ∙ sym (rewind_further t n p s (omega arith))
    | no here ↦
        ap {A = ContextStore D} {B = ContextStore D} (λ x. rewind t x.scope_chain x)
          (rewind_here u n p s (omega (arith, l.0)))
        ∙ rewind_base t p _ s l.3 lo (omega (arith, l.0)) refl
        ∙ sym (rewind_further t n p s (omega (arith, l.0)))
  ]

  unwind-unwind :
      (e f : ℕ) (s : ContextStore D)
      → IsWellFormed s
      → 1 < e
      → e < f
      → f ≤ s.depth
      → unwind e (unwind f s) ≡ unwind e s
  unwind-unwind e f s w lo lt h = elim (dec_lt (max_scope_depth + 1) f) [
    | yes dead ↦
        ap (unwind e) (unwind_dead f s (omega arith) h dead)
        ∙ elim (dec_lt (max_scope_depth + 1) e) [
          | yes also ↦
              unwind_dead e (record s { depth = f - 1 }) lo (omega arith) also
              ∙ sym (unwind_dead e s lo (omega arith) also)
          | no real ↦
              unwind_real e (record s { depth = f - 1 }) lo (omega arith) (omega arith)
              ∙ rewind_base (e - 1) s.scope_chain (record s { depth = f - 1 }) s w.linked
                  (omega arith) (omega (arith, w.levels)) refl
              ∙ sym (unwind_real e s lo (omega arith) (omega arith))
        ]
    | no real ↦
        let went : unwind f s ≡ rewind (f - 1) s.scope_chain s =
          unwind_real f s (omega arith) h (omega arith) in
        let deep = (unwind-IsWellFormed f s w (omega arith) h).1 in
        unwind_real e (unwind f s) lo (omega (arith, deep)) (omega arith)
        ∙ ap {A = ContextStore D} {B = ContextStore D} (λ x. rewind (e - 1) x.scope_chain x) went
        ∙ rewind-rewind (e - 1) (f - 1) s.scope_chain s w.linked (omega arith) (omega arith)
            (omega (arith, w.levels))
        ∙ sym (unwind_real e s lo (omega arith) (omega arith))
  ]

  pop_scope-outside :
      (e : ℕ) (s : ContextStore D) → IsWellFormed s → s.depth < e → (pop_scope e s).0 ≡ s
  pop_scope-outside e s w h = pop_scope-unwind e s w ∙ unwind_outside e s (inr h)

  pop_scope-pop_scope :
      (e f : ℕ) (s : ContextStore D)
      → IsWellFormed s
      → 1 < e
      → 1 < f
      → (pop_scope e (pop_scope f s).0).0 ≡ (pop_scope (min e f) s).0
  pop_scope-pop_scope e f s w le lf = elim (dec_lt s.depth f) [
    | yes above ↦ elim (dec_lt f e) [
      | yes f_first ↦
          ap (λ x. (pop_scope e x).0) (pop_scope-outside f s w above)
          ∙ pop_scope-outside e s w (omega arith)
          ∙ sym (pop_scope-outside (min e f) s w (omega arith))
      | no e_first ↦
          ap (λ x. (pop_scope e x).0) (pop_scope-outside f s w above)
          ∙ ap (λ d. (pop_scope d s).0) (let q : e ≡ min e f = omega arith in q)
    ]
    | no inside ↦
        let w' = pop_scope-IsWellFormed f s w in
        let depth = depth-pop_scope f s w lf (omega arith) in
        elim (dec_lt e f) [
          | yes e_first ↦
              pop_scope-unwind e (pop_scope f s).0 w'
              ∙ ap (unwind e) (pop_scope-unwind f s w)
              ∙ unwind-unwind e f s w le e_first (omega arith)
              ∙ sym (pop_scope-unwind e s w)
              ∙ ap (λ d. (pop_scope d s).0) (let q : e ≡ min e f = omega arith in q)
          | no f_first ↦
              pop_scope-outside e (pop_scope f s).0 w' (omega (arith, depth))
              ∙ ap (λ d. (pop_scope d s).0) (let q : f ≡ min e f = omega arith in q)
        ]
  ]

  -- Guards by their expected depths, dropped in the order of the list.
  pub drop_all : List ℕ → ContextStore D → ContextStore D
  drop_all [] s = s
  drop_all (e ∷ es) s = drop_all es (pop_scope e s).0

  -- On a well-formed store, dropping guards of pushed scopes, in any order and with repetitions,
  -- ends in the store that dropping the outermost of them alone gives.
  pub drop_all-outermost :
      (es : List ℕ) (s : ContextStore D)
      → IsWellFormed s
      → AreOpen es
      → drop_all es s ≡ (pop_scope (outermost es) s).0
  unfolding drop_all
  drop_all-outermost [] s w o = sym (pop_scope-outside usize_max s w w.bounded)
  drop_all-outermost (e ∷ es) s w o =
      drop_all-outermost es (pop_scope e s).0 (pop_scope-IsWellFormed e s w) o.1
      ∙ pop_scope-pop_scope (outermost es) e s w (outermost-open es o.1) o.0
      ∙ ap (λ d. (pop_scope d s).0)
          (let q : min (outermost es) e ≡ min e (outermost es) = omega arith in q)
