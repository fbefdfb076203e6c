-- ===== src/Store/Refines.antt =====
-- The store of dcontext/src/store.rs implements the stack of `Spec`: `abs` is what a store shows
-- in the active scope and in each scope that it can go back to.
use dcontext.Base.{
  ℕ, suc, ◌+◌, ◌-◌, ◌≤◌, ◌<◌, ◌≡◌, refl, ap, fun_ext, ◌∙◌, sym, String, Option, List, [], ◌∷◌,
  arith, length, usize_max, string_eq, inl, inr,
}
use native.Mathlib.Decide.{dec_lt}
use dcontext.Value.{Value}
use dcontext.Scope.{ScopeNode}
use dcontext.Registry.{RegistryMap}
use dcontext.Store.{ContextStore, max_scope_depth}
use dcontext.Store.Shape.{IsLinked, IsWellFormed}
use dcontext.Store.Lookup.{set_value, get_value}
use dcontext.Store.Push.{push_scope}
use dcontext.Store.Pop.{pop_scope}
use dcontext.Store.Chain.{full_chain}
use dcontext.Store.Rewind.{
  rewind, rewind_here, rewind_further, unwind_outside, unwind_dead, unwind_real, pop_scope-unwind,
}
use dcontext.Store.Keeps.{
  real_child, push_scope-real, push_scope-dead, set_value-IsWellFormed, push_scope-IsWellFormed,
  pop_scope-IsWellFormed, depth-pop_scope_bounded,
}
use dcontext.Store.Scoped.{depth-push_scope}
use dcontext.Store.Visible.{get_value-set_value, get_value-real_child, get_value-depth}
use dcontext.Store.Names.{full_chain-real_child, full_chain-depth}
use dcontext.Store.Spec.{
  open_level_real, open_level_dead, cut_here, cut_further, close_level_outside, close_level_dead,
  close_level_real, Level, Stack, Op, push, write, pop, height, open_level, write_top, cut,
  close_level, perform, performs,
}

module _ {D : Type 0} where
  abbrev level_of : ContextStore D → Level D
  level_of s = record { path = full_chain s; value_at = λ k. get_value s k }

  -- What the scope of a frozen node shows once the scopes inside it are left.
  abbrev frozen_level : List (ScopeNode D) → ScopeNode D → List (ScopeNode D) → Level D
  frozen_level frozen n parent = level_of (record {
    scope_chain = parent;
    current_values = n.values;
    current_name = n.name;
    depth = n.depth;
    remote_chain = n.remote_chain;
    remote_chain_base_depth = n.remote_chain_base_depth;
    frozen_parent = frozen;
    scope_barrier = n.saved_scope_barrier;
  })

  abbrev frozen_levels : List (ScopeNode D) → List (ScopeNode D) → List (Level D)
  frozen_levels frozen [] = []
  frozen_levels frozen (n ∷ parent) = frozen_level frozen n parent ∷ frozen_levels frozen parent

  abbrev pub abs : ContextStore D → Stack D
  abs s = record {
    top = level_of s;
    outer = frozen_levels s.frozen_parent s.scope_chain;
    dead = s.depth - (length s.scope_chain + 1);
  }

  pub call : RegistryMap D → Op D → ContextStore D → ContextStore D
  call registry (push name) s = (push_scope registry name s).0
  call registry (write key value) s = (set_value key value s).0
  call registry (pop expected) s = (pop_scope expected s).0

  pub calls : RegistryMap D → List (Op D) → ContextStore D → ContextStore D
  calls registry [] s = s
  calls registry (op ∷ ops) s = calls registry ops (call registry op s)

  length-frozen_levels :
      (frozen chain : List (ScopeNode D)) → length (frozen_levels frozen chain) ≡ length chain
  length-frozen_levels frozen [] = refl
  length-frozen_levels frozen (n ∷ p) = ap suc (length-frozen_levels frozen p)

  height-abs : (s : ContextStore D) → IsWellFormed s → height (abs s) ≡ s.depth
  height-abs s w =
      omega (arith, length-frozen_levels s.frozen_parent s.scope_chain, w.levels, w.positive)

  same_level :
      {path path' : List String} {at at' : String → Option (Value D)}
      → path ≡ path'
      → ((k : String) → at k ≡ at' k)
      → ◌≡◌ {A = Level D}
          (record { path = path; value_at = at })
          (record { path = path'; value_at = at' })
  same_level {path' = path'} {at = at} p q =
      ap {B = Level D} (λ x. record { path = x; value_at = at }) p
      ∙ ap {B = Level D} (λ f. record { path = path'; value_at = f }) (fun_ext q)

  same_stack :
      {top top' : Level D} {outer outer' : List (Level D)} {dead dead' : ℕ}
      → top ≡ top'
      → outer ≡ outer'
      → dead ≡ dead'
      → ◌≡◌ {A = Stack D}
          (record { top = top; outer = outer; dead = dead })
          (record { top = top'; outer = outer'; dead = dead' })
  same_stack p q r = rw p (rw q (rw r refl))

  pub abs-set_value :
      (k : String) (v : Value D) (s : ContextStore D)
      → abs (set_value k v s).0 ≡ write_top k v (abs s)
  unfolding set_value full_chain
  abs-set_value k v s = same_stack (same_level refl (λ j. get_value-set_value k j v s)) refl refl

  level_of-depth :
      (d : ℕ) (s : ContextStore D)
      → IsWellFormed s
      → 1 < d
      → 1 < s.depth
      → level_of (record s { depth = d }) ≡ level_of s
  level_of-depth d s w h h' =
      same_level (full_chain-depth d s (omega (arith, w.based)) (omega (arith, w.based)))
        (get_value-depth d s)

  pub abs-push_scope :
      (registry : RegistryMap D) (name : Option String) (s : ContextStore D)
      → IsWellFormed s
      → abs (push_scope registry name s).0 ≡ open_level name (abs s)
  unfolding real_child
  abs-push_scope registry name s w = elim (dec_lt max_scope_depth s.depth) [
    | no real ↦
        ap {B = Stack D} (λ r. abs r.0) (push_scope-real registry name s (omega arith))
        ∙ same_stack
            (same_level (full_chain-real_child registry name s w)
              (λ k. get_value-real_child registry name s k w))
            refl (omega (arith, w.positive))
        ∙ sym (open_level_real name (abs s) (omega (arith, height-abs s w)))
    | yes dead ↦
        ap {B = Stack D} (λ r. abs r.0) (push_scope-dead registry name s dead w.bounded)
        ∙ same_stack (level_of-depth (s.depth + 1) s w (omega arith) (omega arith)) refl
            (omega (arith, w.levels))
        ∙ sym (open_level_dead name (abs s) (omega (arith, height-abs s w)))
  ]

  abs-rewind :
      (t : ℕ) (chain : List (ScopeNode D)) (s : ContextStore D)
      → IsLinked chain
      → 0 < t
      → t ≤ length chain
      → abs (rewind t chain s) ≡ cut t (frozen_levels s.frozen_parent chain) (abs s)
  abs-rewind t [] s l lo h = absurd (omega arith)
  abs-rewind t (n ∷ p) s l lo h =
      let levels = frozen_levels s.frozen_parent p in
      let same = length-frozen_levels s.frozen_parent p in
      elim (dec_lt t n.depth) [
        | yes below ↦
            ap {A = ContextStore D} {B = Stack D} abs (rewind_further t n p s below)
            ∙ abs-rewind t p s l.3 lo (omega (arith, l.0))
            ∙ sym (
                cut_further t (frozen_level s.frozen_parent n p) levels (abs s)
                  (omega (arith, l.0)))
        | no here ↦
            ap {A = ContextStore D} {B = Stack D} abs (rewind_here t n p s (omega (arith, l.0)))
            ∙ ap {B = Stack D}
                (λ d. record { top = frozen_level s.frozen_parent n p; outer = levels; dead = d })
                (let q : n.depth - (length p + 1) ≡ 0 = omega (arith, l.0) in q)
            ∙ sym
                (cut_here t (frozen_level s.frozen_parent n p) levels (abs s) (omega (arith, l.0)))
      ]

  pub abs-pop_scope :
      (e : ℕ) (s : ContextStore D) → IsWellFormed s → abs (pop_scope e s).0 ≡ close_level e (abs s)
  abs-pop_scope e s w =
      let same = length-frozen_levels s.frozen_parent s.scope_chain in
      let high = height-abs s w in
      ap {A = ContextStore D} {B = Stack D} abs (pop_scope-unwind e s w) ∙ elim (dec_lt 1 e) [
        | no small ↦
            ap {A = ContextStore D} {B = Stack D} abs (unwind_outside e s (inl (omega arith)))
            ∙ sym (close_level_outside e (abs s) (inl (omega arith)))
        | yes lo ↦ elim (dec_lt s.depth e) [
          | yes above ↦
              ap {A = ContextStore D} {B = Stack D} abs (unwind_outside e s (inr above))
              ∙ sym (close_level_outside e (abs s) (inr (omega arith)))
          | no h ↦ elim (dec_lt (max_scope_depth + 1) e) [
            | yes dead ↦
                ap {A = ContextStore D} {B = Stack D} abs (unwind_dead e s lo (omega arith) dead)
                ∙ same_stack (level_of-depth (e - 1) s w (omega arith) (omega arith)) refl
                    (omega arith)
                ∙ sym (close_level_dead e (abs s) lo (omega arith) (omega (arith, w.levels)))
            | no real ↦
                ap {A = ContextStore D} {B = Stack D} abs
                  (unwind_real e s lo (omega arith) (omega arith))
                ∙ abs-rewind (e - 1) s.scope_chain s w.linked (omega arith)
                    (omega (arith, w.levels))
                ∙ sym (close_level_real e (abs s) lo (omega (arith, w.levels)))
          ]
        ]
      ]

  call-IsWellFormed :
      (registry : RegistryMap D) (op : Op D) (s : ContextStore D)
      → IsWellFormed s
      → s.depth + 1 < usize_max
      → IsWellFormed (call registry op s) × ((call registry op s).depth ≤ s.depth + 1)
  unfolding call set_value
  call-IsWellFormed registry (push name) s w h = (
    push_scope-IsWellFormed registry name s w h,
    omega (arith, (depth-push_scope registry name s w.bounded).1),
  )
  call-IsWellFormed registry (write key value) s w h =
      (set_value-IsWellFormed key value s w, omega arith)
  call-IsWellFormed registry (pop expected) s w h =
      (pop_scope-IsWellFormed expected s w, omega (arith, depth-pop_scope_bounded expected s w))

  abs-call :
      (registry : RegistryMap D) (op : Op D) (s : ContextStore D)
      → IsWellFormed s
      → abs (call registry op s) ≡ perform op (abs s)
  unfolding call perform
  abs-call registry (push name) s w = abs-push_scope registry name s w
  abs-call registry (write key value) s w = abs-set_value key value s
  abs-call registry (pop expected) s w = abs-pop_scope expected s w

  -- After any calls on a well-formed store, where the depth stays below the largest `usize` even
  -- if all of them push: the store shows, in the active scope and in each scope that it can go
  -- back to, what the stack of scopes shows after the same calls.
  pub abs-calls :
      (registry : RegistryMap D) (ops : List (Op D)) (s : ContextStore D)
      → IsWellFormed s
      → s.depth + length ops < usize_max
      → abs (calls registry ops s) ≡ performs ops (abs s)
  unfolding calls performs
  abs-calls registry [] s w h = refl
  abs-calls registry (op ∷ ops) s w h =
      let next = call-IsWellFormed registry op s w (omega arith) in
      abs-calls registry ops (call registry op s) next.0 (omega arith)
      ∙ ap {A = Stack D} {B = Stack D} (performs ops) (abs-call registry op s w)
