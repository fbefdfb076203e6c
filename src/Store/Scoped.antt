-- ===== src/Store/Scoped.antt =====
-- Guards: what a client that pairs each push with a pop, and one that drops guards in any order,
-- ends with.
use dcontext.Base.{
  ℕ, suc, ◌+◌, ◌-◌, ◌≤◌, ◌<◌, ◌≡◌, refl, ap, ◌∙◌, sym, String, Option, arith, usize_max, string_eq,
  max, Bool, true, false, if◌then◌else◌,
}
use native.Mathlib.Decide.{dec_lt}
use dcontext.Value.{Value}
use dcontext.Registry.{RegistryMap}
use dcontext.Store.{ContextStore, max_scope_depth, freeze}
use dcontext.Store.Shape.{IsWellFormed}
use dcontext.Store.Lookup.{set_value}
use dcontext.Store.Push.{push_scope}
use dcontext.Store.Pop.{pop_scope}
use dcontext.Store.Rewind.{rewind, rewind_here, unwind_dead, unwind_real, pop_scope-unwind}
use dcontext.Store.Keeps.{
  real_child, push_scope-real, push_scope-dead, push_scope-IsWellFormed, set_value-IsWellFormed,
  pop_scope-IsWellFormed,
}

-- A client that holds each guard for a block: writes, panics, scopes with a body, and bodies whose
-- panic it catches.
pub data Block (D : Type 0) : Type 0 where
  done : Block D
  panics : Block D
  set : String → Value D → Block D → Block D
  scoped : Option String → Block D → Block D → Block D
  catches : Block D → Block D → Block D

pub if_either :
    {A : Type 0} (b : Bool) (x y : A) (P : A → Type 0) → P x → P y → P (if b then x else y)
if_either true x y P at_x at_y = at_x
if_either false x y P at_x at_y = at_y

module _ {D : Type 0} where
  abbrev pub nesting : Block D → ℕ
  nesting done = 0
  nesting panics = 0
  nesting (set k v rest) = nesting rest
  nesting (scoped name body rest) = max (suc (nesting body)) (nesting rest)
  nesting (catches body rest) = max (nesting body) (nesting rest)

  -- The store, and whether the block panicked. A guard is dropped also while a panic unwinds.
  unfoldable pub run : RegistryMap D → Block D → ContextStore D → ContextStore D × Bool
  run registry done s = (s, false)
  run registry panics s = (s, true)
  run registry (set k v rest) s = run registry rest (set_value k v s).0
  run registry (scoped name body rest) s =
      let (t, guard) = push_scope registry name s in
      let (u, panicked) = run registry body t in
      let (v, _) = pop_scope guard u in
      let others = run registry rest v in if panicked then (v, true) else others
  run registry (catches body rest) s = run registry rest (run registry body s).0

  -- The same store but for the values of the active scope.
  abbrev SameFrame : ContextStore D → ContextStore D → Type 0
  SameFrame s t = t ≡ record s { current_values = t.current_values }

  pop-real_child :
      (registry : RegistryMap D) (name : Option String) (s t : ContextStore D)
      → IsWellFormed t
      → s.depth ≤ max_scope_depth
      → 0 < s.depth
      → SameFrame (real_child registry name s) t
      → (pop_scope (s.depth + 1) t).0 ≡ s
  unfolding real_child
  pop-real_child registry name s t w h pos same =
      pop_scope-unwind (s.depth + 1) t w
      ∙ unwind_real (s.depth + 1) t (omega arith) (omega (arith, ap (λ x. x.depth) same))
          (omega arith)
      ∙ ap (λ x. rewind (s.depth + 1 - 1) x.scope_chain x) same
      ∙ rewind_here (s.depth + 1 - 1) (freeze s s.depth) s.scope_chain
          (record (real_child registry name s) { current_values = t.current_values }) (omega arith)

  pop-dead_child :
      (s t : ContextStore D)
      → IsWellFormed t
      → max_scope_depth < s.depth
      → SameFrame (record s { depth = s.depth + 1 }) t
      → (pop_scope (s.depth + 1) t).0 ≡ record s { current_values = t.current_values }
  pop-dead_child s t w h same =
      pop_scope-unwind (s.depth + 1) t w
      ∙ unwind_dead (s.depth + 1) t (omega arith) (omega (arith, ap (λ x. x.depth) same))
          (omega arith)
      ∙ ap {A = ContextStore D} {B = ContextStore D} (λ x. record x { depth = s.depth + 1 - 1 })
          same
      ∙ ap {B = ContextStore D} (λ d. record s { current_values = t.current_values; depth = d })
          (omega arith)

  pub depth-push_scope :
      (registry : RegistryMap D) (name : Option String) (s : ContextStore D)
      → s.depth < usize_max
      → ((push_scope registry name s).1 ≡ s.depth + 1)
        × ((push_scope registry name s).0.depth ≡ s.depth + 1)
  unfolding real_child
  depth-push_scope registry name s b = elim (dec_lt max_scope_depth s.depth) [
    | no real ↦ rw (push_scope-real registry name s (omega arith)) (refl, refl)
    | yes dead ↦ rw (push_scope-dead registry name s dead b) (refl, refl)
  ]

  -- From a store with a pushed scope in which values were written, the guard leads back.
  leave_real :
      (registry : RegistryMap D) (name : Option String) (s u : ContextStore D)
      → 0 < s.depth
      → s.depth ≤ max_scope_depth
      → IsWellFormed u
      → SameFrame (push_scope registry name s).0 u
      → (pop_scope (push_scope registry name s).1 u).0 ≡ s
  leave_real registry name s u pos h wu same =
      let pushed = push_scope-real registry name s h in
      ap (λ d. (pop_scope d u).0) (ap (λ r. r.1) pushed)
      ∙ pop-real_child registry name s u wu h pos (
          same
          ∙ ap {A = ContextStore D × ℕ} {B = ContextStore D}
              (λ r. record r.0 { current_values = u.current_values }) pushed)

  leave-SameFrame :
      (registry : RegistryMap D) (name : Option String) (s u : ContextStore D)
      → IsWellFormed s
      → IsWellFormed u
      → SameFrame (push_scope registry name s).0 u
      → SameFrame s (pop_scope (push_scope registry name s).1 u).0
  leave-SameFrame registry name s u w wu same = elim (dec_lt max_scope_depth s.depth) [
    | no real ↦ rw (leave_real registry name s u w.positive (omega arith) wu same)
    | yes dead ↦
        let pushed = push_scope-dead registry name s dead w.bounded in
        let left : (pop_scope (push_scope registry name s).1 u).0
            ≡ record s { current_values = u.current_values } =
          ap (λ d. (pop_scope d u).0) (ap (λ r. r.1) pushed)
          ∙ pop-dead_child s u wu dead (
              same
              ∙ ap {A = ContextStore D × ℕ} {B = ContextStore D}
                  (λ r. record r.0 { current_values = u.current_values }) pushed) in
        left
        ∙ sym (
            ap {A = ContextStore D} {B = ContextStore D}
              (λ x. record s { current_values = x.current_values }) left)
  ]

  SameFrame-trans : (s t u : ContextStore D) → SameFrame s t → SameFrame t u → SameFrame s u
  SameFrame-trans s t u first second =
      second
      ∙ ap {A = ContextStore D} {B = ContextStore D}
          (λ x. record x { current_values = u.current_values }) first

  -- A block changes nothing but the values of the scope in which it runs.
  run-SameFrame :
      (registry : RegistryMap D) (b : Block D) (s : ContextStore D)
      → IsWellFormed s
      → s.depth + nesting b < usize_max
      → IsWellFormed (run registry b s).0 × SameFrame s (run registry b s).0
  unfolding run set_value
  run-SameFrame registry done s w h = (w, refl)
  run-SameFrame registry panics s w h = (w, refl)
  run-SameFrame registry (set k v rest) s w h =
      run-SameFrame registry rest (set_value k v s).0 (set_value-IsWellFormed k v s w) h
  run-SameFrame registry (scoped name body rest) s w h =
      let t = (push_scope registry name s).0 in
      let depths = depth-push_scope registry name s w.bounded in
      let inside =
        run-SameFrame registry body t (push_scope-IsWellFormed registry name s w (omega (arith, h)))
          (omega (arith, h, depths)) in
      let (u, panicked) = run registry body t in
      let v = (pop_scope (push_scope registry name s).1 u).0 in
      let wv = pop_scope-IsWellFormed (push_scope registry name s).1 u inside.0 in
      let back = leave-SameFrame registry name s u w inside.0 inside.1 in
      let after = run-SameFrame registry rest v wv (omega (arith, h, ap (λ x. x.depth) back)) in
      if_either panicked (v, true) (run registry rest v) (λ r. IsWellFormed r.0 × SameFrame s r.0)
        (wv, back) (after.0, SameFrame-trans s v (run registry rest v).0 back after.1)
  run-SameFrame registry (catches body rest) s w h =
      let inside = run-SameFrame registry body s w (omega (arith, h)) in
      let u = (run registry body s).0 in
      let after =
        run-SameFrame registry rest u inside.0 (omega (arith, h, ap (λ x. x.depth) inside.1)) in
      (after.0, SameFrame-trans s u (run registry rest u).0 inside.1 after.1)

  -- On a well-formed store within the depth limit, where the counter does not overflow in the
  -- nested scopes: a scope leaves no trace. Whatever a client of nested blocks does in it, after
  -- its guard is dropped the run goes on from the store of before, with its values, names, depth,
  -- remote chain and barrier; and if the client panics in it, the panic goes on with that store.
  pub run-scoped :
      (registry : RegistryMap D) (name : Option String) (body rest : Block D) (s : ContextStore D)
      → IsWellFormed s
      → s.depth ≤ max_scope_depth
      → s.depth + suc (nesting body) < usize_max
      → run registry (scoped name body rest) s ≡ (
          if (run registry body (push_scope registry name s).0).1
          then (s, true)
          else run registry rest s)
  unfolding run
  run-scoped registry name body rest s w h b =
      let t = (push_scope registry name s).0 in
      let (u, panicked) = run registry body t in
      let inside =
        run-SameFrame registry body t (push_scope-IsWellFormed registry name s w (omega (arith, b)))
          (omega (arith, b, depth-push_scope registry name s w.bounded)) in
      ap (λ v. if panicked then (v, true) else run registry rest v)
        (leave_real registry name s u w.positive h inside.0 inside.1)

  -- On a well-formed store beyond the depth limit, where the counter does not overflow: a scope
  -- in which a value is written leaves the store as the same write without the scope does.
  run-scoped_dead :
      (registry : RegistryMap D) (name : Option String) (k : String) (v : Value D)
      (s : ContextStore D)
      → IsWellFormed s
      → max_scope_depth < s.depth
      → s.depth + 1 < usize_max
      → run registry (scoped name (set k v done) done) s ≡ ((set_value k v s).0, false)
  unfolding run set_value
  run-scoped_dead registry name k v s w h b =
      let t = (push_scope registry name s).0 in
      let u = (set_value k v t).0 in
      let pushed = push_scope-dead registry name s h w.bounded in
      ap {B = ContextStore D × Bool} (λ x. (x, false))
        (ap (λ d. (pop_scope d u).0) (ap (λ r. r.1) pushed)
          ∙ pop-dead_child s u
              (set_value-IsWellFormed k v t (push_scope-IsWellFormed registry name s w b)) h
              (ap {A = ContextStore D × ℕ} {B = ContextStore D}
                (λ r. record r.0 { current_values = u.current_values }) pushed)
          ∙ ap {A = ContextStore D × ℕ} {B = ContextStore D}
              (λ r. record s { current_values = (set_value k v r.0).0.current_values }) pushed)
