-- ===== src/Store/Barrier.antt =====
-- The field `scope_barrier`, which no operation sets.
use dcontext.Base.{
  ℕ, ◌<◌, ◌≡◌, String, Option, none, List, [], ◌∷◌, arith, nat_eqb, leb, ltb, usize_max, string_eq,
  Bool-cases, inl, inr, ◌||◌,
}
use native.Mathlib.Decide.{dec_lt}
use dcontext.Value.{Value}
use dcontext.Scope.{ScopeNode}
use dcontext.Registry.{RegistryMap}
use dcontext.Store.{ContextStore, max_scope_depth}
use dcontext.Store.Shape.{IsWellFormed}
use dcontext.Store.Lookup.{set_value}
use dcontext.Store.Push.{push_scope}
use dcontext.Store.Pop.{pop_scope, is_dead}
use dcontext.Store.Rewind.{rewind, unwind, pop_scope-unwind}
use dcontext.Store.Keeps.{push_scope-real, push_scope-dead, real_child}

module _ {D : Type 0} where
  abbrev AllUnbarred : List (ScopeNode D) → Type 0
  AllUnbarred [] = Unit
  AllUnbarred (n ∷ parent) = (n.saved_scope_barrier ≡ none) × AllUnbarred parent

  -- No barrier is active, and none is saved.
  abbrev pub IsUnbarred : ContextStore D → Type 0
  IsUnbarred s = (s.scope_barrier ≡ none) × AllUnbarred s.scope_chain

  pub set_value-IsUnbarred :
      (k : String) (v : Value D) (s : ContextStore D)
      → IsUnbarred s
      → IsUnbarred (set_value k v s).0
  unfolding set_value
  set_value-IsUnbarred k v s u = u

  pub push_scope-IsUnbarred :
      (registry : RegistryMap D) (name : Option String) (s : ContextStore D)
      → s.depth < usize_max
      → IsUnbarred s
      → IsUnbarred (push_scope registry name s).0
  unfolding real_child
  push_scope-IsUnbarred registry name s b u = elim (dec_lt max_scope_depth s.depth) [
    | no real ↦ rw (push_scope-real registry name s (omega arith)) (u.0, u)
    | yes dead ↦ rw (push_scope-dead registry name s dead b) u
  ]

  rewind-IsUnbarred :
      (t : ℕ) (chain : List (ScopeNode D)) (s : ContextStore D)
      → AllUnbarred chain
      → IsUnbarred s
      → IsUnbarred (rewind t chain s)
  unfolding rewind
  rewind-IsUnbarred t [] s a u = u
  rewind-IsUnbarred t (n ∷ p) s a u = elim (Bool-cases (nat_eqb n.depth t)) [
    | inl here ↦ rw here (a.0, a.1)
    | inr further ↦ rw further (rewind-IsUnbarred t p s a.1 u)
  ]

  unwind-IsUnbarred : (e : ℕ) (s : ContextStore D) → IsUnbarred s → IsUnbarred (unwind e s)
  unfolding unwind
  unwind-IsUnbarred e s u = elim (Bool-cases (leb e 1 || ltb s.depth e)) [
    | inl outside ↦ rw outside u
    | inr inside ↦ elim (Bool-cases (is_dead e)) [
      | inl dead ↦ rw inside (rw dead u)
      | inr real ↦ rw inside (rw real (rewind-IsUnbarred _ s.scope_chain s u.1 u))
    ]
  ]

  pub pop_scope-IsUnbarred :
      (e : ℕ) (s : ContextStore D) → IsWellFormed s → IsUnbarred s → IsUnbarred (pop_scope e s).0
  pop_scope-IsUnbarred e s w u = rw (pop_scope-unwind e s w) (unwind-IsUnbarred e s u)
