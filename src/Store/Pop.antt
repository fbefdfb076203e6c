-- ===== src/Store/Pop.antt =====
-- dcontext/src/store.rs: `pop_scope`.
use dcontext.Base.{
  ℕ, zero, suc, ◌+◌, Bool, true, false, ◌&&◌, ◌||◌, Option, none, some, List, [], ◌∷◌,
  if◌then◌else◌, ltb, leb, string_eq,
}
use dcontext.Base.HashMap.{extend}
use dcontext.Scope.{ScopeNode, ScopeGarbage, Values}
use dcontext.Store.{ContextStore, max_scope_depth}

abbrev pub is_dead : ℕ → Bool
is_dead depth = ltb (max_scope_depth + 1) depth

module _ {D : Type 0} where
  -- What both arms of `Arc::try_unwrap` write: the node's fields, moved out or cloned. The chain
  -- and the depth are variables of the loop.
  abbrev pub restore : ScopeNode D → ContextStore D → ContextStore D
  restore n s = record s {
    current_name = n.name;
    current_values = n.values;
    remote_chain = n.remote_chain;
    remote_chain_base_depth = n.remote_chain_base_depth;
    scope_barrier = n.saved_scope_barrier;
  }

  -- `all_old`, with the values of one more popped scope.
  unfoldable pub gather : Option (Values D) → Values D → Option (Values D)
  gather none old = some old
  gather (some existing) old = some (extend existing old)

  abbrev pub finish :
      List (ScopeNode D)
      → ℕ
      → ContextStore D
      → Option (Values D)
      → ContextStore D × Option (Values D)
  finish chain depth s all_old = (record s { scope_chain = chain; depth = depth }, all_old)

  -- The `while` loop, over `scope_chain`, `depth`, the other fields and `all_old`. A dead scope
  -- lowers the depth, and a real one shortens the chain.
  unfoldable pub pop_loop :
      ℕ
      → List (ScopeNode D)
      → ℕ
      → ContextStore D
      → Option (Values D)
      → ContextStore D × Option (Values D)
  unfolding gather
  pop_loop expected [] zero s all_old = finish [] 0 s all_old
  pop_loop expected [] (suc d) s all_old = elim (leb expected (suc d) && ltb 1 (suc d)) [
    | false ↦ finish [] (suc d) s all_old
    | true ↦ elim (is_dead (suc d)) [
      | true ↦ pop_loop expected [] d s all_old
      | false ↦ finish [] (suc d) s all_old
    ]
  ]
  pop_loop expected (n ∷ parent) zero s all_old = finish (n ∷ parent) 0 s all_old
  pop_loop expected (n ∷ parent) (suc d) s all_old = elim (leb expected (suc d) && ltb 1 (suc d)) [
    | false ↦ finish (n ∷ parent) (suc d) s all_old
    | true ↦ elim (is_dead (suc d)) [
      | true ↦ pop_loop expected (n ∷ parent) d s all_old
      | false ↦ pop_loop expected parent n.depth (restore n s) (gather all_old s.current_values)
    ]
  ]

  unfoldable pub garbage_of :
      ContextStore D × Option (Values D) → ContextStore D × Option (ScopeGarbage D)
  garbage_of (s, none) = (s, none)
  garbage_of (s, some old) = (s, some (record { old_values = old }))

  unfoldable pub pop_scope : ℕ → ContextStore D → ContextStore D × Option (ScopeGarbage D)
  unfolding pop_loop garbage_of
  pop_scope expected s =
      if ltb s.depth expected || leb expected 1
      then (s, none)
      else garbage_of (pop_loop expected s.scope_chain s.depth s none)
