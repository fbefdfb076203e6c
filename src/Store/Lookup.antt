-- ===== src/Store/Lookup.antt =====
-- dcontext/src/store.rs: `set_value`, `get_value` and `collect_values`.
use dcontext.Base.{
  ℕ, String, Option, none, some, List, [], ◌∷◌, if◌then◌else◌, leb, unwrap_or, string_eq,
}
use dcontext.Base.HashMap.{get, insert, extend, extend_missing}
use dcontext.Value.{Value}
use dcontext.Scope.{ScopeNode, Values}
use dcontext.Store.{ContextStore}

module _ {D : Type 0} where
  -- Returns the value that the key had in the active scope.
  unfoldable pub set_value : String → Value D → ContextStore D → ContextStore D × Option (Value D)
  set_value key value s =
      (record s { current_values = insert key value s.current_values }, get key s.current_values)

  -- The walk up the local chain, which stops at the barrier.
  unfoldable pub find_local : ℕ → String → List (ScopeNode D) → Option (Value D)
  find_local barrier key [] = none
  find_local barrier key (n ∷ parent) =
      let further = find_local barrier key parent in
      if leb n.depth barrier
      then none
      else elim (get key n.values) [ some v ↦ some v | none ↦ further ]

  -- The walk up the frozen parent of a fork.
  unfoldable pub find_frozen : String → List (ScopeNode D) → Option (Value D)
  find_frozen key [] = none
  find_frozen key (n ∷ parent) =
      let further = find_frozen key parent in
      elim (get key n.values) [ some v ↦ some v | none ↦ further ]

  -- The frozen parent is read only while no barrier is active.
  unfoldable pub find_fallback : ContextStore D → String → Option (Value D)
  unfolding find_frozen
  find_fallback s key = elim s.scope_barrier [
    | some b ↦ none
    | none ↦ find_frozen key s.frozen_parent
  ]

  unfoldable pub get_value : ContextStore D → String → Option (Value D)
  unfolding find_local find_fallback
  get_value s key = elim (get key s.current_values) [
    | some v ↦ some v
    | none ↦ elim (find_local (unwrap_or 0 s.scope_barrier) key s.scope_chain) [
      | some v ↦ some v
      | none ↦ find_fallback s key
    ]
  ]

  unfoldable pub collect_local : ℕ → Values D → List (ScopeNode D) → Values D
  collect_local barrier result [] = result
  collect_local barrier result (n ∷ parent) =
      let rest = collect_local barrier (extend_missing result n.values) parent in
      if leb n.depth barrier then result else rest

  unfoldable pub collect_frozen : Values D → List (ScopeNode D) → Values D
  collect_frozen result [] = result
  collect_frozen result (n ∷ parent) = collect_frozen (extend_missing result n.values) parent

  unfoldable pub collect_values : ContextStore D → Values D
  unfolding collect_local collect_frozen
  collect_values s =
      let result =
        collect_local (unwrap_or 0 s.scope_barrier) (extend [] s.current_values) s.scope_chain in
      elim s.scope_barrier [ some b ↦ result | none ↦ collect_frozen result s.frozen_parent ]
