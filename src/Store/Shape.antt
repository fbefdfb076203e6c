-- ===== src/Store/Shape.antt =====
-- The shape of a store that the operations keep: the levels of the local chain, and tables with
-- distinct keys.
use dcontext.Base.{
  ℕ, ◌+◌, ◌≤◌, ◌<◌, ◌≡◌, List, [], ◌∷◌, min, length, unwrap_or, usize_max, string_eq,
}
use dcontext.Base.HashMap.{Distinct}
use dcontext.Scope.{ScopeNode}
use dcontext.Store.{ContextStore, max_scope_depth}

-- The number of real scopes at a depth.
abbrev pub level : ℕ → ℕ
level depth = min depth (max_scope_depth + 1)

module _ {D : Type 0} where
  -- Nodes are numbered from the root, which has depth 1.
  abbrev pub IsLinked : List (ScopeNode D) → Type 0
  IsLinked [] = Unit
  IsLinked (n ∷ parent) =
      (n.depth ≡ length parent + 1)
      × (unwrap_or 0 n.saved_scope_barrier ≤ length parent)
      × Distinct n.values
      × IsLinked parent
      × (n.remote_chain_base_depth ≤ 1)

  abbrev pub AllDistinct : List (ScopeNode D) → Type 0
  AllDistinct [] = Unit
  AllDistinct (n ∷ parent) = Distinct n.values × AllDistinct parent

  -- A barrier hides scopes, and never the active one.
  pub record IsWellFormed (s : ContextStore D) : Type 0 where
    pub positive : 0 < s.depth
    pub bounded : s.depth < usize_max
    pub levels : level s.depth ≡ length s.scope_chain + 1
    pub below : unwrap_or 0 s.scope_barrier ≤ length s.scope_chain
    pub linked : IsLinked s.scope_chain
    pub distinct : Distinct s.current_values
    pub based : s.remote_chain_base_depth ≤ 1
    pub frozen_distinct : AllDistinct s.frozen_parent
