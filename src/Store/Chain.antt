-- ===== src/Store/Chain.antt =====
-- dcontext/src/store.rs: `scope_chain`.
use dcontext.Base.{
  ℕ, ◌-◌, String, ◌&&◌, Option, none, some, List, [], ◌∷◌, ◌++◌, reverse, if◌then◌else◌, ltb, leb,
  length, drop, unwrap_or,
}
use dcontext.Config.{Config}
use dcontext.Scope.{ScopeNode}
use dcontext.Store.{ContextStore}

-- The name of a scope, if it stands above the depth at which the remote chain was installed.
abbrev pub name_above : ℕ → ℕ → Option String → List String
name_above base depth none = []
name_above base depth (some name) = if ltb base depth then name ∷ [] else []

-- `if max_len > 0 && chain.len() > max_len { chain.drain(..chain.len() - max_len) }`.
unfoldable pub limit_chain : ℕ → List String → List String
limit_chain max_len chain =
    if ltb 0 max_len && ltb max_len (length chain)
    then drop (length chain - max_len) chain
    else chain

module _ {D : Type 0} where
  -- The loop's pushes onto `local_names`, nearest scope first.
  unfoldable pub local_names : ℕ → ℕ → List (ScopeNode D) → List String
  local_names base barrier [] = []
  local_names base barrier (n ∷ parent) =
      let further = local_names base barrier parent in
      if leb n.depth barrier then [] else name_above base n.depth n.name ++ further

  unfoldable pub frozen_names : List (ScopeNode D) → List String
  frozen_names [] = []
  frozen_names (n ∷ parent) =
      let further = frozen_names parent in
      elim n.name [ none ↦ further | some name ↦ name ∷ further ]

  unfoldable pub parent_names : ContextStore D → List String
  unfolding frozen_names
  parent_names s = elim s.scope_barrier [
    | some b ↦ []
    | none ↦ reverse (frozen_names s.frozen_parent)
  ]

  -- The chain before the limit is applied.
  unfoldable pub full_chain : ContextStore D → List String
  unfolding local_names parent_names
  full_chain s =
      s.remote_chain
      ++ (parent_names s
          ++ reverse (
              name_above s.remote_chain_base_depth s.depth s.current_name
              ++ local_names s.remote_chain_base_depth (unwrap_or 0 s.scope_barrier) s.scope_chain))

  unfoldable pub scope_chain : Config → ContextStore D → List String
  scope_chain config s = limit_chain config.max_scope_chain_len (full_chain s)
