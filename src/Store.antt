-- ===== src/Store.antt =====
-- dcontext/src/store.rs: `ContextStore`. The operations stand in `Push`, `Pop`, `Lookup` and
-- `Chain`, and their proofs in the other children.
pub mod Lookup
pub mod Push
pub mod Pop
pub mod Chain
pub mod Shape
pub mod Rewind
pub mod Keeps
pub mod Scoped
pub mod DepthLimit
pub mod DeadScopes
pub mod Order
pub mod Barrier
pub mod Visible
pub mod Names
pub mod Snapshots
pub mod Spec
pub mod Refines
pub mod Rounds
use dcontext.Base.{ℕ, String, Option, none, some, List, [], ◌∷◌}
use dcontext.Scope.{ScopeNode, Values}

abbrev pub max_scope_depth : ℕ
max_scope_depth = 1024

-- The linked lists of frozen scopes are lists, nearest scope first, and empty for `None`.
pub record ContextStore (D : Type 0) : Type 0 where
  pub scope_chain : List (ScopeNode D)
  pub current_values : Values D
  pub current_name : Option String
  pub depth : ℕ
  pub remote_chain : List String
  pub remote_chain_base_depth : ℕ
  pub frozen_parent : List (ScopeNode D)
  pub scope_barrier : Option ℕ

module _ {D : Type 0} where
  abbrev pub new_store : ContextStore D
  new_store = record {
    scope_chain = [];
    current_values = [];
    current_name = none;
    depth = 1;
    remote_chain = [];
    remote_chain_base_depth = 0;
    frozen_parent = [];
    scope_barrier = none;
  }

  abbrev pub from_values_with_chain : Values D → List String → ContextStore D
  from_values_with_chain values remote_chain = record {
    scope_chain = [];
    current_values = values;
    current_name = none;
    depth = 1;
    remote_chain = remote_chain;
    remote_chain_base_depth = 1;
    frozen_parent = [];
    scope_barrier = none;
  }

  -- The active scope as a frozen node, at the depth that the caller gives.
  abbrev pub freeze : ContextStore D → ℕ → ScopeNode D
  freeze s depth = record {
    name = s.current_name;
    values = s.current_values;
    depth = depth;
    remote_chain = s.remote_chain;
    remote_chain_base_depth = s.remote_chain_base_depth;
    saved_scope_barrier = s.scope_barrier;
  }

  abbrev pub fork_child : ContextStore D → ContextStore D
  fork_child s = record {
    scope_chain = [];
    current_values = [];
    current_name = none;
    depth = 1;
    remote_chain = s.remote_chain;
    remote_chain_base_depth = s.remote_chain_base_depth;
    frozen_parent = freeze s s.depth ∷ s.scope_chain;
    scope_barrier = none;
  }
