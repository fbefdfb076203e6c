-- ===== src/Scope.antt =====
-- dcontext/src/scope.rs: frozen scopes, what a pop leaves to drop, and scope guards.
use dcontext.Base.{ℕ, String, Option, List, usize_max}
use dcontext.Base.HashMap.{HashMap}
use dcontext.Value.{Value}

-- The maps of a scope: `HashMap<&'static str, Arc<dyn ContextValue>>`. A value behind an `Arc` is
-- immutable, so sharing leaves no trace.
abbrev pub Values : Type 0 → Type 0
Values D = HashMap String (Value D)

-- `parent: Option<Arc<ScopeNode>>` is the tail of the list in which a node stands.
pub record ScopeNode (D : Type 0) : Type 0 where
  pub name : Option String
  pub values : Values D
  pub depth : ℕ
  pub remote_chain : List String
  pub remote_chain_base_depth : ℕ
  pub saved_scope_barrier : Option ℕ

pub record ScopeGarbage (D : Type 0) : Type 0 where
  pub old_values : Values D

pub record ScopeGuard : Type 0 where
  pub expected_depth : ℕ

-- `ScopeGuard::noop`, whose drop does nothing.
abbrev pub noop : ScopeGuard
noop = record { expected_depth = usize_max }
