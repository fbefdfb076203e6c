-- ===== src/Store/Push.antt =====
-- dcontext/src/store.rs: `push_scope`.
use dcontext.Base.{
  ℕ, ◌+◌, String, Option, none, some, List, [], ◌∷◌, if◌then◌else◌, ltb, add_usize, sub_usize,
  string_eq,
}
use dcontext.Base.HashMap.{extend}
use dcontext.Scope.{Values}
use dcontext.Registry.{RegistryMap}
use dcontext.Registry.Reads.{cached_keys}
use dcontext.Store.{ContextStore, max_scope_depth, freeze}
use dcontext.Store.Lookup.{get_value}

module _ {D : Type 0} where
  -- The effective values of the given keys, for those that have one.
  unfoldable pub effective_values : ContextStore D → List String → Values D
  effective_values s [] = []
  effective_values s (k ∷ keys) =
      let rest = effective_values s keys in
      elim (get_value s k) [ none ↦ rest | some v ↦ (k, v) ∷ rest ]

  -- Within the limit: freeze the active scope and start one that holds the cached values.
  unfoldable pub push_real : RegistryMap D → Option String → ContextStore D → ContextStore D
  unfolding effective_values
  push_real registry name s = record s {
    scope_chain = freeze s (sub_usize s.depth 1) ∷ s.scope_chain;
    current_name = name;
    current_values = extend [] (effective_values s (cached_keys registry));
  }

  -- Returns the new depth. Beyond the limit only the counter changes: a dead scope.
  unfoldable pub push_scope : RegistryMap D → Option String → ContextStore D → ContextStore D × ℕ
  unfolding push_real
  push_scope registry name s =
      let depth = add_usize s.depth 1 in
      let s' = record s { depth = depth } in
      if ltb (max_scope_depth + 1) depth then (s', depth) else (push_real registry name s', depth)
