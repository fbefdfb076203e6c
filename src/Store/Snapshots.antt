-- ===== src/Store/Snapshots.antt =====
-- What `collect_values` gathers is what `get_value` sees.
use dcontext.Base.{ℕ, ◌≡◌, String, List, [], ◌∷◌, arith, or_else, unwrap_or, string_eq}
use dcontext.Base.HashMap.{
  Distinct, get, extend, extend_missing, get-extend_nil, get-extend_missing, extend-Distinct,
  extend_missing-Distinct,
}
use dcontext.Scope.{ScopeNode, Values}
use dcontext.Store.{ContextStore}
use dcontext.Store.Lookup.{
  find_local, find_frozen, get_value, collect_local, collect_frozen, collect_values,
}

module _ {D : Type 0} where
  get-collect_local :
      (b : ℕ) (k : String) (result : Values D) (chain : List (ScopeNode D))
      → get k (collect_local b result chain) ≡ or_else (get k result) (find_local b k chain)
  unfolding collect_local find_local
  get-collect_local b k result [] = ground arith
  get-collect_local b k result (n ∷ parent) = ground (
    arith,
    get-collect_local b k (extend_missing result n.values) parent,
    get-extend_missing k result n.values,
  )

  get-collect_frozen :
      (k : String) (result : Values D) (chain : List (ScopeNode D))
      → get k (collect_frozen result chain) ≡ or_else (get k result) (find_frozen k chain)
  unfolding collect_frozen find_frozen
  get-collect_frozen k result [] = ground arith
  get-collect_frozen k result (n ∷ parent) = ground (
    arith,
    get-collect_frozen k (extend_missing result n.values) parent,
    get-extend_missing k result n.values,
  )

  -- In every store whose active scope has distinct keys, looking a key up in the collected values
  -- gives what `get_value` gives.
  pub get-collect_values :
      (s : ContextStore D) (k : String)
      → Distinct s.current_values
      → get k (collect_values s) ≡ get_value s k
  unfolding collect_values get_value
  get-collect_values s k d =
      let b = unwrap_or 0 s.scope_barrier in
      let start = extend [] s.current_values in
      ground (
        arith,
        get-extend_nil k s.current_values d,
        get-collect_local b k start s.scope_chain,
        get-collect_frozen k (collect_local b start s.scope_chain) s.frozen_parent,
      )

  collect_local-Distinct :
      (b : ℕ) (result : Values D) (chain : List (ScopeNode D))
      → Distinct result
      → Distinct (collect_local b result chain)
  unfolding collect_local
  collect_local-Distinct b result [] d = d
  collect_local-Distinct b result (n ∷ parent) d = ground (
    arith,
    collect_local-Distinct b (extend_missing result n.values) parent,
    extend_missing-Distinct result n.values,
  )

  collect_frozen-Distinct :
      (result : Values D) (chain : List (ScopeNode D))
      → Distinct result
      → Distinct (collect_frozen result chain)
  unfolding collect_frozen
  collect_frozen-Distinct result [] d = d
  collect_frozen-Distinct result (n ∷ parent) d =
      collect_frozen-Distinct (extend_missing result n.values) parent
        (extend_missing-Distinct result n.values d)

  pub collect_values-Distinct : (s : ContextStore D) → Distinct (collect_values s)
  unfolding collect_values
  collect_values-Distinct s =
      let b = unwrap_or 0 s.scope_barrier in
      let start = extend [] s.current_values in
      let local =
        collect_local-Distinct b start s.scope_chain (extend-Distinct [] s.current_values tt) in
      ground (
        arith,
        local,
        collect_frozen-Distinct (collect_local b start s.scope_chain) s.frozen_parent,
      )
