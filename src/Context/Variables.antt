-- ===== src/Context/Variables.antt =====
-- Typed reads and writes, and merging.
use dcontext.Base.{
  Option, sym, ==-refl, nat_eq, ◌≡◌, refl, ap, ◌∙◌, String, none, some, [], ◌∷◌, arith, unwrap_or,
  or_else, if◌then◌else◌, nat_eqb, ◌==◌, string_eq,
}
use dcontext.Base.HashMap.{get, Distinct}
use dcontext.Value.{TypeId, downcast_ref}
use dcontext.Scope.{Values}
use dcontext.Store.{ContextStore}
use dcontext.Store.Shape.{IsWellFormed}
use dcontext.Store.Lookup.{set_value, get_value, collect_values}
use dcontext.Store.Snapshots.{get-collect_values, collect_values-Distinct}
use dcontext.Store.Visible.{get_value-set_value}
use dcontext.Context.{try_read, set_all, merge_with}
use dcontext.Context.Typed.{set_context_variable, get_context_variable, update_context_variable}

module _ {D : Type 0} where
  -- A typed read after a typed write. At the same key it gives the value if the types agree and
  -- nothing otherwise, whatever outer scopes hold; at another key it gives what it gave before.
  get_context_variable-set :
      (t u : TypeId) (j k : String) (v : D) (s : ContextStore D)
      → get_context_variable t k (set_context_variable u j v (some s)) ≡ (
          if j == k
          then (if nat_eqb u t then some v else none)
          else get_context_variable t k (some s))
  unfolding get_context_variable set_context_variable try_read downcast_ref
  get_context_variable-set t u j k v s =
      ground (arith, get_value-set_value j k (record { type_id = u; data_of = v }) s)

  -- An update is read back as the function of what was there, or of the default.
  get_context_variable-update :
      (t : TypeId) (d : D) (k : String) (f : D → D) (s : ContextStore D)
      → get_context_variable t k (update_context_variable t d k f (some s))
        ≡ some (f (unwrap_or d (get_context_variable t k (some s))))
  unfolding update_context_variable
  get_context_variable-update t d k f s =
      get_context_variable-set t t k k (f (unwrap_or d (get_context_variable t k (some s)))) s
      ∙ rw (==-refl k) (rw (==-refl t))

  get_value-set_all :
      (k : String) (values : Values D) (s : ContextStore D)
      → Distinct values
      → get_value (set_all values s) k ≡ or_else (get k values) (get_value s k)
  unfolding set_all get
  get_value-set_all k [] s d = refl
  get_value-set_all k ((j, v) ∷ values) s d = ground (
    arith,
    get_value-set_all k values (set_value j v s).0,
    get_value-set_value j k v s,
    string_eq.same_iff j k,
  )

  pub get_value-merged :
      (source s : ContextStore D) (k : String)
      → IsWellFormed source
      → get_value (set_all (collect_values source) s) k
        ≡ or_else (get_value source k) (get_value s k)
  get_value-merged source s k w =
      get_value-set_all k (collect_values source) s (collect_values-Distinct source)
      ∙ ap (λ o. or_else o (get_value s k)) (get-collect_values source k w.distinct)

  set_all-scopes :
      (values : Values D) (s : ContextStore D)
      → record s { current_values = (set_all values s).current_values } ≡ set_all values s
  unfolding set_all set_value
  set_all-scopes [] s = refl
  set_all-scopes ((k, v) ∷ values) s = set_all-scopes values (set_value k v s).0

  -- A merge from a well-formed store changes the values of the active scope and nothing else, no
  -- scope and no name. Each key then shows what the source showed, from any of its scopes, and what
  -- the target showed where the source had nothing.
  pub get_value-merge_with :
      (source s : ContextStore D)
      → IsWellFormed source
      → (values : Values D) × (merge_with source (some s)
          ≡ some (record s { current_values = values }))
        × ((k : String)
            → get_value (record s { current_values = values }) k
              ≡ or_else (get_value source k) (get_value s k))
  unfolding merge_with
  get_value-merge_with source s w =
      let scopes = set_all-scopes (collect_values source) s in
      (
        (set_all (collect_values source) s).current_values,
        ap {B = Option (ContextStore D)} (λ t. some t) (sym scopes),
        λ k. ap (λ t. get_value t k) scopes ∙ get_value-merged source s k w,
      )
