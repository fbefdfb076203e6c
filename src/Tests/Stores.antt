-- ===== src/Tests/Stores.antt =====
-- Stores at concrete scopes and values.
use dcontext.Base.{
  ℕ, zero, suc, ◌+◌, ◌-◌, ◌<◌, ◌≡◌, refl, ap, ◌∙◌, String, none, some, List, [], ◌∷◌, ◌++◌, arith,
  usize_max, true, string_eq, nat_eq, if◌then◌else◌, or_else, ltb, length, min,
}
use dcontext.Base.HashMap.{get}
use dcontext.Config.{default_config}
use dcontext.Store.{ContextStore, new_store, fork_child}
use dcontext.Store.Shape.{IsWellFormed}
use dcontext.Store.Lookup.{get_value, collect_values, find_frozen}
use dcontext.Store.Push.{push_scope}
use dcontext.Store.Pop.{pop_scope}
use dcontext.Store.Chain.{scope_chain, full_chain}
use dcontext.Store.Rewind.{unwind, pop_scope-unwind}
use dcontext.Store.Keeps.{new_store-IsWellFormed, push_scope-IsWellFormed}
use dcontext.Store.Scoped.{done, panics, set, scoped, run, run-scoped, depth-push_scope}
use dcontext.Store.Order.{drop_all, outermost, drop_all-outermost}
use dcontext.Store.Snapshots.{get-collect_values}
use dcontext.Store.Visible.{get_value-push_scope, get_value-fork_child}
use dcontext.Store.Names.{scope_chain-suffix}
use dcontext.Store.Spec.{push, write, pop, performs}
use dcontext.Store.Refines.{abs, calls, abs-calls}
use dcontext.Store.Rounds.{pop_scope_within, pop_scope_within_lem}
use dcontext.Scope.{Values}
use dcontext.Context.{merge_with}
use dcontext.Context.Variables.{get_value-merge_with}
use dcontext.Tests.Fixtures.{
  in_api, number, registry, request_store, request_store-IsWellFormed, request_store-depth,
  request_store-open,
}

run-scoped_example :
    run registry (scoped (some "db") (set "request_id" (number 8) panics) done) request_store
    ≡ (request_store, true)
unfolding run
run-scoped_example =
    run-scoped registry (some "db") (set "request_id" (number 8) panics) done request_store
      request_store-IsWellFormed (omega (arith, request_store-depth))
      (omega (arith, request_store-depth))

pop_scope-unwind_example : (pop_scope 2 request_store).0 ≡ unwind 2 request_store
pop_scope-unwind_example = pop_scope-unwind 2 request_store request_store-IsWellFormed

pushed-IsWellFormed : IsWellFormed (push_scope registry (some "db") request_store).0
pushed-IsWellFormed =
    push_scope-IsWellFormed registry (some "db") request_store request_store-IsWellFormed
      (omega (arith, request_store-depth))

-- The guards of "db", of "api" and of "api" again.
drop_all-outermost_example :
    drop_all (3 ∷ 2 ∷ 2 ∷ []) (push_scope registry (some "db") request_store).0
    ≡ (pop_scope (outermost (3 ∷ 2 ∷ 2 ∷ [])) (push_scope registry (some "db") request_store).0).0
drop_all-outermost_example =
    drop_all-outermost (3 ∷ 2 ∷ 2 ∷ []) (push_scope registry (some "db") request_store).0
      pushed-IsWellFormed (omega arith, (omega arith, (omega arith, tt)))

get-collect_values_example :
    get "request_id" (collect_values request_store) ≡ get_value request_store "request_id"
get-collect_values_example =
    get-collect_values request_store "request_id" request_store-IsWellFormed.distinct

get_value-push_scope_example :
    get_value (push_scope registry (some "db") request_store).0 "secret"
    ≡ get_value request_store "secret"
get_value-push_scope_example =
    get_value-push_scope registry (some "db") request_store "secret" request_store-IsWellFormed

get_value-fork_child_example :
    get_value request_store "secret"
    ≡ or_else
        (get_value (fork_child request_store) "secret")
        (find_frozen "secret" request_store.frozen_parent)
get_value-fork_child_example =
    get_value-fork_child request_store "secret" request_store-IsWellFormed request_store-open

scope_chain-suffix_example :
    (dropped : List String) × (dropped ++ scope_chain default_config request_store
      ≡ full_chain request_store)
    × (length (scope_chain default_config request_store)
        ≡ min default_config.max_scope_chain_len (length (full_chain request_store)))
scope_chain-suffix_example = scope_chain-suffix default_config request_store (omega arith)

pushes : ℕ → ContextStore ℕ
pushes zero = new_store
pushes (suc n) = (push_scope registry none (pushes n)).0

pushes-IsWellFormed :
    (n : ℕ) → n + 2 < usize_max → IsWellFormed (pushes n) × ((pushes n).depth ≡ n + 1)
unfolding pushes
pushes-IsWellFormed zero h = (new_store-IsWellFormed, refl)
pushes-IsWellFormed (suc n) h =
    let before = pushes-IsWellFormed n (omega (arith, h)) in
    (
      push_scope-IsWellFormed registry none (pushes n) before.0 (omega (arith, h, before.1)),
      (depth-push_scope registry none (pushes n) (omega (arith, h, before.1))).1
          ∙ ap (λ d. d + 1) before.1
          ∙ omega arith,
    )

abs-calls_example :
    abs (
      calls registry
        (push (some "db") ∷ write "request_id" (number 8) ∷ pop 3 ∷ pop 2 ∷ [])
        request_store)
    ≡ performs
        (push (some "db") ∷ write "request_id" (number 8) ∷ pop 3 ∷ pop 2 ∷ [])
        (abs request_store)
abs-calls_example =
    abs-calls registry (push (some "db") ∷ write "request_id" (number 8) ∷ pop 3 ∷ pop 2 ∷ [])
      request_store request_store-IsWellFormed (omega (arith, request_store-depth))

-- A store with two dead scopes.
pop_scope_within_lem_example :
    pop_scope_within 4 1024 (pushes 1026)
    ≡ (if ltb 4 ((pushes 1026).depth + 1 - 1024) then none else some (pop_scope 1024 (pushes 1026)))
pop_scope_within_lem_example =
    pop_scope_within_lem 4 1024 (pushes 1026) (pushes-IsWellFormed 1026 (omega arith)).0
      (omega arith)

get_value-merge_with_example :
    (values : Values ℕ) × (merge_with request_store (some in_api)
      ≡ some (record in_api { current_values = values }))
    × ((k : String)
        → get_value (record in_api { current_values = values }) k
          ≡ or_else (get_value request_store k) (get_value in_api k))
get_value-merge_with_example = get_value-merge_with request_store in_api request_store-IsWellFormed
