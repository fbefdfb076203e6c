-- ===== src/Tests/Typing.antt =====
-- A client that writes at the type of the key, inside a scope.
use dcontext.Base.{ℕ, ◌≡◌, refl, none, some, arith, map_or, sym, string_eq}
use dcontext.Base.HashMap.{get, insert}
use dcontext.Registry.{Registration}
use dcontext.Registry.Options
use dcontext.Registry.Options.{default_options}
use dcontext.Registry.Register.{check_options, do_register_with, make_registration}
use dcontext.Registry.Globals.{global_registry}
use dcontext.Store.Lookup.{get_value}
use dcontext.Context.{registry_of}
use dcontext.Context.Typed.{set_context_variable, get_context_variable}
use dcontext.Context.Reach.{Thread, start, Reach, here, next, step_push_scope, step_set}
use dcontext.Context.TypedReach.{AllFit, get_context_variable-Reach}
use dcontext.Tests.Fixtures.{byte_serde, env, registry-typed, u64}
use dcontext.Tests.Threads.{entered}

abbrev request_id : Registration ℕ
request_id = make_registration byte_serde u64 "request_id" (Options.cached default_options)

abbrev written : Thread ℕ
written = record entered { cell = set_context_variable u64 "request_id" 7 entered.cell }

written-Reach : Reach env start written
written-Reach =
    next (next here (step_push_scope start "api" (omega arith)))
      (step_set entered u64 "request_id" 7)

written-AllFit : AllFit env written-Reach
unfolding written-Reach global_registry
written-AllFit = ((tt, tt), λ r reg. sym (registry-typed "request_id" r reg))

request_id-registered : get "request_id" (registry_of env) ≡ some request_id
unfolding global_registry make_registration get do_register_with check_options insert
request_id-registered = refl

get_context_variable-Reach_example :
    get_context_variable request_id.type_id "request_id" written.cell
    ≡ map_or none (λ s. map_or none (λ v. some v.data_of) (get_value s "request_id")) written.cell
get_context_variable-Reach_example =
    get_context_variable-Reach env written-Reach "request_id" request_id written-AllFit
      request_id-registered
