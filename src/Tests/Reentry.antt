-- ===== src/Tests/Reentry.antt =====
-- Values whose `Clone` and `Drop` call the library again.
use dcontext.Base.{ℕ, ◌+◌, ◌≡◌, refl, none, some, String, and_then, string_eq, add_usize, []}
use dcontext.Base.HashMap.{get, insert, extend}
use dcontext.Registry.Reads.{cached_keys}
use dcontext.Registry.Register.{do_register_with, check_options, make_registration}
use dcontext.Value.{TypeId, downcast_ref}
use dcontext.Store.{ContextStore, new_store}
use dcontext.Store.Lookup.{get_value, set_value}
use dcontext.Store.Push.{push_scope, push_real}
use dcontext.Context
use dcontext.Context.{Cell, attach_store, drop_attach_guard}
use dcontext.Context.Typed
use dcontext.Context.Reentry
use dcontext.Context.Reentry.{returned, panicked}
use dcontext.Context.Reentry.Scripts.{
  Script, done, panics, gets, sets, run, answer, Dropped, a_value, a_map, a_store, Drops,
}
use dcontext.Context.Reentry.Busy.{UserCode, nested, EndsWithin, nested-Agrees}
use dcontext.Base.{Bool, true, false, not, nat_eqb}
use dcontext.Context.Reentry.Panics.{get-panics}
use dcontext.Future.{WithContext, with_store, scope}
use dcontext.Future.Unwinding.{Pollable, poll, poll-leaks}
use dcontext.Tests.Fixtures.{
  u64, u32, env, in_api, request_store, request_store-IsWellFormed, request_store-open,
}

-- A drop that reads the context, and writes a variable if what is dropped has another type than that.
abbrev probe : Bool → Script ℕ (Unit {0})
probe true = gets u64 "secret" (λ found. sets u32 "dropped" 0 (done tt))
probe false = done tt

abbrev probing : UserCode ℕ
probing = record {
  clone = λ d. gets u64 "secret" (λ found. sets u32 "cloned" 0 (done d));
  drop_value = λ v. probe (not (nat_eqb v.type_id u32));
  drop_values = λ m. probe true;
  drop_store = λ s. probe true;
  drop_garbage = λ g. probe true;
}

probe-EndsWithin :
    (b : Bool) → (answer (probe b) ≡ returned tt) × Drops (EndsWithin probing 1) (probe b)
unfolding answer Drops EndsWithin
probe-EndsWithin true = (refl, ((refl, tt), tt))
probe-EndsWithin false = (refl, tt)

probing-EndsWithin : (x : Dropped ℕ) → EndsWithin probing 2 x
unfolding EndsWithin
probing-EndsWithin (a_value v) = probe-EndsWithin (not (nat_eqb v.type_id u32))
probing-EndsWithin (a_map m) = probe-EndsWithin true
probing-EndsWithin (a_store s) = probe-EndsWithin true

probing_calm : (d : ℕ) → Drops (EndsWithin probing 1) (probing.clone d)
unfolding answer Drops EndsWithin
probing_calm d = ((refl, tt), tt)

probing_clones : (d : ℕ) → answer (probing.clone d) ≡ returned d
unfolding answer
probing_clones d = refl

nested-Agrees_example :
    (Reentry.get_context_variable (nested env probing 2) u64 "secret" (some request_store) ≡ (
      returned (Typed.get_context_variable u64 "secret" (some request_store)),
      some request_store,
    ))
    × (Reentry.set_context_variable (nested env probing 2) u64 "secret" 5 (some request_store)
        ≡ (returned tt, Typed.set_context_variable u64 "secret" 5 (some request_store)))
    × (Reentry.update_context_variable
          (nested env probing 2)
          u64
          5
          "secret"
          (λ old. Reentry.pure (old + 1))
          (some request_store)
        ≡ (
          returned tt,
          Typed.update_context_variable u64 5 "secret" (λ old. old + 1) (some request_store),
        ))
    × (Reentry.merge_with (nested env probing 2) in_api (some request_store)
        ≡ (nested env probing 2).drop_store in_api (Context.merge_with in_api (some request_store)))
    × (Reentry.clear (nested env probing 2) (some request_store)
        ≡ (returned tt, Context.clear (some request_store)))
    × ((script : Script ℕ (Unit {0}))
        → run env (nested env probing 2) script none ≡ (answer script, none))
nested-Agrees_example =
    nested-Agrees env probing 1 u64 "secret" 5 (λ old. old + 1) in_api (some request_store)
      probing-EndsWithin probing_calm probing_clones

-- A clone that unwraps what it reads.
abbrev unwrapping : UserCode ℕ
unwrapping = record probing {
  clone = λ d. gets u64 "secret" (λ found. elim found [ none ↦ panics | some s ↦ done d ]);
}

unwrapping-probe :
    (b : Bool) → (answer (probe b) ≡ returned tt) × Drops (EndsWithin unwrapping 1) (probe b)
unfolding answer Drops EndsWithin
unwrapping-probe true = (refl, ((refl, tt), tt))
unwrapping-probe false = (refl, tt)

unwrapping-EndsWithin : (x : Dropped ℕ) → EndsWithin unwrapping 2 x
unfolding EndsWithin
unwrapping-EndsWithin (a_value v) = unwrapping-probe (not (nat_eqb v.type_id u32))
unwrapping-EndsWithin (a_map m) = unwrapping-probe true
unwrapping-EndsWithin (a_store s) = unwrapping-probe true

secret-found : and_then (get_value request_store "secret") (downcast_ref u64) ≡ some 9
unfolding get_value get insert extend set_value downcast_ref push_scope push_real add_usize
    cached_keys do_register_with check_options make_registration
secret-found = refl

unwrapping_calm : Drops (EndsWithin unwrapping 1) (unwrapping.clone 9)
unfolding Drops
unwrapping_calm = tt

unwrapping_panics : answer (unwrapping.clone 9) ≡ panicked
unfolding answer
unwrapping_panics = refl

get-panics_example :
    (Reentry.get_context_variable (nested env unwrapping 2) u64 "secret" (some request_store)
      ≡ (panicked, none))
    × ((script : Script ℕ (Unit {0}))
        → run env (nested env unwrapping 2) script none ≡ (answer script, none))
    × ((other : ContextStore ℕ)
        → drop_attach_guard (attach_store other none).1 (attach_store other none).0 ≡ none)
get-panics_example =
    get-panics env unwrapping 1 u64 "secret" 9 request_store unwrapping-EndsWithin unwrapping_calm
      secret-found unwrapping_panics

abbrev a_task : WithContext ℕ ℕ
a_task = with_store request_store 0

-- A task that panics at its first poll, with its store in the cell.
abbrev failing : Pollable ℕ ℕ ℕ
failing n cell = (panicked, cell)

panics_at_once : failing a_task.inner a_task.store ≡ (panicked, some request_store)
unfolding with_store
panics_at_once = refl

no_parent : request_store.frozen_parent ≡ []
unfolding set_value push_scope push_real add_usize
no_parent = refl

poll-leaks_example :
    (poll failing a_task (some new_store) ≡ (panicked, some request_store))
    × ((t : TypeId) (k : String)
        → Typed.get_context_variable t k (poll failing a_task (some new_store)).1
          ≡ and_then (get_value request_store k) (downcast_ref t))
    × ((name : String) (next : ℕ)
        → (s : ContextStore ℕ) × (scope env name (poll failing a_task (some new_store)).1 next
            ≡ with_store s next)
          × ((k : String) → get_value s k ≡ get_value request_store k))
poll-leaks_example =
    poll-leaks failing env a_task (some new_store) request_store request_store-IsWellFormed
      request_store-open no_parent panics_at_once
