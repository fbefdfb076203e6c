-- ===== src/Benches/Scopes.antt =====
-- What `in_scope` and `populate_context` of dcontext/benches/context_propagation.rs leave on the
-- thread.
use dcontext.Base.{
  ℕ, suc, ◌≡◌, refl, ap, String, none, some, List, [], ◌∷◌, false, true, add_usize, sub_usize, take,
}
use dcontext.Base.HashMap.{get, insert, extend}
use dcontext.Error.{decimal}
use dcontext.Config.{default_config}
use dcontext.Value.{Serde}
use dcontext.Registry.{RegistryMap}
use dcontext.Registry.Options.{default_options}
use dcontext.Registry.Reads
use dcontext.Registry.Register
use dcontext.Registry.Register.{
  try_register, do_register_with, check_options, register_checked, make_registration,
}
use dcontext.Registry.Globals
use dcontext.Registry.Globals.{global_registry, try_initialize}
use dcontext.Scope.{Values}
use dcontext.Store.{ContextStore, new_store, freeze}
use dcontext.Store.Lookup.{set_value}
use dcontext.Store.Push
use dcontext.Store.Push.{push_real, effective_values}
use dcontext.Store.Pop.{pop_scope, pop_loop, gather, garbage_of}
use dcontext.Snapshot.{ContextSnapshot}
use dcontext.Wire.{Bincode}
use dcontext.Context
use dcontext.Context.{try_apply, enter, drop_scope_guard}
use dcontext.Context.Typed.{set_context_variable}
use dcontext.Samples.Program.{Program, World, Line, ◌>>=◌, pure, drop_scope, started}
use Prim.Native.String.{◌++◌}
use dcontext.Benches.{
  BenchValue, bench_value, keys, register_all, ensure_registered, in_scope, populate_from,
  populate_context,
}

abbrev registrations : Serde BenchValue → List String → RegistryMap BenchValue
registrations serde [] = []
registrations serde (key ∷ rest) =
    (key, make_registration serde bench_value key default_options) ∷ registrations serde rest

-- The process after `ensure_registered`, with any store on the thread.
abbrev pub ready :
    Serde BenchValue → Bincode → List (Line BenchValue) → ContextStore BenchValue → World BenchValue
ready serde bincode output store = record {
  env = record {
    globals = record { frozen = some (registrations serde keys); build = some [] };
    config = default_config;
    serde = serde;
    bincode = bincode;
  };
  cell = some store;
  output = output;
}

pub registered :
    (serde : Serde BenchValue) (bincode : Bincode)
    → ensure_registered false (started serde bincode)
      ≡ some (true, ready serde bincode [] new_store)
unfolding ensure_registered register_all Register.register try_register do_register_with
    check_options register_checked make_registration get insert try_initialize Globals.initialize
registered serde bincode = refl

-- What `populate_context` sets, from the number of the first key.
abbrev pub values : ℕ → List String → Values BenchValue
values i [] = []
values i (key ∷ rest) =
    (key, record { type_id = bench_value; data_of = "value-" ++ decimal i }) ∷ values (suc i) rest

abbrev snapshot : ℕ → ContextSnapshot BenchValue
snapshot n = record { values = values 0 (take n keys); scope_chain = "bench" ∷ [] }

-- A program that goes on after one that returns.
pub bind_returned :
    {A B : Type 0} (m : Program BenchValue A) (f : A → Program BenchValue B) {a : A}
    {w w' : World BenchValue}
    → m w ≡ some (a, w')
    → (m >>= f) w ≡ f a w'
bind_returned m f returned = ap (λ r. elim r [ none ↦ none | some (a, w') ↦ f a w' ]) returned

-- The store inside the scope of `in_scope`.
abbrev pub scoped : Values BenchValue → ContextStore BenchValue
scoped values = record {
  scope_chain = freeze new_store 1 ∷ [];
  current_values = values;
  current_name = some "bench";
  depth = 2;
  remote_chain = [];
  remote_chain_base_depth = 0;
  frozen_parent = [];
  scope_barrier = none;
}

abbrev pub populated : ℕ → ContextStore BenchValue
populated n = scoped (values 0 (take n keys))

module _ (serde : Serde BenchValue) (bincode : Bincode) (output : List (Line BenchValue)) where
  pub in_scope-returned :
      {A : Type 0} (f : Program BenchValue A) (a : A) (s : ContextStore BenchValue)
      (left : Values BenchValue)
      → f (ready serde bincode output (scoped []))
        ≡ some (a, ready serde bincode output (scoped left))
      → in_scope f (ready serde bincode output s) ≡ some (a, ready serde bincode output new_store)
  unfolding in_scope Context.clear Context.push_scope enter try_apply Push.push_scope push_real
      effective_values Reads.cached_keys make_registration add_usize sub_usize drop_scope_guard
      pop_scope pop_loop gather garbage_of extend global_registry
  in_scope-returned f a s left returned =
      bind_returned f (λ result. drop_scope (record { expected_depth = 2 }) >>= λ _. pure result)
        returned

  pub populated_one :
      populate_context 1 (ready serde bincode output (scoped []))
      ≡ some (tt, ready serde bincode output (populated 1))
  unfolding populate_context populate_from try_apply set_context_variable set_value insert decimal
  populated_one = refl

  pub populated_five :
      populate_context 5 (ready serde bincode output (scoped []))
      ≡ some (tt, ready serde bincode output (populated 5))
  unfolding populate_context populate_from try_apply set_context_variable set_value insert decimal
  populated_five = refl

  pub populated_ten :
      populate_context 10 (ready serde bincode output (scoped []))
      ≡ some (tt, ready serde bincode output (populated 10))
  unfolding populate_context populate_from try_apply set_context_variable set_value insert decimal
  populated_ten = refl
