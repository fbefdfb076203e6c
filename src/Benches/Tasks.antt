-- ===== src/Benches/Tasks.antt =====
-- The tasks of bench_concurrent_spawn and bench_read_throughput in
-- dcontext/benches/context_propagation.rs.
use dcontext.Base.{
  ℕ, zero, suc, ◌≡◌, refl, ap, ◌∙◌, String, Option, some, List, [], ◌∷◌, take, length,
}
use dcontext.Base.HashMap.{get, insert, filter, extend, extend_missing}
use dcontext.Error.{decimal}
use dcontext.Value.{Serde, downcast_ref}
use dcontext.Registry.Reads
use dcontext.Registry.Register.{make_registration}
use dcontext.Registry.Globals.{global_registry}
use dcontext.Store.{ContextStore, new_store, fork_child}
use dcontext.Store.Lookup.{
  get_value, find_local, find_fallback, find_frozen, collect_values, collect_local, collect_frozen,
}
use dcontext.Store.Chain
use dcontext.Store.Chain.{full_chain, local_names, parent_names, frozen_names, limit_chain}
use dcontext.Snapshot.{ContextSnapshot, capture_with_registry, store_from_snapshot_with_registry}
use dcontext.Wire.{Bincode}
use dcontext.Context
use dcontext.Context.{Cell, try_apply, try_read, store_from_snapshot}
use dcontext.Context.Typed.{get_context_variable}
use dcontext.Future
use dcontext.Future.{WithContext, with_store}
use dcontext.Samples.Program.{Program, World, Line, ◌>>=◌, ◌>>◌, pure, capture}
use dcontext.Benches.{
  BenchValue, keys, in_scope, populate_context, spawned, read_keys, three_keys, spawn_attached,
  spawn_with, forks, snapshot_round, fork_round,
}
use dcontext.Benches.Scopes.{
  ready, values, scoped, populated, populated_five, populated_ten, bind_returned, in_scope-returned,
}

abbrev pub replicate : {A : Type 0} → ℕ → A → List A
replicate zero a = []
replicate (suc n) a = a ∷ replicate n a

length-replicate : {A : Type 0} (n : ℕ) (a : A) → length (replicate n a) ≡ n
length-replicate zero a = refl
length-replicate (suc n) a = ap suc (length-replicate n a)

abbrev pub snapshot : ℕ → ContextSnapshot BenchValue
snapshot n = record { values = values 0 (take n keys); scope_chain = "bench" ∷ [] }

-- What `n` tasks give that all return, on threads that keep their stores.
abbrev pub kept : (ℕ → ContextStore BenchValue) → ℕ → List (Option (Cell BenchValue))
kept workers zero = []
kept workers (suc n) = some (some (workers n)) ∷ kept workers n

module _ (serde : Serde BenchValue) (bincode : Bincode) (output : List (Line BenchValue)) where
  abbrev pub world : ContextStore BenchValue → World BenchValue
  world = ready serde bincode output

  pub captured_one : capture (world (populated 1)) ≡ some (snapshot 1, world (populated 1))
  unfolding Context.capture try_read capture_with_registry collect_values collect_local
      collect_frozen filter extend extend_missing Reads.is_local_key make_registration get
      global_registry decimal Chain.scope_chain full_chain local_names parent_names frozen_names
      limit_chain insert
  captured_one = refl

  pub captured_five : capture (world (populated 5)) ≡ some (snapshot 5, world (populated 5))
  unfolding Context.capture try_read capture_with_registry collect_values collect_local
      collect_frozen filter extend extend_missing Reads.is_local_key make_registration get
      global_registry decimal Chain.scope_chain full_chain local_names parent_names frozen_names
      limit_chain insert
  captured_five = refl

  pub captured_ten : capture (world (populated 10)) ≡ some (snapshot 10, world (populated 10))
  unfolding Context.capture try_read capture_with_registry collect_values collect_local
      collect_frozen filter extend extend_missing Reads.is_local_key make_registration get
      global_registry decimal Chain.scope_chain full_chain local_names parent_names frozen_names
      limit_chain insert
  captured_ten = refl

  -- The wrapped block returns, and the thread keeps its store.
  abbrev Returns : Program BenchValue (Unit {0}) → WithContext BenchValue (Unit {0}) → Type 0
  Returns body wrapper =
      (s worker : ContextStore BenchValue)
      → spawned body wrapper worker (world s) ≡ some (some (some worker), world s)

  attached_three :
      Returns (read_keys three_keys) (Future.attach (world new_store).env (snapshot 5) tt)
  unfolding spawned read_keys Future.attach with_store store_from_snapshot
      store_from_snapshot_with_registry filter Reads.is_local_key Reads.is_valid_value get
      global_registry make_registration decimal get_context_variable try_read try_apply get_value
      downcast_ref
  attached_three s worker = refl

  attached_keys : Returns (read_keys keys) (Future.attach (world new_store).env (snapshot 10) tt)
  unfolding spawned read_keys Future.attach with_store store_from_snapshot
      store_from_snapshot_with_registry filter Reads.is_local_key Reads.is_valid_value get
      global_registry make_registration decimal get_context_variable try_read try_apply get_value
      downcast_ref
  attached_keys s worker = refl

  forked_three : Returns (read_keys three_keys) (with_store (fork_child (populated 5)) tt)
  unfolding spawned read_keys with_store get decimal get_context_variable try_read try_apply
      get_value find_local find_fallback find_frozen downcast_ref
  forked_three s worker = refl

  forked_keys : Returns (read_keys keys) (with_store (fork_child (populated 10)) tt)
  unfolding spawned read_keys with_store get decimal get_context_variable try_read try_apply
      get_value find_local find_fallback find_frozen downcast_ref
  forked_keys s worker = refl

  spawn_attached-returned :
      (body : Program BenchValue (Unit {0})) (snap : ContextSnapshot BenchValue)
      (workers : ℕ → ContextStore BenchValue) (s : ContextStore BenchValue)
      → Returns body (Future.attach (world s).env snap tt)
      → (n : ℕ) → spawn_attached body snap workers n (world s) ≡ some (kept workers n, world s)
  unfolding spawn_attached
  spawn_attached-returned body snap workers s returns zero = refl
  spawn_attached-returned body snap workers s returns (suc n) =
      bind_returned (spawned body (Future.attach (world s).env snap tt) (workers n))
        (λ result. spawn_attached body snap workers n >>= λ results. pure (result ∷ results))
        (returns s (workers n))
      ∙ bind_returned (spawn_attached body snap workers n)
          (λ results. pure (some (some (workers n)) ∷ results))
          (spawn_attached-returned body snap workers s returns n)

  spawn_with-returned :
      (body : Program BenchValue (Unit {0})) (store : ContextStore BenchValue)
      (workers : ℕ → ContextStore BenchValue) (s : ContextStore BenchValue)
      → Returns body (with_store store tt)
      → (n : ℕ)
      → spawn_with body (replicate n store) workers (world s) ≡ some (kept workers n, world s)
  unfolding spawn_with
  spawn_with-returned body store workers s returns zero = refl
  spawn_with-returned body store workers s returns (suc n) =
      bind_returned (spawned body (with_store store tt) (workers (length (replicate n store))))
        (λ result.
          spawn_with body (replicate n store) workers >>= λ results. pure (result ∷ results))
        (returns s (workers (length (replicate n store))))
      ∙ bind_returned (spawn_with body (replicate n store) workers)
          (λ results. pure (some (some (workers (length (replicate n store)))) ∷ results))
          (spawn_with-returned body store workers s returns n)
      ∙ ap (λ k. some (some (some (workers k)) ∷ kept workers n, world s))
          (length-replicate n store)

  pub forks_lem :
      (store : ContextStore BenchValue) (n : ℕ)
      → forks n (world store) ≡ some (replicate n (fork_child store), world store)
  unfolding forks Context.fork
  forks_lem store zero = refl
  forks_lem store (suc n) =
      bind_returned (forks n) (λ stores. pure (fork_child store ∷ stores)) (forks_lem store n)

  -- `populate_context num_keys` sets the first keys, in a scope without values.
  abbrev pub Populates : ℕ → Type 0
  Populates num_keys =
      populate_context num_keys (world (scoped [])) ≡ some (tt, world (populated num_keys))

  pub snapshot_round-returned :
      (num_keys : ℕ) (read : List String)
      → Populates num_keys
      → capture (world (populated num_keys)) ≡ some (snapshot num_keys, world (populated num_keys))
      → Returns (read_keys read) (Future.attach (world new_store).env (snapshot num_keys) tt)
      → (s : ContextStore BenchValue) (workers : ℕ → ContextStore BenchValue) (n : ℕ)
      → snapshot_round num_keys read workers n (world s) ≡ some (kept workers n, world new_store)
  unfolding snapshot_round
  snapshot_round-returned num_keys read populates captures returns s workers n =
      bind_returned (in_scope (populate_context num_keys >> capture))
        (λ snap. spawn_attached (read_keys read) snap workers n)
        (in_scope-returned serde bincode output (populate_context num_keys >> capture)
          (snapshot num_keys) s (values 0 (take num_keys keys))
          (bind_returned (populate_context num_keys) (λ _. capture) populates ∙ captures))
      ∙ spawn_attached-returned (read_keys read) (snapshot num_keys) workers new_store returns n

  pub fork_round-returned :
      (num_keys : ℕ) (read : List String)
      → Populates num_keys
      → Returns (read_keys read) (with_store (fork_child (populated num_keys)) tt)
      → (s : ContextStore BenchValue) (workers : ℕ → ContextStore BenchValue) (n : ℕ)
      → fork_round num_keys read workers n (world s) ≡ some (kept workers n, world new_store)
  unfolding fork_round
  fork_round-returned num_keys read populates returns s workers n =
      let stores = replicate n (fork_child (populated num_keys)) in
      bind_returned (in_scope (populate_context num_keys >> forks n))
        (λ stores. spawn_with (read_keys read) stores workers)
        (in_scope-returned serde bincode output (populate_context num_keys >> forks n) stores s
          (values 0 (take num_keys keys))
          (bind_returned (populate_context num_keys) (λ _. forks n) populates
            ∙ forks_lem (populated num_keys) n))
      ∙ spawn_with-returned (read_keys read) (fork_child (populated num_keys)) workers new_store
          returns n

-- With any store on the thread and any stores on the threads of the runtime, the rounds of `n`
-- tasks do not panic, whether the tasks attach a snapshot or get a forked store, and whether they
-- read three of five keys or all ten: every task finds each variable that it reads set, the thread
-- that polls it keeps its own store, and the thread of the round ends with a new store.
pub tasks-returned :
    (serde : Serde BenchValue) (bincode : Bincode) (output : List (Line BenchValue))
    (s : ContextStore BenchValue) (workers : ℕ → ContextStore BenchValue) (n : ℕ)
    → (snapshot_round 5 three_keys workers n (ready serde bincode output s)
        ≡ some (kept workers n, ready serde bincode output new_store))
      × (fork_round 5 three_keys workers n (ready serde bincode output s)
          ≡ some (kept workers n, ready serde bincode output new_store))
      × (snapshot_round 10 keys workers n (ready serde bincode output s)
          ≡ some (kept workers n, ready serde bincode output new_store))
      × (fork_round 10 keys workers n (ready serde bincode output s)
          ≡ some (kept workers n, ready serde bincode output new_store))
tasks-returned serde bincode output s workers n = (
  snapshot_round-returned serde bincode output 5 three_keys (populated_five serde bincode output)
      (captured_five serde bincode output) (attached_three serde bincode output) s workers n,
  fork_round-returned serde bincode output 5 three_keys (populated_five serde bincode output)
      (forked_three serde bincode output) s workers n,
  snapshot_round-returned serde bincode output 10 keys (populated_ten serde bincode output)
      (captured_ten serde bincode output) (attached_keys serde bincode output) s workers n,
  fork_round-returned serde bincode output 10 keys (populated_ten serde bincode output)
      (forked_keys serde bincode output) s workers n,
)
