-- ===== src/Benches.antt =====
-- dcontext/benches/context_propagation.rs: what the benchmarks run, without the clock. How often
-- `iter` calls its closure is criterion's choice, and what the threads of the runtime keep is the
-- runtime's: both are parameters.
pub mod Scopes
pub mod Tasks
pub mod Rounds
use dcontext.Base.{
  ℕ, zero, suc, String, Option, none, some, List, [], ◌∷◌, Bool, true, false, take, min, length,
}
use dcontext.Error.{decimal}
use dcontext.Value.{TypeId}
use dcontext.Registry.{RegistryMap}
use dcontext.Registry.Register.{new_builder}
use dcontext.Store.{ContextStore}
use dcontext.Snapshot.{ContextSnapshot}
use dcontext.Context.{Cell}
use dcontext.Future.{WithContext, with_store}
use dcontext.Samples.Program.{
  Program, ◌>>=◌, ◌>>◌, pure, clear, push_scope, drop_scope, set, get_unwrap, capture, fork,
  register, initialize, attach_snapshot, drop_attach, with_snapshot, await,
}
use Prim.Native.String.{◌++◌}

-- `BenchValue(String)`.
abbrev pub BenchValue : Type 0
BenchValue = String

abbrev pub bench_value : TypeId
bench_value = 1

abbrev pub keys : List String
keys =
    "bench_key_0" ∷ "bench_key_1" ∷ "bench_key_2" ∷ "bench_key_3" ∷ "bench_key_4" ∷ "bench_key_5"
    ∷ "bench_key_6" ∷ "bench_key_7" ∷ "bench_key_8" ∷ "bench_key_9" ∷ []

unfoldable pub register_all :
    List String → RegistryMap BenchValue → Program BenchValue (RegistryMap BenchValue)
register_all [] builder = pure builder
register_all (key ∷ rest) builder = register bench_value key builder >>= register_all rest

-- `INIT.call_once`: the argument says whether it has run.
unfoldable pub ensure_registered : Bool → Program BenchValue Bool
unfolding register_all
ensure_registered true = pure true
ensure_registered false = do builder ← register_all keys new_builder; initialize builder; pure true

unfoldable pub in_scope : {A : Type 0} → Program BenchValue A → Program BenchValue A
in_scope f = do clear; scope ← push_scope "bench"; result ← f; drop_scope scope; pure result

-- The loop over the first keys, from the number of the first.
unfoldable pub populate_from : ℕ → List String → Program BenchValue (Unit {0})
populate_from i [] = pure tt
populate_from i (key ∷ rest) =
    set bench_value key ("value-" ++ decimal i) >> populate_from (suc i) rest

unfoldable pub populate_context : ℕ → Program BenchValue (Unit {0})
unfolding populate_from
populate_context n = populate_from 0 (take (min n (length keys)) keys)

-- `b.iter(f)`.
unfoldable pub iter : ℕ → Program BenchValue (Unit {0}) → Program BenchValue (Unit {0})
iter zero f = pure tt
iter (suc rounds) f = f >> iter rounds f

-- A task spawned on the runtime, which polls it once on a thread of its own with the given store,
-- since nothing of it is awaited: `none` if it panics, else what the thread keeps.
unfoldable pub spawned :
    Program BenchValue (Unit {0})
    → WithContext BenchValue (Unit {0})
    → ContextStore BenchValue
    → Program BenchValue (Option (Cell BenchValue))
spawned body wrapper worker w = elim (await body wrapper (record w { cell = some worker })) [
  | none ↦ some (none, w)
  | some (done, w') ↦ some (some w'.cell, w)
]

-- The keys at the given places, each read and unwrapped.
unfoldable pub read_keys : List String → Program BenchValue (Unit {0})
read_keys [] = pure tt
read_keys (key ∷ rest) = get_unwrap bench_value key >>= λ _. read_keys rest

abbrev pub three_keys : List String
three_keys = "bench_key_0" ∷ "bench_key_2" ∷ "bench_key_4" ∷ []

-- `n` tasks, each with a clone of the snapshot, and the stores of the threads that poll them.
unfoldable pub spawn_attached :
    Program BenchValue (Unit {0})
    → ContextSnapshot BenchValue
    → (ℕ → ContextStore BenchValue)
    → ℕ
    → Program BenchValue (List (Option (Cell BenchValue)))
unfolding spawned
spawn_attached body snap workers zero = pure []
spawn_attached body snap workers (suc n) = do
  wrapper ← with_snapshot snap
  result ← spawned body wrapper (workers n)
  results ← spawn_attached body snap workers n
  pure (result ∷ results)

-- One task for each store.
unfoldable pub spawn_with :
    Program BenchValue (Unit {0})
    → List (ContextStore BenchValue)
    → (ℕ → ContextStore BenchValue)
    → Program BenchValue (List (Option (Cell BenchValue)))
unfolding spawned
spawn_with body [] workers = pure []
spawn_with body (store ∷ stores) workers = do
  result ← spawned body (with_store store tt) (workers (length stores))
  results ← spawn_with body stores workers
  pure (result ∷ results)

-- `(0..n).map(|_| dcontext::fork()).collect()`.
unfoldable pub forks : ℕ → Program BenchValue (List (ContextStore BenchValue))
forks zero = pure []
forks (suc n) = do store ← fork; stores ← forks n; pure (store ∷ stores)

-- One round of the tasks that attach a snapshot; the code ignores the results.
unfoldable pub snapshot_round :
    ℕ
    → List String
    → (ℕ → ContextStore BenchValue)
    → ℕ
    → Program BenchValue (List (Option (Cell BenchValue)))
unfolding in_scope populate_context spawn_attached read_keys
snapshot_round num_keys read workers n = do
  snap ← in_scope (populate_context num_keys >> capture)
  spawn_attached (read_keys read) snap workers n

unfoldable pub fork_round :
    ℕ
    → List String
    → (ℕ → ContextStore BenchValue)
    → ℕ
    → Program BenchValue (List (Option (Cell BenchValue)))
unfolding in_scope populate_context forks spawn_with read_keys
fork_round num_keys read workers n = do
  stores ← in_scope (populate_context num_keys >> forks n)
  spawn_with (read_keys read) stores workers

-- The bodies of the four groups, at the sizes that the arguments give.
unfoldable pub capture_cost : ℕ → ℕ → Program BenchValue (Unit {0})
unfolding in_scope populate_context iter
capture_cost rounds n =
    in_scope (populate_context n >> iter rounds (capture >>= λ _. pure tt))
    >> in_scope (populate_context n >> iter rounds (fork >>= λ _. pure tt))

unfoldable pub restore_cost : ℕ → ℕ → Program BenchValue (Unit {0})
unfolding in_scope populate_context iter
restore_cost rounds n = do
  snap ← in_scope (populate_context n >> capture)
  iter rounds (in_scope (attach_snapshot snap >>= drop_attach))
  iter rounds
      (do store ← in_scope (populate_context n >> fork); await (pure tt) (with_store store tt))

unfoldable pub concurrent_spawn :
    ℕ → (ℕ → ContextStore BenchValue) → ℕ → Program BenchValue (Unit {0})
unfolding snapshot_round fork_round iter
concurrent_spawn rounds workers n =
    iter rounds (snapshot_round 5 three_keys workers n >>= λ _. pure tt)
    >> iter rounds (fork_round 5 three_keys workers n >>= λ _. pure tt)

unfoldable pub read_throughput : ℕ → (ℕ → ContextStore BenchValue) → Program BenchValue (Unit {0})
unfolding snapshot_round fork_round iter
read_throughput rounds workers =
    iter rounds (fork_round 10 keys workers 100 >>= λ _. pure tt)
    >> iter rounds (snapshot_round 10 keys workers 100 >>= λ _. pure tt)

unfoldable pub each : List ℕ → (ℕ → Program BenchValue (Unit {0})) → Program BenchValue (Unit {0})
each [] f = pure tt
each (n ∷ rest) f = f n >> each rest f

-- The benchmarks of `criterion_group!` in their order.
unfoldable pub benches : ℕ → (ℕ → ContextStore BenchValue) → Program BenchValue Bool
unfolding ensure_registered capture_cost restore_cost concurrent_spawn read_throughput each
benches rounds workers = do
  init ← ensure_registered false
  each (1 ∷ 5 ∷ 10 ∷ []) (capture_cost rounds)
  init ← ensure_registered init
  each (1 ∷ 5 ∷ 10 ∷ []) (restore_cost rounds)
  init ← ensure_registered init
  each (10 ∷ 50 ∷ 100 ∷ []) (concurrent_spawn rounds workers)
  init ← ensure_registered init
  read_throughput rounds workers
  pure init
