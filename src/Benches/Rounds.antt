-- ===== src/Benches/Rounds.antt =====
-- The groups of dcontext/benches/context_propagation.rs, and the benchmarks as a whole.
use dcontext.Base.{ℕ, zero, suc, ◌≡◌, refl, ◌∙◌, some, [], ◌∷◌, false, true, take}
use dcontext.Value.{Serde}
use dcontext.Store.{ContextStore, new_store, fork_child}
use dcontext.Wire.{Bincode}
use dcontext.Context
use dcontext.Context.{Cell, try_apply, drop_attach_guard}
use dcontext.Future.{with_store}
use dcontext.Samples.Program.{
  Program, World, ◌>>=◌, ◌>>◌, pure, capture, fork, attach_snapshot, drop_attach, await, started,
}
use dcontext.Benches.{
  BenchValue, keys, in_scope, populate_context, three_keys, snapshot_round, fork_round, iter,
  capture_cost, restore_cost, concurrent_spawn, read_throughput, each, benches, ensure_registered,
}
use dcontext.Benches.Scopes.{
  values, populated, populated_one, populated_five, populated_ten, bind_returned, in_scope-returned,
  registered,
}
use dcontext.Benches.Tasks.{
  world, snapshot, Populates, captured_one, captured_five, captured_ten, tasks-returned,
}

abbrev Keeps : World BenchValue → Program BenchValue (Unit {0}) → Type 0
Keeps w f = f w ≡ some (tt, w)

iter-Keeps :
    (w : World BenchValue) (f : Program BenchValue (Unit {0}))
    → Keeps w f
    → (rounds : ℕ) → Keeps w (iter rounds f)
unfolding iter
iter-Keeps w f keeps zero = refl
iter-Keeps w f keeps (suc rounds) =
    bind_returned f (λ _. iter rounds f) keeps ∙ iter-Keeps w f keeps rounds

then-Keeps :
    (w : World BenchValue) (f g : Program BenchValue (Unit {0}))
    → Keeps w f
    → Keeps w g
    → Keeps w (f >> g)
then-Keeps w f g first second = bind_returned f (λ _. g) first ∙ second

round-Keeps :
    {A : Type 0} (w : World BenchValue) (round : Program BenchValue A) {result : A}
    → round w ≡ some (result, w)
    → (rounds : ℕ) → Keeps w (iter rounds (round >>= λ _. pure tt))
round-Keeps w round returned rounds =
    iter-Keeps w (round >>= λ _. pure tt)
      (bind_returned round (λ _. pure {D = BenchValue} tt) returned) rounds

each-Keeps :
    (w : World BenchValue) (f : ℕ → Program BenchValue (Unit {0})) (a b c : ℕ)
    → Keeps w (f a)
    → Keeps w (f b)
    → Keeps w (f c)
    → Keeps w (each (a ∷ b ∷ c ∷ []) f)
unfolding each
each-Keeps w f a b c at_a at_b at_c =
    then-Keeps w (f a) (f b >> (f c >> pure tt)) at_a
      (then-Keeps w (f b) (f c >> pure tt) at_b (then-Keeps w (f c) (pure tt) at_c refl))

module _ (serde : Serde BenchValue) (bincode : Bincode) where
  abbrev fresh : World BenchValue
  fresh = world serde bincode [] new_store

  -- The context of so many keys is set and captured without a panic.
  abbrev IsSize : ℕ → Type 0
  IsSize n =
      Populates serde bincode [] n
      × (capture (world serde bincode [] (populated n))
          ≡ some (snapshot n, world serde bincode [] (populated n)))

  measured-Keeps :
      (f : Program BenchValue (Unit {0})) (rounds n : ℕ)
      → Populates serde bincode [] n
      → Keeps (world serde bincode [] (populated n)) f
      → Keeps fresh (in_scope (populate_context n >> iter rounds f))
  measured-Keeps f rounds n populates keeps =
      in_scope-returned serde bincode [] (populate_context n >> iter rounds f) tt new_store
        (values 0 (take n keys))
        (bind_returned (populate_context n) (λ _. iter rounds f) populates
          ∙ iter-Keeps (world serde bincode [] (populated n)) f keeps rounds)

  capture_cost-Keeps : (rounds n : ℕ) → IsSize n → Keeps fresh (capture_cost rounds n)
  unfolding capture_cost Context.fork
  capture_cost-Keeps rounds n (populates, captures) =
      let captured : Program BenchValue (Unit {0}) = capture >>= λ _. pure tt in
      let forked : Program BenchValue (Unit {0}) = fork >>= λ _. pure tt in
      then-Keeps fresh (in_scope (populate_context n >> iter rounds captured))
        (in_scope (populate_context n >> iter rounds forked))
        (measured-Keeps captured rounds n populates
          (bind_returned capture (λ _. pure {D = BenchValue} tt) captures))
        (measured-Keeps forked rounds n populates refl)

  attached-Keeps : (n : ℕ) → Keeps fresh (in_scope (attach_snapshot (snapshot n) >>= drop_attach))
  unfolding Context.attach_snapshot Context.attach_store drop_attach_guard try_apply
  attached-Keeps n =
      in_scope-returned serde bincode [] (attach_snapshot (snapshot n) >>= drop_attach) tt new_store
        [] refl

  restore_cost-Keeps : (rounds n : ℕ) → IsSize n → Keeps fresh (restore_cost rounds n)
  unfolding restore_cost Context.fork with_store
  restore_cost-Keeps rounds n (populates, captures) =
      let attached : Program BenchValue (Unit {0}) =
        in_scope (attach_snapshot (snapshot n) >>= drop_attach) in
      let forked : Program BenchValue (Unit {0}) =
        in_scope (populate_context n >> fork) >>= λ store. await (pure tt) (with_store store tt) in
      bind_returned (in_scope (populate_context n >> capture))
        (λ snap.
          iter rounds (in_scope (attach_snapshot snap >>= drop_attach)) >> iter rounds forked)
        (in_scope-returned serde bincode [] (populate_context n >> capture) (snapshot n) new_store
          (values 0 (take n keys))
          (bind_returned (populate_context n) (λ _. capture) populates ∙ captures))
      ∙ then-Keeps fresh (iter rounds attached) (iter rounds forked)
          (iter-Keeps fresh attached (attached-Keeps n) rounds)
          (iter-Keeps fresh forked
            (bind_returned (in_scope (populate_context n >> fork))
              (λ store. await (pure tt) (with_store store tt))
              (in_scope-returned serde bincode [] (populate_context n >> fork)
                (fork_child (populated n)) new_store (values 0 (take n keys))
                (bind_returned (populate_context n) (λ _. fork) populates)))
            rounds)

  concurrent_spawn-Keeps :
      (rounds : ℕ) (workers : ℕ → ContextStore BenchValue) (n : ℕ)
      → Keeps fresh (concurrent_spawn rounds workers n)
  unfolding concurrent_spawn
  concurrent_spawn-Keeps rounds workers n =
      let (snapshots, forks, _, _) = tasks-returned serde bincode [] new_store workers n in
      then-Keeps fresh (iter rounds (snapshot_round 5 three_keys workers n >>= λ _. pure tt))
        (iter rounds (fork_round 5 three_keys workers n >>= λ _. pure tt))
        (round-Keeps fresh (snapshot_round 5 three_keys workers n) snapshots rounds)
        (round-Keeps fresh (fork_round 5 three_keys workers n) forks rounds)

  read_throughput-Keeps :
      (rounds : ℕ) (workers : ℕ → ContextStore BenchValue)
      → Keeps fresh (read_throughput rounds workers)
  unfolding read_throughput
  read_throughput-Keeps rounds workers =
      let (_, _, snapshots, forks) = tasks-returned serde bincode [] new_store workers 100 in
      then-Keeps fresh (iter rounds (fork_round 10 keys workers 100 >>= λ _. pure tt))
        (iter rounds (snapshot_round 10 keys workers 100 >>= λ _. pure tt))
        (round-Keeps fresh (fork_round 10 keys workers 100) forks rounds)
        (round-Keeps fresh (snapshot_round 10 keys workers 100) snapshots rounds)

  sizes-Keeps :
      (f : ℕ → Program BenchValue (Unit {0}))
      → ((n : ℕ) → IsSize n → Keeps fresh (f n))
      → Keeps fresh (each (1 ∷ 5 ∷ 10 ∷ []) f)
  sizes-Keeps f keeps =
      each-Keeps fresh f 1 5 10
        (keeps 1 (populated_one serde bincode [], captured_one serde bincode []))
        (keeps 5 (populated_five serde bincode [], captured_five serde bincode []))
        (keeps 10 (populated_ten serde bincode [], captured_ten serde bincode []))

  -- However often the closures are called and whatever the threads of the runtime keep, the
  -- benchmarks run from a new process to their end and leave a new store on the thread.
  benches-returned :
      (rounds : ℕ) (workers : ℕ → ContextStore BenchValue)
      → benches rounds workers (started serde bincode) ≡ some (true, fresh)
  unfolding benches ensure_registered
  benches-returned rounds workers =
      let spawns = each (10 ∷ 50 ∷ 100 ∷ []) (concurrent_spawn rounds workers) in
      bind_returned (ensure_registered false)
        (λ init. each (1 ∷ 5 ∷ 10 ∷ []) (capture_cost rounds) >>= λ _.
          ensure_registered init >>= λ init. each (1 ∷ 5 ∷ 10 ∷ []) (restore_cost rounds) >>= λ _.
          ensure_registered init >>= λ init. spawns >>= λ _.
          ensure_registered init >>= λ init. read_throughput rounds workers >>= λ _. pure init)
        (registered serde bincode)
      ∙ bind_returned (each (1 ∷ 5 ∷ 10 ∷ []) (capture_cost rounds))
          (λ _. each (1 ∷ 5 ∷ 10 ∷ []) (restore_cost rounds) >>= λ _.
            spawns >>= λ _. read_throughput rounds workers >>= λ _. pure true)
          (sizes-Keeps (capture_cost rounds) (capture_cost-Keeps rounds))
      ∙ bind_returned (each (1 ∷ 5 ∷ 10 ∷ []) (restore_cost rounds))
          (λ _. spawns >>= λ _. read_throughput rounds workers >>= λ _. pure true)
          (sizes-Keeps (restore_cost rounds) (restore_cost-Keeps rounds))
      ∙ bind_returned spawns (λ _. read_throughput rounds workers >>= λ _. pure true)
          (each-Keeps fresh (concurrent_spawn rounds workers) 10 50 100
            (concurrent_spawn-Keeps rounds workers 10) (concurrent_spawn-Keeps rounds workers 50)
            (concurrent_spawn-Keeps rounds workers 100))
      ∙ bind_returned (read_throughput rounds workers) (λ _. pure {D = BenchValue} true)
          (read_throughput-Keeps rounds workers)
