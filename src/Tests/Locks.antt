-- ===== src/Tests/Locks.antt =====
-- Two threads that look up metadata, one of them also inside its callback.
use dcontext.Base.{ℕ, zero, suc, ◌≡◌, refl, Option, none, some, [], ◌∷◌, arith, string_eq}
use dcontext.Registry.Globals.{initial_globals}
use dcontext.Registry.Locks.{
  blocks, Script, done, calls, with_metadata, run, move, step, step_at, settle, set_thread,
  build_map, start, started,
}
use dcontext.Registry.Locks.Progress.{IsFlat, Fate, flat-progress}
use dcontext.Registry.Locks.Metadata.{with_metadata-IsFlat}
use dcontext.Registry.Locks.Alone.{result, cost}
use dcontext.Registry.Locks.Isolation.{turns_of, isolation}
use dcontext.Registry.Locks.Nested.{NeverReturns, nested-NeverReturns}

-- Metadata are numbers.
abbrev lookup : ℕ → Script ℕ (Option ℕ)
lookup n = with_metadata 1 "key" (λ d. done (some n)) (λ found. done found)

abbrev nested_lookup : Script ℕ (Option ℕ)
nested_lookup = with_metadata 1 "key" lookup (λ found. done found)

abbrev threads : ℕ → Script ℕ (Option ℕ)
threads zero = nested_lookup
threads (suc i) = lookup i

lookup-IsFlat : (n : ℕ) → IsFlat [] (lookup n)
unfolding IsFlat
lookup-IsFlat n =
    with_metadata-IsFlat 1 "key" (λ d. done (some n)) (λ found. done found) (λ d. tt) (λ found. tt)

threads-IsFlat : (i : ℕ) → IsFlat [] (threads i)
unfolding IsFlat
threads-IsFlat zero =
    with_metadata-IsFlat 1 "key" lookup (λ found. done found) lookup-IsFlat (λ found. tt)
threads-IsFlat (suc i) = lookup-IsFlat i

flat-progress_example : Fate 1 (run (0 ∷ 1 ∷ 0 ∷ 1 ∷ []) (started blocks initial_globals threads))
unfolding build_map
flat-progress_example =
    flat-progress blocks initial_globals threads threads-IsFlat (0 ∷ 1 ∷ 0 ∷ 1 ∷ []) 1

-- A call in the callback of a call, whatever is registered.
abbrev nested_call : Script ℕ ℕ
nested_call = calls (λ map. calls (λ map. done 1) (λ n. done n)) (λ n. done n)

nested-NeverReturns_example :
    NeverReturns blocks 0
      (1 ∷ 0 ∷ [])
      (move 0 (run (0 ∷ 0 ∷ []) (started blocks initial_globals (λ i. nested_call))))
unfolding run move step step_at settle set_thread build_map
nested-NeverReturns_example =
    nested-NeverReturns blocks initial_globals (λ i. nested_call) (0 ∷ 0 ∷ []) (1 ∷ 0 ∷ []) 0
      (λ map. done 1) (λ n. done n) refl refl refl

isolation_example :
    (run
        (0 ∷ 1 ∷ 0 ∷ 1 ∷ 0 ∷ 0 ∷ [])
        (started blocks (record { frozen = some []; build = none }) (λ i. nested_call))).threads
      0
    ≡ start (done 1)
unfolding result cost turns_of
isolation_example =
    isolation [] blocks (record { frozen = some []; build = none }) (λ i. nested_call) refl
      (0 ∷ 1 ∷ 0 ∷ 1 ∷ 0 ∷ 0 ∷ []) 0 (omega arith)
