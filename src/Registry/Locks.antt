-- ===== src/Registry/Locks.antt =====
-- dcontext/src/registry.rs: `with_global_registry` step by step, with the mutex of `BUILD`, for
-- threads whose callbacks may call the library again.
pub mod Exclusion
pub mod Kept
pub mod Nested
pub mod Moves
pub mod Progress
pub mod Metadata
pub mod Frozen
pub mod Alone
pub mod Isolation
use dcontext.Base.{
  ℕ, String, Bool, false, true, Option, none, some, List, [], ◌∷◌, Result, nat_eqb, if◌then◌else◌,
}
use dcontext.Error.{ContextError}
use dcontext.Value.{TypeId}
use dcontext.Registry.{RegistryMap}
use dcontext.Registry.Reads
use dcontext.Registry.Globals.{Globals, try_initialize}

-- What a thread does, as far as it concerns the registry. `calls` is `with_global_registry(f)` and
-- what follows with its result.
pub data Script (D A : Type 0) : Type 0 where
  done : A → Script D A
  panics : Script D A
  calls : (RegistryMap D → Script D A) → (A → Script D A) → Script D A
  initializes : RegistryMap D → (Result (Unit {0}) ContextError → Script D A) → Script D A

-- Where a thread is. One that is `locking` has found `FROZEN` not set and is in `lock_build`.
pub data Point (D A : Type 0) : Type 0 where
  running : Script D A → Point D A
  locking : (RegistryMap D → Script D A) → (A → Script D A) → Point D A

-- A call whose callback runs: whether it has the guard of `BUILD`, and what follows it.
pub record Frame (D A : Type 0) : Type 0 where
  pub holds : Bool
  pub next : A → Script D A

-- The frames of the calls, innermost first.
pub record Thread (D A : Type 0) : Type 0 where
  pub point : Point D A
  pub frames : List (Frame D A)

-- What a call does that locks a mutex which its thread has locked. The standard library says only
-- that it does not return.
pub data Relock : Type 0 where
  blocks : Relock
  fails : Relock

-- What the threads share. `owner` is the thread that has locked `BUILD`.
pub record Shared (D : Type 0) : Type 0 where
  pub relock : Relock
  pub globals : Globals D
  pub owner : Option ℕ

pub record System (D A : Type 0) : Type 0 where
  pub shared : Shared D
  pub threads : ℕ → Thread D A

-- `with_metadata`, for a callback that returns `some`.
unfoldable pub with_metadata :
    {D X : Type 0}
    → TypeId
    → String
    → (D → Script D (Option X))
    → (Option X → Script D (Option X))
    → Script D (Option X)
with_metadata m key f next =
    calls (λ map. elim (Reads.with_metadata map m key f) [ none ↦ done none | some g ↦ g ]) next

-- The guard is dropped when the callback returns or panics. A poisoned mutex is locked like any
-- other.
unfoldable pub release : {D : Type 0} → Bool → Shared D → Shared D
release true sh = record sh { owner = none }
release false sh = sh

unfoldable pub build_map : {D : Type 0} → Globals D → RegistryMap D
build_map g = elim g.build [ some map ↦ map | none ↦ [] ]

module _ {D A : Type 0} where
  -- Thread `i` in `lock_build` while thread `j` has the mutex: it waits, or panics.
  unfoldable pub contend : ℕ → ℕ → Shared D → List (Frame D A) → Option (Shared D × Thread D A)
  contend i j sh frames =
      if nat_eqb j i
      then elim sh.relock [
        | blocks ↦ none
        | fails ↦ some (sh, record { point = running panics; frames = frames })
      ]
      else none

  -- One step of a thread: `none` if it has ended or waits for the mutex.
  unfoldable pub step_at :
      ℕ → Shared D → Point D A → List (Frame D A) → Option (Shared D × Thread D A)
  unfolding release build_map contend
  step_at i sh (running (done a)) [] = none
  step_at i sh (running (done a)) (frame ∷ frames) =
      some (release frame.holds sh, record { point = running (frame.next a); frames = frames })
  step_at i sh (running panics) [] = none
  step_at i sh (running panics) (frame ∷ frames) =
      some (release frame.holds sh, record { point = running panics; frames = frames })
  step_at i sh (running (calls f next)) frames = elim sh.globals.frozen [
    | some map ↦ some (
      sh,
      record { point = running (f map); frames = record { holds = false; next = next } ∷ frames },
    )
    | none ↦ some (sh, record { point = locking f next; frames = frames })
  ]
  step_at i sh (running (initializes builder next)) frames =
      let (globals, result) = try_initialize builder sh.globals in
      some
        (record sh { globals = globals }, record { point = running (next result); frames = frames })
  step_at i sh (locking f next) frames = elim sh.owner [
    | some j ↦ contend i j sh frames
    | none ↦ some (
      record sh { owner = some i },
      record {
        point = running (f (build_map sh.globals));
        frames = record { holds = true; next = next } ∷ frames;
      },
    )
  ]

  unfoldable pub step : ℕ → System D A → Option (Shared D × Thread D A)
  unfolding step_at
  step i s = step_at i s.shared (s.threads i).point (s.threads i).frames

  unfoldable pub set_thread : ℕ → Thread D A → (ℕ → Thread D A) → ℕ → Thread D A
  set_thread i t threads j = if nat_eqb i j then t else threads j

  -- The system after what a step of a thread gives.
  unfoldable pub settle : ℕ → System D A → Option (Shared D × Thread D A) → System D A
  unfolding set_thread
  settle i s none = s
  settle i s (some (sh, t)) = record { shared = sh; threads = set_thread i t s.threads }

  unfoldable pub move : ℕ → System D A → System D A
  unfolding step settle
  move i s = settle i s (step i s)

  -- The threads by turns: any interleaving is such a list.
  unfoldable pub run : List ℕ → System D A → System D A
  unfolding move
  run [] s = s
  run (i ∷ turns) s = run turns (move i s)

  abbrev pub start : Script D A → Thread D A
  start script = record { point = running script; frames = [] }

  -- A process whose threads are to run the scripts.
  abbrev pub started : Relock → Globals D → (ℕ → Script D A) → System D A
  started relock globals scripts = record {
    shared = record { relock = relock; globals = globals; owner = none };
    threads = λ i. start (scripts i);
  }
