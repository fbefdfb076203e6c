-- ===== src/Registry/Locks/Frozen.antt =====
-- The registry once it is frozen: no thread takes the mutex, however its callbacks call the library.
use dcontext.Base.{ℕ, ◌≡◌, refl, Bool, true, false, none, some, List, [], ◌∷◌}
use dcontext.Registry.{RegistryMap}
use dcontext.Registry.Locks.{
  done, panics, calls, initializes, Point, running, locking, Frame, Shared, release, step_at,
}
use dcontext.Registry.Locks.Moves.{WhenMoved}
use dcontext.Registry.Globals.{try_initialize}

abbrev pub IsFrozen : {D : Type 0} → RegistryMap D → Shared D → Type 0
IsFrozen map sh = (sh.globals.frozen ≡ some map) × (sh.owner ≡ none)

release-IsFrozen :
    {D : Type 0} (map : RegistryMap D) (b : Bool) (sh : Shared D)
    → IsFrozen map sh
    → IsFrozen map (release b sh)
unfolding release
release-IsFrozen map true sh (set, _) = (set, refl)
release-IsFrozen map false sh frozen = frozen

module _ {D A : Type 0} where
  -- The thread is not in `lock_build`.
  abbrev pub IsRunning : Point D A → Type 0
  IsRunning (running script) = Unit
  IsRunning (locking f next) = ⊥

  pub step_at-IsFrozen :
      (map : RegistryMap D) (i : ℕ) (sh : Shared D) (p : Point D A) (frames : List (Frame D A))
      → IsFrozen map sh
      → IsRunning p
      → WhenMoved (λ sh' t. IsFrozen map sh' × IsRunning t.point) (step_at i sh p frames)
  unfolding step_at try_initialize
  step_at-IsFrozen map i sh (running (done a)) [] frozen r = tt
  step_at-IsFrozen map i sh (running (done a)) (frame ∷ frames) frozen r =
      (release-IsFrozen map frame.holds sh frozen, tt)
  step_at-IsFrozen map i sh (running panics) [] frozen r = tt
  step_at-IsFrozen map i sh (running panics) (frame ∷ frames) frozen r =
      (release-IsFrozen map frame.holds sh frozen, tt)
  step_at-IsFrozen map i sh (running (calls f next)) frames (set, free) r =
      rw set ((refl, free), tt)
  step_at-IsFrozen map i sh (running (initializes builder next)) frames (set, free) r =
      rw set ((refl, free), tt)
  step_at-IsFrozen map i sh (locking f next) frames frozen r = absurd r
