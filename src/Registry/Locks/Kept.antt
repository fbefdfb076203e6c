-- ===== src/Registry/Locks/Kept.antt =====
-- No step changes what locking again does.
use dcontext.Base.{
  ℕ, ◌≡◌, refl, Bool, true, false, none, some, List, [], ◌∷◌, Bool-cases, Option-cases, inl, inr,
  nat_eqb, Option,
}
use mathlib.Core.Path.{subst}
use dcontext.Registry.Locks.{
  done, panics, calls, initializes, Point, running, locking, Frame, Thread, Shared, System, Relock,
  blocks, fails, contend, release, step_at, move, run,
}
use dcontext.Registry.Locks.Moves.{WhenMoved, move-Holds, run-Holds}

release-relock : {D : Type 0} (b : Bool) (sh : Shared D) → (release b sh).relock ≡ sh.relock
unfolding release
release-relock true sh = refl
release-relock false sh = refl

module _ {D A : Type 0} where
  abbrev Keeps : Relock → Option (Shared D × Thread D A) → Type 0
  Keeps relock r = WhenMoved (λ sh t. (sh.relock ≡ relock) × Unit {0}) r

  relocked-Keeps :
      (sh : Shared D) (frames : List (Frame D A)) (relock : Relock)
      → Keeps sh.relock (elim relock [
        | blocks ↦ none
        | fails ↦ some (sh, record { point = running panics; frames = frames })
      ])
  relocked-Keeps sh frames blocks = tt
  relocked-Keeps sh frames fails = (refl, tt)

  contend-Keeps :
      (i j : ℕ) (sh : Shared D) (frames : List (Frame D A))
      → Keeps sh.relock (contend i j sh frames)
  unfolding contend
  contend-Keeps i j sh frames = elim (Bool-cases (nat_eqb j i)) [
    | inl same ↦ rw same (relocked-Keeps sh frames sh.relock)
    | inr other ↦ rw other tt
  ]

  step_at-Keeps :
      (i : ℕ) (sh : Shared D) (p : Point D A) (frames : List (Frame D A))
      → Keeps sh.relock (step_at i sh p frames)
  unfolding step_at
  step_at-Keeps i sh (running (done a)) [] = tt
  step_at-Keeps i sh (running (done a)) (frame ∷ frames) = (release-relock frame.holds sh, tt)
  step_at-Keeps i sh (running panics) [] = tt
  step_at-Keeps i sh (running panics) (frame ∷ frames) = (release-relock frame.holds sh, tt)
  step_at-Keeps i sh (running (calls f next)) frames = elim (Option-cases sh.globals.frozen) [
    | inl unset ↦ rw unset (refl, tt)
    | inr (map, set) ↦ rw set (refl, tt)
  ]
  step_at-Keeps i sh (running (initializes builder next)) frames = (refl, tt)
  step_at-Keeps i sh (locking f next) frames = elim (Option-cases sh.owner) [
    | inl free ↦ rw free (refl, tt)
    | inr (j, taken) ↦ rw taken (contend-Keeps i j (record sh { owner = some j }) frames)
  ]

  step-keeps :
      (relock : Relock) (i : ℕ) (sh : Shared D) (t : Thread D A)
      → sh.relock ≡ relock
      → WhenMoved (λ sh' t'. (sh'.relock ≡ relock) × Unit {0}) (step_at i sh t.point t.frames)
  step-keeps relock i sh t has =
      subst (λ r. Keeps r (step_at i sh t.point t.frames)) has (step_at-Keeps i sh t.point t.frames)

  pub relock-move : (i : ℕ) (s : System D A) → (move i s).shared.relock ≡ s.shared.relock
  relock-move i s =
      (move-Holds (λ sh. sh.relock ≡ s.shared.relock) (λ t. Unit {0})
        (λ i sh t has _. step-keeps s.shared.relock i sh t has) i s (refl, λ j. tt)).0

  pub relock-run : (turns : List ℕ) (s : System D A) → (run turns s).shared.relock ≡ s.shared.relock
  relock-run turns s =
      (run-Holds (λ sh. sh.relock ≡ s.shared.relock) (λ t. Unit {0})
        (λ i sh t has _. step-keeps s.shared.relock i sh t has) turns s (refl, λ j. tt)).0
