-- ===== src/Registry/Locks/Moves.antt =====
-- Steps that are made, and what all the threads keep.
use dcontext.Base.{
  ℕ, ◌≡◌, ◌≢◌, refl, Bool, true, false, Option, none, some, List, [], ◌∷◌, nat_eqb, nat_eqb_iff,
  Bool-cases, Option-cases, ◌⊎◌, inl, inr,
}
use mathlib.Core.Path.{subst}
use dcontext.Registry.Locks.{
  Script, done, panics, calls, initializes, Point, running, Frame, Thread, Shared, System, step_at,
  step, set_thread, settle, move, run,
}

module _ {D A : Type 0} where
  unfoldable pub has_ended : Point D A → List (Frame D A) → Bool
  has_ended (running (done a)) [] = true
  has_ended (running panics) [] = true
  has_ended _ _ = false

  -- A step has been made.
  abbrev pub IsMoved : Option (Shared D × Thread D A) → Type 0
  IsMoved none = ⊥
  IsMoved (some _) = Unit

  abbrev pub WhenMoved : (Shared D → Thread D A → Type 0) → Option (Shared D × Thread D A) → Type 0
  WhenMoved P none = Unit
  WhenMoved P (some (sh, t)) = P sh t

  pub moved-some : (r : Option (Shared D × Thread D A)) → IsMoved r → r ≢ none
  moved-some r moved gone = subst IsMoved gone moved

  pub inside-moves :
      (i : ℕ) (sh : Shared D) (script : Script D A) (frame : Frame D A) (frames : List (Frame D A))
      → IsMoved (step_at i sh (running script) (frame ∷ frames))
  unfolding step_at
  inside-moves i sh (done a) frame frames = tt
  inside-moves i sh panics frame frames = tt
  inside-moves i sh (calls f next) frame frames = elim (Option-cases sh.globals.frozen) [
    | inl unset ↦ rw unset tt
    | inr (map, set) ↦ rw set tt
  ]
  inside-moves i sh (initializes builder next) frame frames = tt

  pub running-moves :
      (i : ℕ) (sh : Shared D) (script : Script D A) (frames : List (Frame D A))
      → (has_ended (running script) frames ≡ true) ⊎ IsMoved (step_at i sh (running script) frames)
  unfolding has_ended step_at
  running-moves i sh script (frame ∷ frames) = inr (inside-moves i sh script frame frames)
  running-moves i sh (done a) [] = inl refl
  running-moves i sh panics [] = inl refl
  running-moves i sh (calls f next) [] = inr (elim (Option-cases sh.globals.frozen) [
    | inl unset ↦ rw unset tt
    | inr (map, set) ↦ rw set tt
  ])
  running-moves i sh (initializes builder next) [] = inr tt

  -- The thread after a step, if it is made.
  abbrev pub moved : Thread D A → Option (Shared D × Thread D A) → Thread D A
  moved t none = t
  moved t (some (sh, t')) = t'

  moved_self :
      (i : ℕ) (s : System D A) (r : Option (Shared D × Thread D A))
      → (settle i s r).threads i ≡ moved (s.threads i) r
  unfolding set_thread settle
  moved_self i s none = refl
  moved_self i s (some (sh, t)) = rw ((nat_eqb_iff i i).1 refl) refl

  moved_other :
      (i j : ℕ) (s : System D A) (r : Option (Shared D × Thread D A))
      → nat_eqb j i ≡ false
      → (settle j s r).threads i ≡ s.threads i
  unfolding set_thread settle
  moved_other i j s none other = refl
  moved_other i j s (some (sh, t)) other = rw other refl

  pub move_self : (i : ℕ) (s : System D A) → (move i s).threads i ≡ moved (s.threads i) (step i s)
  unfolding move
  move_self i s = moved_self i s (step i s)

  pub move_other :
      (i j : ℕ) (s : System D A) → nat_eqb j i ≡ false → (move j s).threads i ≡ s.threads i
  unfolding move
  move_other i j s other = moved_other i j s (step j s) other

  -- `Q` holds of what is shared, and `P` of every thread.
  module _ (Q : Shared D → Type 0) (P : Thread D A → Type 0)
      (step-keeps : (i : ℕ) (sh : Shared D) (t : Thread D A)
        → Q sh
        → P t
        → WhenMoved (λ sh' t'. Q sh' × P t') (step_at i sh t.point t.frames)) where
    abbrev pub Holds : System D A → Type 0
    Holds s = Q s.shared × ((j : ℕ) → P (s.threads j))

    moved-Holds :
        (i : ℕ) (s : System D A) (r : Option (Shared D × Thread D A))
        → WhenMoved (λ sh t. Q sh × P t) r
        → Holds s
        → Holds (settle i s r)
    unfolding set_thread settle
    moved-Holds i s none kept holds = holds
    moved-Holds i s (some (sh, t)) (shared, kept) (_, all) = (
      shared,
      λ j. elim (Bool-cases (nat_eqb i j)) [
        | inl same ↦ rw same kept
        | inr other ↦ rw other (all j)
      ],
    )

    pub move-Holds : (i : ℕ) (s : System D A) → Holds s → Holds (move i s)
    unfolding move step
    move-Holds i s (shared, all) =
        moved-Holds i s (step i s) (step-keeps i s.shared (s.threads i) shared (all i))
          (shared, all)

    pub run-Holds : (turns : List ℕ) (s : System D A) → Holds s → Holds (run turns s)
    unfolding run
    run-Holds [] s holds = holds
    run-Holds (i ∷ turns) s holds = run-Holds turns (move i s) (move-Holds i s holds)
