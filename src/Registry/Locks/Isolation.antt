-- ===== src/Registry/Locks/Isolation.antt =====
-- With a frozen registry a thread does what it does alone, whatever the others do.
use dcontext.Base.{
  ℕ, suc, ◌+◌, ◌≤◌, ◌-◌, ◌≡◌, refl, ap, ◌∙◌, sym, false, none, some, List, [], ◌∷◌, err, nat_eqb,
  nat_eqb_iff, Bool-cases, inl, inr, arith, if◌then◌else◌,
}
use dcontext.Error.{registry_frozen}
use dcontext.Registry.{RegistryMap}
use dcontext.Registry.Locks.{
  Relock, Script, done, panics, calls, initializes, running, Frame, Shared, System, step_at, step,
  move, run, start, started,
}
use dcontext.Registry.Locks.Moves.{moved, move_self, move_other, move-Holds}
use dcontext.Registry.Locks.Frozen.{IsFrozen, IsRunning, step_at-IsFrozen}
use dcontext.Registry.Locks.Alone.{at, ahead, result, cost, ended, cost-ahead, ended-ahead}
use dcontext.Registry.Globals.{Globals, try_initialize}

-- The turns of one thread.
unfoldable pub turns_of : ℕ → List ℕ → ℕ
turns_of i [] = 0
turns_of i (j ∷ turns) = if nat_eqb j i then suc (turns_of i turns) else turns_of i turns

module _ {D A : Type 0} (map : RegistryMap D) where
  abbrev IsAllRunning : System D A → Type 0
  IsAllRunning s = IsFrozen map s.shared × ((j : ℕ) → IsRunning (s.threads j).point)

  move-IsAllRunning : (i : ℕ) (s : System D A) → IsAllRunning s → IsAllRunning (move i s)
  move-IsAllRunning =
      move-Holds (IsFrozen map) (λ t. IsRunning t.point)
        (λ i sh t frozen r. step_at-IsFrozen map i sh t.point t.frames frozen r)

  step_at-ahead :
      (i n : ℕ) (sh : Shared D) (script : Script D A) (frames : List (Frame D A))
      → sh.globals.frozen ≡ some map
      → (script' : Script D A) × (frames' : List (Frame D A)) × (moved
            (at map script frames)
            (step_at i sh (running script) frames)
          ≡ at map script' frames')
        × (ahead map (suc n) script frames ≡ ahead map n script' frames')
  unfolding step_at ahead try_initialize
  step_at-ahead i n sh (done a) [] set = (done a, [], refl, sym (ended-ahead map n (some a)))
  step_at-ahead i n sh (done a) (frame ∷ frames) set = (frame.next a, frames, refl, refl)
  step_at-ahead i n sh panics [] set = (panics, [], refl, sym (ended-ahead map n none))
  step_at-ahead i n sh panics (frame ∷ frames) set = (panics, frames, refl, refl)
  step_at-ahead i n sh (calls f next) frames set =
      (f map, record { holds = false; next = next } ∷ frames, rw set refl, refl)
  step_at-ahead i n sh (initializes builder next) frames set =
      (next (err registry_frozen), frames, rw set refl, refl)

  run-ahead :
      (i : ℕ) (turns : List ℕ) (s : System D A) (script : Script D A) (frames : List (Frame D A))
      → IsAllRunning s
      → s.threads i ≡ at map script frames
      → (run turns s).threads i ≡ ahead map (turns_of i turns) script frames
  unfolding run turns_of step ahead
  run-ahead i [] s script frames all here = here
  run-ahead i (j ∷ turns) s script frames all here = elim (Bool-cases (nat_eqb j i)) [
    | inl same ↦
        let (script', frames', stepped, later) =
          step_at-ahead i (turns_of i turns) s.shared script frames all.0.0 in
        let here' : (move i s).threads i ≡ at map script' frames' =
          move_self i s ∙ ap (λ t. moved t (step_at i s.shared t.point t.frames)) here ∙ stepped in
        rw same (
          run-ahead i turns (move j s) script' frames' (move-IsAllRunning j s all)
            (ap (λ k. (move k s).threads i) ((nat_eqb_iff j i).0 same) ∙ here')
          ∙ sym later)
    | inr other ↦ rw other (
        run-ahead i turns (move j s) script frames (move-IsAllRunning j s all)
          (move_other i j s other ∙ here))
  ]

-- With a frozen registry, in every interleaving, and with callbacks that use the registry again to
-- any depth: a thread that has had as many turns as its code takes steps alone has ended, with the
-- result that its code gives alone, or with its panic.
pub isolation :
    {D A : Type 0} (map : RegistryMap D) (relock : Relock) (globals : Globals D)
    (scripts : ℕ → Script D A)
    → globals.frozen ≡ some map
    → (turns : List ℕ) (i : ℕ) → cost map (scripts i) ≤ turns_of i turns
    → (run turns (started relock globals scripts)).threads i
      ≡ start (ended map (result map (scripts i)))
isolation map relock globals scripts set turns i enough =
    let spare = turns_of i turns - cost map (scripts i) in
    let split : turns_of i turns ≡ cost map (scripts i) + spare = omega (arith, enough) in
    run-ahead map i turns (started relock globals scripts) (scripts i) [] ((set, refl), λ _. tt)
      refl
    ∙ ap (λ n. ahead map n (scripts i) []) split
    ∙ cost-ahead map (scripts i) spare []
    ∙ ended-ahead map spare (result map (scripts i))
