-- ===== src/Registry/Locks/Alone.antt =====
-- What a thread does alone, with a frozen registry.
use dcontext.Base.{
  ℕ, zero, suc, ◌+◌, ◌≡◌, refl, ap, ◌∙◌, false, Option, none, some, List, [], ◌∷◌, err, arith,
}
use dcontext.Error.{registry_frozen}
use dcontext.Registry.{RegistryMap}
use dcontext.Registry.Locks.{Script, done, panics, calls, initializes, running, Frame, Thread}

module _ {D A : Type 0} (map : RegistryMap D) where
  -- What code returns when it is called with the frozen registry: `none` if it panics.
  unfoldable pub result : Script D A → Option A
  result (done a) = some a
  result panics = none
  result (calls f next) = elim (result (f map)) [ none ↦ none | some a ↦ result (next a) ]
  result (initializes builder next) = result (next (err registry_frozen))

  -- The steps that it takes.
  unfoldable pub cost : Script D A → ℕ
  unfolding result
  cost (done a) = 0
  cost panics = 0
  cost (calls f next) =
      2 + cost (f map) + elim (result (f map)) [ none ↦ 0 | some a ↦ cost (next a) ]
  cost (initializes builder next) = 1 + cost (next (err registry_frozen))

  abbrev pub ended : Option A → Script D A
  ended none = panics
  ended (some a) = done a

  abbrev pub at : Script D A → List (Frame D A) → Thread D A
  at script frames = record { point = running script; frames = frames }

  -- A thread after so many steps.
  unfoldable pub ahead : ℕ → Script D A → List (Frame D A) → Thread D A
  ahead zero script frames = at script frames
  ahead (suc n) (done a) [] = at (done a) []
  ahead (suc n) (done a) (frame ∷ frames) = ahead n (frame.next a) frames
  ahead (suc n) panics [] = at panics []
  ahead (suc n) panics (frame ∷ frames) = ahead n panics frames
  ahead (suc n) (calls f next) frames =
      ahead n (f map) (record { holds = false; next = next } ∷ frames)
  ahead (suc n) (initializes builder next) frames = ahead n (next (err registry_frozen)) frames

  -- The steps after the callback of a call.
  abbrev cost_after : (A → Script D A) → Option A → ℕ
  cost_after next none = 0
  cost_after next (some a) = cost (next a)

  abbrev result_after : (A → Script D A) → Option A → Option A
  result_after next none = none
  result_after next (some a) = result (next a)

  return-ahead :
      (k : ℕ) (o : Option A) (next : A → Script D A) (frames : List (Frame D A))
      → ((a : A)
          → ahead (cost (next a) + k) (next a) frames ≡ ahead k (ended (result (next a))) frames)
      → ahead
          (suc (cost_after next o + k))
          (ended o)
          (record { holds = false; next = next } ∷ frames)
        ≡ ahead k (ended (result_after next o)) frames
  unfolding ahead
  return-ahead k none next frames later = ap (λ n. ahead n panics frames) (omega arith)
  return-ahead k (some a) next frames later = later a

  pub cost-ahead :
      (script : Script D A) (k : ℕ) (frames : List (Frame D A))
      → ahead (cost script + k) script frames ≡ ahead k (ended (result script)) frames
  unfolding ahead cost result
  cost-ahead (done a) k frames = ap (λ n. ahead n (done a) frames) (omega arith)
  cost-ahead panics k frames = ap (λ n. ahead n panics frames) (omega arith)
  cost-ahead (calls f next) k frames =
      let after = cost_after next (result (f map)) + k in
      let frame : Frame D A = record { holds = false; next = next } in
      let steps : cost (calls f next) + k ≡ suc (cost (f map) + suc after) = omega arith in
      ap (λ n. ahead n (calls f next) frames) steps
      ∙ cost-ahead (f map) (suc after) (frame ∷ frames)
      ∙ return-ahead k (result (f map)) next frames (λ a. cost-ahead (next a) k frames)
  cost-ahead (initializes builder next) k frames =
      let after = cost (next (err registry_frozen)) + k in
      let steps : cost (initializes builder next) + k ≡ suc after = omega arith in
      ap (λ n. ahead n (initializes builder next) frames) steps
      ∙ cost-ahead (next (err registry_frozen)) k frames

  pub ended-ahead : (k : ℕ) (o : Option A) → ahead k (ended o) [] ≡ at (ended o) []
  unfolding ahead
  ended-ahead zero o = refl
  ended-ahead (suc k) none = refl
  ended-ahead (suc k) (some a) = refl
