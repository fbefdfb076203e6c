-- ===== src/Registry/Locks/Exclusion.antt =====
-- The mutex of `BUILD` has at most one owner, which is in a callback.
use dcontext.Base.{
  ℕ, suc, ◌+◌, ◌≡◌, refl, ap, ◌∙◌, sym, Bool, false, true, Option, none, some, List, [], ◌∷◌,
  nat_eqb, if◌then◌else◌, nat_eqb_iff, arith, Option-cases, ◌⊎◌, Bool-cases, inl, inr,
}
use dcontext.Registry.Locks.{
  Relock, blocks, fails, contend, Script, done, panics, calls, initializes, Point, running, locking,
  Frame, Thread, Shared, System, release, step_at, step, set_thread, settle, move, run, started,
}
use dcontext.Registry.Globals.{Globals}

unfoldable pub owns : Option ℕ → ℕ → ℕ
owns none i = 0
owns (some j) i = if nat_eqb j i then 1 else 0

owns-taken : (owner : Option ℕ) (i n : ℕ) → owns owner i ≡ suc n → (n ≡ 0) × (owner ≡ some i)
unfolding owns
owns-taken none i n owned = absurd (omega (arith, owned))
owns-taken (some j) i n owned = elim (Bool-cases (nat_eqb j i)) [
  | inl same ↦ (
    omega (arith, sym owned ∙ ap (λ b. if b then 1 else 0) same),
    ap some ((nat_eqb_iff j i).0 same),
  )
  | inr other ↦ absurd (omega (arith, sym owned ∙ ap (λ b. if b then 1 else 0) other))
]

owns_self : (i : ℕ) → owns (some i) i ≡ 1
unfolding owns
owns_self i = rw ((nat_eqb_iff i i).1 refl) refl

pub owns_other : (i j : ℕ) → nat_eqb i j ≡ false → owns (some i) j ≡ 0
unfolding owns
owns_other i j other = rw other refl

module _ {D A : Type 0} where
  -- How many guards the frames have.
  unfoldable pub guards : List (Frame D A) → ℕ
  guards [] = 0
  guards (frame ∷ frames) = (if frame.holds then 1 else 0) + guards frames

  abbrev pub IsExclusive : System D A → Type 0
  IsExclusive s = (i : ℕ) → guards (s.threads i).frames ≡ owns s.shared.owner i

  -- What a step of thread `i` does to the mutex and to its guards: nothing, unlock, or lock.
  abbrev pub HasEffect : ℕ → Option ℕ → List (Frame D A) → Option (Shared D × Thread D A) → Type 0
  HasEffect i owner frames none = Unit
  HasEffect i owner frames (some (sh, t)) =
      ((sh.owner ≡ owner) × (guards t.frames ≡ guards frames))
      ⊎ ((sh.owner ≡ none) × (guards frames ≡ suc (guards t.frames)))
      ⊎ ((owner ≡ none) × (sh.owner ≡ some i) × (guards t.frames ≡ suc (guards frames)))

  returns-effect :
      (i : ℕ) (sh : Shared D) (p : Point D A) (holds : Bool) (next : A → Script D A)
      (frames : List (Frame D A))
      → HasEffect i sh.owner
          (record { holds = holds; next = next } ∷ frames)
          (some (release holds sh, record { point = p; frames = frames }))
  unfolding release guards
  returns-effect i sh p true next frames = inr (inl (refl, omega arith))
  returns-effect i sh p false next frames = inl (refl, omega arith)

  relocked-effect :
      (i j : ℕ) (sh : Shared D) (frames : List (Frame D A)) (relock : Relock)
      → sh.owner ≡ some j
      → HasEffect i (some j) frames (elim relock [
        | blocks ↦ none
        | fails ↦ some (sh, record { point = running panics; frames = frames })
      ])
  relocked-effect i j sh frames blocks taken = tt
  relocked-effect i j sh frames fails taken = inl (taken, refl)

  contend-effect :
      (i j : ℕ) (sh : Shared D) (frames : List (Frame D A))
      → sh.owner ≡ some j
      → HasEffect i (some j) frames (contend i j sh frames)
  unfolding contend
  contend-effect i j sh frames taken = elim (Bool-cases (nat_eqb j i)) [
    | inl same ↦ rw same (relocked-effect i j sh frames sh.relock taken)
    | inr other ↦ rw other tt
  ]

  step_at-effect :
      (i : ℕ) (sh : Shared D) (p : Point D A) (frames : List (Frame D A))
      → HasEffect i sh.owner frames (step_at i sh p frames)
  unfolding step_at guards
  step_at-effect i sh (running (done a)) [] = tt
  step_at-effect i sh (running (done a)) (frame ∷ frames) =
      returns-effect i sh (running (frame.next a)) frame.holds frame.next frames
  step_at-effect i sh (running panics) [] = tt
  step_at-effect i sh (running panics) (frame ∷ frames) =
      returns-effect i sh (running panics) frame.holds frame.next frames
  step_at-effect i sh (running (calls f next)) frames = elim (Option-cases sh.globals.frozen) [
    | inl unset ↦ rw unset (inl (refl, refl))
    | inr (map, set) ↦ rw set (inl (refl, omega arith))
  ]
  step_at-effect i sh (running (initializes builder next)) frames = inl (refl, refl)
  step_at-effect i sh (locking f next) frames = elim (Option-cases sh.owner) [
    | inl free ↦ rw free (inr (inr (refl, refl, omega arith)))
    | inr (j, taken) ↦ rw taken (contend-effect i j (record sh { owner = some j }) frames refl)
  ]

  pub step-effect :
      (i : ℕ) (s : System D A) → HasEffect i s.shared.owner (s.threads i).frames (step i s)
  unfolding step
  step-effect i s = step_at-effect i s.shared (s.threads i).point (s.threads i).frames

  changed-IsExclusive :
      (i : ℕ) (s : System D A) (sh : Shared D) (t : Thread D A)
      → IsExclusive s
      → guards t.frames ≡ owns sh.owner i
      → ((j : ℕ) → nat_eqb i j ≡ false → owns sh.owner j ≡ owns s.shared.owner j)
      → IsExclusive (record { shared = sh; threads = set_thread i t s.threads })
  unfolding set_thread
  changed-IsExclusive i s sh t exclusive at_i others j = elim (Bool-cases (nat_eqb i j)) [
    | inl same ↦ rw same (at_i ∙ ap (owns sh.owner) ((nat_eqb_iff i j).0 same))
    | inr other ↦ rw other (exclusive j ∙ sym (others j other))
  ]

  effect-IsExclusive :
      (i : ℕ) (s : System D A) (r : Option (Shared D × Thread D A))
      → HasEffect i s.shared.owner (s.threads i).frames r
      → IsExclusive s
      → IsExclusive (settle i s r)
  unfolding owns settle
  effect-IsExclusive i s none effect exclusive = exclusive
  effect-IsExclusive i s (some (sh, t)) (inl (owner, kept)) exclusive =
      changed-IsExclusive i s sh t exclusive (kept ∙ exclusive i ∙ sym (ap (λ o. owns o i) owner))
        (λ j _. ap (λ o. owns o j) owner)
  effect-IsExclusive i s (some (sh, t)) (inr (inl (owner, dropped))) exclusive =
      let (none_left, owned) =
        owns-taken s.shared.owner i (guards t.frames) (sym (exclusive i) ∙ dropped) in
      changed-IsExclusive i s sh t exclusive (none_left ∙ ap (λ o. owns o i) (sym owner))
        (λ j other.
          ap (λ o. owns o j) owner ∙ sym (ap (λ o. owns o j) owned ∙ owns_other i j other))
  effect-IsExclusive i s (some (sh, t)) (inr (inr (free, owner, taken))) exclusive =
      changed-IsExclusive i s sh t exclusive
        (taken
          ∙ ap suc (exclusive i ∙ ap (λ o. owns o i) free)
          ∙ sym (ap (λ o. owns o i) owner ∙ owns_self i))
        (λ j other. ap (λ o. owns o j) owner ∙ owns_other i j other ∙ sym (ap (λ o. owns o j) free))

  pub move-IsExclusive : (i : ℕ) (s : System D A) → IsExclusive s → IsExclusive (move i s)
  unfolding move step
  move-IsExclusive i s = effect-IsExclusive i s (step i s) (step-effect i s)

  pub run-IsExclusive :
      (turns : List ℕ) (s : System D A) → IsExclusive s → IsExclusive (run turns s)
  unfolding run
  run-IsExclusive [] s exclusive = exclusive
  run-IsExclusive (i ∷ turns) s exclusive =
      run-IsExclusive turns (move i s) (move-IsExclusive i s exclusive)

  pub started-IsExclusive :
      (relock : Relock) (globals : Globals D) (scripts : ℕ → Script D A)
      → IsExclusive (started relock globals scripts)
  unfolding guards owns
  started-IsExclusive relock globals scripts i = refl
