-- ===== src/Registry/Locks/Nested.antt =====
-- A callback that calls the library again before the registry is frozen.
use dcontext.Base.{
  ℕ, ◌≡◌, refl, ap, ◌∙◌, sym, Option, none, some, List, [], ◌∷◌, nat_eqb, nat_eqb_iff, true, false,
  Bool-cases, inl, inr, arith, if◌then◌else◌,
}
use dcontext.Registry.{RegistryMap}
use dcontext.Registry.Locks.{
  Relock, blocks, fails, contend, panics, Frame, Script, running, locking, calls, Thread, Shared,
  System, step_at, step, set_thread, settle, move, run, started,
}
use dcontext.Registry.Locks.Exclusion.{
  IsExclusive, guards, owns, owns_other, HasEffect, step-effect, move-IsExclusive, run-IsExclusive,
  started-IsExclusive,
}
use dcontext.Registry.Locks.Kept.{relock-move, relock-run}
use dcontext.Registry.Globals.{Globals}

nat_eqb-sym : (i j : ℕ) → nat_eqb i j ≡ false → nat_eqb j i ≡ false
nat_eqb-sym i j other = elim (Bool-cases (nat_eqb j i)) [
  | inl same ↦ absurd (cc (sym ((nat_eqb_iff i j).1 (sym ((nat_eqb_iff j i).0 same))) ∙ other))
  | inr differ ↦ differ
]

module _ {D A : Type 0} where
  -- The thread waits for the mutex that it has locked.
  abbrev pub WaitsForItself : ℕ → System D A → Type 0
  WaitsForItself i s =
      (s.shared.owner ≡ some i)
      × ((f : RegistryMap D → Script D A) × (next : A → Script D A) × ((s.threads i).point
            ≡ locking f next))

  -- A step of another thread, which has no guard.
  other-owner :
      (i j : ℕ) (owner : Option ℕ) (t : Thread D A) (sh : Shared D) (t' : Thread D A)
      → owner ≡ some i
      → nat_eqb i j ≡ false
      → guards t.frames ≡ owns owner j
      → HasEffect j owner t.frames (some (sh, t'))
      → sh.owner ≡ some i
  other-owner i j owner t sh t' owned other exclusive (inl (kept, _)) = kept ∙ owned
  other-owner i j owner t sh t' owned other exclusive (inr (inl (_, dropped))) =
      absurd
        (omega (arith, sym dropped ∙ exclusive ∙ ap (λ o. owns o j) owned ∙ owns_other i j other))
  other-owner i j owner t sh t' owned other exclusive (inr (inr (free, _, _))) = cc

  -- A thread in `lock_build` while the mutex is locked.
  locking-contend :
      (i j : ℕ) (s : System D A) (f : RegistryMap D → Script D A) (next : A → Script D A)
      → s.shared.owner ≡ some i
      → (s.threads j).point ≡ locking f next
      → step j s ≡ contend j i s.shared (s.threads j).frames
  unfolding step step_at
  locking-contend i j s f next owned at_lock =
      ap (λ p. step_at j s.shared p (s.threads j).frames) at_lock
      ∙ ap
          (λ o. elim o [
            | some k ↦ contend j k s.shared (s.threads j).frames
            | none ↦
                step_at j (record s.shared { owner = none }) (locking f next) (s.threads j).frames
          ])
          owned

  contend-blocks :
      (j i : ℕ) (sh : Shared D) (frames : List (Frame D A))
      → sh.relock ≡ blocks
      → contend j i sh frames ≡ none
  unfolding contend
  contend-blocks j i sh frames blocking = elim (Bool-cases (nat_eqb i j)) [
    | inl same ↦ rw (same, blocking) refl
    | inr other ↦ rw other refl
  ]

  relocked : Shared D → List (Frame D A) → Relock → Option (Shared D × Thread D A)
  relocked sh frames blocks = none
  relocked sh frames fails = some (sh, record { point = running panics; frames = frames })

  contend-fails :
      (i : ℕ) (sh : Shared D) (frames : List (Frame D A))
      → sh.relock ≡ fails
      → contend i i sh frames ≡ some (sh, record { point = running panics; frames = frames })
  unfolding contend relocked
  contend-fails i sh frames failing =
      ap (λ b. if b then relocked sh frames sh.relock else none) ((nat_eqb_iff i i).1 refl)
      ∙ ap (relocked sh frames) failing

  locking-waits :
      (i j : ℕ) (s : System D A) (f : RegistryMap D → Script D A) (next : A → Script D A)
      → s.shared.relock ≡ blocks
      → s.shared.owner ≡ some i
      → (s.threads j).point ≡ locking f next
      → step j s ≡ none
  locking-waits i j s f next blocking owned at_lock =
      locking-contend i j s f next owned at_lock
      ∙ contend-blocks j i s.shared (s.threads j).frames blocking

  other-WaitsForItself :
      (i j : ℕ) (s : System D A) (r : Option (Shared D × Thread D A))
      → IsExclusive s
      → WaitsForItself i s
      → nat_eqb i j ≡ false
      → HasEffect j s.shared.owner (s.threads j).frames r
      → WaitsForItself i (settle j s r)
  unfolding set_thread settle
  other-WaitsForItself i j s none exclusive waits other effect = waits
  other-WaitsForItself i j s (some (sh, t)) exclusive (owned, (f, next, at_lock)) other effect = (
    other-owner i j s.shared.owner (s.threads j) sh t owned other (exclusive j) effect,
    (f, next, ap (λ b. (if b then t else s.threads i).point) (nat_eqb-sym i j other) ∙ at_lock),
  )

  move-WaitsForItself :
      (i j : ℕ) (s : System D A)
      → s.shared.relock ≡ blocks
      → IsExclusive s
      → WaitsForItself i s
      → WaitsForItself i (move j s)
  unfolding move
  move-WaitsForItself i j s blocking exclusive (owned, (f, next, at_lock)) =
      elim (Bool-cases (nat_eqb i j)) [
        | inl same ↦
            let still : step j s ≡ none =
              ap (λ k. step k s) (sym ((nat_eqb_iff i j).0 same))
              ∙ locking-waits i i s f next blocking owned at_lock in
            rw (still, move) (owned, (f, next, at_lock))
        | inr other ↦
            other-WaitsForItself i j s (step j s) exclusive (owned, (f, next, at_lock)) other
              (step-effect j s)
      ]

  run-WaitsForItself :
      (i : ℕ) (turns : List ℕ) (s : System D A)
      → s.shared.relock ≡ blocks
      → IsExclusive s
      → WaitsForItself i s
      → WaitsForItself i (run turns s)
  unfolding run
  run-WaitsForItself i [] s blocking exclusive waits = waits
  run-WaitsForItself i (j ∷ turns) s blocking exclusive waits =
      run-WaitsForItself i turns (move j s) (relock-move j s ∙ blocking)
        (move-IsExclusive j s exclusive) (move-WaitsForItself i j s blocking exclusive waits)

  step-call :
      (i : ℕ) (s : System D A) (f : RegistryMap D → Script D A) (next : A → Script D A)
      → s.shared.globals.frozen ≡ none
      → (s.threads i).point ≡ running (calls f next)
      → step i s ≡ some (s.shared, record { point = locking f next; frames = (s.threads i).frames })
  unfolding step step_at
  step-call i s f next unset at_call =
      ap (λ p. step_at i s.shared p (s.threads i).frames) at_call
      ∙ ap
          (λ o. elim o [
            | some map ↦ some (
              s.shared,
              record {
                point = running (f map);
                frames = record { holds = false; next = next } ∷ (s.threads i).frames;
              },
            )
            | none ↦
                some (s.shared, record { point = locking f next; frames = (s.threads i).frames })
          ])
          unset

  call-WaitsForItself :
      (i : ℕ) (s : System D A) (f : RegistryMap D → Script D A) (next : A → Script D A)
      → s.shared.globals.frozen ≡ none
      → s.shared.owner ≡ some i
      → (s.threads i).point ≡ running (calls f next)
      → WaitsForItself i (move i s)
  unfolding move settle set_thread
  call-WaitsForItself i s f next unset owned at_call =
      let at : Thread D A = record { point = locking f next; frames = (s.threads i).frames } in
      let same : nat_eqb i i ≡ true = (nat_eqb_iff i i).1 refl in
      rw (step-call i s f next unset at_call, move)
        (owned, (f, next, ap (λ b. (if b then at else s.threads i).point) same))

  -- What becomes of thread `i` in `lock_build`, and of those that wait with it, if it has the mutex.
  unfoldable pub NeverReturns : Relock → ℕ → List ℕ → System D A → Type 0
  NeverReturns blocks i later s =
      (step i (run later s) ≡ none)
      × ((j : ℕ) (g : RegistryMap D → Script D A) (after : A → Script D A)
          → ((run later s).threads j).point ≡ locking g after
          → step j (run later s) ≡ none)
  NeverReturns fails i later s =
      step i s ≡ some (s.shared, record { point = running panics; frames = (s.threads i).frames })

  waits-NeverReturns :
      (relock : Relock) (i : ℕ) (later : List ℕ) (s : System D A)
      → s.shared.relock ≡ relock
      → IsExclusive s
      → WaitsForItself i s
      → NeverReturns relock i later s
  unfolding NeverReturns
  waits-NeverReturns blocks i later s blocking exclusive waits =
      let (owned, (f, next, at_lock)) = run-WaitsForItself i later s blocking exclusive waits in
      let still = relock-run later s ∙ blocking in
      (
        locking-waits i i (run later s) f next still owned at_lock,
        λ j g after at. locking-waits i j (run later s) g after still owned at,
      )
  waits-NeverReturns fails i later s failing exclusive (owned, (f, next, at_lock)) =
      locking-contend i i s f next owned at_lock
      ∙ contend-fails i s.shared (s.threads i).frames failing

  -- If, while the registry is not frozen, a callback that runs with the guard of `BUILD` calls the
  -- library again, that call does not return. Where locking again blocks, neither its thread nor any
  -- thread that waits for the mutex can ever make a step, whatever the threads do; where it panics,
  -- the panic is the next step of the thread.
  pub nested-NeverReturns :
      (relock : Relock) (globals : Globals D) (scripts : ℕ → Script D A) (turns later : List ℕ)
      (i : ℕ) (f : RegistryMap D → Script D A) (next : A → Script D A)
      → (run turns (started relock globals scripts)).shared.globals.frozen ≡ none
      → (run turns (started relock globals scripts)).shared.owner ≡ some i
      → ((run turns (started relock globals scripts)).threads i).point ≡ running (calls f next)
      → NeverReturns relock i later (move i (run turns (started relock globals scripts)))
  nested-NeverReturns relock globals scripts turns later i f next unset owned at_call =
      let before = run turns (started relock globals scripts) in
      let exclusive : IsExclusive before =
        run-IsExclusive turns (started relock globals scripts)
          (started-IsExclusive relock globals scripts) in
      waits-NeverReturns relock i later (move i before)
        (relock-move i before ∙ relock-run turns (started relock globals scripts))
        (move-IsExclusive i before exclusive)
        (call-WaitsForItself i before f next unset owned at_call)
