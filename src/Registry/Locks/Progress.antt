-- ===== src/Registry/Locks/Progress.antt =====
-- Where threads that use the registry never wait for each other for ever.
use dcontext.Base.{
  nat_eqb, Bool-cases, ℕ, ◌≡◌, ◌≢◌, refl, ap, ◌∙◌, Bool, true, false, none, some, List, [], ◌∷◌,
  nat_eqb_iff, Option-cases, ◌⊎◌, inl, inr, arith, if◌then◌else◌,
}
use dcontext.Registry.{RegistryMap}
use dcontext.Registry.Locks.{
  Relock, blocks, fails, contend, Script, done, panics, calls, initializes, Point, running, locking,
  Frame, Shared, System, release, build_map, step_at, step, run, started,
}
use dcontext.Registry.Locks.Exclusion.{
  IsExclusive, guards, owns, run-IsExclusive, started-IsExclusive,
}
use dcontext.Registry.Locks.Moves.{
  IsMoved, WhenMoved, has_ended, moved-some, inside-moves, running-moves, run-Holds,
}
use dcontext.Registry.Globals.{Globals, try_initialize}

abbrev HasBuild : {D : Type 0} → RegistryMap D → Shared D → Type 0
HasBuild build sh = build_map sh.globals ≡ build

release-HasBuild :
    {D : Type 0} (build : RegistryMap D) (b : Bool) (sh : Shared D)
    → HasBuild build sh
    → HasBuild build (release b sh)
unfolding release
release-HasBuild build true sh has = has
release-HasBuild build false sh has = has

initialize-HasBuild :
    {D : Type 0} (build builder : RegistryMap D) (sh : Shared D)
    → build_map sh.globals ≡ build
    → build_map (try_initialize builder sh.globals).0 ≡ build
unfolding try_initialize build_map
initialize-HasBuild build builder sh has = elim (Option-cases sh.globals.frozen) [
  | inl unset ↦ rw unset has
  | inr (map, set) ↦ rw set has
]

module _ {D A : Type 0} where
  -- Code that does not use the registry.
  unfoldable pub IsInner : Script D A → Type 0
  IsInner (done a) = Unit
  IsInner panics = Unit
  IsInner (calls f next) = ⊥
  IsInner (initializes builder next) = (r : _) → IsInner (next r)

  -- Code that uses the registry, also in its callbacks, but not in those that get the map of
  -- `BUILD`.
  unfoldable pub IsFlat : RegistryMap D → Script D A → Type 0
  unfolding IsInner
  IsFlat build (done a) = Unit
  IsFlat build panics = Unit
  IsFlat build (calls f next) =
      IsInner (f build) × ((map : _) → IsFlat build (f map)) × ((a : A) → IsFlat build (next a))
  IsFlat build (initializes builder next) = (r : _) → IsFlat build (next r)

  AllFlat : RegistryMap D → List (Frame D A) → Type 0
  AllFlat build [] = Unit
  AllFlat build (frame ∷ frames) = ((a : A) → IsFlat build (frame.next a)) × AllFlat build frames

  -- Only the innermost frame may have the guard, and then its callback does not use the registry.
  abbrev OuterFree : List (Frame D A) → Type 0
  OuterFree [] = ⊥
  OuterFree (frame ∷ frames) = guards frames ≡ 0

  abbrev IsFlatAt : RegistryMap D → Point D A → List (Frame D A) → Type 0
  IsFlatAt build (running script) frames =
      IsFlat build script
      × AllFlat build frames
      × ((guards frames ≡ 0) ⊎ (IsInner script × OuterFree frames))
  IsFlatAt build (locking f next) frames =
      IsFlat build (calls f next) × AllFlat build frames × (guards frames ≡ 0)

  outer-free :
      (frame : Frame D A) (frames : List (Frame D A)) (X : Type 0)
      → (guards (frame ∷ frames) ≡ 0) ⊎ (X × (guards frames ≡ 0))
      → guards frames ≡ 0
  unfolding guards
  outer-free frame frames X (inl free) = omega (arith, free)
  outer-free frame frames X (inr (_, free)) = free

  relocked-IsFlatAt :
      (build : RegistryMap D) (sh : Shared D) (frames : List (Frame D A)) (relock : Relock)
      → HasBuild build sh
      → AllFlat build frames
      → guards frames ≡ 0
      → WhenMoved
          (λ sh' t. HasBuild build sh' × IsFlatAt build t.point t.frames)
          (elim relock [
            | blocks ↦ none
            | fails ↦ some (sh, record { point = running panics; frames = frames })
          ])
  unfolding IsFlat
  relocked-IsFlatAt build sh frames blocks b all free = tt
  relocked-IsFlatAt build sh frames fails b all free = (b, (tt, all, inl free))

  contend-IsFlatAt :
      (build : RegistryMap D) (i j : ℕ) (sh : Shared D) (frames : List (Frame D A))
      → HasBuild build sh
      → AllFlat build frames
      → guards frames ≡ 0
      → WhenMoved
          (λ sh' t. HasBuild build sh' × IsFlatAt build t.point t.frames)
          (contend i j sh frames)
  unfolding contend
  contend-IsFlatAt build i j sh frames b all free = elim (Bool-cases (nat_eqb j i)) [
    | inl same ↦ rw same (relocked-IsFlatAt build sh frames sh.relock b all free)
    | inr other ↦ rw other tt
  ]

  step_at-IsFlatAt :
      (build : RegistryMap D) (i : ℕ) (sh : Shared D) (p : Point D A) (frames : List (Frame D A))
      → HasBuild build sh
      → IsFlatAt build p frames
      → WhenMoved
          (λ sh' t. HasBuild build sh' × IsFlatAt build t.point t.frames)
          (step_at i sh p frames)
  unfolding step_at IsFlat IsInner AllFlat guards build_map
  step_at-IsFlatAt build i sh (running (done a)) [] b flat = tt
  step_at-IsFlatAt build i sh (running (done a)) (frame ∷ frames) b (_, (flat, all), held) =
      (release-HasBuild build frame.holds sh b, (flat a, all, inl (outer-free frame frames _ held)))
  step_at-IsFlatAt build i sh (running panics) [] b flat = tt
  step_at-IsFlatAt build i sh (running panics) (frame ∷ frames) b (_, (flat, all), held) =
      (release-HasBuild build frame.holds sh b, (tt, all, inl (outer-free frame frames _ held)))
  step_at-IsFlatAt build i sh (running (calls f next)) frames b
        ((inner, flat, later), all, inl free) =
      elim (Option-cases sh.globals.frozen) [
        | inl unset ↦ rw unset (b, ((inner, flat, later), all, free))
        | inr (map, set) ↦ rw set (b, (flat map, (later, all), inl (omega (arith, free))))
      ]
  step_at-IsFlatAt build i sh (running (calls f next)) frames b (_, _, inr (inner, _)) =
      absurd inner
  step_at-IsFlatAt build i sh (running (initializes builder next)) frames b (flat, all, inl free) =
      (
        initialize-HasBuild build builder sh b,
        (flat (try_initialize builder sh.globals).1, all, inl free),
      )
  step_at-IsFlatAt build i sh (running (initializes builder next)) frames b
        (flat, all, inr (inner, free)) =
      (
        initialize-HasBuild build builder sh b,
        (
          flat (try_initialize builder sh.globals).1,
          all,
          inr (inner (try_initialize builder sh.globals).1, free),
        ),
      )
  step_at-IsFlatAt build i sh (locking f next) frames b ((inner, flat, later), all, free) =
      elim (Option-cases sh.owner) [
        | inl unlocked ↦ rw (unlocked, b) (refl, (flat build, (later, all), inr (inner, free)))
        | inr (j, taken) ↦
            rw taken (contend-IsFlatAt build i j (record sh { owner = some j }) frames b all free)
      ]

  holder-moves :
      (build : RegistryMap D) (j : ℕ) (sh : Shared D) (p : Point D A) (frames : List (Frame D A))
      → IsFlatAt build p frames
      → guards frames ≡ 1
      → IsMoved (step_at j sh p frames)
  unfolding guards
  holder-moves build j sh (running script) [] flat one = absurd (omega (arith, one))
  holder-moves build j sh (running script) (frame ∷ frames) flat one =
      inside-moves j sh script frame frames
  holder-moves build j sh (locking f next) frames (_, _, free) one =
      absurd (omega (arith, one, free))

  locking-moves :
      (i : ℕ) (sh : Shared D) (f : RegistryMap D → Script D A) (next : A → Script D A)
      (frames : List (Frame D A))
      → sh.owner ≡ none
      → IsMoved (step_at i sh (locking f next) frames)
  unfolding step_at
  locking-moves i sh f next frames free = rw free tt

  -- A thread has ended, can move, or waits for one that can.
  abbrev pub Fate : ℕ → System D A → Type 0
  Fate i s =
      (has_ended (s.threads i).point (s.threads i).frames ≡ true)
      ⊎ (step i s ≢ none)
      ⊎ ((j : ℕ) × (s.shared.owner ≡ some j) × (step j s ≢ none))

  fate_at :
      (build : RegistryMap D) (i : ℕ) (s : System D A) (p : Point D A)
      → IsExclusive s
      → ((j : ℕ) → IsFlatAt build (s.threads j).point (s.threads j).frames)
      → (has_ended p (s.threads i).frames ≡ true)
        ⊎ IsMoved (step_at i s.shared p (s.threads i).frames)
        ⊎ ((j : ℕ) × (s.shared.owner ≡ some j) × (step j s ≢ none))
  unfolding step owns
  fate_at build i s (running script) exclusive flat =
      elim (running-moves i s.shared script (s.threads i).frames) [
        | inl ended ↦ inl ended
        | inr moved ↦ inr (inl moved)
      ]
  fate_at build i s (locking f next) exclusive flat = elim (Option-cases s.shared.owner) [
    | inl free ↦ inr (inl (locking-moves i s.shared f next (s.threads i).frames free))
    | inr (j, taken) ↦ inr (
        inr (
          j,
          taken,
          moved-some (step j s) (
              holder-moves build j s.shared (s.threads j).point (s.threads j).frames (flat j) (
                exclusive j
                ∙ ap (λ o. owns o j) taken
                ∙ ap (λ b. if b then 1 else 0) ((nat_eqb_iff j j).1 refl))),
        ))
  ]

  -- If no callback that gets the map of `BUILD` uses the registry, then in every interleaving, also
  -- when threads freeze the registry, each thread has ended, can make a step, or waits for the mutex
  -- of `BUILD` while the thread that has it can make a step.
  pub flat-progress :
      (relock : Relock) (globals : Globals D) (scripts : ℕ → Script D A)
      → ((i : ℕ) → IsFlat (build_map globals) (scripts i))
      → (turns : List ℕ) (i : ℕ) → Fate i (run turns (started relock globals scripts))
  unfolding AllFlat guards step
  flat-progress relock globals scripts flat turns i =
      let build = build_map globals in
      let s = run turns (started relock globals scripts) in
      let (_, all) =
        run-Holds (HasBuild build) (λ t. IsFlatAt build t.point t.frames)
          (λ i sh t b flat. step_at-IsFlatAt build i sh t.point t.frames b flat) turns
          (started relock globals scripts) (refl, λ j. (flat j, tt, inl refl)) in
      let exclusive : IsExclusive s =
        run-IsExclusive turns (started relock globals scripts)
          (started-IsExclusive relock globals scripts) in
      elim (fate_at build i s (s.threads i).point exclusive all) [
        | inl ended ↦ inl ended
        | inr (inl moved) ↦ inr (inl (moved-some (step i s) moved))
        | inr (inr waits) ↦ inr (inr waits)
      ]
