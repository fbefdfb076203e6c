-- ===== src/Future/Fair.antt =====
-- An executor that polls its tasks by an infinite schedule, until each has a result.
use dcontext.Base.{
  ℕ, zero, suc, ◌+◌, ◌≤◌, ◌⊎◌, false, ◌≡◌, refl, ap, ◌∙◌, arith, Option, none, some, nat_eqb,
  nat_eqb_iff, if◌then◌else◌, Bool-cases, Option-cases, inl, inr,
}
use dcontext.Context.{Cell}
use dcontext.Future.{PollFn, WithContext, poll}

pub record Pool (D F O : Type 0) : Type 0 where
  pub tasks : ℕ → WithContext D F
  pub results : ℕ → Option O
  pub cell : Cell D

-- The task that is polled at each time.
abbrev pub Schedule : Type 0
Schedule = ℕ → ℕ

abbrev later : Schedule → Schedule
later schedule t = schedule (suc t)

-- The task is polled again after any time.
abbrev pub IsFair : ℕ → Schedule → Type 0
IsFair i schedule = (t : ℕ) → (d : ℕ) × (schedule (t + d) ≡ i)

later-IsFair : (i : ℕ) (schedule : Schedule) → IsFair i schedule → IsFair i (later schedule)
later-IsFair i schedule fair t =
    let (d, found) = fair (suc t) in
    (d, ap schedule (let q : suc (t + d) ≡ suc t + d = omega arith in q) ∙ found)

abbrev update {ℓ} : {A : Type ℓ} → ℕ → A → (ℕ → A) → ℕ → A
update i x f j = if nat_eqb i j then x else f j

module _ {D F O : Type 0} (poll_inner : PollFn D F O) where
  -- A task with a result is not polled again.
  unfoldable pub tick : ℕ → Pool D F O → Pool D F O
  tick i e =
      let (task, cell, result) = poll poll_inner (e.tasks i) e.cell in
      elim (e.results i) [
        | some o ↦ e
        | none ↦ record {
          tasks = update i task e.tasks;
          results = update i result e.results;
          cell = cell;
        }
      ]

  unfoldable pub ticks : Schedule → ℕ → Pool D F O → Pool D F O
  unfolding tick
  ticks schedule zero e = e
  ticks schedule (suc n) e = ticks (later schedule) n (tick (schedule 0) e)

  -- The result of the inner future, polled alone on a cell of its own at most `n` times.
  unfoldable pub alone_within : ℕ → WithContext D F → Option O
  alone_within zero t = none
  alone_within (suc n) t =
      let (inner, store, result) = poll_inner t.inner t.store in
      let rest = alone_within n (record { inner = inner; store = store }) in
      elim result [ some o ↦ some o | none ↦ rest ]

  tick-cell : (i : ℕ) (e : Pool D F O) → (tick i e).cell ≡ e.cell
  unfolding tick
  tick-cell i e = ground arith

  ticks-cell : (schedule : Schedule) (n : ℕ) (e : Pool D F O) → (ticks schedule n e).cell ≡ e.cell
  unfolding ticks
  ticks-cell schedule zero e = refl
  ticks-cell schedule (suc n) e =
      ticks-cell (later schedule) n (tick (schedule 0) e) ∙ tick-cell (schedule 0) e

  tick-done :
      (i j : ℕ) (o : O) (e : Pool D F O) → e.results i ≡ some o → (tick j e).results i ≡ some o
  unfolding tick
  tick-done i j o e h = ground (arith, nat_eqb_iff j i)

  ticks-done :
      (schedule : Schedule) (n i : ℕ) (o : O) (e : Pool D F O)
      → e.results i ≡ some o
      → (ticks schedule n e).results i ≡ some o
  unfolding ticks
  ticks-done schedule zero i o e h = h
  ticks-done schedule (suc n) i o e h =
      ticks-done (later schedule) n i o (tick (schedule 0) e) (tick-done i (schedule 0) o e h)

  -- Another task's turn.
  tick-other :
      (i j : ℕ) (e : Pool D F O)
      → nat_eqb j i ≡ false
      → ((tick j e).results i ≡ e.results i) × ((tick j e).tasks i ≡ e.tasks i)
  unfolding tick
  tick-other i j e h = ground arith

  -- Its own turn.
  tick-own :
      (i j n : ℕ) (o : O) (e : Pool D F O)
      → j ≡ i
      → e.results i ≡ none
      → alone_within (suc n) (e.tasks i) ≡ some o
      → ((tick j e).results i ≡ some o)
        ⊎ (((tick j e).results i ≡ none) × (alone_within n ((tick j e).tasks i) ≡ some o))
  unfolding tick alone_within
  tick-own i j n o e same h found =
      rw same (elim (Option-cases (poll_inner (e.tasks i).inner (e.tasks i).store).2) [
        | inl pending ↦ inr (ground (arith, pending))
        | inr (p, ready) ↦ inl (ground (arith, ready))
      ])

  -- Task `i` has its result at some time and from then on.
  abbrev Settles : Schedule → ℕ → O → Pool D F O → Type 0
  Settles schedule i o e = (k : ℕ) × ((n : ℕ) → k ≤ n → (ticks schedule n e).results i ≡ some o)

  Settles-later :
      (schedule : Schedule) (i : ℕ) (o : O) (e : Pool D F O)
      → Settles (later schedule) i o (tick (schedule 0) e)
      → Settles schedule i o e
  unfolding ticks
  Settles-later schedule i o e (k, after) = (suc k, settled)
    where
      settled : (n : ℕ) → suc k ≤ n → (ticks schedule n e).results i ≡ some o
      settled zero h = absurd (omega arith)
      settled (suc n) h = after n (omega arith)

  Settles-done :
      (schedule : Schedule) (i : ℕ) (o : O) (e : Pool D F O)
      → e.results i ≡ some o
      → Settles schedule i o e
  Settles-done schedule i o e h = (0, λ n after. ticks-done schedule n i o e h)

  -- `n` is what the inner future still takes, and `d` the wait for the next turn.
  settle :
      (n d i : ℕ) (o : O) (schedule : Schedule) (e : Pool D F O)
      → IsFair i schedule
      → schedule d ≡ i
      → e.results i ≡ none
      → alone_within n (e.tasks i) ≡ some o
      → Settles schedule i o e
  unfolding alone_within
  settle zero d i o schedule e fair turn open_ found = cc
  settle (suc n) zero i o schedule e fair turn open_ found =
      let (wait, next) = later-IsFair i schedule fair 0 in
      Settles-later schedule i o e (elim (tick-own i (schedule 0) n o e turn open_ found) [
        | inl ready ↦ Settles-done (later schedule) i o (tick (schedule 0) e) ready
        | inr (pending, rest) ↦
            settle n wait i o (later schedule) (tick (schedule 0) e) (later-IsFair i schedule fair)
              (ap (later schedule) (let q : wait ≡ 0 + wait = omega arith in q) ∙ next) pending rest
      ])
  settle (suc n) (suc d) i o schedule e fair turn open_ found =
      Settles-later schedule i o e (elim (Bool-cases (nat_eqb (schedule 0) i)) [
        | inl own ↦
            let here : schedule 0 ≡ i = (nat_eqb_iff (schedule 0) i).0 own in
            elim (tick-own i (schedule 0) n o e here open_ found) [
              | inl ready ↦ Settles-done (later schedule) i o (tick (schedule 0) e) ready
              | inr (pending, rest) ↦
                  settle n d i o (later schedule) (tick (schedule 0) e)
                    (later-IsFair i schedule fair) turn pending rest
            ]
        | inr other ↦
            let kept = tick-other i (schedule 0) e other in
            settle (suc n) d i o (later schedule) (tick (schedule 0) e)
              (later-IsFair i schedule fair) turn (kept.0 ∙ open_)
              (ap (alone_within (suc n)) kept.1 ∙ found)
      ])

  -- On a schedule that is fair to a task without a result, whose inner future, polled alone on a
  -- cell of its own at most `n` times, is ready with `o`: there is a time from which on the pool has the result
  -- `o` for the task, and the thread's own store is at each time what it was.
  pub settles :
      (schedule : Schedule) (n i : ℕ) (o : O) (e : Pool D F O)
      → IsFair i schedule
      → e.results i ≡ none
      → alone_within n (e.tasks i) ≡ some o
      → (k : ℕ) × ((m : ℕ)
          → k ≤ m
          → ((ticks schedule m e).results i ≡ some o) × ((ticks schedule m e).cell ≡ e.cell))
  settles schedule n i o e fair open_ found =
      let (d, turn) = fair 0 in
      let (k, after) =
        settle n d i o schedule e fair (ap schedule (let q : d ≡ 0 + d = omega arith in q) ∙ turn)
          open_ found in
      (k, λ m h. (after m h, ticks-cell schedule m e))
