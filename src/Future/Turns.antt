-- ===== src/Future/Turns.antt =====
-- Tasks that take turns on one thread, and wrappers around wrappers.
use dcontext.Base.{
  ℕ, zero, suc, ◌≡◌, refl, ap, ◌∙◌, String, List, [], ◌∷◌, if◌then◌else◌, nat_eqb, nat_eqb_iff,
  Bool-cases, inl, inr,
}
use dcontext.Snapshot.{ContextSnapshot}
use dcontext.Context.{Env, Cell}
use dcontext.Future.{PollFn, WithContext, poll, attach, scope}

pub record Executor (D F : Type 0) : Type 0 where
  pub tasks : ℕ → WithContext D F
  pub cell : Cell D

abbrev pub count : ℕ → List ℕ → ℕ
count i [] = 0
count i (j ∷ js) = if nat_eqb j i then suc (count i js) else count i js

module _ {D F O : Type 0} (poll_inner : PollFn D F O) where
  abbrev polled : WithContext D F → WithContext D F
  polled t =
      let (inner, store, result) = poll_inner t.inner t.store in
      record { inner = inner; store = store }

  -- One poll of task `i`.
  pub turn : ℕ → Executor D F → Executor D F
  turn i e =
      let (task, cell, result) = poll poll_inner (e.tasks i) e.cell in
      record { tasks = λ j. if nat_eqb i j then task else e.tasks j; cell = cell }

  pub turns : List ℕ → Executor D F → Executor D F
  turns [] e = e
  turns (i ∷ schedule) e = turns schedule (turn i e)

  -- The inner future polled `n` times on a cell of its own.
  pub alone : ℕ → WithContext D F → WithContext D F
  alone zero t = t
  alone (suc n) t = alone n (polled t)

  -- Whatever the order in which tasks are polled on a thread, each is where it would be after as
  -- many polls alone with its own store, and the thread's own store is what it was.
  pub turns-alone :
      (schedule : List ℕ) (e : Executor D F)
      → ((turns schedule e).cell ≡ e.cell)
        × ((i : ℕ) → (turns schedule e).tasks i ≡ alone (count i schedule) (e.tasks i))
  unfolding turns turn alone
  turns-alone [] e = (refl, λ i. refl)
  turns-alone (j ∷ schedule) e =
      let rest = turns-alone schedule (turn j e) in
      (
        rest.0,
        λ i. rest.1 i ∙ elim (Bool-cases (nat_eqb j i)) [
          | inl same ↦ rw same (
              ap {B = WithContext D F} (λ x. alone (count i schedule) (polled (e.tasks x)))
                ((nat_eqb_iff j i).0 same))
          | inr other ↦ rw other
        ],
      )

  -- A scope wrapper inside an attachment: a poll gives the same inner state, cell and result
  -- under any two attached snapshots.
  poll-attach-scope :
      (env : Env D) (name : String) (made polled : Cell D) (snap snap' : ContextSnapshot D) (f : F)
      → let outer = poll (poll poll_inner) (attach env snap (scope env name made f)) polled in
        let outer' = poll (poll poll_inner) (attach env snap' (scope env name made f)) polled in
        (outer.0.inner ≡ outer'.0.inner) × (outer.1 ≡ outer'.1) × (outer.2 ≡ outer'.2)
  unfolding attach
  poll-attach-scope env name made polled snap snap' f = (refl, refl, refl)
