-- ===== src/Tests/Threads.antt =====
-- Two threads, of which one polls a task with a store of the other.
use dcontext.Base.{or_else, none, ℕ, ◌≡◌, refl, String, some, [], ◌∷◌, arith, string_eq}
use dcontext.Base.HashMap.{get}
use dcontext.Scope.{ScopeGuard}
use dcontext.Store.{ContextStore, new_store, fork_child}
use dcontext.Store.Shape.{IsWellFormed}
use dcontext.Store.Lookup.{get_value, collect_values, find_frozen}
use dcontext.Store.Pop.{pop_scope}
use dcontext.Store.Rewind.{unwind}
use dcontext.Context.{push_scope, drop_scope_guard, fork}
use dcontext.Context.Reach.{Thread, start, this, step_push_scope, step_fork, step_drop_scope_guard}
use dcontext.Context.Process.{
  Process, Run, Run-cell, fresh, thread, update, calls, begins_poll, ends_poll, started, moved,
}
use dcontext.Tests.Fixtures.{env}

abbrev guard : ScopeGuard
guard = record { expected_depth = 2 }

abbrev pub entered : Thread ℕ
entered = record start { cell = (push_scope env "api" (some new_store)).0 }

-- One thread enters a scope and forks; another begins to poll a task with the fork, the first
-- drops its scope, and the poll ends.
abbrev beginning : Process ℕ
beginning = fresh env

abbrev pushed : Process ℕ
pushed = record beginning {
  threads =
      update 1 (record (beginning.threads 1) { cell = entered.cell; guards = [] })
        beginning.threads;
  stores = [];
}

abbrev forked : Process ℕ
forked = record pushed {
  threads =
      update 1 (record (pushed.threads 1) { cell = entered.cell; guards = [] }) pushed.threads;
  stores = fork entered.cell ∷ [];
}

abbrev polling : Process ℕ
polling = record forked {
  threads =
      update 2
        (record (forked.threads 2) {
          cell = some (fork entered.cell);
          outer = (forked.threads 2).cell ∷ [];
        })
        forked.threads;
  stores = [];
}

abbrev popped : Process ℕ
popped = record polling {
  threads =
      update 1
        (record (polling.threads 1) {
          cell = drop_scope_guard guard (polling.threads 1).cell;
          guards = [];
        })
        polling.threads;
  stores = [];
}

abbrev polled : Process ℕ
polled = record popped {
  threads =
      update 2 (record (popped.threads 2) { cell = some new_store; outer = [] }) popped.threads;
  stores = fork entered.cell ∷ [];
}

polled-Run : Run beginning polled
polled-Run =
    moved
      (moved
        (moved
          (moved
            (moved started
              (calls 1 entered (step_push_scope (thread 1 beginning) "api" (omega arith))))
            (calls 1 (thread 1 forked) (step_fork (thread 1 pushed))))
          (begins_poll 2 (fork entered.cell) [] this))
        (calls 1 (thread 1 popped) (step_drop_scope_guard (thread 1 polling) guard)))
      (ends_poll 2 (some new_store) [] refl)

Run-cell_example :
    (s : ContextStore ℕ) × ((polled.threads 1).cell ≡ some s)
    × IsWellFormed s
    × (s.scope_barrier ≡ none)
    × ((k : String) → get k (collect_values s) ≡ get_value s k)
    × ((k : String)
        → get_value s k ≡ or_else (get_value (fork_child s) k) (find_frozen k s.frozen_parent))
    × ((e : ℕ) → (pop_scope e s).0 ≡ unwind e s)
Run-cell_example = Run-cell 1 polled-Run
