-- ===== src/Future/Unwinding.antt =====
-- dcontext/src/future_ext.rs: `WithContext::poll` where the inner future may panic. An executor
-- that catches the panic goes on with its thread.
use dcontext.Base.{◌≡◌, ap, ◌∙◌, String, Option, none, some, [], arith, and_then, string_eq}
use dcontext.Value.{TypeId, downcast_ref}
use dcontext.Store.{ContextStore, fork_child}
use dcontext.Store.Push
use dcontext.Store.Shape.{IsWellFormed}
use dcontext.Store.Lookup.{get_value, find_frozen}
use dcontext.Store.Keeps.{fork_child-IsWellFormed}
use dcontext.Store.Visible.{get_value-fork_child, get_value-push_scope}
use dcontext.Context.{Env, Cell, registry_of, try_read}
use dcontext.Context
use dcontext.Context.Reentry.{Outcome, returned, panicked}
use dcontext.Context.Typed.{get_context_variable}
use dcontext.Future.{WithContext, with_store, scope}

abbrev pub Pollable : Type 0 → Type 0 → Type 0 → Type 0
Pollable D F O = F → Cell D → Outcome (F × Option O) × Cell D

-- After the inner poll, which left the second cell: the second `replace` puts the first back, but
-- a panic passes it.
abbrev settled :
    {D F O : Type 0}
    → Cell D
    → Outcome (F × Option O) × Cell D
    → Outcome (WithContext D F × Option O) × Cell D
settled cell (returned (inner, result), left) =
    (returned (record { inner = inner; store = left }, result), cell)
settled cell (panicked, left) = (panicked, left)

module _ {D F O : Type 0} (poll_inner : Pollable D F O) where
  unfoldable pub poll : WithContext D F → Cell D → Outcome (WithContext D F × Option O) × Cell D
  poll this cell = settled cell (poll_inner this.inner this.store)

  -- An inner future that returns is polled as `Future.poll` says.
  poll-returned :
      (this : WithContext D F) (cell : Cell D) {inner : F} {left : Cell D} {result : Option O}
      → poll_inner this.inner this.store ≡ (returned (inner, result), left)
      → poll this cell ≡ (returned (record { inner = inner; store = left }, result), cell)
  unfolding poll
  poll-returned this cell h = ap (settled cell) h

  poll-panicked :
      (this : WithContext D F) (cell left : Cell D)
      → poll_inner this.inner this.store ≡ (panicked, left)
      → poll this cell ≡ (panicked, left)
  unfolding poll
  poll-panicked this cell left h = ap (settled cell) h

  -- A poll in which the inner future panics, with a well-formed store in the cell that has no
  -- barrier and no frozen parent: whatever the thread had is gone, and the thread is left with the
  -- store of the task. Code that runs next on the thread reads the variables of the task, and a
  -- future that it wraps in a scope of its own starts with a store that shows at each key what the
  -- store of the task showed.
  pub poll-leaks :
      (env : Env D) (this : WithContext D F) (cell : Cell D) (left : ContextStore D)
      → IsWellFormed left
      → left.scope_barrier ≡ none
      → left.frozen_parent ≡ []
      → poll_inner this.inner this.store ≡ (panicked, some left)
      → (poll this cell ≡ (panicked, some left))
        × ((t : TypeId) (k : String)
            → get_context_variable t k (poll this cell).1
              ≡ and_then (get_value left k) (downcast_ref t))
        × ((name : String) (next : F)
            → (s : ContextStore D) × (scope env name (poll this cell).1 next ≡ with_store s next)
              × ((k : String) → get_value s k ≡ get_value left k))
  unfolding get_context_variable try_read Context.try_apply scope Context.fork find_frozen
  poll-leaks env this cell left w unbarred no_parent panic =
      let lost = poll-panicked this cell (some left) panic in
      (
        lost,
        λ t k. ap (λ r. get_context_variable t k r.1) lost,
        λ name next. (
          (Push.push_scope (registry_of env) (some name) (fork_child left)).0,
          ap (λ r. scope env name r.1 next) lost,
          λ k.
              get_value-push_scope (registry_of env) (some name) (fork_child left) k
                (fork_child-IsWellFormed left w)
              ∙ ground
                  (arith, get_value-fork_child left k w unbarred, ap (find_frozen k) no_parent),
        ),
      )
