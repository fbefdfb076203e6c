-- ===== src/Context/Reentry/Busy.antt =====
-- User code that the library runs while `try_apply` has the store, and user code inside that.
use dcontext.Base.{ℕ, zero, suc, ◌≡◌, ap, ◌∙◌, String, none}
use dcontext.Value.{TypeId, Value}
use dcontext.Scope.{Values, ScopeGarbage}
use dcontext.Store.{ContextStore}
use dcontext.Context
use dcontext.Context.{Env, Cell, try_read}
use dcontext.Context.Typed
use dcontext.Context.Reentry
use dcontext.Context.Reentry.{Outcome, returned, panicked, then_run, pure, ◌>>=◌, Code, Hooks}
use dcontext.Context.Reentry.Agrees.{
  IsQuiet, IsBenign, update-Agrees, get-Agrees, set-Agrees, clear-Agrees, merge_with-Agrees,
}
use dcontext.Context.Reentry.Scripts.{
  Script, run, answer, Dropped, a_value, a_map, a_store, Drops, all-Drops, hook_of, run-busy,
}

-- What a program's `Clone` and `Drop` code does. Which values of a map, a store or garbage have no
-- other owner, and so are dropped with it, is the program's.
pub record UserCode (D : Type 0) : Type 0 where
  pub clone : D → Script D D
  pub drop_value : Value D → Script D (Unit {0})
  pub drop_values : Values D → Script D (Unit {0})
  pub drop_store : ContextStore D → Script D (Unit {0})
  pub drop_garbage : ScopeGarbage D → Script D (Unit {0})

module _ {D : Type 0} (env : Env D) (user : UserCode D) where
  -- User code that runs inside user code, as deep as the number says. What would run deeper counts
  -- as a panic: the stack overflows.
  unfoldable pub nested : ℕ → Hooks D
  nested zero = record {
    clone = λ d cell. (panicked, cell);
    drop_value = λ v cell. (panicked, cell);
    drop_values = λ m cell. (panicked, cell);
    drop_store = λ s cell. (panicked, cell);
    drop_garbage = λ g cell. (panicked, cell);
  }
  nested (suc n) = record {
    clone = λ d. run env (nested n) (user.clone d);
    drop_value = λ v. run env (nested n) (user.drop_value v);
    drop_values = λ m. run env (nested n) (user.drop_values m);
    drop_store = λ s. run env (nested n) (user.drop_store s);
    drop_garbage = λ g. run env (nested n) (user.drop_garbage g);
  }

module _ {D : Type 0} (user : UserCode D) where
  abbrev pub drop_code : Dropped D → Script D (Unit {0})
  drop_code (a_value v) = user.drop_value v
  drop_code (a_map m) = user.drop_values m
  drop_code (a_store s) = user.drop_store s

  -- On an empty cell the drop returns, with less user code inside user code than the number says.
  unfoldable pub EndsWithin : ℕ → Dropped D → Type 0
  unfolding Drops
  EndsWithin zero x = ⊥
  EndsWithin (suc n) x = (answer (drop_code x) ≡ returned tt) × Drops (EndsWithin n) (drop_code x)

module _ {D : Type 0} (env : Env D) (user : UserCode D) where
  nested-returns :
      (depth : ℕ) (x : Dropped D)
      → EndsWithin user depth x
      → hook_of (nested env user depth) x none ≡ (returned tt, none)
  unfolding nested EndsWithin
  nested-returns zero x ends = absurd ends
  nested-returns (suc n) (a_value v) (returns, drops) =
      run-busy env (nested env user n) (EndsWithin user n) (nested-returns n) (user.drop_value v)
        drops
      ∙ ap (λ o. (o, none)) returns
  nested-returns (suc n) (a_map m) (returns, drops) =
      run-busy env (nested env user n) (EndsWithin user n) (nested-returns n) (user.drop_values m)
        drops
      ∙ ap (λ o. (o, none)) returns
  nested-returns (suc n) (a_store s) (returns, drops) =
      run-busy env (nested env user n) (EndsWithin user n) (nested-returns n) (user.drop_store s)
        drops
      ∙ ap (λ o. (o, none)) returns

  -- Code whose drops end runs on an empty cell as `answer` says.
  pub nested-answer :
      {A : Type 0} (depth : ℕ) (script : Script D A)
      → Drops (EndsWithin user depth) script
      → run env (nested env user depth) script none ≡ (answer script, none)
  nested-answer depth script drops =
      run-busy env (nested env user depth) (EndsWithin user depth) (nested-returns depth) script
        drops

  pub nested-IsQuiet :
      (depth : ℕ) → ((x : Dropped D) → EndsWithin user depth x) → IsQuiet (nested env user depth)
  nested-IsQuiet depth ends = record {
    drop_value = λ v. nested-returns depth (a_value v) (ends (a_value v));
    drop_values = λ m. nested-returns depth (a_map m) (ends (a_map m));
    drop_store = λ s. nested-returns depth (a_store s) (ends (a_store s));
  }

  nested-IsBenign :
      (depth : ℕ)
      → ((x : Dropped D) → EndsWithin user (suc depth) x)
      → ((d : D) → Drops (EndsWithin user depth) (user.clone d))
      → ((d : D) → answer (user.clone d) ≡ returned d)
      → IsBenign (nested env user (suc depth))
  unfolding nested
  nested-IsBenign depth ends calm clones = record {
    clone = λ d. nested-answer depth (user.clone d) (calm d) ∙ ap (λ o. (o, none)) (clones d);
    quiet = nested-IsQuiet (suc depth) ends;
  }

  -- Where the user's `Clone` and `Drop` code reads and writes variables, pushes and drops scope
  -- guards, lists scopes, captures, forks, merges and clears, and, on an empty cell, where each of
  -- these gives the default, all of it returns within a depth of user code inside user code, a clone
  -- with the value: on every cell, reading, writing, updating and clearing return as they do without
  -- that code, with the cell that they leave without it, and merging goes on to drop the source with
  -- the cell that it leaves without it. While the cell is empty, code of these calls gets the
  -- defaults and changes nothing.
  pub nested-Agrees :
      (depth : ℕ) (t : TypeId) (k : String) (d : D) (f : D → D) (source : ContextStore D)
      (cell : Cell D)
      → ((x : Dropped D) → EndsWithin user (suc depth) x)
      → ((d : D) → Drops (EndsWithin user depth) (user.clone d))
      → ((d : D) → answer (user.clone d) ≡ returned d)
      → let hooks = nested env user (suc depth) in
        (Reentry.get_context_variable hooks t k cell
          ≡ (returned (Typed.get_context_variable t k cell), cell))
        × (Reentry.set_context_variable hooks t k d cell
            ≡ (returned tt, Typed.set_context_variable t k d cell))
        × (Reentry.update_context_variable hooks t d k (λ old. pure (f old)) cell
            ≡ (returned tt, Typed.update_context_variable t d k f cell))
        × (Reentry.merge_with hooks source cell
            ≡ hooks.drop_store source (Context.merge_with source cell))
        × (Reentry.clear hooks cell ≡ (returned tt, Context.clear cell))
        × ((script : Script D (Unit {0})) → run env hooks script none ≡ (answer script, none))
  nested-Agrees depth t k d f source cell ends calm clones =
      let hooks = nested env user (suc depth) in
      let q = nested-IsQuiet (suc depth) ends in
      let benign = nested-IsBenign depth ends calm clones in
      (
        get-Agrees hooks benign t k cell,
        set-Agrees hooks q t k d cell,
        update-Agrees hooks benign t d k f cell,
        merge_with-Agrees hooks q source cell,
        clear-Agrees hooks q cell,
        λ script.
            nested-answer (suc depth) script (all-Drops (EndsWithin user (suc depth)) ends script),
      )
