-- ===== src/Context/Reentry/Panics.antt =====
-- A `Clone` that panics while `get_context_variable` has the store.
use dcontext.Base.{Option, flatten, refl, ℕ, suc, ◌≡◌, ap, ◌∙◌, String, none, some, and_then}
use dcontext.Value.{TypeId, downcast_ref}
use dcontext.Store.{ContextStore}
use dcontext.Store.Lookup.{get_value}
use dcontext.Context.{Env, Cell, attach_store, drop_attach_guard}
use dcontext.Context.Reentry.{
  Outcome, Code, Applied, panicked, then_run, pure, put_back, try_apply, cloned,
  get_context_variable,
}
use dcontext.Context.Reentry.Scripts.{Script, run, answer, Dropped, Drops, all-Drops}
use dcontext.Context.Reentry.Busy.{UserCode, nested, EndsWithin, nested-IsQuiet, nested-answer}

module _ {D : Type 0} (env : Env D) (user : UserCode D) where
  -- Where, on an empty cell, the user's drops return within a depth of user code inside user code,
  -- and the value's `Clone` panics within it: reading the value panics and leaves the cell empty, not
  -- with the store that it held. From then on any code on the thread that does not attach, for a
  -- caller that catches the panic, gets the defaults and changes nothing; and attaching a store and
  -- dropping its guard leaves the cell empty again.
  pub get-panics :
      (depth : ℕ) (t : TypeId) (k : String) (d : D) (s : ContextStore D)
      → ((x : Dropped D) → EndsWithin user (suc depth) x)
      → Drops (EndsWithin user depth) (user.clone d)
      → and_then (get_value s k) (downcast_ref t) ≡ some d
      → answer (user.clone d) ≡ panicked
      → let hooks = nested env user (suc depth) in
        (get_context_variable hooks t k (some s) ≡ (panicked, none))
        × ((script : Script D (Unit {0})) → run env hooks script none ≡ (answer script, none))
        × ((other : ContextStore D)
            → drop_attach_guard (attach_store other none).1 (attach_store other none).0 ≡ none)
  unfolding get_context_variable try_apply put_back nested attach_store drop_attach_guard
  get-panics depth t k d s ends calm found panic =
      let hooks = nested env user (suc depth) in
      let finish : Option (Option D) → Code D (Option D) = λ found. pure (flatten found) in
      let outcome_of : Outcome D × Cell D → Applied D (Option D) =
        λ r. let (outcome, left) = then_run r (λ copy. pure (some copy)) in ((outcome, s), left) in
      let clone : hooks.clone d none ≡ (panicked, none) =
        nested-answer env user depth (user.clone d) calm ∙ ap (λ o. (o, none)) panic in
      let q = nested-IsQuiet env user (suc depth) ends in
      (
        ap (λ o. then_run (put_back hooks (cloned hooks o s none)) finish) found
            ∙ ap (λ r. then_run (put_back hooks (outcome_of r)) finish) clone
            ∙ ap {B = Outcome (Option D) × Cell D} (λ r. (panicked, r.1)) (q.drop_store s),
        λ script.
            nested-answer env user (suc depth) script
              (all-Drops (EndsWithin user (suc depth)) ends script),
        λ other. refl,
      )
