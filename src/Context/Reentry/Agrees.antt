-- ===== src/Context/Reentry/Agrees.antt =====
-- Where user code leaves an empty cell empty, the calls do what `Context` and `Typed` say.
use dcontext.Base.{
  ◌≡◌, refl, ap, ◌∙◌, String, Option, none, some, [], ◌∷◌, inl, inr, and_then, flatten, Bool-cases,
  nat_eqb, usize_max, unwrap_or, if◌then◌else◌,
}
use dcontext.Value.{TypeId, Value, downcast_ref}
use dcontext.Scope.{Values, ScopeGuard}
use dcontext.Store.{ContextStore, new_store}
use dcontext.Store.Lookup.{set_value, get_value, collect_values}
use dcontext.Store.Pop
use dcontext.Context
use dcontext.Context.{Cell, AttachGuard, try_read}
use dcontext.Context.Typed
use dcontext.Context.Reentry
use dcontext.Context.Reentry.{
  Outcome, returned, panicked, then_run, pure, Code, Hooks, Applied, cloned, put_back, drop_garbage,
  drop_option, set_all,
}

module _ {D : Type 0} where
  -- On an empty cell, a drop returns, and the cell stays empty.
  pub record IsQuiet (hooks : Hooks D) : Type 0 where
    pub drop_value : (v : Value D) → hooks.drop_value v none ≡ (returned tt, none)
    pub drop_values : (m : Values D) → hooks.drop_values m none ≡ (returned tt, none)
    pub drop_store : (s : ContextStore D) → hooks.drop_store s none ≡ (returned tt, none)

  -- A clone on an empty cell returns the value as well.
  pub record IsBenign (hooks : Hooks D) : Type 0 where
    pub clone : (d : D) → hooks.clone d none ≡ (returned d, none)
    pub quiet : IsQuiet hooks

  module _ (hooks : Hooks D) where
    cloned-Agrees :
        IsBenign hooks
        → (o : Option D) (s : ContextStore D) → cloned hooks o s none ≡ ((returned o, s), none)
    cloned-Agrees benign none s = refl
    cloned-Agrees benign (some d) s =
        ap
          (λ r. let (outcome, left) = then_run r (λ copy. pure (some copy)) in ((outcome, s), left))
          (benign.clone d)

    pub get-Agrees :
        IsBenign hooks
        → (t : TypeId) (k : String) (cell : Cell D)
        → Reentry.get_context_variable hooks t k cell
          ≡ (returned (Typed.get_context_variable t k cell), cell)
    unfolding Reentry.get_context_variable Reentry.try_apply put_back Typed.get_context_variable
        try_read Context.try_apply
    get-Agrees benign t k none = refl
    get-Agrees benign t k (some s) =
        ap (λ r. then_run (put_back hooks r) (λ found. pure (flatten found)))
          (cloned-Agrees benign (and_then (get_value s k) (downcast_ref t)) s)

module _ {D : Type 0} (hooks : Hooks D) (quiet : IsQuiet hooks) where
  drop_option-Agrees : (o : Option (Value D)) → drop_option hooks o none ≡ (returned tt, none)
  unfolding drop_option
  drop_option-Agrees none = refl
  drop_option-Agrees (some v) = quiet.drop_value v

  pub set-Agrees :
      (t : TypeId) (k : String) (d : D) (cell : Cell D)
      → Reentry.set_context_variable hooks t k d cell
        ≡ (returned tt, Typed.set_context_variable t k d cell)
  unfolding Reentry.set_context_variable Reentry.try_apply put_back Typed.set_context_variable
      Context.try_apply
  set-Agrees t k d none =
      ap (λ r. then_run {A = Option (Unit {0})} (then_run r (λ _. pure none)) (λ _. pure tt))
        (quiet.drop_value (record { type_id = t; data_of = d }))
  set-Agrees t k d (some s) =
      let (s', old) = set_value k (record { type_id = t; data_of = d }) s in
      ap (λ r. then_run (put_back hooks ((r.0, s'), r.1)) (λ _. pure tt)) (drop_option-Agrees old)

  pub clear-Agrees : (cell : Cell D) → Reentry.clear hooks cell ≡ (returned tt, Context.clear cell)
  unfolding Reentry.clear Reentry.try_apply put_back Context.clear Context.try_apply
  clear-Agrees none = refl
  clear-Agrees (some s) =
      ap (λ r. then_run (put_back hooks ((r.0, new_store), r.1)) (λ _. pure tt))
        (quiet.drop_store s)

  set_all-Agrees :
      (values : Values D) (s : ContextStore D)
      → set_all hooks values s none ≡ ((returned tt, Context.set_all values s), none)
  unfolding set_all Context.set_all
  set_all-Agrees [] s = refl
  set_all-Agrees ((k, v) ∷ values) s =
      let (s', old) = set_value k v s in
      ap
        (λ r. elim r.0 [
          | returned _ ↦ set_all hooks values s' r.1
          | panicked ↦ ((panicked, s'), (hooks.drop_values values r.1).1)
        ])
        (drop_option-Agrees old)
      ∙ set_all-Agrees values s'

  -- The source is dropped when the target is back.
  pub merge_with-Agrees :
      (source : ContextStore D) (cell : Cell D)
      → Reentry.merge_with hooks source cell
        ≡ hooks.drop_store source (Context.merge_with source cell)
  unfolding Reentry.merge_with Reentry.try_apply put_back Context.merge_with Context.try_apply
  merge_with-Agrees source none =
      ap
        (λ r.
          then_run {A = Option (Unit {0})} (then_run r (λ _. pure none))
            (λ _. hooks.drop_store source))
        (quiet.drop_values (collect_values source))
  merge_with-Agrees source (some s) =
      ap (λ r. then_run (put_back hooks r) (λ _. hooks.drop_store source))
        (set_all-Agrees (collect_values source) s)

module _ {D : Type 0} (hooks : Hooks D) where
  pub update-Agrees :
      IsBenign hooks
      → (t : TypeId) (default : D) (k : String) (f : D → D) (cell : Cell D)
      → Reentry.update_context_variable hooks t default k (λ old. pure (f old)) cell
        ≡ (returned tt, Typed.update_context_variable t default k f cell)
  unfolding Reentry.update_context_variable Typed.update_context_variable
  update-Agrees benign t default k f cell =
      ap
        (λ r.
          then_run (then_run r (λ old. pure (f (unwrap_or default old))))
            (Reentry.set_context_variable hooks t k))
        (get-Agrees hooks benign t k cell)
      ∙ set-Agrees hooks benign.quiet t k
          (f (unwrap_or default (Typed.get_context_variable t k cell))) cell

  -- What a pop leaves to drop is dropped when the store is back.
  drop_scope_guard-after :
      (guard : ScopeGuard) (s : ContextStore D)
      → Reentry.drop_scope_guard hooks guard (some s) ≡ (
          if nat_eqb guard.expected_depth usize_max
          then (returned tt, some s)
          else drop_garbage hooks
              (Pop.pop_scope guard.expected_depth s).1
              (Context.drop_scope_guard guard (some s)))
  unfolding Reentry.drop_scope_guard Reentry.try_apply put_back Context.drop_scope_guard
      Context.try_apply
  drop_scope_guard-after guard s = elim (Bool-cases (nat_eqb guard.expected_depth usize_max)) [
    | inl is_noop ↦ rw (is_noop, Reentry.drop_scope_guard) refl
    | inr real ↦ rw (real, Reentry.drop_scope_guard) refl
  ]
