-- ===== src/Context/Reentry/Scripts.antt =====
-- Code that calls the library while `try_apply` has the store, and what its calls drop.
use dcontext.Base.{
  ◌≡◌, refl, ap, ◌∙◌, String, Option, none, List, [], inl, inr, Bool-cases, nat_eqb, usize_max,
}
use dcontext.Value.{TypeId, Value}
use dcontext.Scope.{Values, ScopeGuard, noop}
use dcontext.Store.{ContextStore, new_store}
use dcontext.Store.Lookup.{collect_values}
use dcontext.Snapshot.{ContextSnapshot, empty}
use dcontext.Context
use dcontext.Context.{Env, Cell, try_read}
use dcontext.Context.Reentry
use dcontext.Context.Reentry.{Outcome, returned, panicked, then_run, pure, ◌>>=◌, Code, Hooks}

-- Code that makes calls of the library and does with the answers what it likes.
pub data Script (D A : Type 0) : Type 0 where
  done : A → Script D A
  panics : Script D A
  gets : TypeId → String → (Option D → Script D A) → Script D A
  sets : TypeId → String → D → Script D A → Script D A
  pushes : String → (ScopeGuard → Script D A) → Script D A
  drops_guard : ScopeGuard → Script D A → Script D A
  lists_scopes : (List String → Script D A) → Script D A
  captures : (ContextSnapshot D → Script D A) → Script D A
  forks : (ContextStore D → Script D A) → Script D A
  merges : ContextStore D → Script D A → Script D A
  clears : Script D A → Script D A

module _ {D A : Type 0} where
  unfoldable pub run : Env D → Hooks D → Script D A → Code D A
  run env hooks (done a) cell = pure a cell
  run env hooks panics cell = (panicked, cell)
  run env hooks (gets t k next) cell =
      then_run (Reentry.get_context_variable hooks t k cell) (λ found. run env hooks (next found))
  run env hooks (sets t k v next) cell =
      then_run (Reentry.set_context_variable hooks t k v cell) (λ _. run env hooks next)
  run env hooks (pushes name next) cell =
      let (cell', guard) = Context.push_scope env name cell in run env hooks (next guard) cell'
  run env hooks (drops_guard guard next) cell =
      then_run (Reentry.drop_scope_guard hooks guard cell) (λ _. run env hooks next)
  run env hooks (lists_scopes next) cell = run env hooks (next (Context.scope_chain env cell)) cell
  run env hooks (captures next) cell = run env hooks (next (Context.capture env cell)) cell
  run env hooks (forks next) cell = run env hooks (next (Context.fork cell)) cell
  run env hooks (merges source next) cell =
      then_run (Reentry.merge_with hooks source cell) (λ _. run env hooks next)
  run env hooks (clears next) cell = then_run (Reentry.clear hooks cell) (λ _. run env hooks next)

  -- How the code ends where each call gives its default and does nothing.
  unfoldable pub answer : Script D A → Outcome A
  answer (done a) = returned a
  answer panics = panicked
  answer (gets t k next) = answer (next none)
  answer (sets t k v next) = answer next
  answer (pushes name next) = answer (next noop)
  answer (drops_guard guard next) = answer next
  answer (lists_scopes next) = answer (next [])
  answer (captures next) = answer (next empty)
  answer (forks next) = answer (next new_store)
  answer (merges source next) = answer next
  answer (clears next) = answer next

module _ {D : Type 0} where
  drop_scope_guard-busy :
      (hooks : Hooks D) (guard : ScopeGuard)
      → Reentry.drop_scope_guard hooks guard none ≡ (returned tt, none)
  unfolding Reentry.drop_scope_guard Reentry.try_apply
  drop_scope_guard-busy hooks guard = elim (Bool-cases (nat_eqb guard.expected_depth usize_max)) [
    | inl is_noop ↦ rw (is_noop, Reentry.drop_scope_guard) refl
    | inr real ↦ rw (real, Reentry.drop_scope_guard) refl
  ]

  get-busy :
      (hooks : Hooks D) (t : TypeId) (k : String)
      → Reentry.get_context_variable hooks t k none ≡ (returned none, none)
  unfolding Reentry.get_context_variable Reentry.try_apply
  get-busy hooks t k = refl

  set-busy :
      (hooks : Hooks D) (t : TypeId) (k : String) (d : D)
      → hooks.drop_value (record { type_id = t; data_of = d }) none ≡ (returned tt, none)
      → Reentry.set_context_variable hooks t k d none ≡ (returned tt, none)
  unfolding Reentry.set_context_variable Reentry.try_apply
  set-busy hooks t k d dropped =
      ap (λ r. then_run {A = Option (Unit {0})} (then_run r (λ _. pure none)) (λ _. pure tt))
        dropped

  merge-busy :
      (hooks : Hooks D) (source : ContextStore D)
      → hooks.drop_values (collect_values source) none ≡ (returned tt, none)
      → hooks.drop_store source none ≡ (returned tt, none)
      → Reentry.merge_with hooks source none ≡ (returned tt, none)
  unfolding Reentry.merge_with Reentry.try_apply
  merge-busy hooks source values store =
      ap
        (λ r.
          then_run {A = Option (Unit {0})} (then_run r (λ _. pure none))
            (λ _. hooks.drop_store source))
        values
      ∙ store

  clear-busy : (hooks : Hooks D) → Reentry.clear hooks none ≡ (returned tt, none)
  unfolding Reentry.clear Reentry.try_apply
  clear-busy hooks = refl

-- What the calls drop on an empty cell.
pub data Dropped (D : Type 0) : Type 0 where
  a_value : Value D → Dropped D
  a_map : Values D → Dropped D
  a_store : ContextStore D → Dropped D

-- On an empty cell, all that the code drops satisfies `P`.
unfoldable pub Drops : {D A : Type 0} → (Dropped D → Type 0) → Script D A → Type 0
Drops P (done a) = Unit
Drops P panics = Unit
Drops P (gets t k next) = Drops P (next none)
Drops P (sets t k v next) = P (a_value (record { type_id = t; data_of = v })) × Drops P next
Drops P (pushes name next) = Drops P (next noop)
Drops P (drops_guard guard next) = Drops P next
Drops P (lists_scopes next) = Drops P (next [])
Drops P (captures next) = Drops P (next empty)
Drops P (forks next) = Drops P (next new_store)
Drops P (merges source next) = P (a_map (collect_values source)) × P (a_store source) × Drops P next
Drops P (clears next) = Drops P next

pub all-Drops :
    {D A : Type 0} (P : Dropped D → Type 0)
    → ((x : Dropped D) → P x)
    → (script : Script D A) → Drops P script
unfolding Drops
all-Drops P all (done a) = tt
all-Drops P all panics = tt
all-Drops P all (gets t k next) = all-Drops P all (next none)
all-Drops P all (sets t k v next) = (all _, all-Drops P all next)
all-Drops P all (pushes name next) = all-Drops P all (next noop)
all-Drops P all (drops_guard guard next) = all-Drops P all next
all-Drops P all (lists_scopes next) = all-Drops P all (next [])
all-Drops P all (captures next) = all-Drops P all (next empty)
all-Drops P all (forks next) = all-Drops P all (next new_store)
all-Drops P all (merges source next) = (all _, all _, all-Drops P all next)
all-Drops P all (clears next) = all-Drops P all next

abbrev pub hook_of : {D : Type 0} → Hooks D → Dropped D → Code D (Unit {0})
hook_of hooks (a_value v) = hooks.drop_value v
hook_of hooks (a_map m) = hooks.drop_values m
hook_of hooks (a_store s) = hooks.drop_store s

module _ {D : Type 0} where
  pub run-busy :
      {A : Type 0} (env : Env D) (hooks : Hooks D) (P : Dropped D → Type 0)
      → ((x : Dropped D) → P x → hook_of hooks x none ≡ (returned tt, none))
      → (script : Script D A) → Drops P script
      → run env hooks script none ≡ (answer script, none)
  unfolding run answer Drops Context.push_scope Context.scope_chain Context.capture Context.fork
      try_read Context.try_apply
  run-busy env hooks P quiet (done a) drops = refl
  run-busy env hooks P quiet panics drops = refl
  run-busy env hooks P quiet (gets t k next) drops =
      ap (λ r. then_run r (λ found. run env hooks (next found))) (get-busy hooks t k)
      ∙ run-busy env hooks P quiet (next none) drops
  run-busy env hooks P quiet (sets t k v next) (dropped, drops) =
      ap (λ r. then_run r (λ _. run env hooks next)) (set-busy hooks t k v (quiet _ dropped))
      ∙ run-busy env hooks P quiet next drops
  run-busy env hooks P quiet (pushes name next) drops = run-busy env hooks P quiet (next noop) drops
  run-busy env hooks P quiet (drops_guard guard next) drops =
      ap (λ r. then_run r (λ _. run env hooks next)) (drop_scope_guard-busy hooks guard)
      ∙ run-busy env hooks P quiet next drops
  run-busy env hooks P quiet (lists_scopes next) drops = run-busy env hooks P quiet (next []) drops
  run-busy env hooks P quiet (captures next) drops = run-busy env hooks P quiet (next empty) drops
  run-busy env hooks P quiet (forks next) drops = run-busy env hooks P quiet (next new_store) drops
  run-busy env hooks P quiet (merges source next) (values, store, drops) =
      ap (λ r. then_run r (λ _. run env hooks next))
        (merge-busy hooks source (quiet _ values) (quiet _ store))
      ∙ run-busy env hooks P quiet next drops
  run-busy env hooks P quiet (clears next) drops =
      ap (λ r. then_run r (λ _. run env hooks next)) (clear-busy hooks)
      ∙ run-busy env hooks P quiet next drops
