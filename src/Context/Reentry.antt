-- ===== src/Context/Reentry.antt =====
-- dcontext/src/store.rs (`try_apply`), lib.rs, scope.rs and attach.rs once more, with the user code
-- that runs inside them: `Clone` and `Drop` of the values, which may call the library again, or
-- panic. The cell is empty while `try_apply` runs.
pub mod Agrees
pub mod Scripts
pub mod Busy
pub mod Panics
use dcontext.Base.{
  String, Option, none, some, List, [], ◌∷◌, if◌then◌else◌, nat_eqb, usize_max, and_then, flatten,
  unwrap_or,
}
use dcontext.Value.{TypeId, Value, downcast_ref}
use dcontext.Scope.{Values, ScopeGarbage, ScopeGuard}
use dcontext.Store.{ContextStore, new_store}
use dcontext.Store.Lookup.{set_value, get_value, collect_values}
use dcontext.Store.Pop
use dcontext.Context.{Cell, AttachGuard}

pub data Outcome (A : Type 0) : Type 0 where
  returned : A → Outcome A
  panicked : Outcome A

-- Code that runs on a thread, with the cell that it finds and the one that it leaves.
abbrev pub Code : Type 0 → Type 0 → Type 0
Code D A = Cell D → Outcome A × Cell D

module _ {D A B : Type 0} where
  abbrev pub then_run : Outcome A × Cell D → (A → Code D B) → Outcome B × Cell D
  then_run (returned a, left) f = f a left
  then_run (panicked, left) f = (panicked, left)

  infixl 5 ◌>>=◌
  abbrev pub ◌>>=◌ : Code D A → (A → Code D B) → Code D B
  ◌>>=◌ m f cell = then_run (m cell) f

module _ {D A : Type 0} where
  abbrev pub pure : A → Code D A
  pure a cell = (returned a, cell)

-- The user's `Clone` and what runs where a value, a map, a store or garbage is dropped: the user's
-- `Drop` of those values that no other `Arc` holds.
pub record Hooks (D : Type 0) : Type 0 where
  pub clone : D → Code D D
  pub drop_value : Value D → Code D (Unit {0})
  pub drop_values : Values D → Code D (Unit {0})
  pub drop_store : ContextStore D → Code D (Unit {0})
  pub drop_garbage : ScopeGarbage D → Code D (Unit {0})

-- What the closure of `try_apply` ends with, and the store that it has changed.
abbrev pub Applied : Type 0 → Type 0 → Type 0
Applied D R = (Outcome R × ContextStore D) × Cell D

module _ {D : Type 0} (hooks : Hooks D) where
  -- `cell.set(Some(store))`, which drops what the cell held. A panic drops the store on its way.
  -- A second panic, which ends the process, is not modelled.
  unfoldable pub put_back : {R : Type 0} → Applied D R → Outcome (Option R) × Cell D
  put_back ((returned r, store), none) = (returned (some r), some store)
  put_back ((returned r, store), some lost) =
      (hooks.drop_store lost >>= λ _. pure (some r)) (some store)
  put_back ((panicked, store), left) = (panicked, (hooks.drop_store store left).1)

  -- If the store is out, the closure is dropped with what it holds.
  unfoldable pub try_apply :
      {R : Type 0} → Code D (Unit {0}) → (ContextStore D → Cell D → Applied D R) → Code D (Option R)
  unfolding put_back
  try_apply drop_closure f none = (drop_closure >>= λ _. pure none) none
  try_apply drop_closure f (some store) = put_back (f store none)

  unfoldable pub drop_option : Option (Value D) → Code D (Unit {0})
  drop_option none cell = pure tt cell
  drop_option (some v) cell = hooks.drop_value v cell

  abbrev pub cloned : Option D → ContextStore D → Cell D → Applied D (Option D)
  cloned none store cell = ((returned none, store), cell)
  cloned (some d) store cell =
      let (outcome, left) = (hooks.clone d >>= λ copy. pure (some copy)) cell in
      ((outcome, store), left)

  -- `cloned` runs inside `try_apply`.
  unfoldable pub get_context_variable : TypeId → String → Code D (Option D)
  unfolding try_apply
  get_context_variable t key =
      try_apply (pure tt) (λ store. cloned (and_then (get_value store key) (downcast_ref t)) store)
      >>= λ found. pure (flatten found)

  -- `store.set_value(…);` drops the replaced value at once, inside `try_apply`.
  unfoldable pub set_context_variable : TypeId → String → D → Code D (Unit {0})
  unfolding try_apply drop_option
  set_context_variable t key value =
      let boxed : Value D = record { type_id = t; data_of = value } in
      try_apply (hooks.drop_value boxed) (λ store cell.
        let (store', old) = set_value key boxed store in
        let (outcome, left) = drop_option old cell in ((outcome, store'), left))
      >>= λ _. pure tt

  -- The callback runs between the two, with the store back in the cell.
  unfoldable pub update_context_variable : TypeId → D → String → (D → Code D D) → Code D (Unit {0})
  unfolding get_context_variable set_context_variable
  update_context_variable t default key f =
      get_context_variable t key
      >>= (λ old. f (unwrap_or default old))
      >>= set_context_variable t key

  -- `*store = ContextStore::new()` drops the old store inside `try_apply`.
  unfoldable pub clear : Code D (Unit {0})
  unfolding try_apply
  clear =
      try_apply (pure tt) (λ store cell.
        let (outcome, left) = hooks.drop_store store cell in ((outcome, new_store), left))
      >>= λ _. pure tt

  -- The loop of `merge_with`; each round drops the value that it replaces, and a panic the rest.
  unfoldable pub set_all : Values D → ContextStore D → Cell D → Applied D (Unit {0})
  unfolding drop_option
  set_all [] store cell = ((returned tt, store), cell)
  set_all ((key, val) ∷ values) store cell =
      let (store', old) = set_value key val store in
      let (outcome, left) = drop_option old cell in
      elim outcome [
        | returned _ ↦ set_all values store' left
        | panicked ↦ ((panicked, store'), (hooks.drop_values values left).1)
      ]

  -- The source is dropped at the end, with the store back in the cell.
  unfoldable pub merge_with : ContextStore D → Code D (Unit {0})
  unfolding try_apply set_all
  merge_with source =
      try_apply (hooks.drop_values (collect_values source)) (set_all (collect_values source))
      >>= λ _. hooks.drop_store source

  abbrev pub drop_garbage : Option (ScopeGarbage D) → Code D (Unit {0})
  drop_garbage none cell = pure tt cell
  drop_garbage (some garbage) cell = hooks.drop_garbage garbage cell

  -- `leave_scope`: the garbage is dropped after `try_apply`.
  unfoldable pub drop_scope_guard : ScopeGuard → Code D (Unit {0})
  unfolding try_apply
  drop_scope_guard guard =
      if nat_eqb guard.expected_depth usize_max
      then pure tt
      else (try_apply (pure tt) (λ store cell.
            let (store', garbage) = Pop.pop_scope guard.expected_depth store in
            ((returned garbage, store'), cell))
          >>= λ garbage. drop_garbage (flatten garbage))

  abbrev drop_cell : Cell D → Code D (Unit {0})
  drop_cell none cell = pure tt cell
  drop_cell (some store) cell = hooks.drop_store store cell

  -- `cell.set(self.prev.take())` drops what the cell held after the previous store is back.
  unfoldable pub drop_attach_guard : AttachGuard D → Code D (Unit {0})
  drop_attach_guard guard cell = drop_cell cell guard.prev
