-- ===== src/Samples/Program.antt =====
-- What the programs of samples/src/bin are made of: calls of the library on the current thread,
-- lines on the console, and panics.
use dcontext.Base.{ℕ, String, ◌++◌, Option, none, some, List, [], ◌∷◌, Result, ok, err, Bool}
use dcontext.Error.{ContextError}
use dcontext.Config
use dcontext.Config.{default_config}
use dcontext.Value.{TypeId, Bytes, Serde}
use dcontext.Scope.{ScopeGuard}
use dcontext.Registry.{RegistryMap}
use dcontext.Registry.Options.{RegistrationOptions}
use dcontext.Registry.Register
use dcontext.Registry.Globals
use dcontext.Registry.Globals.{initial_globals}
use dcontext.Store.{ContextStore, new_store}
use dcontext.Snapshot.{ContextSnapshot}
use dcontext.Wire.{Bincode}
use dcontext.Context
use dcontext.Context.{Env, Cell, AttachGuard}
use dcontext.Context.Typed
use dcontext.Future
use dcontext.Future.{WithContext, PollFn}

-- An argument of `println!`, which is not formatted.
pub data Arg (D : Type 0) : Type 0 where
  value : D → Arg D
  maybe : Option D → Arg D
  -- A field of a value, by its name, and `opt.map(|v| v.field)`.
  part : String → D → Arg D
  maybe_part : String → Option D → Arg D
  names : List String → Arg D
  number : ℕ → Arg D
  flag : Bool → Arg D
  text : String → Arg D
  error : ContextError → Arg D
  bytes : Bytes → Arg D

-- A call of `println!`: the format and its arguments.
pub record Line (D : Type 0) : Type 0 where
  pub format : String
  pub args : List (Arg D)

abbrev pub line : {D : Type 0} → String → List (Arg D) → Line D
line format args = record { format = format; args = args }

pub record World (D : Type 0) : Type 0 where
  pub env : Env D
  pub cell : Cell D
  pub output : List (Line D)

-- `none` is a panic.
abbrev pub Program : Type 0 → Type 0 → Type 0
Program D A = World D → Option (A × World D)

infixl 5 ◌>>=◌ ◌>>◌
abbrev pub ◌>>=◌ : {D A B : Type 0} → Program D A → (A → Program D B) → Program D B
◌>>=◌ m f w = elim (m w) [ none ↦ none | some (a, w') ↦ f a w' ]

abbrev pub ◌>>◌ : {D A B : Type 0} → Program D A → Program D B → Program D B
m >> k = m >>= λ _. k

module _ {D A : Type 0} where
  abbrev pub pure : A → Program D A
  pure a w = some (a, w)

  -- `unwrap` and `expect`.
  abbrev pub unwrap : Option A → Program D A
  unwrap none w = none
  unwrap (some a) w = some (a, w)

  abbrev pub unwrap_ok : {E : Type 0} → Result A E → Program D A
  unwrap_ok (err e) w = none
  unwrap_ok (ok a) w = some (a, w)

  abbrev pub reads : (World D → A) → Program D A
  reads f w = some (f w, w)

  -- `std::thread::spawn(body)` with the `join` and `unwrap` that follow at once: the body runs on a
  -- thread with a cell of its own.
  abbrev pub on_thread : Program D A → Program D A
  on_thread body w = elim (body (record w { cell = some new_store })) [
    | none ↦ none
    | some (a, w') ↦ some (a, record w' { cell = w.cell })
  ]

  -- The poll of a block of code, which runs to its end; `some none` is a panic.
  abbrev pub poll_block : Program D A → PollFn D (World D) (Option A)
  poll_block body w cell = elim (body (record w { cell = cell })) [
    | none ↦ (w, cell, some none)
    | some (a, w') ↦ (w', w'.cell, some (some a))
  ]

  abbrev ready : WithContext D (World D) × Cell D × Option (Option A) → Option (A × World D)
  ready (this, cell, some (some a)) = some (a, record this.inner { cell = cell })
  ready (this, cell, some none) = none
  ready (this, cell, none) = none

  -- `.await` of a wrapped block: one poll of the wrapper on the current thread.
  abbrev pub await : Program D A → WithContext D (Unit {0}) → Program D A
  await body wrapper w =
      ready (Future.poll (poll_block body) (record { inner = w; store = wrapper.store }) w.cell)

module _ {D : Type 0} where
  abbrev pub println : String → List (Arg D) → Program D (Unit {0})
  println format args w = some (tt, record w { output = w.output ++ line format args ∷ [] })

  abbrev pub modify : (World D → World D) → Program D (Unit {0})
  modify f w = some (tt, f w)

  -- `builder.register::<T>(key)`.
  abbrev pub register : TypeId → String → RegistryMap D → Program D (RegistryMap D)
  register t key builder w = unwrap (Register.register w.env.serde t builder key) w

  abbrev pub register_with :
      TypeId
      → String
      → (RegistrationOptions D → RegistrationOptions D)
      → RegistryMap D
      → Program D (RegistryMap D)
  register_with t key configure builder w =
      unwrap (Register.register_with w.env.serde t builder key configure) w

  abbrev pub register_migration :
      TypeId → TypeId → String → ℕ → (D → D) → RegistryMap D → Program D (RegistryMap D)
  register_migration t_old t key old_version migrate builder w =
      unwrap (Register.register_migration w.env.serde t builder key t_old old_version migrate) w

  abbrev pub register_contexts : List (String × TypeId) → RegistryMap D → Program D (RegistryMap D)
  register_contexts keys builder w = unwrap (Register.register_contexts w.env.serde builder keys) w

  abbrev pub initialize : RegistryMap D → Program D (Unit {0})
  initialize builder w = elim (Globals.initialize builder w.env.globals) [
    | none ↦ none
    | some globals ↦ some (tt, record w { env = record w.env { globals = globals } })
  ]

  abbrev pub set : TypeId → String → D → Program D (Unit {0})
  set t key v = modify (λ w. record w { cell = Typed.set_context_variable t key v w.cell })

  abbrev pub get : TypeId → String → Program D (Option D)
  get t key = reads (λ w. Typed.get_context_variable t key w.cell)

  -- `get_context_variable::<T>(key).unwrap()`.
  abbrev pub get_unwrap : TypeId → String → Program D D
  get_unwrap t key = get t key >>= unwrap

  abbrev pub push_scope : String → Program D ScopeGuard
  push_scope name w =
      let (cell, guard) = Context.push_scope w.env name w.cell in
      some (guard, record w { cell = cell })

  abbrev pub drop_scope : ScopeGuard → Program D (Unit {0})
  drop_scope guard = modify (λ w. record w { cell = Context.drop_scope_guard guard w.cell })

  abbrev pub scope_chain : Program D (List String)
  scope_chain = reads (λ w. Context.scope_chain w.env w.cell)

  abbrev pub clear : Program D (Unit {0})
  clear = modify (λ w. record w { cell = Context.clear w.cell })

  abbrev pub capture : Program D (ContextSnapshot D)
  capture = reads (λ w. Context.capture w.env w.cell)

  abbrev pub serialize : ContextSnapshot D → Program D (Result Bytes ContextError)
  serialize snap = reads (λ w. Context.serialize w.env snap)

  abbrev pub deserialize : Bytes → Program D (Result (ContextSnapshot D) ContextError)
  deserialize b = reads (λ w. Context.deserialize w.env b)

  -- `capture().serialize().unwrap()`.
  abbrev pub capture_bytes : Program D Bytes
  capture_bytes = capture >>= serialize >>= unwrap_ok

  -- `ContextSnapshot::deserialize(bytes).unwrap()`.
  abbrev pub snapshot_of : Bytes → Program D (ContextSnapshot D)
  snapshot_of b = deserialize b >>= unwrap_ok

  abbrev pub fork : Program D (ContextStore D)
  fork = reads (λ w. Context.fork w.cell)

  abbrev pub attach_store : ContextStore D → Program D (AttachGuard D)
  attach_store store w =
      let (cell, guard) = Context.attach_store store w.cell in
      some (guard, record w { cell = cell })

  abbrev pub attach_snapshot : ContextSnapshot D → Program D (AttachGuard D)
  attach_snapshot snap w =
      let (cell, guard) = Context.attach_snapshot w.env snap w.cell in
      some (guard, record w { cell = cell })

  abbrev pub drop_attach : AttachGuard D → Program D (Unit {0})
  drop_attach guard = modify (λ w. record w { cell = Context.drop_attach_guard guard w.cell })

  abbrev pub set_max_context_size : ℕ → Program D (Unit {0})
  set_max_context_size n =
      modify (λ w. record w {
        env = record w.env { config = Config.set_max_context_size n w.env.config };
      })

  abbrev pub set_max_scope_chain_len : ℕ → Program D (Unit {0})
  set_max_scope_chain_len n = modify (λ w. record w {
    env = record w.env { config = Config.set_max_scope_chain_len n w.env.config };
  })

  -- The adapters of `ContextFutureExt`, called on the current thread.
  abbrev pub with_scope : String → Program D (WithContext D (Unit {0}))
  with_scope name = reads (λ w. Future.scope w.env name w.cell tt)

  abbrev pub with_capture : Program D (WithContext D (Unit {0}))
  with_capture = reads (λ w. Future.capture w.env w.cell tt)

  abbrev pub with_fork : Program D (WithContext D (Unit {0}))
  with_fork = reads (λ w. Future.fork w.cell tt)

  abbrev pub with_snapshot : ContextSnapshot D → Program D (WithContext D (Unit {0}))
  with_snapshot snap = reads (λ w. Future.attach w.env snap tt)

  -- `body.scope(name).await`, and the same with the other adapters.
  abbrev pub in_scope : {A : Type 0} → String → Program D A → Program D A
  in_scope name body = with_scope name >>= await body

  abbrev pub in_capture : {A : Type 0} → Program D A → Program D A
  in_capture body = with_capture >>= await body

  -- `tokio::spawn(body.fork())` with its `await` and `unwrap`: the store of the wrapper does not
  -- depend on the thread that polls it.
  abbrev pub in_fork : {A : Type 0} → Program D A → Program D A
  in_fork body = with_fork >>= await body

  abbrev pub in_snapshot : {A : Type 0} → ContextSnapshot D → Program D A → Program D A
  in_snapshot snap body = with_snapshot snap >>= await body

  -- A process with nothing registered, on its first thread.
  abbrev pub started : Serde D → Bincode → World D
  started serde bincode = record {
    env = record {
      globals = initial_globals;
      config = default_config;
      serde = serde;
      bincode = bincode;
    };
    cell = some new_store;
    output = [];
  }

  -- What a program that does not panic has printed.
  abbrev pub printed : {A : Type 0} → Serde D → Bincode → Program D A → Option (List (Line D))
  printed serde bincode program = elim (program (started serde bincode)) [
    | none ↦ none
    | some (a, w) ↦ some w.output
  ]
