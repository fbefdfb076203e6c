-- ===== src/Registry/Phases.antt =====
-- The two phases of the registry: a build phase, and what `initialize` freezes.
use dcontext.Base.{◌≡◌, none, some, List, [], ◌∷◌, Result, ok, arith}
use dcontext.Error.{ContextError}
use dcontext.Registry.{RegistryMap}
use dcontext.Registry.Globals.{
  Globals, global_registry, try_initialize, initialize, register_in_build,
}

-- A call that may change the statics.
pub data RegistryCall (D : Type 0) : Type 0 where
  call_try_initialize : RegistryMap D → RegistryCall D
  call_register : (RegistryMap D → RegistryMap D × Result (Unit {0}) ContextError) → RegistryCall D

module _ {D : Type 0} where
  unfoldable pub call : RegistryCall D → Globals D → Globals D
  call (call_try_initialize builder) g = (try_initialize builder g).0
  call (call_register change) g = (register_in_build change g).0

  unfoldable pub calls : List (RegistryCall D) → Globals D → Globals D
  unfolding call
  calls [] g = g
  calls (c ∷ later) g = calls later (call c g)

  call-frozen :
      (c : RegistryCall D) (g : Globals D) {m : RegistryMap D}
      → g.frozen ≡ some m
      → (call c g).frozen ≡ some m
  unfolding call try_initialize register_in_build
  call-frozen (call_try_initialize builder) g h = ground arith
  call-frozen (call_register change) g h = ground arith

  calls-frozen :
      (later : List (RegistryCall D)) (g : Globals D) {m : RegistryMap D}
      → g.frozen ≡ some m
      → (calls later g).frozen ≡ some m
  unfolding calls
  calls-frozen [] g h = h
  calls-frozen (c ∷ later) g h = calls-frozen later (call c g) (call-frozen c g h)

  initialize-frozen :
      (builder : RegistryMap D) (g : Globals D) {m : RegistryMap D}
      → g.frozen ≡ some m
      → (initialize builder g ≡ none) × (global_registry g ≡ m)
  unfolding initialize try_initialize global_registry
  initialize-frozen builder g h = (ground arith, ground arith)

  try_initialize-first :
      (builder : RegistryMap D) (g : Globals D)
      → g.frozen ≡ none
      → ((try_initialize builder g).1 ≡ ok tt)
        × ((try_initialize builder g).0.frozen ≡ some builder)
  unfolding try_initialize
  try_initialize-first builder g h = (ground arith, ground arith)

  -- Where nothing is frozen yet, an initialisation succeeds; and after it, whatever is registered
  -- or initialised again, reads see its builder and `initialize` panics.
  pub initialize_once :
      (builder again : RegistryMap D) (g : Globals D) (later : List (RegistryCall D))
      → g.frozen ≡ none
      → ((try_initialize builder g).1 ≡ ok tt)
        × (global_registry (calls later (try_initialize builder g).0) ≡ builder)
        × (initialize again (calls later (try_initialize builder g).0) ≡ none)
  initialize_once builder again g later h =
      let first = try_initialize-first builder g h in
      let after =
        initialize-frozen again (calls later (try_initialize builder g).0)
          (calls-frozen later (try_initialize builder g).0 first.1) in
      (first.0, after.1, after.0)
