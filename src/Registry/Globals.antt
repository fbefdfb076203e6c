-- ===== src/Registry/Globals.antt =====
-- dcontext/src/registry.rs: the statics `FROZEN` and `BUILD`, and what reads and sets them.
use dcontext.Base.{
  String, Bool, false, true, Option, none, some, List, [], Result, ok, err, map_or, string_eq,
}
use dcontext.Base.HashMap.{get}
use dcontext.Error.{ContextError, registry_frozen}
use dcontext.Value.{TypeId, Value}
use dcontext.Registry.{RegistryMap}
use dcontext.Registry.Reads

pub record Globals (D : Type 0) : Type 0 where
  pub frozen : Option (RegistryMap D)
  pub build : Option (RegistryMap D)

module _ {D : Type 0} where
  abbrev pub initial_globals : Globals D
  initial_globals = record { frozen = none; build = some [] }

  -- The map that `with_global_registry` hands to its callback.
  unfoldable pub global_registry : Globals D → RegistryMap D
  global_registry g = elim g.frozen [
    | some map ↦ map
    | none ↦ elim g.build [ some map ↦ map | none ↦ [] ]
  ]

  unfoldable pub with_global_registry {ℓ} : {R : Type ℓ} → Globals D → (RegistryMap D → R) → R
  unfolding global_registry
  with_global_registry g f = f (global_registry g)

  -- The free-standing read functions. Those of the same name in `Reads` take the view.
  module _ (g : Globals D) where
    unfoldable pub get_serialization_info : String → Option (Reads.SerializationInfo D)
    unfolding with_global_registry
    get_serialization_info key = with_global_registry g (λ r. Reads.get_serialization_info r key)

    unfoldable pub cached_keys : List String
    unfolding with_global_registry
    cached_keys = with_global_registry g Reads.cached_keys

    unfoldable pub is_local_key : String → Bool
    unfolding with_global_registry
    is_local_key key = with_global_registry g (λ r. Reads.is_local_key r key)

    unfoldable pub is_valid_value : String → Value D → Bool
    unfolding with_global_registry
    is_valid_value key value = with_global_registry g (λ r. Reads.is_valid_value r key value)

    unfoldable pub with_metadata : {R : Type 0} → TypeId → String → (D → R) → Option R
    unfolding with_global_registry
    with_metadata m key f = with_global_registry g (λ r. Reads.with_metadata r m key f)

    unfoldable pub keys_with_metadata : {R : Type 0} → TypeId → (String → D → R) → List R
    unfolding with_global_registry
    keys_with_metadata m f = with_global_registry g (Reads.keys_with_metadata m f)

  -- `FROZEN.set(builder.map)`: a `OnceLock` is set once.
  unfoldable pub try_initialize :
      RegistryMap D → Globals D → Globals D × Result (Unit {0}) ContextError
  try_initialize builder g = elim g.frozen [
    | none ↦ (record g { frozen = some builder }, ok tt)
    | some _ ↦ (g, err registry_frozen)
  ]

  -- A panic is `none`.
  unfoldable pub initialize : RegistryMap D → Globals D → Option (Globals D)
  unfolding try_initialize
  initialize builder g = elim (try_initialize builder g).1 [
    | ok _ ↦ some (try_initialize builder g).0
    | err e ↦ none
  ]

  -- The free-standing registration functions of the tests change `BUILD`.
  unfoldable pub register_in_build :
      (RegistryMap D → RegistryMap D × Result (Unit {0}) ContextError)
      → Globals D
      → Globals D × Result (Unit {0}) ContextError
  register_in_build change g = elim g.build [
    | none ↦ (g, err registry_frozen)
    | some map ↦ (record g { build = some (change map).0 }, (change map).1)
  ]

  unfoldable pub is_registered : Globals D → String → Bool
  unfolding global_registry
  is_registered g key = map_or false (λ r. true) (get key (global_registry g))
