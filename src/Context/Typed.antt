-- ===== src/Context/Typed.antt =====
-- dcontext/src/lib.rs and dcontext/src/context_key.rs: access to variables at a type. The type `T`
-- of a call is its `TypeId`.
use dcontext.Base.{flatten, String, Option, Result, and_then, unwrap_or}
use dcontext.Error.{ContextError}
use dcontext.Value.{TypeId, Serde, downcast_ref}
use dcontext.Registry.{RegistryMap}
use dcontext.Registry.Register
use dcontext.Store.Lookup.{set_value, get_value}
use dcontext.Context.{Cell, try_apply, try_read}

module _ {D : Type 0} where
  unfoldable pub set_context_variable : TypeId → String → D → Cell D → Cell D
  set_context_variable t key value cell =
      (try_apply (set_value key (record { type_id = t; data_of = value })) cell).0

  unfoldable pub get_context_variable : TypeId → String → Cell D → Option D
  get_context_variable t key cell =
      flatten (try_read (λ store. and_then (get_value store key) (downcast_ref t)) cell)

  -- `default` is `T::default()`.
  unfoldable pub update_context_variable : TypeId → D → String → (D → D) → Cell D → Cell D
  update_context_variable t default key f cell =
      let old = unwrap_or default (get_context_variable t key cell) in
      set_context_variable t key (f old) cell

-- `ContextKey<T>`: the string with its type.
pub record ContextKey : Type 0 where
  pub key : String
  pub type_of : TypeId

module _ {D : Type 0} (k : ContextKey) where
  unfoldable pub register_on : Serde D → RegistryMap D → Option (RegistryMap D)
  register_on serde builder = Register.register serde k.type_of builder k.key

  unfoldable pub try_register_on :
      Serde D → RegistryMap D → RegistryMap D × Result (Unit {0}) ContextError
  try_register_on serde builder = Register.try_register serde k.type_of builder k.key

  unfoldable pub get : Cell D → Option D
  unfolding get_context_variable
  get = get_context_variable k.type_of k.key

  unfoldable pub set : D → Cell D → Cell D
  unfolding set_context_variable
  set = set_context_variable k.type_of k.key
