-- ===== src/Registry.antt =====
-- dcontext/src/registry.rs: what is stored for each key. `Options` is the builder of options,
-- `Register` adds entries, `Reads` looks them up and `Globals` holds the two phases, `Locks` with the
-- mutex of the first; `Outcomes` has the lemmas on registration, `Phases` those on freezing, and
-- `UnitTests` the tests of the file.
pub mod Options
pub mod Register
pub mod Reads
pub mod Globals
pub mod Locks
pub mod Outcomes
pub mod Phases
pub mod UnitTests
use dcontext.Base.{ℕ, String, Bool, Option, Result}
use dcontext.Base.HashMap.{HashMap}
use dcontext.Error.{ContextError}
use dcontext.Value.{TypeId, Bytes, Value}

abbrev pub DeserializeFn : Type 0 → Type 0
DeserializeFn D = Bytes → Result (Value D) ContextError

abbrev pub SerializeFn : Type 0 → Type 0
SerializeFn D = Value D → Result Bytes ContextError

pub record Registration (D : Type 0) : Type 0 where
  pub key : String
  pub type_id : TypeId
  pub key_version : ℕ
  pub deserializers : HashMap ℕ (DeserializeFn D)
  pub type_name : String
  pub local_only : Bool
  pub serialize_fn : Option (SerializeFn D)
  pub cached : Bool
  pub metadata : HashMap TypeId (Value D)

abbrev pub RegistryMap : Type 0 → Type 0
RegistryMap D = HashMap String (Registration D)
