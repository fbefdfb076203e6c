-- ===== src/Value.antt =====
-- dcontext/src/value.rs: type-erased values. A Rust type is its `TypeId`, a number; a value of any
-- type is an element of `D`, and the box `dyn ContextValue` (or `dyn Any`) carries the type's id.
use dcontext.Base.{ℕ, String, Option, none, some, List, if◌then◌else◌, nat_eqb, Result, map_err}
use dcontext.Error.{ContextError, serialization_failed}

abbrev pub TypeId : Type 0
TypeId = ℕ

abbrev pub Bytes : Type 0
Bytes = List ℕ

pub record Value (D : Type 0) : Type 0 where
  pub type_id : TypeId
  pub data_of : D

-- What the program takes from serde, bincode and the compiler for each type: the codec that the
-- type derives, with errors as texts, and the name of the type.
pub record Serde (D : Type 0) : Type 0 where
  pub type_name : TypeId → String
  pub serialize : TypeId → D → Result Bytes String
  pub deserialize : TypeId → Bytes → Result D String

module _ {D : Type 0} where
  -- `value.as_any().downcast_ref::<T>()`.
  unfoldable pub downcast_ref : TypeId → Value D → Option D
  downcast_ref t v = if nat_eqb v.type_id t then some v.data_of else none

  -- `ContextValue::serialize_value`.
  unfoldable pub serialize_value : Serde D → Value D → Result Bytes ContextError
  serialize_value serde v = map_err serialization_failed (serde.serialize v.type_id v.data_of)
