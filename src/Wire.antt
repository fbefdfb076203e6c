-- ===== src/Wire.antt =====
-- dcontext/src/wire.rs: the wire format. `bincode` of the whole `WireContext` is a parameter.
pub mod Encode
pub mod Decode
pub mod Sound
pub mod Size
pub mod Outcomes
pub mod RoundTrip
pub mod Migration
pub mod Unknown
pub mod Safe
pub mod Untrusted
use dcontext.Base.{ℕ, String, List, [], ◌∷◌, Result}
use dcontext.Value.{Bytes}

abbrev pub wire_version : ℕ
wire_version = 2

pub record WireEntry : Type 0 where
  pub key : String
  pub key_version : ℕ
  pub value : Bytes

pub record WireContext : Type 0 where
  pub version : ℕ
  pub entries : List WireEntry
  pub scope_chain : List String

-- `bincode::serialize` and `bincode::deserialize` at `WireContext`, with errors as texts.
pub record Bincode : Type 0 where
  pub serialize : WireContext → Result Bytes String
  pub deserialize : Bytes → Result WireContext String
