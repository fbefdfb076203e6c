-- ===== src/Registry/Options.antt =====
-- dcontext/src/registry.rs: `RegistrationOptions<T>` and its builder methods.
use dcontext.Base.{ℕ, String, Bool, true, false, Option, none, some, [], Result, nat_eq}
use dcontext.Base.HashMap.{HashMap, insert}
use dcontext.Value.{TypeId, Bytes, Value}

pub record RegistrationOptions (D : Type 0) : Type 0 where
  pub version : ℕ
  pub local_only : Bool
  pub cached : Bool
  pub encode : Option (D → Result Bytes String)
  pub decode : Option (Bytes → Result D String)
  pub metadata : HashMap TypeId (Value D)

module _ {D : Type 0} where
  abbrev pub default_options : RegistrationOptions D
  default_options = record {
    version = 1;
    local_only = false;
    cached = false;
    encode = none;
    decode = none;
    metadata = [];
  }

  abbrev pub version : ℕ → RegistrationOptions D → RegistrationOptions D
  version v opts = record opts { version = v }

  abbrev pub local_only : RegistrationOptions D → RegistrationOptions D
  local_only opts = record opts { local_only = true }

  abbrev pub cached : RegistrationOptions D → RegistrationOptions D
  cached opts = record opts { cached = true }

  -- Both halves are set together.
  abbrev pub codec :
      (D → Result Bytes String)
      → (Bytes → Result D String)
      → RegistrationOptions D
      → RegistrationOptions D
  codec encode decode opts = record opts { encode = some encode; decode = some decode }

  abbrev pub with_metadata : TypeId → D → RegistrationOptions D → RegistrationOptions D
  with_metadata m value opts = record opts {
    metadata = insert m (record { type_id = m; data_of = value }) opts.metadata;
  }
