-- ===== src/Error.antt =====
-- dcontext/src/error.rs: `ContextError` and the text that `#[error(…)]` derives for it.
use dcontext.Base.{ℕ, zero, suc, ◌/◌, ◌%◌, ◌≡◌, refl, String, if◌then◌else◌, ltb}
use Prim.Native.String.{◌++◌}

pub data ContextError : Type 0 where
  not_registered : String → ContextError
  already_registered : String → ContextError
  type_mismatch : String → String → String → ContextError
  serialization_failed : String → ContextError
  deserialization_failed : String → ContextError
  -- the size and the limit
  context_too_large : ℕ → ℕ → ContextError
  local_only_key : String → ContextError
  no_active_scope : String → ContextError
  registry_frozen : ContextError

digit : ℕ → String
digit zero = "0"
digit (suc zero) = "1"
digit (suc (suc zero)) = "2"
digit (suc (suc (suc zero))) = "3"
digit (suc (suc (suc (suc zero)))) = "4"
digit (suc (suc (suc (suc (suc zero))))) = "5"
digit (suc (suc (suc (suc (suc (suc zero)))))) = "6"
digit (suc (suc (suc (suc (suc (suc (suc zero))))))) = "7"
digit (suc (suc (suc (suc (suc (suc (suc (suc zero)))))))) = "8"
digit _ = "9"

-- Decimal digits; a number has no more of them than its own value and one.
decimal_from : ℕ → ℕ → String
decimal_from zero n = ""
decimal_from (suc fuel) n =
    let rest = decimal_from fuel (n / 10) in if ltb n 10 then digit n else rest ++ digit (n % 10)

-- `Display` of an unsigned integer.
unfoldable pub decimal : ℕ → String
unfolding decimal_from digit
decimal n = decimal_from (suc n) n

-- `Display` of `ContextError`.
unfoldable pub to_string : ContextError → String
unfolding decimal
to_string (not_registered k) = "context key '" ++ k ++ "' is not registered"
to_string (already_registered k) =
    "context key '" ++ k ++ "' is already registered with a different type"
to_string (type_mismatch k t u) =
    "type mismatch for key '" ++ k ++ "': expected " ++ t ++ ", got " ++ u
to_string (serialization_failed m) = "serialization failed: " ++ m
to_string (deserialization_failed m) = "deserialization failed: " ++ m
to_string (context_too_large size limit) =
    "context size exceeds limit: " ++ decimal size ++ " bytes > " ++ decimal limit ++ " bytes"
to_string (local_only_key k) = "key '" ++ k ++ "' is local-only and cannot be serialized"
to_string (no_active_scope m) = "no active scope: " ++ m
to_string registry_frozen =
    "registry is already initialized; registrations must happen before initialize()"

too_large_text :
    to_string (context_too_large 1205 64) ≡ "context size exceeds limit: 1205 bytes > 64 bytes"
unfolding to_string
too_large_text = refl
