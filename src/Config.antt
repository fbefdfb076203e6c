-- ===== src/Config.antt =====
-- dcontext/src/config.rs: the two process-wide limits, as a record that operations take and return.
use dcontext.Base.{ℕ, ◌&&◌, if◌then◌else◌, ltb, Result, ok, err}
use dcontext.Error.{ContextError, context_too_large}

-- `MAX_CONTEXT_SIZE` and `MAX_SCOPE_CHAIN_LEN`; 0 means no limit.
pub record Config : Type 0 where
  pub max_context_size : ℕ
  pub max_scope_chain_len : ℕ

abbrev pub default_max_scope_chain_len : ℕ
default_max_scope_chain_len = 64

-- The initial values of the two statics.
abbrev pub default_config : Config
default_config = record { max_context_size = 0; max_scope_chain_len = default_max_scope_chain_len }

unfoldable pub set_max_context_size : ℕ → Config → Config
set_max_context_size limit c = record c { max_context_size = limit }

unfoldable pub set_max_scope_chain_len : ℕ → Config → Config
set_max_scope_chain_len limit c = record c { max_scope_chain_len = limit }

unfoldable pub check_size : Config → ℕ → Result (Unit {0}) ContextError
check_size c size =
    let limit = c.max_context_size in
    if ltb 0 limit && ltb limit size then err (context_too_large size limit) else ok tt
