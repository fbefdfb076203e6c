-- ===== src/Dactor.antt =====
-- dcontext-dactor/src: the interceptors that carry a context through actor messages. The parts of
-- the crate dactor that they use are parameters.
pub mod Headers
pub mod Outbound
pub mod Inbound
pub mod Pipeline
pub mod Hops
pub mod Policies
pub mod Journey
pub mod Extract
use dcontext.Base.{String}

-- `ErrorPolicy`, with its default first.
pub data ErrorPolicy : Type 0 where
  log_and_continue : ErrorPolicy
  reject : ErrorPolicy

-- The two dispositions of dactor that the interceptors return.
pub data Disposition : Type 0 where
  proceed : Disposition
  refused : String → Disposition
