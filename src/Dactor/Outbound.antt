-- ===== src/Dactor/Outbound.antt =====
-- dcontext-dactor/src/outbound.rs: `on_send`.
use dcontext.Base.{Bool, Result, ok, err, if◌then◌else◌}
use dcontext.Error.{ContextError, to_string}
use dcontext.Value.{Bytes}
use dcontext.Context.{Env, Cell, capture, serialize}
use dcontext.Dactor.{ErrorPolicy, log_and_continue, reject, Disposition, proceed, refused}
use dcontext.Dactor.Headers.{HeaderMap}
use Prim.Native.String.{◌++◌}

module _ {D : Type 0} (m : HeaderMap D) where
  open m use {Headers, insert_wire, insert_snapshot}

  unfoldable pub on_serialize_error : ErrorPolicy → ContextError → Headers → Headers × Disposition
  on_serialize_error log_and_continue e headers = (headers, proceed)
  on_serialize_error reject e headers =
      (headers, refused ("dcontext serialization failed: " ++ to_string e))

  -- The branch for a remote target, on the result of `capture().serialize()`.
  unfoldable pub send_remote :
      ErrorPolicy → Result Bytes ContextError → Headers → Headers × Disposition
  unfolding on_serialize_error
  send_remote policy (ok bytes) headers = (insert_wire (record { bytes = bytes }) headers, proceed)
  send_remote policy (err e) headers = on_serialize_error policy e headers

  -- `remote` is the field of dactor's `OutboundContext`.
  unfoldable pub on_send : ErrorPolicy → Env D → Bool → Cell D → Headers → Headers × Disposition
  on_send policy env remote cell headers =
      if remote
      then send_remote policy (serialize env (capture env cell)) headers
      else (insert_snapshot (record { snapshot = capture env cell }) headers, proceed)
