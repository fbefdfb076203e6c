-- ===== src/Dactor/Policies.antt =====
-- What the error policies of the interceptors promise.
use dcontext.Base.{
  false, Option-cases, inl, inr, Bool, true, false, ◌||◌, not, is_some, ◌≡◌, refl, ap, Result, ok,
  err, arith, if◌then◌else◌, string_eq,
}
use dcontext.Value.{Bytes}
use dcontext.Context.{Env, Cell, capture, serialize}
use dcontext.Dactor.{Disposition, proceed, refused, reject, log_and_continue}
use dcontext.Dactor.Headers.{HeaderMap}
use dcontext.Dactor.Outbound.{on_send, send_remote}
use dcontext.Dactor.Inbound.{bytes_to_snapshot, on_receive}
use dcontext.Error.{ContextError}
use dcontext.Dactor.Outbound.{on_serialize_error}
use dcontext.Dactor.Inbound.{on_corrupt}

abbrev pub is_refused : Disposition → Bool
is_refused proceed = false
is_refused (refused reason) = true

unless_refused :
    (d : Disposition) (b : Bool) → (d ≡ proceed → b ≡ true) → (is_refused d || b) ≡ true
unless_refused proceed b h = h refl
unless_refused (refused reason) b h = refl

module _ {D : Type 0} (m : HeaderMap D) where
  open m use {Headers, insert_wire, get_wire, get_snapshot, insert_snapshot}

  send_remote-reject :
      (r : Result Bytes ContextError) (headers : Headers)
      → (send_remote m reject r headers).1 ≡ proceed
      → is_some (get_wire (send_remote m reject r headers).0) ≡ true
  unfolding send_remote on_serialize_error
  send_remote-reject (ok bytes) headers h =
      ap is_some (m.get_wire-insert_wire (record { bytes = bytes }) headers)
  send_remote-reject (err e) headers h = cc

  send_remote-log :
      (r : Result Bytes ContextError) (headers : Headers)
      → (send_remote m log_and_continue r headers).1 ≡ proceed
  unfolding send_remote on_serialize_error
  send_remote-log (ok bytes) headers = refl
  send_remote-log (err e) headers = refl

  on_send-reject :
      (env : Env D) (remote : Bool) (cell : Cell D) (headers : Headers)
      → (on_send m reject env remote cell headers).1 ≡ proceed
      → let sent = (on_send m reject env remote cell headers).0 in
        (if remote then is_some (get_wire sent) else is_some (get_snapshot sent)) ≡ true
  unfolding on_send
  on_send-reject env true cell headers h =
      send_remote-reject (serialize env (capture env cell)) headers h
  on_send-reject env false cell headers h =
      ap is_some (m.get_snapshot-insert_snapshot (record { snapshot = capture env cell }) headers)

  on_send-log :
      (env : Env D) (remote : Bool) (cell : Cell D) (headers : Headers)
      → (on_send m log_and_continue env remote cell headers).1 ≡ proceed
  unfolding on_send
  on_send-log env true cell headers = send_remote-log (serialize env (capture env cell)) headers
  on_send-log env false cell headers = refl

  on_receive-log :
      (env : Env D) (headers : Headers) → (on_receive m log_and_continue env headers).1 ≡ proceed
  unfolding on_receive on_corrupt
  on_receive-log env headers = ground arith

  on_receive-reject :
      (env : Env D) (headers : Headers)
      → (on_receive m reject env headers).1 ≡ proceed
      → let received = (on_receive m reject env headers).0 in
        (is_some (get_snapshot received) || not (is_some (get_wire received))) ≡ true
  unfolding on_receive on_corrupt
  on_receive-reject env headers h = elim (Option-cases (get_snapshot headers)) [
    | inr (found, e) ↦ rw (e, on_receive) (rw e refl)
    | inl no_snapshot ↦ elim (Option-cases (get_wire headers)) [
      | inl no_wire ↦ ground arith
      | inr (w, e) ↦ elim (Option-cases (bytes_to_snapshot env w.bytes)) [
        | inl corrupt ↦ ground arith
        | inr (snap, restored) ↦
            ground (arith, m.get_snapshot-insert_snapshot (record { snapshot = snap }) headers)
      ]
    ]
  ]

  -- Under `log_and_continue` no message is refused on either side. Under `reject`, a message that
  -- is not refused has after sending a wire header, for a remote target, or a snapshot header,
  -- for a local one; and after receiving it has a snapshot header unless it has no wire header.
  pub policies :
      (env : Env D) (remote : Bool) (cell : Cell D) (headers : Headers)
      → let sent = on_send m reject env remote cell headers in
        let received = on_receive m reject env headers in
        ((on_send m log_and_continue env remote cell headers).1 ≡ proceed)
        × ((on_receive m log_and_continue env headers).1 ≡ proceed)
        × ((is_refused sent.1
              || (if remote then is_some (get_wire sent.0) else is_some (get_snapshot sent.0)))
            ≡ true)
        × ((is_refused received.1
              || (is_some (get_snapshot received.0) || not (is_some (get_wire received.0))))
            ≡ true)
  policies env remote cell headers = (
    on_send-log env remote cell headers,
    on_receive-log env headers,
    unless_refused _ _ (on_send-reject env remote cell headers),
    unless_refused _ _ (on_receive-reject env headers),
  )
