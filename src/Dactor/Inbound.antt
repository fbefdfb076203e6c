-- ===== src/Dactor/Inbound.antt =====
-- dcontext-dactor/src/inbound.rs and propagation.rs: `on_receive`, `wrap_handler` and
-- `extract_context`.
use dcontext.Base.{String, Option, none, some, and_then, to_option}
use dcontext.Value.{Bytes}
use dcontext.Snapshot.{ContextSnapshot}
use dcontext.Context.{Env, Cell, deserialize, push_scope, capture, drop_scope_guard}
use dcontext.Future.{PollFn, WithContext, poll, attach}
use dcontext.Dactor.{ErrorPolicy, log_and_continue, reject, Disposition, proceed, refused}
use dcontext.Dactor.Headers.{HeaderMap}
use Prim.Native.String.{◌++◌}

abbrev pub remote_scope : String → String
remote_scope actor_name = "remote:" ++ actor_name

-- The future that `with_propagated_context` awaits.
pub data Propagated (D F : Type 0) : Type 0 where
  attached : WithContext D F → Propagated D F
  bare : F → Propagated D F

module _ {D : Type 0} where
  unfoldable pub bytes_to_snapshot : Env D → Bytes → Option (ContextSnapshot D)
  bytes_to_snapshot env bytes = to_option (deserialize env bytes)

  -- The async block of `wrap_handler`, which never waits: its one poll under the attached
  -- snapshot pushes the scope, captures, and drops the scope's guard.
  unfoldable pub scoped_block : Env D → String → PollFn D (Unit {0}) (ContextSnapshot D)
  scoped_block env scope_name unit cell =
      let (scoped, guard) = push_scope env scope_name cell in
      (tt, drop_scope_guard guard scoped, some (capture env scoped))

  module _ {F : Type 0} where
    -- What the wrapper turns the handler's future into: the scoped snapshot is made by one poll,
    -- on any thread cell, and then attached.
    unfoldable pub wrap_next :
        Env D → String → ContextSnapshot D → Cell D → F → Option (WithContext D F)
    wrap_next env actor_name snapshot cell next =
        let block = attach env snapshot (tt {0}) in
        let (_, _, scoped_snapshot) =
          poll (scoped_block env (remote_scope actor_name)) block cell in
        and_then scoped_snapshot (λ snap. some (attach env snap next))

module _ {D : Type 0} (m : HeaderMap D) where
  open m use {Headers, get_wire, get_snapshot, insert_snapshot}

  unfoldable pub on_corrupt : ErrorPolicy → Headers → Headers × Disposition
  on_corrupt log_and_continue headers = (headers, proceed)
  on_corrupt reject headers =
      (headers, refused "dcontext deserialization failed: corrupt wire bytes")

  unfoldable pub on_receive : ErrorPolicy → Env D → Headers → Headers × Disposition
  unfolding on_corrupt
  on_receive policy env headers = elim (get_snapshot headers) [
    | some _ ↦ (headers, proceed)
    | none ↦ elim (get_wire headers) [
      | none ↦ (headers, proceed)
      | some wire_header ↦ elim (bytes_to_snapshot env wire_header.bytes) [
        | some snap ↦ (insert_snapshot (record { snapshot = snap }) headers, proceed)
        | none ↦ on_corrupt policy headers
      ]
    ]
  ]

  -- The wrapped future of the handler, or `none` if there is no context to restore.
  unfoldable pub wrap_handler :
      {F : Type 0} → Env D → String → Headers → Cell D → F → Option (WithContext D F)
  wrap_handler env actor_name headers cell next =
      and_then (get_snapshot headers) (λ h. wrap_next env actor_name h.snapshot cell next)

  unfoldable pub extract_context : Env D → Headers → Option (ContextSnapshot D)
  extract_context env headers = elim (get_snapshot headers) [
    | some h ↦ some h.snapshot
    | none ↦ and_then (get_wire headers) (λ h. bytes_to_snapshot env h.bytes)
  ]

  unfoldable pub with_propagated_context : {F : Type 0} → Env D → Headers → F → Propagated D F
  unfolding extract_context
  with_propagated_context env headers f = elim (extract_context env headers) [
    | some snap ↦ attached (attach env snap f)
    | none ↦ bare f
  ]
