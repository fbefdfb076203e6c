-- ===== src/Samples/CrossThread.antt =====
-- samples/src/bin/cross_thread.rs.
use dcontext.Base.{String, none, some, [], ◌∷◌, if◌then◌else◌, ◌==◌, string_eq}
use dcontext.Value.{TypeId}
use dcontext.Snapshot.{ContextSnapshot}
use dcontext.Registry.Register.{new_builder}
use dcontext.Samples.Program.{
  Program, ◌>>=◌, ◌>>◌, pure, unwrap, value, println, register, initialize, set, get_unwrap,
  capture, attach_snapshot, drop_attach, on_thread,
}

-- There is one type of values, the newtype `TraceId`, which is its text here.
abbrev pub Data : Type 0
Data = String

abbrev trace_type : TypeId
trace_type = 1

-- The closure of the first thread. It returns `tid.0`.
unfoldable pub worker : ContextSnapshot Data → Program Data String
worker snap = do
  guard ← attach_snapshot snap
  tid ← get_unwrap trace_type "trace_id"
  println "[worker-1] trace_id = {:?}" (value tid ∷ [])
  drop_attach guard
  pure tid

unfoldable pub callback : ContextSnapshot Data → Program Data (Unit {0})
callback callback_snap = do
  guard ← attach_snapshot callback_snap
  tid ← get_unwrap trace_type "trace_id"
  println "[callback] trace_id = {:?}" (value tid ∷ [])
  drop_attach guard

-- `assert_eq!`.
abbrev assert_eq : String → String → Program Data (Unit {0})
assert_eq s t = unwrap (if s == t then some tt else none)

unfoldable pub main : Program Data (Unit {0})
unfolding worker callback
main = do
  builder ← register trace_type "trace_id" new_builder
  initialize builder
  set trace_type "trace_id" "trace-abc-123"
  tid ← get_unwrap trace_type "trace_id"
  println "[main] trace_id = {:?}" (value tid ∷ [])
  snap ← capture
  result ← on_thread (worker snap)
  assert_eq result "trace-abc-123"
  callback_snap ← capture
  on_thread (callback callback_snap)
  println "[main] done — context never leaked to other threads" []
