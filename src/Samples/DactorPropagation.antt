-- ===== src/Samples/DactorPropagation.antt =====
-- samples/src/bin/dactor_propagation.rs. The two interceptors that it makes and does not use are
-- left out.
use dcontext.Base.{String, [], ◌∷◌, length}
use dcontext.Value.{TypeId}
use dcontext.Registry.Register.{new_builder}
use dcontext.Samples.Program.{
  Program, ◌>>=◌, ◌>>◌, value, number, println, register, initialize, set, get_unwrap, push_scope,
  drop_scope, capture, capture_bytes, snapshot_of, attach_snapshot, drop_attach,
}

-- Every variable is a `String`.
abbrev pub Data : Type 0
Data = String

abbrev string_type : TypeId
string_type = 1

abbrev show : String → String → Program Data (Unit {0})
show format key = do v ← get_unwrap string_type key; println format (value v ∷ [])

unfoldable pub demo_local_propagation : Program Data (Unit {0})
demo_local_propagation = do
  println "=== Local Propagation (Same Process) ===\n" []
  scope ← push_scope "local-message"
  set string_type "request_id" "req-abc-123"
  set string_type "tenant" "acme-corp"
  snapshot ← capture
  println "  Sender captured snapshot with {} values" (number 2 ∷ [])
  show "  request_id = {:?}" "request_id"
  show "  tenant     = {:?}" "tenant"
  println "\n  --- message delivered locally ---\n" []
  attached ← attach_snapshot snapshot
  rid ← get_unwrap string_type "request_id"
  tenant ← get_unwrap string_type "tenant"
  println "  Receiver sees: request_id = {:?}" (value rid ∷ [])
  println "  Receiver sees: tenant     = {:?}" (value tenant ∷ [])
  drop_attach attached
  println "" []
  drop_scope scope

unfoldable pub demo_serialization_roundtrip : Program Data (Unit {0})
demo_serialization_roundtrip = do
  println "=== Remote Propagation (Serialized) ===\n" []
  scope ← push_scope "remote-message"
  set string_type "request_id" "req-remote-456"
  set string_type "trace_id" "trace-xyz-789"
  sent ← capture_bytes
  println "  Serialized context to {} bytes" (number (length sent) ∷ [])
  println "  --- bytes sent over network ---" []
  snap ← snapshot_of sent
  restored ← attach_snapshot snap
  rid ← get_unwrap string_type "request_id"
  tid ← get_unwrap string_type "trace_id"
  println "  Remote receiver: request_id = {:?}" (value rid ∷ [])
  println "  Remote receiver: trace_id   = {:?}" (value tid ∷ [])
  drop_attach restored
  println "" []
  drop_scope scope

unfoldable pub demo_scope_isolation : Program Data (Unit {0})
demo_scope_isolation = do
  println "=== Scope Isolation ===\n" []
  scope ← push_scope "actor-mailbox"
  set string_type "request_id" "req-original"
  snapshot1 ← capture
  set string_type "request_id" "req-different"
  snapshot2 ← capture
  attached ← attach_snapshot snapshot1
  show "  Handler for message 1: request_id = {:?}" "request_id"
  drop_attach attached
  attached ← attach_snapshot snapshot2
  show "  Handler for message 2: request_id = {:?}" "request_id"
  drop_attach attached
  show "  After both handlers: request_id = {:?} (unchanged)" "request_id"
  println "" []
  drop_scope scope

unfoldable pub main : Program Data (Unit {0})
unfolding demo_local_propagation demo_serialization_roundtrip demo_scope_isolation
main = do
  println "dcontext-dactor Sample: Context Propagation Through Actor Messages" []
  println "==================================================================\n" []
  builder ← register string_type "request_id" new_builder
  builder ← register string_type "tenant" builder
  builder ← register string_type "trace_id" builder
  initialize builder
  demo_local_propagation
  demo_serialization_roundtrip
  demo_scope_isolation
