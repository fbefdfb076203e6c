-- ===== src/Samples/DualCrossProcess.antt =====
-- samples/src/bin/dual_cross_process.rs. The crate base64 is a parameter.
use dcontext.Samples.CrossProcess.{Base64}
use dcontext.Base.{ℕ, String, List, [], ◌∷◌, length, take, min}
use dcontext.Value.{TypeId}
use dcontext.Registry.Register.{new_builder}
use dcontext.Samples.Program.{
  Program, ◌>>=◌, ◌>>◌, unwrap_ok, part, maybe_part, names, number, bytes, println, register,
  initialize, set, get, get_unwrap, push_scope, drop_scope, scope_chain, capture_bytes, snapshot_of,
  attach_snapshot, drop_attach, on_thread, await, with_scope, in_scope, in_snapshot,
}

pub data Data : Type 0 where
  trace_id : String → Data
  service_name : String → Data
  request_path : String → Data

abbrev trace_type : TypeId
trace_type = 1

abbrev service_type : TypeId
service_type = 2

abbrev path_type : TypeId
path_type = 3

unfoldable pub async_receiver : Program Data (Unit {0})
async_receiver = do
  tid ← get trace_type "trace_id"
  svc ← get service_type "service_name"
  println "  [async] trace_id     = {:?}" (maybe_part "0" tid ∷ [])
  println "  [async] service_name = {:?}" (maybe_part "0" svc ∷ [])
  chain ← scope_chain
  println "  [async] scope_chain  = {:?}" (names chain ∷ [])
  in_scope "process_order" (do
    chain ← scope_chain
    println "  [async] in scope: chain = {:?}" (names chain ∷ [])
    println "\n--- Forwarding to downstream (Inventory Service) ---" [])

-- The second guard shadows the first, which lives on; both are dropped at the end, the second first.
unfoldable pub sync_receiver : Base64 → List ℕ → Program Data (Unit {0})
sync_receiver base64 wire_string = do
  b ← unwrap_ok (base64.decode wire_string)
  snap ← snapshot_of b
  attached ← attach_snapshot snap
  tid ← get_unwrap trace_type "trace_id"
  path ← get_unwrap path_type "request_path"
  println "  [sync] trace_id     = {:?}" (part "0" tid ∷ [])
  println "  [sync] request_path = {:?}" (part "0" path ∷ [])
  scope ← push_scope "legacy_handler"
  chain ← scope_chain
  println "  [sync] scope_chain = {:?}" (names chain ∷ [])
  drop_scope scope
  drop_attach attached

unfoldable pub main : Base64 → Program Data (Unit {0})
unfolding async_receiver sync_receiver
main base64 = do
  builder ← register trace_type "trace_id" new_builder
  builder ← register service_type "service_name" builder
  builder ← register path_type "request_path" builder
  initialize builder
  println "=== Cross-Process Context Propagation ===\n" []
  println "--- Sender (API Gateway) ---" []
  set trace_type "trace_id" (trace_id "trace-xyz-789")
  set service_type "service_name" (service_name "api-gateway")
  set path_type "request_path" (request_path "/api/v1/orders")
  tid ← get_unwrap trace_type "trace_id"
  svc ← get_unwrap service_type "service_name"
  println "  trace_id     = {:?}" (part "0" tid ∷ [])
  println "  service_name = {:?}" (part "0" svc ∷ [])
  wire_bytes ← capture_bytes
  println "  Serialized: {} bytes" (number (length wire_bytes) ∷ [])
  println "  Base64: {}..."
      (bytes (take (min 40 (length (base64.encode wire_bytes))) (base64.encode wire_bytes)) ∷ [])
  println "\n  [--- network transmission ---]\n" []
  println "--- Receiver (Order Service, async) ---" []
  receiver_snap ← snapshot_of wire_bytes
  -- `.scope(…)` is evaluated first, on the thread's own cell, and `.attach(…)` wraps its result.
  scoped ← with_scope "order_service"
  in_snapshot receiver_snap (await async_receiver scoped)
  println "\n--- Receiver (Legacy Worker, sync) ---" []
  on_thread (sync_receiver base64 (base64.encode wire_bytes))
  println "\nDone!" []
