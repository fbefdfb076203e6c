-- ===== src/Samples/ScopeChain.antt =====
-- samples/src/bin/scope_chain.rs. What the blocks await does not touch the context.
use dcontext.Base.{String, [], ◌∷◌, length}
use dcontext.Value.{TypeId, Bytes}
use dcontext.Snapshot.{ContextSnapshot}
use dcontext.Registry.Register.{new_builder}
use dcontext.Samples.Program.{
  Program, ◌>>=◌, ◌>>◌, pure, value, names, number, println, register, initialize, set, get_unwrap,
  push_scope, drop_scope, scope_chain, capture, capture_bytes, snapshot_of, attach_snapshot,
  drop_attach, set_max_scope_chain_len, in_scope, in_snapshot,
}

pub data Data : Type 0 where
  request_id : String → Data

abbrev request_type : TypeId
request_type = 1

abbrev show_chain : String → Program Data (Unit {0})
show_chain format = do chain ← scope_chain; println format (names chain ∷ [])

abbrev show_request : Program Data (Unit {0})
show_request = do
  r ← get_unwrap request_type "request_id"
  println "  request_id = {:?}" (value r ∷ [])

unfoldable pub named_scopes : Program Data (Unit {0})
named_scopes = do
  println "\n=== 2. Named scopes with push_scope() ===" []
  g1 ← push_scope "gateway"
  show_chain "After entering 'gateway':  {:?}"
  g2 ← push_scope "auth"
  show_chain "After entering 'auth':     {:?}"
  g3 ← push_scope "handler"
  show_chain "After entering 'handler':  {:?}"
  drop_scope g3
  show_chain "After leaving 'handler':   {:?}"
  drop_scope g2
  show_chain "After leaving 'auth':      {:?}"
  drop_scope g1
  show_chain "After leaving 'gateway':   {:?}"

unfoldable pub every_scope_is_named : Program Data (Unit {0})
every_scope_is_named = do
  println "\n=== 3. Every scope is now explicitly named ===" []
  named ← push_scope "visible"
  show_chain "Named scope 'visible': {:?}"
  anonymous ← push_scope "anonymous"
  set request_type "request_id" (request_id "req-99")
  show_chain "Inside 'anonymous':     {:?}"
  show_request
  drop_scope anonymous
  show_chain "After anonymous exits:  {:?}"
  drop_scope named

-- The guards are dropped in reverse order of their declaration.
unfoldable pub send : Program Data Bytes
send = do
  println "\n=== 4. Cross-process propagation ===" []
  g1 ← push_scope "service-a"
  g2 ← push_scope "endpoint-x"
  set request_type "request_id" (request_id "req-cross")
  show_chain "Sender chain: {:?}"
  sent ← capture_bytes
  println "Serialized to {} bytes" (number (length sent) ∷ [])
  drop_scope g2
  drop_scope g1
  pure sent

unfoldable pub receive : Bytes → Program Data (ContextSnapshot Data)
receive wire_bytes = do
  println "\n--- Receiver side ---" []
  remote ← snapshot_of wire_bytes
  guard ← attach_snapshot remote
  show_chain "After deserialize, chain: {:?}"
  show_request
  drop_attach guard
  pure remote

unfoldable pub remote_and_local : ContextSnapshot Data → Program Data (Unit {0})
remote_and_local remote = do
  println "\n=== 5. Remote prefix + local named scopes ===" []
  guard ← attach_snapshot remote
  show_chain "Remote chain:          {:?}"
  g1 ← push_scope "service-b"
  show_chain "+ local 'service-b':   {:?}"
  g2 ← push_scope "handler-y"
  show_chain "+ local 'handler-y':   {:?}"
  drop_scope g2
  drop_scope g1
  drop_attach guard

unfoldable pub limited : Program Data (Unit {0})
limited = do
  println "\n=== 6. set_max_scope_chain_len() ===" []
  set_max_scope_chain_len 3
  println "Max chain length set to 3" []
  g1 ← push_scope "a"
  g2 ← push_scope "b"
  g3 ← push_scope "c"
  show_chain "After a/b/c:    {:?}"
  g4 ← push_scope "d"
  show_chain "After a/b/c/d:  {:?}  (oldest trimmed to stay within limit)"
  drop_scope g4
  drop_scope g3
  drop_scope g2
  drop_scope g1
  set_max_scope_chain_len 64

unfoldable pub with_tokio : Program Data (Unit {0})
with_tokio = do
  println "\n=== 7. ContextFutureExt::scope() with tokio ===" []
  snap ← capture
  in_snapshot snap (do
    in_scope "async-gateway" (do
      show_chain "Inside 'async-gateway':      {:?}"
      in_scope "async-handler" (do
        show_chain "Inside 'async-handler':      {:?}"
        show_chain "After .await in handler:     {:?}")
      show_chain "After 'async-handler' exits: {:?}")
    show_chain "\nDone. Final chain: {:?}")

unfoldable pub main : Program Data (Unit {0})
unfolding named_scopes every_scope_is_named send receive remote_and_local limited with_tokio
main = do
  println "=== 1. Register context type ===" []
  builder ← register request_type "request_id" new_builder
  initialize builder
  set request_type "request_id" (request_id "req-42")
  show_chain "Registered RequestId; scope_chain = {:?}"
  named_scopes
  every_scope_is_named
  wire_bytes ← send
  remote ← receive wire_bytes
  remote_and_local remote
  limited
  with_tokio
