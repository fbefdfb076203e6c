-- ===== src/Samples/DualBridging.antt =====
-- samples/src/bin/dual_bridging.rs. The numbers of the blocking threads of the last pattern, in the
-- order in which they print, are a parameter; a thread prints once, and has a cell of its own.
use Prim.Native.String.{◌++◌}
use dcontext.Error.{decimal}
use dcontext.Store.{ContextStore}
use dcontext.Base.{ℕ, String, List, [], ◌∷◌, string_eq}
use dcontext.Value.{TypeId}
use dcontext.Snapshot.{ContextSnapshot}
use dcontext.Samples.Program.{
  Program, ◌>>=◌, ◌>>◌, pure, maybe, names, number, text, println, set, get, push_scope, drop_scope,
  scope_chain, capture, fork, attach_store, attach_snapshot, drop_attach, on_thread, await,
  with_scope, in_capture,
}

-- Every variable is a `String`.
abbrev pub Data : Type 0
Data = String

abbrev pub string_type : TypeId
string_type = 1

abbrev show : String → String → Program Data (Unit {0})
show format key = do v ← get string_type key; println format (maybe v ∷ [])

abbrev show_chain : String → Program Data (Unit {0})
show_chain format = do chain ← scope_chain; println format (names chain ∷ [])

-- The closure of the first pattern.
unfoldable pub blocking : ContextSnapshot Data → Program Data String
blocking snap = do
  attached ← attach_snapshot snap
  rid ← get string_type "request_id"
  uid ← get string_type "user_id"
  println "  [blocking] request_id = {:?}" (maybe rid ∷ [])
  println "  [blocking] user_id    = {:?}" (maybe uid ∷ [])
  scope ← push_scope "heavy_computation"
  show_chain "  [blocking] chain      = {:?}"
  drop_scope scope
  drop_attach attached
  pure "computation_result"

unfoldable pub os_thread : ContextStore Data → Program Data (Unit {0})
os_thread store = do
  attached ← attach_store store
  rid ← get string_type "request_id"
  println "  [OS thread] request_id = {:?}" (maybe rid ∷ [])
  show_chain "  [OS thread] chain      = {:?}"
  set string_type "request_id" "modified-in-thread"
  drop_attach attached

unfoldable pub worker : ContextSnapshot Data → ℕ → Program Data (Unit {0})
worker snap i = do
  attached ← attach_snapshot snap
  scope ← push_scope ("worker_" ++ decimal i)
  chain ← scope_chain
  println "  [worker {}] chain = {:?}" (number i ∷ names chain ∷ [])
  drop_scope scope
  drop_attach attached

unfoldable pub workers : ContextSnapshot Data → List ℕ → Program Data (Unit {0})
unfolding worker
workers snap [] = pure tt
workers snap (i ∷ rest) = do on_thread (worker snap i); workers snap rest

-- The block in the scope "handle_request", with the two values that it sets and the order of the
-- blocking threads.
unfoldable pub handle_request : Data → Data → List ℕ → Program Data (Unit {0})
unfolding blocking os_thread workers
handle_request request user order = do
  set string_type "request_id" request
  set string_type "user_id" user
  show "[async] request_id = {:?}" "request_id"
  println "\n--- Pattern 1: spawn_blocking with snapshot ---" []
  snap ← capture
  result ← on_thread (blocking snap)
  println "  [async] got result: {:?}" (text result ∷ [])
  println "\n--- Pattern 2: OS thread with ContextStore ---" []
  store ← fork
  on_thread (os_thread store)
  show "\n  [async] request_id still = {:?}" "request_id"
  println "\n--- Pattern 3: Fan-out to multiple blocking threads ---" []
  snap ← capture
  workers snap order

-- `main`, with the two values that it sets.
unfoldable pub body : Data → Data → List ℕ → Program Data (Unit {0})
unfolding handle_request
body request user order = do
  println "=== Async → Thread Bridging ===\n" []
  scoped ← with_scope "handle_request"
  in_capture (await (handle_request request user order) scoped)
  println "\nDone!" []

unfoldable pub main : List ℕ → Program Data (Unit {0})
unfolding body
main order = body "req-bridge-001" "alice" order
