-- ===== src/Samples/DualSyncCtx.antt =====
-- samples/src/bin/dual_sync_ctx.rs.
use dcontext.Base.{ℕ, String, [], ◌∷◌, string_eq}
use dcontext.Value.{TypeId}
use dcontext.Samples.Program.{
  Program, ◌>>=◌, ◌>>◌, maybe, names, println, set, get, push_scope, drop_scope, scope_chain, clear,
  on_thread,
}

-- The variables are of the types `String` and `u32`.
pub data Data : Type 0 where
  string : String → Data
  u32 : ℕ → Data

abbrev string_type : TypeId
string_type = 1

abbrev u32_type : TypeId
u32_type = 2

abbrev show : String → TypeId → String → Program Data (Unit {0})
show format t key = do v ← get t key; println format (maybe v ∷ [])

abbrev show_chain : String → Program Data (Unit {0})
show_chain format = do chain ← scope_chain; println format (names chain ∷ [])

-- The line with the scope chain and the batch size, which is read first.
abbrev show_batch : String → Program Data (Unit {0})
show_batch format = do
  bs ← get u32_type "batch_size"
  chain ← scope_chain
  println format (names chain ∷ maybe bs ∷ [])

unfoldable pub named_scopes : Program Data (Unit {0})
named_scopes = do
  println "\n--- Named scopes (RAII guard) ---" []
  guard ← push_scope "process_batch"
  set u32_type "batch_size" (u32 50)
  show_batch "  In scope: chain = {:?}, batch_size = {:?}"
  inner ← push_scope "validate_item"
  show_chain "  Nested: chain = {:?}"
  drop_scope inner
  show_chain "  After inner drop: chain = {:?}"
  drop_scope guard
  show_batch "  After outer drop: chain = {:?}, batch_size = {:?}"

-- The closure of the spawned thread.
unfoldable pub child_thread : Program Data (Unit {0})
child_thread = do
  show "  [child thread] parent_value = {:?} (None — independent store)" string_type "parent_value"
  set string_type "child_value" (string "from child")
  show "  [child thread] child_value = {:?}" string_type "child_value"

unfoldable pub cross_thread : Program Data (Unit {0})
unfolding child_thread
cross_thread = do
  println "\n--- Cross-thread ---" []
  set string_type "parent_value" (string "hello from main")
  on_thread child_thread
  show "  [main thread] parent_value still = {:?}" string_type "parent_value"

unfoldable pub main : Program Data (Unit {0})
unfolding named_scopes cross_thread
main = do
  println "=== Unified Context — Synchronous Usage ===\n" []
  clear
  println "--- Basic set/get ---" []
  set string_type "worker_id" (string "worker-7")
  set u32_type "batch_size" (u32 100)
  wid ← get string_type "worker_id"
  bs ← get u32_type "batch_size"
  println "  worker_id  = {:?}" (maybe wid ∷ [])
  println "  batch_size = {:?}" (maybe bs ∷ [])
  named_scopes
  cross_thread
  println "\n--- Clear ---" []
  clear
  show "  After clear: parent_value = {:?} (gone)" string_type "parent_value"
  println "\nDone!" []
