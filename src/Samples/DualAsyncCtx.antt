-- ===== src/Samples/DualAsyncCtx.antt =====
-- samples/src/bin/dual_async_ctx.rs. What the blocks await does not touch the context.
use dcontext.Base.{ℕ, String, [], ◌∷◌, string_eq}
use dcontext.Value.{TypeId}
use dcontext.Samples.Program.{
  Program, ◌>>=◌, ◌>>◌, maybe, names, println, set, get, scope_chain, clear, await, with_scope,
  in_scope, in_capture, in_fork,
}

-- The variables are of the types `String` and `u64`.
pub data Data : Type 0 where
  string : String → Data
  u64 : ℕ → Data

abbrev string_type : TypeId
string_type = 1

abbrev u64_type : TypeId
u64_type = 2

abbrev show : String → TypeId → String → Program Data (Unit {0})
show format t key = do v ← get t key; println format (maybe v ∷ [])

abbrev show_chain : String → Program Data (Unit {0})
show_chain format = do chain ← scope_chain; println format (names chain ∷ [])

unfoldable pub scoped_context : Program Data (Unit {0})
scoped_context = do
  println "\n--- Scoped context (auto-reverts) ---" []
  in_scope "handle_request" (do
    set string_type "request_id" (string "req-scoped")
    show "  Inside scope: request_id = {:?}" string_type "request_id"
    show_chain "  Scope chain: {:?}"
    in_scope "validate" (show_chain "  Nested scope chain: {:?}"))
  show "  After scope: request_id = {:?} (reverted)" string_type "request_id"
  show_chain "  Scope chain: {:?} (empty)"

unfoldable pub across_await : Program Data (Unit {0})
across_await = do
  println "\n--- Safe across .await (no leak) ---" []
  in_scope "io_operation"
      (do show_chain "  Before yield: chain = {:?}"; show_chain "  After yield:  chain = {:?}")
  show_chain "  After scope:  chain = {:?} (clean)"

unfoldable pub child_task : Program Data (Unit {0})
child_task = do
  show "  [child task] trace_id = {:?}" string_type "trace_id"
  show_chain "  [child task] chain    = {:?}"
  set string_type "trace_id" (string "trace-child")

unfoldable pub propagate : Program Data (Unit {0})
unfolding child_task
propagate = do
  println "\n--- Propagate to child tasks via fork ---" []
  set string_type "trace_id" (string "trace-abc")
  scoped ← with_scope "parent_handler"
  in_fork (await child_task scoped)
  show "  [parent] trace_id still = {:?}" string_type "trace_id"

unfoldable pub main : Program Data (Unit {0})
unfolding scoped_context across_await propagate
main = do
  println "=== Unified Context — Async Usage ===\n" []
  clear
  in_capture (do
    println "--- Basic set/get ---" []
    set string_type "request_id" (string "req-42")
    set u64_type "user_id" (u64 1001)
    rid ← get string_type "request_id"
    uid ← get u64_type "user_id"
    println "  request_id = {:?}" (maybe rid ∷ [])
    println "  user_id    = {:?}" (maybe uid ∷ [])
    scoped_context
    across_await
    propagate)
  println "\n--- Outside wrapped future ---" []
  show_chain "  scope_chain() = {:?} (empty)"
  println "\nDone!" []
