-- ===== src/Samples/AsyncTasks.antt =====
-- samples/src/bin/async_tasks.rs.
use dcontext.Base.{ℕ, String, [], ◌∷◌, string_eq}
use dcontext.Value.{TypeId}
use dcontext.Registry.Register.{new_builder}
use dcontext.Samples.Program.{
  Program, ◌>>=◌, ◌>>◌, value, println, register, initialize, set, get_unwrap, in_scope, in_capture,
  in_fork,
}

pub data Data : Type 0 where
  request_id : String → Data
  span_id : ℕ → Data

abbrev request_type : TypeId
request_type = 1

abbrev span_type : TypeId
span_type = 2

abbrev show : String → TypeId → String → Program Data (Unit {0})
show format t key = do v ← get_unwrap t key; println format (value v ∷ [])

unfoldable pub child_task : Program Data (Unit {0})
child_task = do
  show "[child task] request_id = {:?}" request_type "request_id"
  in_scope "child-scope" (do
    set span_type "span_id" (span_id 2)
    show "[child scope] span_id = {:?}" span_type "span_id")
  show "[child task] span_id after scope = {:?}" span_type "span_id"

unfoldable pub main : Program Data (Unit {0})
unfolding child_task
main = do
  builder ← register request_type "request_id" new_builder
  builder ← register span_type "span_id" builder
  initialize builder
  set request_type "request_id" (request_id "req-async-001")
  set span_type "span_id" (span_id 1)
  in_capture (do
    show "[main task] request_id = {:?}" request_type "request_id"
    show "[main task] span_id    = {:?}" span_type "span_id"
    in_fork child_task
    show "[main task] span_id still = {:?}" span_type "span_id")
