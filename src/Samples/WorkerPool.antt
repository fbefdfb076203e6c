-- ===== src/Samples/WorkerPool.antt =====
-- samples/src/bin/worker_pool.rs. The two workers run while the main thread sends to them; here
-- each runs when everything has been sent, so the lines of the workers are in one of their orders.
use Prim.Native.String.{◌++◌ as text_append}
use dcontext.Error.{decimal}
use dcontext.Base.{ℕ, String, List, [], ◌∷◌, if◌then◌else◌, ◌++◌, string_eq, nat_eqb, ◌%◌, ◌+◌}
use dcontext.Value.{TypeId}
use dcontext.Snapshot.{ContextSnapshot}
use dcontext.Registry.Register.{new_builder}
use dcontext.Samples.Program.{
  Program, ◌>>=◌, ◌>>◌, pure, part, number, text, println, register, initialize, set, get_unwrap,
  push_scope, drop_scope, capture, attach_snapshot, drop_attach, on_thread,
}

pub data Data : Type 0 where
  request_id : String → Data
  tenant_id : String → Data

abbrev request_type : TypeId
request_type = 1

abbrev tenant_type : TypeId
tenant_type = 2

-- What goes over a channel: a snapshot and the name of a task.
abbrev Message : Type 0
Message = ContextSnapshot Data × String

-- One round of the loop of worker `i`.
unfoldable pub serve : ℕ → Message → Program Data (Unit {0})
serve i (snap, task_name) = do
  guard ← attach_snapshot snap
  rid ← get_unwrap request_type "request_id"
  tid ← get_unwrap tenant_type "tenant_id"
  println "[worker-{}] {} — request_id={:?}, tenant_id={:?}"
      (number i ∷ text task_name ∷ part "0" rid ∷ part "0" tid ∷ [])
  drop_attach guard

-- The loop ends when the queue is empty and its sender is dropped.
unfoldable pub worker : ℕ → List Message → Program Data (Unit {0})
unfolding serve
worker i [] = pure tt
worker i (message ∷ queue) = do serve i message; worker i queue

-- The queues of the two workers, after `workers[idx % 2].send(message)`.
unfoldable pub enqueue : ℕ → Message → List Message × List Message → List Message × List Message
enqueue idx message (first, second) =
    if nat_eqb (idx % 2) 0 then (first ++ message ∷ [], second) else (first, second ++ message ∷ [])

-- The loop over the requests, from the given index.
unfoldable pub dispatch :
    ℕ
    → List (String × String)
    → List Message × List Message
    → Program Data (List Message × List Message)
unfolding enqueue
dispatch idx [] queues = pure queues
dispatch idx ((req_id, tenant) ∷ requests) queues = do
  guard ← push_scope "dispatch"
  set request_type "request_id" (request_id req_id)
  set tenant_type "tenant_id" (tenant_id tenant)
  snap ← capture
  drop_scope guard
  dispatch (idx + 1) requests (enqueue idx (snap, text_append "task-" (decimal idx)) queues)

unfoldable pub main : Program Data (Unit {0})
unfolding worker dispatch
main = do
  builder ← register request_type "request_id" new_builder
  builder ← register tenant_type "tenant_id" builder
  initialize builder
  queues ←
      dispatch 0
        (("req-001", "tenant-alpha")
          ∷ ("req-002", "tenant-beta")
          ∷ ("req-003", "tenant-gamma")
          ∷ [])
        ([], [])
  on_thread (worker 0 queues.0)
  on_thread (worker 1 queues.1)
  println "\n[main] all requests dispatched" []
