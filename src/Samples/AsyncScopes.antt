-- ===== src/Samples/AsyncScopes.antt =====
-- samples/src/bin/async_scopes.rs. What `simulate_io` awaits does not touch the context.
use dcontext.Base.{String, [], ◌∷◌}
use dcontext.Value.{TypeId}
use dcontext.Registry.Register.{new_builder}
use dcontext.Samples.Program.{
  Program, ◌>>=◌, ◌>>◌, value, println, register, initialize, set, get_unwrap, in_scope, in_capture,
  in_fork,
}

pub data Data : Type 0 where
  request_id : String → Data
  phase : String → Data

abbrev pub request_type : TypeId
request_type = 1

abbrev pub phase_type : TypeId
phase_type = 2

-- The block that is spawned with `fork`.
unfoldable pub child_task : Program Data (Unit {0})
child_task = do
  r ← get_unwrap request_type "request_id"
  println "[child task] request_id = {:?}" (value r ∷ [])
  p ← get_unwrap phase_type "phase"
  println "[child task] phase      = {:?}" (value p ∷ [])

-- The block in the scope "processing".
unfoldable pub processing : Program Data (Unit {0})
unfolding child_task
processing = do
  set phase_type "phase" (phase "processing")
  p ← get_unwrap phase_type "phase"
  println "\n[async scope] phase = {:?}" (value p ∷ [])
  p ← get_unwrap phase_type "phase"
  println "[async scope after await] phase = {:?}" (value p ∷ [])
  in_fork child_task

unfoldable pub main_task : Program Data (Unit {0})
unfolding processing
main_task = do
  r ← get_unwrap request_type "request_id"
  println "[main] request_id = {:?}" (value r ∷ [])
  p ← get_unwrap phase_type "phase"
  println "[main] phase      = {:?}" (value p ∷ [])
  in_scope "processing" processing
  p ← get_unwrap phase_type "phase"
  println "\n[main after async scope] phase = {:?}" (value p ∷ [])

-- `main`, with the two values that it sets.
unfoldable pub body : Data → Data → Program Data (Unit {0})
unfolding main_task
body first_request first_phase = do
  builder ← register request_type "request_id" new_builder
  builder ← register phase_type "phase" builder
  initialize builder
  set request_type "request_id" first_request
  set phase_type "phase" first_phase
  in_capture main_task

unfoldable pub main : Program Data (Unit {0})
unfolding body
main = body (request_id "req-async-scoped") (phase "init")
