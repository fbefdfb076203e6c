-- ===== src/Samples/CrossProcess.antt =====
-- samples/src/bin/cross_process.rs. The crate base64 is a parameter, and so is the order in which the
-- captured map is iterated when it is serialized.
use dcontext.Scope.{Values}
use dcontext.Base.{Bool, true, false, ℕ, String, List, [], ◌∷◌, length, take, min, Result}
use dcontext.Value.{TypeId, Bytes}
use dcontext.Registry.Register.{new_builder}
use dcontext.Samples.Program.{
  Program, ◌>>=◌, ◌>>◌, unwrap_ok, value, number, bytes, println, register, initialize, set,
  get_unwrap, capture, serialize, snapshot_of, attach_snapshot, drop_attach,
}

pub record TraceContext : Type 0 where
  pub trace_id : String
  pub span_id : String

pub record AuthInfo : Type 0 where
  pub user_id : String
  pub roles : List String

pub data Data : Type 0 where
  trace_context : TraceContext → Data
  auth_info : AuthInfo → Data

-- `base64::engine::general_purpose::STANDARD`, with a text as the list of its ASCII characters.
pub record Base64 : Type 0 where
  pub encode : Bytes → List ℕ
  pub decode : List ℕ → Result Bytes String

abbrev pub trace_type : TypeId
trace_type = 1

abbrev pub auth_type : TypeId
auth_type = 2

-- The two lines that each side prints.
unfoldable pub show_context : Program Data (Unit {0})
show_context = do
  trace ← get_unwrap trace_type "trace_context"
  println "trace = {:?}" (value trace ∷ [])
  auth ← get_unwrap auth_type "auth_info"
  println "auth  = {:?}" (value auth ∷ [])

unfoldable pub receive : Bytes → Program Data (Unit {0})
unfolding show_context
receive b = do snap ← snapshot_of b; guard ← attach_snapshot snap; show_context; drop_attach guard

-- An order of iteration: it gives the entries of a map as the iteration meets them.
abbrev pub Iteration : Type 0
Iteration = Values Data → Values Data

-- The two orders of a map of two keys, that of insertion and the other one.
unfoldable pub two_orders : Bool → Iteration
two_orders true (a ∷ b ∷ rest) = b ∷ a ∷ rest
two_orders true values = values
two_orders false values = values

-- `main`, with the two values that it sets.
unfoldable pub body : Base64 → Iteration → Data → Data → Program Data (Unit {0})
unfolding show_context receive
body base64 iterated sent_trace sent_auth = do
  builder ← register trace_type "trace_context" new_builder
  builder ← register auth_type "auth_info" builder
  initialize builder
  set trace_type "trace_context" sent_trace
  set auth_type "auth_info" sent_auth
  println "=== Sender ===" []
  show_context
  captured ← capture
  serialized ← serialize (record captured { values = iterated captured.values })
  sent ← unwrap_ok serialized
  println "\nSerialized to {} bytes" (number (length sent) ∷ [])
  println "Base64: {}..."
      (bytes (take (min 40 (length (base64.encode sent))) (base64.encode sent)) ∷ [])
  println "\n=== Receiver (bytes) ===" []
  receive sent
  println "\n=== Receiver (base64 string) ===" []
  decoded ← unwrap_ok (base64.decode (base64.encode sent))
  receive decoded
  println "\n=== Partial receiver (only trace_context registered) ===" []
  println "(In production, unregistered keys are skipped during deserialization)" []

unfoldable pub main : Base64 → Iteration → Program Data (Unit {0})
unfolding body
main base64 iterated =
    body base64 iterated (trace_context (record { trace_id = "tid-abc-123"; span_id = "span-001" }))
      (auth_info (record { user_id = "alice"; roles = "admin" ∷ "viewer" ∷ [] }))
