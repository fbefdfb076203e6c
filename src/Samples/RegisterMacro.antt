-- ===== src/Samples/RegisterMacro.antt =====
-- samples/src/bin/macros.rs.
use dcontext.Base.{String, [], ◌∷◌, string_eq, unwrap_or}
use dcontext.Value.{TypeId}
use dcontext.Registry.Register.{new_builder}
use dcontext.Samples.Program.{
  Program, ◌>>=◌, ◌>>◌, value, println, register_contexts, initialize, set, get, get_unwrap,
  push_scope, drop_scope,
}

pub data Data : Type 0 where
  trace_id : String → Data
  span_id : String → Data
  tenant_id : String → Data

abbrev trace_type : TypeId
trace_type = 1

abbrev span_type : TypeId
span_type = 2

abbrev tenant_type : TypeId
tenant_type = 3

-- `get_context_variable::<SpanId>("span_id").unwrap_or_default()` on a line.
abbrev show_span_or_default : Program Data (Unit {0})
show_span_or_default = do
  s ← get span_type "span_id"
  println "span_id   = {:?}" (value (unwrap_or (span_id "") s) ∷ [])

abbrev show : String → TypeId → String → Program Data (Unit {0})
show format t key = do v ← get_unwrap t key; println format (value v ∷ [])

unfoldable pub handler : Program Data (Unit {0})
handler = do
  guard ← push_scope "handler"
  set span_type "span_id" (span_id "span-handler")
  set trace_type "trace_id" (trace_id "trace-root")
  println "\n=== Inside scoped block ===" []
  show "trace_id  = {:?}" trace_type "trace_id"
  show "span_id   = {:?}" span_type "span_id"
  show "tenant_id = {:?}" tenant_type "tenant_id"
  inner ← push_scope "db-query"
  set span_type "span_id" (span_id "span-db-query")
  println "\n=== Nested scoped block ===" []
  show "span_id = {:?}" span_type "span_id"
  drop_scope inner
  println "\n=== After nested scope ===" []
  show "span_id = {:?}" span_type "span_id"
  drop_scope guard

unfoldable pub main : Program Data (Unit {0})
unfolding handler
main = do
  builder ←
      register_contexts
        (("trace_id", trace_type) ∷ ("span_id", span_type) ∷ ("tenant_id", tenant_type) ∷ [])
        new_builder
  initialize builder
  set trace_type "trace_id" (trace_id "trace-root")
  set tenant_type "tenant_id" (tenant_id "acme-corp")
  println "=== Before scoped block ===" []
  show "trace_id  = {:?}" trace_type "trace_id"
  show_span_or_default
  show "tenant_id = {:?}" tenant_type "tenant_id"
  handler
  println "\n=== After outer scope ===" []
  s ← get span_type "span_id"
  println "span_id = {:?}" (value (unwrap_or (span_id "") s) ∷ [])
