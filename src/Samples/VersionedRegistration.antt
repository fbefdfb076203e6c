-- ===== src/Samples/VersionedRegistration.antt =====
-- samples/src/bin/versioned_registration.rs.
use dcontext.Base.{String, [], ◌∷◌, length, ok, err, string_eq}
use dcontext.Value.{TypeId, Bytes}
use dcontext.Registry.Register.{new_builder}
use dcontext.Registry.Options
use dcontext.Samples.Program.{
  Program, ◌>>=◌, ◌>>◌, part, number, error, println, register_with, initialize, set, get_unwrap,
  deserialize, capture_bytes, snapshot_of, attach_snapshot, drop_attach, on_thread,
}

pub record TraceContextV1 : Type 0 where
  pub trace_id : String

pub record TraceContextV2 : Type 0 where
  pub trace_id : String
  pub span_id : String

pub data Data : Type 0 where
  v1 : TraceContextV1 → Data
  v2 : TraceContextV2 → Data

abbrev v1_type : TypeId
v1_type = 1

abbrev v2_type : TypeId
v2_type = 2

unfoldable pub same_version : Program Data (Unit {0})
same_version = do
  println "1. Same version (v2 → v2): success" []
  set v2_type "trace_ctx_v2_same" (v2 (record { trace_id = "tid-001"; span_id = "span-42" }))
  sent ← capture_bytes
  snap ← snapshot_of sent
  guard ← attach_snapshot snap
  ctx ← get_unwrap v2_type "trace_ctx_v2_same"
  println "   trace_id = {}, span_id = {}" (part "trace_id" ctx ∷ part "span_id" ctx ∷ [])
  drop_attach guard

unfoldable pub mismatch : Program Data (Unit {0})
mismatch = do
  println "\n2. Version mismatch: how it works" []
  println "   In production, sender and receiver are separate processes." []
  println "   If sender serializes with version=2 but receiver has version=1," []
  println "   deserialization returns a clear mismatch error." []
  set v1_type "trace_ctx_v1_demo" (v1 (record { trace_id = "tid-v1" }))
  set v2_type "trace_ctx_v2_demo" (v2 (record { trace_id = "tid-v2"; span_id = "span-v2" }))
  sent ← capture_bytes
  println "   Serialized both v1 and v2 keys into {} bytes" (number (length sent) ∷ [])
  println "   Each wire entry includes the key_version for mismatch detection." []

-- The closure of the spawned thread.
unfoldable pub try_deserialize : Bytes → Program Data (Unit {0})
try_deserialize sent = do
  result ← deserialize sent
  elim result [
    | ok snap ↦
        println "   Deserialized OK (unknown keys are skipped by receivers that omit them)" []
    | err e ↦ println "   Error: {}" (error e ∷ [])
  ]

unfoldable pub unknown_key : Program Data (Unit {0})
unfolding try_deserialize
unknown_key = do
  println "\n3. Unknown key on receiver: silently skipped" []
  set v1_type "trace_ctx_unknown" (v1 (record { trace_id = "tid-003" }))
  sent ← capture_bytes
  on_thread (try_deserialize sent)

unfoldable pub main : Program Data (Unit {0})
unfolding same_version mismatch unknown_key
main = do
  println "=== Versioned Registration ===\n" []
  builder ← register_with v2_type "trace_ctx_v2_same" (Options.version 2) new_builder
  builder ← register_with v1_type "trace_ctx_v1_demo" (Options.version 1) builder
  builder ← register_with v2_type "trace_ctx_v2_demo" (Options.version 2) builder
  builder ← register_with v1_type "trace_ctx_unknown" (Options.version 1) builder
  initialize builder
  same_version
  mismatch
  unknown_key
  println "\nDone! Versioned registration enables safe rolling upgrades." []
