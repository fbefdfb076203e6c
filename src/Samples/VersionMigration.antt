-- ===== src/Samples/VersionMigration.antt =====
-- samples/src/bin/version_migration.rs.
use dcontext.Wire.Encode.{make_wire_bytes}
use dcontext.Base.{String, [], ◌∷◌, Bool, true, false, string_eq}
use dcontext.Value.{TypeId, Bytes}
use dcontext.Registry.{RegistryMap}
use dcontext.Registry.Register.{new_builder}
use dcontext.Registry.Options
use dcontext.Samples.Program.{
  Program, ◌>>=◌, ◌>>◌, unwrap_ok, reads, part, println, register_with, register_migration,
  initialize, set, get_unwrap, capture_bytes, snapshot_of, attach_snapshot, drop_attach,
}

pub record TraceContextV1 : Type 0 where
  pub trace_id : String

pub record TraceContextV2 : Type 0 where
  pub trace_id : String
  pub span_id : String
  pub sampled : Bool

pub data Data : Type 0 where
  v1 : TraceContextV1 → Data
  v2 : TraceContextV2 → Data

abbrev pub v1_type : TypeId
v1_type = 1

abbrev pub v2_type : TypeId
v2_type = 2

-- The closure of the migration, which gets values of the old type only.
unfoldable pub migrate : Data → Data
migrate (v1 old) = v2 (record { trace_id = old.trace_id; span_id = ""; sampled = true })
migrate (v2 new) = v2 new

unfoldable pub registered : Program Data (RegistryMap Data)
unfolding migrate
registered = do
  builder ← register_with v2_type "trace_ctx" (Options.version 2) new_builder
  register_migration v1_type v2_type "trace_ctx" 1 migrate builder

-- The block that reads bytes of either version, with the formats of its three lines.
unfoldable pub receive : String → String → String → Bytes → Program Data (Unit {0})
receive trace_line span_line sampled_line b = do
  snap ← snapshot_of b
  guard ← attach_snapshot snap
  ctx ← get_unwrap v2_type "trace_ctx"
  println trace_line (part "trace_id" ctx ∷ [])
  println span_line (part "span_id" ctx ∷ [])
  println sampled_line (part "sampled" ctx ∷ [])
  drop_attach guard

-- `main`, with the value that it sets and the old one that it receives.
unfoldable pub body : Data → Data → Program Data (Unit {0})
unfolding registered receive
body current old = do
  println "=== Version Migration ===\n" []
  builder ← registered
  initialize builder
  println "1. Current version roundtrip (V2 → V2):" []
  set v2_type "trace_ctx" current
  bytes_v2 ← capture_bytes
  receive "   trace_id = {}" "   span_id  = {}" "   sampled  = {}" bytes_v2
  println "\n2. Receiving old V1 bytes → auto-migrated to V2:" []
  println "   (Simulating bytes from a node running the old schema)" []
  encoded ← reads (λ w. w.env.serde.serialize v1_type old)
  v1_bytes ← unwrap_ok encoded
  v1_wire ← reads (λ w. make_wire_bytes w.env.bincode "trace_ctx" 1 v1_bytes)
  receive "   trace_id = {} (preserved from V1)" "   span_id  = {:?} (default — V1 didn't have it)"
      "   sampled  = {} (default — V1 didn't have it)" v1_wire
  println "\n3. Both V1 and V2 deserializers registered:" []
  println "   The receiver can handle bytes from any known version." []
  println "   Unknown versions return a clear error listing supported versions." []
  println "\nDone! Version migration enables safe rolling upgrades." []

unfoldable pub main : Program Data (Unit {0})
unfolding body
main =
    body (v2 (record { trace_id = "tid-current"; span_id = "span-42"; sampled = false }))
      (v1 (record { trace_id = "tid-from-old-node" }))
