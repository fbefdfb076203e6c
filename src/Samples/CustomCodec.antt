-- ===== src/Samples/CustomCodec.antt =====
-- samples/src/bin/custom_codec.rs. The crate serde_json is a parameter.
use dcontext.Base.{ℕ, String, List, [], ◌∷◌, length, Result, string_eq}
use dcontext.Value.{TypeId, Bytes}
use dcontext.Registry.Register.{new_builder}
use dcontext.Registry.Options
use dcontext.Samples.Program.{
  Program, ◌>>=◌, ◌>>◌, value, number, println, register, register_with, initialize, set,
  get_unwrap, capture_bytes, snapshot_of, attach_snapshot, drop_attach,
}

pub record AppConfig : Type 0 where
  pub feature_flags : List String
  pub max_retries : ℕ

pub data Data : Type 0 where
  app_config : AppConfig → Data
  request_id : String → Data

-- `serde_json::to_vec` and `serde_json::from_slice` at `AppConfig`, with errors as texts.
pub record Json : Type 0 where
  pub to_vec : Data → Result Bytes String
  pub from_slice : Bytes → Result Data String

abbrev config_type : TypeId
config_type = 1

abbrev request_type : TypeId
request_type = 2

abbrev show : String → TypeId → String → Program Data (Unit {0})
show format t key = do v ← get_unwrap t key; println format (value v ∷ [])

unfoldable pub roundtrip : Bytes → Program Data (Unit {0})
roundtrip b = do
  println "\n3. Roundtrip:" []
  snap ← snapshot_of b
  guard ← attach_snapshot snap
  show "   app_config: {:?}" config_type "app_config"
  show "   request_id: {:?}" request_type "request_id"
  drop_attach guard

unfoldable pub main : Json → Program Data (Unit {0})
unfolding roundtrip
main json = do
  println "=== Custom Codec (JSON) ===\n" []
  builder ←
      register_with config_type "app_config" (Options.codec json.to_vec json.from_slice) new_builder
  builder ← register request_type "request_id" builder
  initialize builder
  set config_type "app_config"
      (app_config (record { feature_flags = "dark-mode" ∷ "beta-api" ∷ []; max_retries = 3 }))
  set request_type "request_id" (request_id "req-001")
  println "1. Mixed codecs in same context:" []
  show "   app_config (JSON):    {:?}" config_type "app_config"
  show "   request_id (bincode): {:?}" request_type "request_id"
  sent ← capture_bytes
  println "\n2. Serialized to {} bytes" (number (length sent) ∷ [])
  roundtrip sent
  println "\nDone! Different keys can use different serialization formats." []
