-- ===== src/Tests/Registries.antt =====
-- Registrations at the concrete registry.
use dcontext.Base.{
  arith, false, ◌≢◌, ◌+◌, ℕ, ◌≡◌, refl, String, true, some, none, ok, [], ◌∷◌, or_else, map_or,
  is_ok, not, ◌&&◌, ◌==◌, string_eq, if◌then◌else◌, nat_eqb,
}
use dcontext.Base.HashMap.{get, insert}
use dcontext.Registry.{Registration}
use dcontext.Registry.Options
use dcontext.Registry.Options.{default_options}
use dcontext.Registry.Register.{
  do_register_with, make_registration, check_options, do_register_migration, migration_deserializer,
  add_deserializer,
}
use dcontext.Registry.Outcomes.{get-do_register_with, get-do_register_migration}
use dcontext.Registry.Globals.{initial_globals, try_initialize, initialize, global_registry}
use dcontext.Registry.Phases.{calls, call_try_initialize, call_register, initialize_once}
use dcontext.Wire.Encode.{make_wire_bytes}
use dcontext.Wire.Decode.{deserialize_to_snapshot}
use dcontext.Wire.Migration.{deserialize-migration}
use dcontext.Tests.Codec.{codec, codec-ReadsBack}
use dcontext.Tests.Fixtures.{number, u64, u32, byte_serde, with_request_id, registry}

-- "request_id" again, at another type: an error, and the entry stays.
get-do_register_with_example :
    (get "request_id"
        (do_register_with byte_serde u32 with_request_id "request_id" Options.local_only).0
      ≡ or_else (get "request_id" with_request_id) (
          if ◌==◌ {K = String} "request_id" "request_id"
            && is_ok (check_options {D = ℕ} (Options.local_only default_options))
          then some
              (make_registration byte_serde u32 "request_id" (Options.local_only default_options))
          else none))
    × (is_ok (do_register_with byte_serde u32 with_request_id "request_id" Options.local_only).1 ≡ (
        is_ok (check_options {D = ℕ} (Options.local_only default_options))
        && map_or true (λ r. nat_eqb r.type_id u32) (get "request_id" with_request_id)))
get-do_register_with_example =
    get-do_register_with byte_serde u32 with_request_id "request_id" Options.local_only "request_id"

abbrev request_id_entry : Registration ℕ
request_id_entry = make_registration byte_serde u64 "request_id" (Options.cached default_options)

request_id-found : get "request_id" with_request_id ≡ some request_id_entry
unfolding do_register_with check_options get insert
request_id-found = refl

get-do_register_migration_example :
    (is_ok (do_register_migration byte_serde u32 u64 with_request_id "request_id" 0 (λ n. n)).1 ≡ (
      nat_eqb request_id_entry.type_id u64
      && not request_id_entry.local_only
      && not (nat_eqb 0 request_id_entry.key_version)))
    × (get "request_id"
          (do_register_migration byte_serde u32 u64 with_request_id "request_id" 0 (λ n. n)).0
        ≡ (if ◌==◌ {K = String} "request_id" "request_id"
              && is_ok
                  (do_register_migration byte_serde u32 u64 with_request_id "request_id" 0
                    (λ n. n)).1
            then some (
                add_deserializer 0
                  (migration_deserializer byte_serde u32 u64 (λ n. n))
                  request_id_entry)
            else get "request_id" with_request_id))
get-do_register_migration_example =
    get-do_register_migration byte_serde u32 u64 with_request_id "request_id" 0 (λ n. n)
      request_id_entry "request_id" request_id-found

initialize_once_example :
    ((try_initialize registry initial_globals).1 ≡ ok tt)
    × (global_registry (
          calls
            (call_try_initialize []
              ∷ call_register (λ m. do_register_with byte_serde u32 m "retries" (λ o. o))
              ∷ [])
            (try_initialize registry initial_globals).0)
        ≡ registry)
    × (initialize [] (
          calls
            (call_try_initialize []
              ∷ call_register (λ m. do_register_with byte_serde u32 m "retries" (λ o. o))
              ∷ [])
            (try_initialize registry initial_globals).0)
        ≡ none)
initialize_once_example =
    initialize_once registry [] initial_globals
      (call_try_initialize []
        ∷ call_register (λ m. do_register_with byte_serde u32 m "retries" (λ o. o))
        ∷ [])
      refl

request_id-current :
    (request_id_entry.key ≡ "request_id")
    × (request_id_entry.type_id ≡ u64)
    × (request_id_entry.local_only ≡ false)
    × (0 ≢ request_id_entry.key_version)
unfolding make_registration
request_id-current = (refl, refl, refl, λ h. absurd (omega arith))

deserialize-migration_example :
    deserialize_to_snapshot codec
      (do_register_migration byte_serde u32 u64 with_request_id "request_id" 0 (λ n. n + 100)).0
      (make_wire_bytes codec "request_id" 0 (5 ∷ []))
    ≡ ok (record { values = ("request_id", number (5 + 100)) ∷ []; scope_chain = [] })
deserialize-migration_example =
    deserialize-migration byte_serde u32 u64 with_request_id "request_id" 0 (λ n. n + 100)
      request_id_entry codec (5 ∷ []) 5 {bytes = 0 ∷ 0 ∷ 5 ∷ []} codec-ReadsBack refl
      request_id-found request_id-current.0 request_id-current.1 request_id-current.2
      request_id-current.3 refl
