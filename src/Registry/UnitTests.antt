-- ===== src/Registry/UnitTests.antt =====
-- The unit tests of dcontext/src/registry.rs.
use dcontext.Base.{
  ℕ, String, Bool, true, false, ◌&&◌, not, Option, none, some, List, [], ◌∷◌, Result, ok, err, ◌≡◌,
  refl, string_eq, map_or, is_some, and_then,
}
use dcontext.Base.HashMap.{get, insert}
use dcontext.Error.{ContextError, already_registered}
use dcontext.Value.{TypeId, Serde, downcast_ref}
use dcontext.Registry.Options
use dcontext.Registry.Reads
use dcontext.Registry.Reads.{metadata_of}
use dcontext.Registry.Register
use dcontext.Registry.Register.{
  new_builder, do_register_with, check_options, register_checked, make_registration,
}
use dcontext.Registry.Globals.{
  Globals, initial_globals, register_in_build, is_registered, global_registry,
}

-- The values of the tests: `TestVal(String)`, `OtherVal(u64)` and the metadata, a `usize`.
data TestData : Type 0 where
  test_val : String → TestData
  other_val : ℕ → TestData
  size : ℕ → TestData

abbrev test_type : TypeId
test_type = 1

abbrev other_type : TypeId
other_type = 2

abbrev size_type : TypeId
size_type = 3

abbrev value_of : TestData → ℕ
value_of (test_val s) = 0
value_of (other_val n) = n
value_of (size n) = n

module _ (serde : Serde TestData) where
  -- `try_register` of the tests, which changes `BUILD`.
  unfoldable try_register_in_build :
      TypeId → String → Globals TestData → Globals TestData × Result (Unit {0}) ContextError
  unfolding Register.try_register register_in_build
  try_register_in_build t key = register_in_build (λ map. Register.try_register serde t map key)

  -- `unwrap()`: `none` is a panic.
  abbrev succeeds : Globals TestData × Result (Unit {0}) ContextError → Option (Globals TestData)
  succeeds (g, ok _) = some g
  succeeds (g, err e) = none

  abbrev is_already_registered : Result (Unit {0}) ContextError → Bool
  is_already_registered (err (already_registered k)) = true
  is_already_registered _ = false

  unfoldable register_and_lookup : Option Bool
  unfolding try_register_in_build
  register_and_lookup =
      and_then (succeeds (try_register_in_build test_type "reg_test_lookup" initial_globals)) (λ g.
        some (is_registered g "reg_test_lookup" && not (is_registered g "reg_test_missing_xxx")))

  unfoldable idempotent_registration : Option (Globals TestData)
  unfolding try_register_in_build
  idempotent_registration =
      and_then (succeeds (try_register_in_build test_type "reg_test_idem" initial_globals))
        (λ g. succeeds (try_register_in_build test_type "reg_test_idem" g))

  unfoldable conflicting_registration : Option Bool
  unfolding try_register_in_build
  conflicting_registration =
      and_then (succeeds (try_register_in_build test_type "reg_test_conflict" initial_globals))
        (λ g.
          some (is_already_registered (try_register_in_build other_type "reg_test_conflict" g).1))

  -- What the test compares: whether the key is there, the cached keys, whether the value is valid,
  -- and the metadata.
  unfoldable injected_builder_map : Option (Bool × List String × Bool × Option ℕ)
  injected_builder_map =
      and_then
        (Register.register_with serde test_type new_builder "reg_test_injected"
          (λ opts. Options.with_metadata size_type (size 7) (Options.cached opts)))
        (λ map. some (
          map_or false (λ b. b) (Reads.with_registration map "reg_test_injected" (λ _. true)),
          Reads.cached_keys map,
          Reads.is_valid_value map "reg_test_injected"
              (record { type_id = test_type; data_of = test_val "" }),
          Reads.with_metadata map size_type "reg_test_injected" value_of,
        ))

  register_and_lookup-passes : register_and_lookup ≡ some true
  unfolding register_and_lookup is_registered do_register_with check_options register_checked get
      insert make_registration global_registry
  register_and_lookup-passes = refl

  conflicting_registration-passes : conflicting_registration ≡ some true
  unfolding conflicting_registration do_register_with check_options register_checked get insert
      make_registration
  conflicting_registration-passes = refl

  idempotent_registration-passes : is_some idempotent_registration ≡ true
  unfolding idempotent_registration do_register_with check_options register_checked get insert
      make_registration
  idempotent_registration-passes = refl

  injected_builder_map-passes :
      injected_builder_map ≡ some (true, "reg_test_injected" ∷ [], true, some 7)
  unfolding injected_builder_map Register.register_with Register.try_register_with do_register_with
      check_options register_checked make_registration get insert Reads.cached_keys
      Reads.is_valid_value Reads.with_metadata metadata_of downcast_ref
  injected_builder_map-passes = refl
