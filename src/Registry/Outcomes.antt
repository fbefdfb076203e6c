-- ===== src/Registry/Outcomes.antt =====
-- What registering does to the map, on every branch.
use dcontext.Base.{
  nat_eqb_iff, ◌&&◌, not, true, is_ok, or_else, map_or, ◌==◌, ℕ, ◌≡◌, ◌≢◌, String, false, none,
  some, ◌⊎◌, inl, inr, arith, if◌then◌else◌, nat_eqb, string_eq, Option-cases, Bool-cases,
}
use dcontext.Base.HashMap.{get, insert, get-insert}
use dcontext.Value.{TypeId, Serde}
use dcontext.Registry.{Registration, RegistryMap}
use dcontext.Registry.Options.{RegistrationOptions, default_options}
use dcontext.Registry.Register.{
  make_registration, check_options, do_register_with, do_register_migration, add_deserializer,
  migration_deserializer,
}

module _ {D : Type 0} (serde : Serde D) where
  pub do_register_with_cases :
      (t : TypeId) (registry : RegistryMap D) (key : String)
      (configure : RegistrationOptions D → RegistrationOptions D)
      → ((do_register_with serde t registry key configure).0 ≡ registry)
        ⊎ ((do_register_with serde t registry key configure).0
            ≡ insert key (make_registration serde t key (configure default_options)) registry)
  unfolding do_register_with
  do_register_with_cases t registry key configure = ground arith

  -- The builder after a registration, at every key: entries that were there stay as they are, and
  -- a new key gets the entry of the options unless the checks refuse them. The call succeeds if
  -- the checks pass and the key is new or has the same type.
  pub get-do_register_with :
      (t : TypeId) (registry : RegistryMap D) (key : String)
      (configure : RegistrationOptions D → RegistrationOptions D) (j : String)
      → let opts = configure default_options in
        let done = do_register_with serde t registry key configure in
        (get j done.0
          ≡ or_else (get j registry) (
              if key == j && is_ok (check_options opts)
              then some (make_registration serde t key opts)
              else none))
        × (is_ok done.1 ≡ (
            is_ok (check_options opts)
            && map_or true (λ r. nat_eqb r.type_id t) (get key registry)))
  unfolding do_register_with
  get-do_register_with t registry key configure j = ground (
    arith,
    string_eq.same_iff key j,
    get-insert j key (make_registration serde t key (configure default_options)) registry,
  )

  pub do_register_migration_cases :
      (t_old t : TypeId) (registry : RegistryMap D) (key : String) (v : ℕ) (migrate : D → D)
      → ((do_register_migration serde t_old t registry key v migrate).0 ≡ registry)
        ⊎ ((r : Registration D) × (get key registry ≡ some r)
            × (r.local_only ≡ false)
            × (r.type_id ≡ t)
            × (v ≢ r.key_version)
            × ((do_register_migration serde t_old t registry key v migrate).0
                ≡ insert key
                    (add_deserializer v (migration_deserializer serde t_old t migrate) r)
                    registry))
  unfolding do_register_migration
  do_register_migration_cases t_old t registry key v migrate =
      elim (Option-cases (get key registry)) [
        | inl missing ↦ inl (ground arith)
        | inr (r, found) ↦ elim (Bool-cases r.local_only) [
          | inl local ↦ inl (ground arith)
          | inr wired ↦ elim (Bool-cases (nat_eqb v r.key_version)) [
            | inl current ↦ inl (ground arith)
            | inr old ↦ elim (Bool-cases (nat_eqb r.type_id t)) [
              | inl typed ↦ inr (
                r,
                found,
                wired,
                ground (arith, nat_eqb_iff r.type_id t),
                ground arith,
                ground arith,
              )
              | inr other ↦ inl (ground arith)
            ]
          ]
        ]
      ]

  -- A migration for a key that has an entry succeeds if the entry has the current type, is not
  -- local-only and has another version. Then the entry has one more deserializer, and nothing
  -- else in the map is different. Refused, it changes nothing.
  pub get-do_register_migration :
      (t_old t : TypeId) (registry : RegistryMap D) (key : String) (v : ℕ) (migrate : D → D)
      (r : Registration D) (j : String)
      → get key registry ≡ some r
      → let done = do_register_migration serde t_old t registry key v migrate in
        (is_ok done.1 ≡ (nat_eqb r.type_id t && not r.local_only && not (nat_eqb v r.key_version)))
        × (get j done.0 ≡ (
            if key == j && is_ok done.1
            then some (add_deserializer v (migration_deserializer serde t_old t migrate) r)
            else get j registry))
  unfolding do_register_migration
  get-do_register_migration t_old t registry key v migrate r j found = ground (
    arith,
    string_eq.same_iff key j,
    get-insert j key (add_deserializer v (migration_deserializer serde t_old t migrate) r) registry,
  )
