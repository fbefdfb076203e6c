-- ===== src/Samples/TypedKeys.antt =====
-- samples/src/bin/typed_keys.rs.
use dcontext.Context.Typed
use dcontext.Context.Typed.{ContextKey}
use dcontext.Base.{ℕ, String, Option, none, some, [], ◌∷◌, Bool, true, string_eq}
use dcontext.Registry.{RegistryMap}
use dcontext.Registry.Register.{new_builder}
use dcontext.Samples.Program.{
  Program, ◌>>=◌, ◌>>◌, unwrap, reads, modify, value, part, println, initialize, push_scope,
  drop_scope,
}

pub record UserInfo : Type 0 where
  pub id : ℕ
  pub name : String

pub record Flags : Type 0 where
  pub dark_mode : Bool

pub data Data : Type 0 where
  request_id : String → Data
  user_info : UserInfo → Data
  flags : Flags → Data

-- The statics `REQUEST_ID`, `USER_INFO` and `FEATURE_FLAGS`, and the local `another`.
abbrev request_key : ContextKey
request_key = record { key = "request_id"; type_of = 1 }

abbrev user_key : ContextKey
user_key = record { key = "user_info"; type_of = 2 }

abbrev flags_key : ContextKey
flags_key = record { key = "feature_flags"; type_of = 3 }

abbrev another_key : ContextKey
another_key = record { key = "another_key"; type_of = 1 }

-- The methods of a `ContextKey` on the current thread.
abbrev register_on : ContextKey → RegistryMap Data → Program Data (RegistryMap Data)
register_on k builder w = unwrap (Typed.register_on k w.env.serde builder) w

abbrev set_key : ContextKey → Data → Program Data (Unit {0})
set_key k v = modify (λ w. record w { cell = Typed.set k v w.cell })

abbrev get_key : ContextKey → Program Data (Option Data)
get_key k = reads (λ w. Typed.get k w.cell)

abbrev show_key : String → ContextKey → Program Data (Unit {0})
show_key format k = do v ← get_key k >>= unwrap; println format (value v ∷ [])

unfoldable pub child_request : Program Data (Unit {0})
child_request = do
  guard ← push_scope "child-request"
  set_key request_key (request_id "req-typed-002-child")
  show_key "\n[child scope] request_id = {:?}" request_key
  show_key "[child scope] user_info  = {:?}" user_key
  drop_scope guard

unfoldable pub main : Program Data (Unit {0})
unfolding child_request
main = do
  builder ← register_on request_key new_builder
  builder ← register_on user_key builder
  builder ← register_on flags_key builder
  builder ← register_on another_key builder
  initialize builder
  set_key request_key (request_id "req-typed-001")
  set_key user_key (user_info (record { id = 42; name = "Alice" }))
  set_key flags_key (flags (record { dark_mode = true }))
  show_key "request_id = {:?}" request_key
  show_key "user_info  = {:?}" user_key
  f ← get_key flags_key >>= unwrap
  println "dark_mode  = {}" (part "dark_mode" f ∷ [])
  child_request
  show_key "\n[after scope] request_id = {:?}" request_key
  found ← get_key another_key
  elim found [
    | none ↦ println "\n'another_key' is registered but not set" []
    | some v ↦ println "\n'another_key' = {:?}" (value v ∷ [])
  ]
