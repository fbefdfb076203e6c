-- ===== src/Tests/Fixtures.antt =====
-- What the tests share: types are numbers and every value is one, a registry with a cached key and
-- a local-only key, and a store inside the scope "api" where both are set.
use dcontext.Base.{
  ℕ, ◌≡◌, refl, ap, ◌∙◌, sym, String, none, some, [], ◌∷◌, Result, ok, err, arith, string_eq,
  if◌then◌else◌, nat_eqb,
}
use dcontext.Base.HashMap.{get}
use dcontext.Value.{TypeId, Bytes, Value, Serde}
use dcontext.Registry.{Registration, RegistryMap}
use dcontext.Registry.Options
use dcontext.Registry.Options.{default_options}
use dcontext.Registry.Register.{do_register_with, make_registration}
use dcontext.Registry.Outcomes.{get-do_register_with}
use dcontext.Store.{ContextStore, new_store}
use dcontext.Store.Shape.{IsWellFormed}
use dcontext.Store.Lookup.{set_value, get_value, find_local, find_fallback, find_frozen}
use dcontext.Store.Push.{push_scope}
use dcontext.Store.Keeps.{
  new_store-IsWellFormed, set_value-IsWellFormed, push_scope-IsWellFormed, push_scope-real,
  real_child,
}
use dcontext.Store.Scoped.{depth-push_scope}
use dcontext.Store.Visible.{get_value-set_value, get_value-push_scope}
use dcontext.Tests.Codec.{codec}
use dcontext.Context.{Env, registry_of}
use dcontext.Registry.Globals.{global_registry}
use dcontext.Context.Transfer.{IsTyped}
use dcontext.Wire.Sound.{RegistryIsSound, do_register_with-IsSound}

abbrev pub u64 : TypeId
u64 = 1

abbrev pub u32 : TypeId
u32 = 2

abbrev pub number : ℕ → Value ℕ
number n = record { type_id = u64; data_of = n }

abbrev from_bytes : Bytes → Result ℕ String
from_bytes [] = err "unexpected end of file"
from_bytes (b ∷ rest) = ok b

abbrev pub byte_serde : Serde ℕ
byte_serde = record {
  type_name = λ t. if nat_eqb t u64 then "u64" else "u32";
  serialize = λ t n. ok (n ∷ []);
  deserialize = λ t bytes. from_bytes bytes;
}

abbrev pub with_request_id : RegistryMap ℕ
with_request_id = (do_register_with byte_serde u64 [] "request_id" Options.cached).0

abbrev pub registry : RegistryMap ℕ
registry = (do_register_with byte_serde u64 with_request_id "secret" Options.local_only).0

abbrev pub env : Env ℕ
env = record {
  globals = record { frozen = some registry; build = none };
  config = record { max_context_size = 64; max_scope_chain_len = 64 };
  serde = byte_serde;
  bincode = codec;
}

abbrev pub in_api : ContextStore ℕ
in_api = (push_scope registry (some "api") new_store).0

abbrev pub request_store : ContextStore ℕ
request_store = (set_value "secret" (number 9) (set_value "request_id" (number 7) in_api).0).0

pub in_api-IsWellFormed : IsWellFormed in_api
in_api-IsWellFormed =
    push_scope-IsWellFormed registry (some "api") new_store new_store-IsWellFormed (omega arith)

pub request_store-IsWellFormed : IsWellFormed request_store
request_store-IsWellFormed =
    set_value-IsWellFormed "secret" (number 9) _
      (set_value-IsWellFormed "request_id" (number 7) in_api in_api-IsWellFormed)

empty-IsSound : RegistryIsSound byte_serde []
unfolding get
empty-IsSound = record { at_key = λ k r h. cc; sound = λ k r h. cc }

pub byte_serde-IsInverse :
    (d : ℕ) (bytes : Bytes)
    → byte_serde.serialize u64 d ≡ ok bytes
    → byte_serde.deserialize u64 bytes ≡ ok d
byte_serde-IsInverse d bytes h = ground arith

pub get_value-new : (k : String) → get_value (new_store {D = ℕ}) k ≡ none
unfolding get_value find_local find_fallback find_frozen get
get_value-new k = refl

pub with_request_id-IsSound : RegistryIsSound byte_serde with_request_id
with_request_id-IsSound =
    do_register_with-IsSound byte_serde u64 [] "request_id" Options.cached empty-IsSound
      byte_serde-IsInverse

pub registry-IsSound : RegistryIsSound byte_serde registry
registry-IsSound =
    do_register_with-IsSound byte_serde u64 with_request_id "secret" Options.local_only
      with_request_id-IsSound byte_serde-IsInverse

-- Every entry of the registry, and every value of the store, is at the type `u64`.
pub registry-typed : (k : String) (r : Registration ℕ) → get k registry ≡ some r → r.type_id ≡ u64
unfolding make_registration get
registry-typed k r h = ground (
  arith,
  (get-do_register_with byte_serde u64 with_request_id "secret" Options.local_only k).0,
  (get-do_register_with byte_serde u64 [] "request_id" Options.cached k).0,
)

request_store-typed :
    (k : String) (v : Value ℕ) → get_value request_store k ≡ some v → v.type_id ≡ u64
request_store-typed k v h = ground (
  arith,
  get_value-set_value "secret" k (number 9) (set_value "request_id" (number 7) in_api).0,
  get_value-set_value "request_id" k (number 7) in_api,
  get_value-push_scope registry (some "api") new_store k new_store-IsWellFormed,
  get_value-new k,
)

pub request_store-IsTyped : IsTyped registry request_store
request_store-IsTyped k v r here found =
    request_store-typed k v here ∙ sym (registry-typed k r found)

pub request_store-depth : request_store.depth ≡ 2
unfolding set_value
request_store-depth = (depth-push_scope registry (some "api") new_store (omega arith)).1

pub request_store-open : request_store.scope_barrier ≡ none
unfolding set_value real_child
request_store-open =
    ap (λ r. r.0.scope_barrier) (push_scope-real registry (some "api") new_store (omega arith))

pub env-IsSound : RegistryIsSound env.serde (registry_of env)
unfolding global_registry
env-IsSound = registry-IsSound

pub env-IsTyped : IsTyped (registry_of env) request_store
unfolding global_registry
env-IsTyped = request_store-IsTyped
