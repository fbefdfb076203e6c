-- ===== src/Samples/BasicScope.antt =====
-- samples/src/bin/basic_scope.rs.
use dcontext.Base.{ℕ, String, [], ◌∷◌}
use dcontext.Value.{TypeId}
use dcontext.Registry.Register.{new_builder}
use dcontext.Samples.Program.{
  Program, ◌>>=◌, ◌>>◌, value, println, register, initialize, set, get_unwrap, push_scope,
  drop_scope,
}

pub data Data : Type 0 where
  request_id : String → Data
  user_id : ℕ → Data

abbrev request_id_type : TypeId
request_id_type = 1

abbrev user_id_type : TypeId
user_id_type = 2

-- `main`, with the two values that it sets first.
unfoldable pub body : Data → Data → Program Data (Unit {0})
body first_request first_user = do
  builder ← register request_id_type "request_id" new_builder
  builder ← register user_id_type "user_id" builder
  initialize builder
  set request_id_type "request_id" first_request
  set user_id_type "user_id" first_user
  r ← get_unwrap request_id_type "request_id"
  println "[root] request_id = {:?}" (value r ∷ [])
  u ← get_unwrap user_id_type "user_id"
  println "[root] user_id    = {:?}" (value u ∷ [])
  guard ← push_scope "request-child"
  set request_id_type "request_id" (request_id "req-002-child")
  r ← get_unwrap request_id_type "request_id"
  println "[child] request_id = {:?}" (value r ∷ [])
  u ← get_unwrap user_id_type "user_id"
  println "[child] user_id    = {:?}" (value u ∷ [])
  drop_scope guard
  r ← get_unwrap request_id_type "request_id"
  println "[root] request_id = {:?}" (value r ∷ [])
  guard ← push_scope "user-override"
  set user_id_type "user_id" (user_id 99)
  u ← get_unwrap user_id_type "user_id"
  println "[scope] user_id = {:?}" (value u ∷ [])
  drop_scope guard
  u ← get_unwrap user_id_type "user_id"
  println "[root] user_id = {:?}" (value u ∷ [])

unfoldable pub main : Program Data (Unit {0})
unfolding body
main = body (request_id "req-001") (user_id 42)
