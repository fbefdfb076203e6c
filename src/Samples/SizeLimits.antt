-- ===== src/Samples/SizeLimits.antt =====
-- samples/src/bin/size_limits.rs.
use Prim.Native.String.{◌++◌}
use dcontext.Error.{ContextError, context_too_large}
use dcontext.Base.{ℕ, String, [], ◌∷◌, length, Result, ok, err, string_eq, zero, suc}
use dcontext.Value.{TypeId, Bytes}
use dcontext.Registry.Register.{new_builder}
use dcontext.Samples.Program.{
  Program, ◌>>=◌, ◌>>◌, reads, number, error, println, register, initialize, set, capture,
  serialize, capture_bytes, set_max_context_size,
}

pub data Data : Type 0 where
  payload : String → Data

abbrev pub payload_type : TypeId
payload_type = 1

-- `text.repeat(n)`.
abbrev repeat : ℕ → String → String
repeat zero s = ""
repeat (suc n) s = s ++ repeat n s

abbrev max_context_size : Program Data ℕ
max_context_size = reads (λ w. w.env.config.max_context_size)

-- The results of the three matches on `capture().serialize()`.
abbrev show_small : Result Bytes ContextError → Program Data (Unit {0})
show_small (ok b) = println "Small payload OK: {} bytes" (number (length b) ∷ [])
show_small (err e) = println "Error: {}" (error e ∷ [])

unfoldable pub show_large : Result Bytes ContextError → Program Data (Unit {0})
show_large (ok b) = println "Large payload OK: {} bytes (unexpected!)" (number (length b) ∷ [])
show_large (err (context_too_large size limit)) =
    println "\nContextTooLarge: {} bytes > {} byte limit" (number size ∷ number limit ∷ [])
show_large (err e) = println "Other error: {}" (error e ∷ [])

abbrev show_unlimited : Result Bytes ContextError → Program Data (Unit {0})
show_unlimited (ok b) =
    println "Large payload OK after disabling limit: {} bytes" (number (length b) ∷ [])
show_unlimited (err e) = println "Error: {}" (error e ∷ [])

-- `main`, with the small and the large value that it sets.
unfoldable pub body : Data → Data → Program Data (Unit {0})
unfolding show_large
body small large = do
  builder ← register payload_type "payload" new_builder
  initialize builder
  set payload_type "payload" small
  b ← capture_bytes
  println "Small payload serialized: {} bytes" (number (length b) ∷ [])
  limit ← max_context_size
  println "Current limit: {} (0 = no limit)" (number limit ∷ [])
  println "\nSetting max context size to 50 bytes..." []
  set_max_context_size 50
  limit ← max_context_size
  println "Current limit: {}" (number limit ∷ [])
  snap ← capture
  result ← serialize snap
  show_small result
  set payload_type "payload" large
  snap ← capture
  result ← serialize snap
  show_large result
  println "\nDisabling size limit..." []
  set_max_context_size 0
  snap ← capture
  result ← serialize snap
  show_unlimited result

unfoldable pub main : Program Data (Unit {0})
unfolding body
main = body (payload "small") (payload (repeat 200 "x"))
