-- ===== src/Registry/Locks/Metadata.antt =====
-- `with_metadata` before the registry is frozen. Outside the tests of the crate nothing is registered
-- in `BUILD`, so `with_metadata` finds no entry there and runs no callback with its guard.
use dcontext.Base.{string_eq, String, Option, none, some, [], and_then, flatten}
use dcontext.Base.HashMap.{get}
use dcontext.Value.{TypeId}
use dcontext.Registry.{Registration}
use dcontext.Registry.Reads
use dcontext.Registry.Reads.{metadata_of}
use dcontext.Registry.Locks.{Script, done, with_metadata}
use dcontext.Registry.Locks.Progress.{IsFlat, IsInner}

module _ {D X : Type 0} (m : TypeId) (key : String) (f : D → Script D (Option X)) where
  -- The callback that is to run, if any, is `f` at some metadata.
  callback-IsFlat :
      (o : Option D)
      → ((d : D) → IsFlat [] (f d))
      → IsFlat [] (elim (and_then o (λ d. some (f d))) [ none ↦ done none | some g ↦ g ])
  unfolding IsFlat
  callback-IsFlat none flat = tt
  callback-IsFlat (some d) flat = flat d

  found-IsFlat :
      (o : Option (Registration D))
      → ((d : D) → IsFlat [] (f d))
      → IsFlat []
          (elim (flatten (and_then o (λ r. some (and_then (metadata_of m r) (λ d. some (f d)))))) [
            | none ↦ done none
            | some g ↦ g
          ])
  unfolding IsFlat
  found-IsFlat none flat = tt
  found-IsFlat (some r) flat = callback-IsFlat (metadata_of m r) flat

  pub with_metadata-IsFlat :
      (next : Option X → Script D (Option X))
      → ((d : D) → IsFlat [] (f d))
      → ((o : Option X) → IsFlat [] (next o))
      → IsFlat [] (with_metadata m key f next)
  unfolding with_metadata IsFlat IsInner Reads.with_metadata get
  with_metadata-IsFlat next flat later = (tt, (λ map. found-IsFlat (get key map) flat), later)
