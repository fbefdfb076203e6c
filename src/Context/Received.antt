-- ===== src/Context/Received.antt =====
-- `attach_from_bytes` of bytes of any origin.
use dcontext.Base.{◌≡◌, ◌⊎◌, inl, inr, ◌∙◌, sym, String, some, ok, string_eq}
use dcontext.Base.HashMap.{get}
use dcontext.Value.{Bytes, Value}
use dcontext.Store.{ContextStore}
use dcontext.Store.Shape.{IsWellFormed}
use dcontext.Store.Lookup.{get_value}
use dcontext.Wire.Safe.{Fails, Built}
use dcontext.Wire.Untrusted.{Admits, deserialize_to_snapshot-any}
use dcontext.Context.{Env, Cell, registry_of, deserialize, attach_from_bytes, store_from_snapshot}
use dcontext.Context.Transfer.{store_from_snapshot-IsWellFormed, get_value-store_from_snapshot}
use dcontext.Context.Transfer.Wired.{transferable_kept, attach_from_bytes-ok}

module _ {D : Type 0} (env : Env D) where
  -- Whatever the bytes are and whatever bincode makes of them, where calls on a builder led to the
  -- registry: attaching them ends with `DeserializationFailed`, or it succeeds. Then the thread
  -- has a well-formed store, each value that it shows is under a key that is registered, not as
  -- local-only, and has the registered type, and the guard holds what the thread had.
  pub attach_from_bytes-any :
      (bytes : Bytes) (cell : Cell D)
      → Built (registry_of env)
      → Fails (attach_from_bytes env bytes cell)
        ⊎ ((s : ContextStore D) × (attach_from_bytes env bytes cell
              ≡ ok (some s, record { prev = cell }))
            × IsWellFormed s
            × ((k : String) (v : Value D) → get_value s k ≡ some v → Admits (registry_of env) k v))
  unfolding attach_from_bytes deserialize
  attach_from_bytes-any bytes cell built =
      elim (deserialize_to_snapshot-any (registry_of env) env.bincode bytes built) [
        | inl (text, failed) ↦ inl (text, rw failed)
        | inr (snap, read, (d, all)) ↦ inr (
          store_from_snapshot env snap,
          attach_from_bytes-ok env bytes snap cell read,
          store_from_snapshot-IsWellFormed env snap d,
          λ k v found. all k v (
              transferable_kept (registry_of env) k (get k snap.values) v
                (sym (get_value-store_from_snapshot env snap k d) ∙ found)),
        )
      ]
