-- ===== src/Context/Transfer/Wired.antt =====
-- Values on their way from one store to another, by bytes.
use dcontext.Base.{
  ==-refl, nat_eq, ◌≡◌, refl, ap, ◌∙◌, String, not, ◌&&◌, Option, none, some, [], ◌∷◌, ok, arith,
  if◌then◌else◌, string_eq, Bool, true, false, sym, nat_eqb_iff,
}
use dcontext.Base.HashMap.{get, Distinct}
use dcontext.Value.{Bytes, Value}
use dcontext.Scope.{Values}
use dcontext.Registry.{Registration, RegistryMap}
use dcontext.Registry.Reads.{is_local_key, is_valid_value}
use dcontext.Store.{ContextStore}
use dcontext.Store.Shape.{IsWellFormed}
use dcontext.Store.Lookup.{get_value}
use dcontext.Snapshot.{ContextSnapshot}
use dcontext.Wire.Sound.{RegistryIsSound}
use dcontext.Wire.RoundTrip.{ReadsBack, AreTyped, is_wired, deserialize-serialize}
use dcontext.Wire.Decode.{deserialize_to_snapshot}
use dcontext.Context.{
  Env, Cell, registry_of, scope_chain, capture, capture_serialized, attach_from_bytes,
  store_from_snapshot,
}
use dcontext.Context.Transfer.{
  transferable, get-capture, capture-Distinct, get_value-store_from_snapshot, scope_chain-capture,
  scope_chain-attached, IsTyped,
}

module _ {D : Type 0} where
  AreTyped-get :
      (registry : RegistryMap D) (m : Values D)
      → Distinct m
      → ((k : String) (v : Value D) (r : Registration D)
          → get k m ≡ some v
          → get k registry ≡ some r
          → v.type_id ≡ r.type_id)
      → AreTyped registry m
  unfolding get
  AreTyped-get registry [] d typed = tt
  AreTyped-get registry ((k, v) ∷ m) d typed = (
    λ r found. typed k v r (rw (==-refl k)) found,
    AreTyped-get registry m d.1
        (λ j w r here found. typed j w r (ground (arith, string_eq.same_iff k j)) found),
  )

  pub attach_from_bytes-ok :
      (env : Env D) (bytes : Bytes) (snap : ContextSnapshot D) (cell : Cell D)
      → deserialize_to_snapshot env.bincode (registry_of env) bytes ≡ ok snap
      → attach_from_bytes env bytes cell
        ≡ ok (some (store_from_snapshot env snap), record { prev = cell })
  unfolding attach_from_bytes
  attach_from_bytes-ok env bytes snap cell h = rw h

  AreTyped-capture :
      (env : Env D) (s : ContextStore D)
      → IsWellFormed s
      → ((k : String) (v : Value D) (r : Registration D)
          → get_value s k ≡ some v
          → get k (registry_of env) ≡ some r
          → v.type_id ≡ r.type_id)
      → AreTyped (registry_of env) (capture env (some s)).values
  AreTyped-capture env s w typed =
      AreTyped-get (registry_of env) (capture env (some s)).values (capture-Distinct env s)
        (λ k v r here found. typed k v r (ground (arith, get-capture env s k w)) found)

  transferable-wired :
      (registry : RegistryMap D) (k : String) (o : Option (Value D))
      → transferable registry k
          (if is_wired registry k then (if is_local_key registry k then none else o) else none)
        ≡ transferable registry k o
  unfolding transferable is_wired is_local_key is_valid_value
  transferable-wired registry k o = ground arith

  kept :
      {v w : Value D} (valid local_ : Bool)
      → (if valid && not local_ then some w else none) ≡ some v
      → (valid ≡ true) × (w ≡ v)
  kept true false h = (refl, ground (arith, h))
  kept true true h = cc
  kept false l h = cc

  pub transferable-IsTyped :
      (registry : RegistryMap D) (k : String) (o : Option (Value D)) (v : Value D)
      (r : Registration D)
      → transferable registry k o ≡ some v
      → get k registry ≡ some r
      → v.type_id ≡ r.type_id
  unfolding transferable is_valid_value
  transferable-IsTyped registry k none v r found reg = cc
  transferable-IsTyped registry k (some w) v r found reg =
      let (valid, same) = kept (is_valid_value registry k w) (is_local_key registry k) found in
      ap (λ x. Value.type_id x) (sym same)
      ∙ sym (ground (arith, reg, valid, nat_eqb_iff r.type_id w.type_id))

  pub transferable_kept :
      (registry : RegistryMap D) (k : String) (o : Option (Value D)) (v : Value D)
      → transferable registry k o ≡ some v
      → o ≡ some v
  unfolding transferable
  transferable_kept registry k none v found = cc
  transferable_kept registry k (some w) v found =
      let (valid, same) = kept (is_valid_value registry k w) (is_local_key registry k) found in
      ap {B = Option (Value D)} (λ x. some x) same

  pub transferable-transferable :
      (registry : RegistryMap D) (k : String) (o : Option (Value D))
      → transferable registry k (transferable registry k o) ≡ transferable registry k o
  unfolding transferable
  transferable-transferable registry k none = refl
  transferable-transferable registry k (some v) = ground arith

  pub deserialize-capture_serialized :
      (env : Env D) (s : ContextStore D) {bytes : Bytes}
      → RegistryIsSound env.serde (registry_of env)
      → ReadsBack env.bincode
      → IsWellFormed s
      → IsTyped (registry_of env) s
      → capture_serialized env (some s) ≡ ok bytes
      → (snap : ContextSnapshot D) × (deserialize_to_snapshot env.bincode (registry_of env) bytes
          ≡ ok snap)
        × (snap.scope_chain ≡ scope_chain env (some s))
        × Distinct snap.values
        × ((k : String)
            → transferable (registry_of env) k (get k snap.values)
              ≡ transferable (registry_of env) k (get_value s k))
  unfolding capture_serialized
  deserialize-capture_serialized env s {bytes} sound reads w typed h =
      let captured = capture env (some s) in
      let (snap, restored, chain, d, at) =
        deserialize-serialize env.serde (registry_of env) sound env.bincode env.config
          captured.values captured.scope_chain reads (capture-Distinct env s)
          (AreTyped-capture env s w typed) h in
      (
        snap,
        restored,
        chain ∙ scope_chain-capture env s,
        d,
        λ k.
            ap (transferable (registry_of env) k) (
              at k
              ∙ ap (λ o. if is_wired (registry_of env) k then o else none) (get-capture env s k w))
            ∙ transferable-wired (registry_of env) k (get_value s k),
      )

  -- From a well-formed, well-typed store to another thread with the same sound registry, where
  -- bincode reads back what it wrote: bytes that `capture_serialized` makes are attached with
  -- success. The thread then shows the sender's scope chain, and at each key what the sender
  -- showed, if that may cross; the guard holds what the thread had.
  pub attach_from_bytes-capture_serialized :
      (env : Env D) (s : ContextStore D) (cell : Cell D) {bytes : Bytes}
      → RegistryIsSound env.serde (registry_of env)
      → ReadsBack env.bincode
      → IsWellFormed s
      → IsTyped (registry_of env) s
      → capture_serialized env (some s) ≡ ok bytes
      → (s' : ContextStore D) × (attach_from_bytes env bytes cell
          ≡ ok (some s', record { prev = cell }))
        × (scope_chain env (some s') ≡ scope_chain env (some s))
        × ((k : String) → get_value s' k ≡ transferable (registry_of env) k (get_value s k))
  attach_from_bytes-capture_serialized env s cell {bytes} sound reads w typed h =
      let (snap, restored, chain, d, at) =
        deserialize-capture_serialized env s sound reads w typed h in
      (
        store_from_snapshot env snap,
        attach_from_bytes-ok env bytes snap cell restored,
        scope_chain-attached env s snap chain,
        λ k. get_value-store_from_snapshot env snap k d ∙ at k,
      )
