-- ===== src/Context/Relay.antt =====
-- Context that goes from process to process, by `capture_serialized` and `attach_from_bytes`. The
-- processes have the same registry and codecs, and limits of their own.
use dcontext.Config.{Config}
use dcontext.Store.Chain.{limit_chain}
use dcontext.Context.Limits.{under, cut_in, cut_in-append, scope_chain-restored}
use dcontext.Base.{List, [], ◌∷◌, ◌++◌, ◌≡◌, ap, ◌∙◌, sym, String, some, ok, Result, string_eq}
use mathlib.Core.Path.{subst}
use dcontext.Base.HashMap.{get}
use dcontext.Error.{ContextError}
use dcontext.Value.{Bytes}
use dcontext.Store.{ContextStore}
use dcontext.Store.Shape.{IsWellFormed}
use dcontext.Store.Lookup.{get_value}
use dcontext.Wire.RoundTrip.{ReadsBack}
use dcontext.Wire.Sound.{RegistryIsSound}
use dcontext.Context.{
  Env, Cell, AttachGuard, registry_of, capture_serialized, attach_from_bytes, scope_chain,
  store_from_snapshot,
}
use dcontext.Context.Transfer.{
  transferable, IsTyped, store_from_snapshot-IsWellFormed, get_value-store_from_snapshot,
}
use dcontext.Context.Transfer.Wired.{
  transferable-transferable, transferable-IsTyped, deserialize-capture_serialized,
  attach_from_bytes-ok,
}

module _ {D : Type 0} (env : Env D) where
  -- The first store is serialized with success under the first limits, and its bytes are attached as
  -- the second under the second.
  pub record Hop (from to : Config) (s u : ContextStore D) : Type 0 where
    pub bytes : Bytes
    pub cell : Cell D
    pub guard : AttachGuard D
    pub sent : capture_serialized (under env from) (some s) ≡ ok bytes
    pub received : attach_from_bytes (under env to) bytes cell ≡ ok (some u, guard)

  -- One hop or more, each process passing on what it has attached: the limits of the first process,
  -- its store, those of all that receive, in order, those of the last, and its store.
  pub data Relay (from : Config) (s : ContextStore D)
      : List Config → Config → ContextStore D → Type 0 where
    first : {to : Config} {u : ContextStore D} → Hop from to s u → Relay from s (to ∷ []) to u
    further :
        {processes : List Config} {via to : Config} {t u : ContextStore D}
        → Relay from s processes via t
        → Hop via to t u
        → Relay from s (processes ++ to ∷ []) to u

  -- What the last process has of a store that was sent to it.
  abbrev Arrived : Config → ContextStore D → List Config → Config → ContextStore D → Type 0
  Arrived from s processes to u =
      IsWellFormed u
      × IsTyped (registry_of env) u
      × (scope_chain (under env to) (some u)
          ≡ cut_in processes (scope_chain (under env from) (some s)))
      × ((k : String) → get_value u k ≡ transferable (registry_of env) k (get_value s k))

  attached_store :
      {t u : ContextStore D} {g h : AttachGuard D}
      {r : Result (Cell D × AttachGuard D) ContextError}
      → r ≡ ok (some t, g)
      → r ≡ ok (some u, h)
      → t ≡ u
  attached_store p q = cc

  Hop-Arrived :
      {from to : Config} {s u : ContextStore D}
      → RegistryIsSound env.serde (registry_of env)
      → ReadsBack env.bincode
      → IsWellFormed s
      → IsTyped (registry_of env) s
      → Hop from to s u
      → Arrived from s (to ∷ []) to u
  Hop-Arrived {from} {to} {s} {u} sound reads w typed hop =
      let (snap, restored, chain, d, at) =
        deserialize-capture_serialized (under env from) s sound reads w typed hop.sent in
      let v = store_from_snapshot (under env to) snap in
      let ran = attach_from_bytes-ok (under env to) hop.bytes snap hop.cell restored in
      let attached : v ≡ u = attached_store ran hop.received in
      subst (Arrived from s (to ∷ []) to) attached (
        store_from_snapshot-IsWellFormed (under env to) snap d,
        λ k x r found reg.
            transferable-IsTyped (registry_of env) k (get k snap.values) x r
              (sym (get_value-store_from_snapshot (under env to) snap k d) ∙ found) reg,
        scope_chain-restored (under env to) snap ∙ ap (limit_chain to.max_scope_chain_len) chain,
        λ k. get_value-store_from_snapshot (under env to) snap k d ∙ at k,
      )

  -- From a well-formed, well-typed store through any number of processes with one sound registry and
  -- the same codecs, where bincode reads back what it wrote, whatever their limits, each sending on with `capture_serialized` what it has
  -- attached with `attach_from_bytes`: what the last one attached is well-formed and well-typed,
  -- has the scope chain of the first, cut to the limit of each process on the way, and shows at each key what the first showed, if that may
  -- cross, and nothing otherwise. Nothing more is lost on the second and later hops.
  pub Relay-Arrived :
      {from : Config} {s : ContextStore D} {processes : List Config} {to : Config}
      {u : ContextStore D}
      → RegistryIsSound env.serde (registry_of env)
      → ReadsBack env.bincode
      → IsWellFormed s
      → IsTyped (registry_of env) s
      → Relay from s processes to u
      → Arrived from s processes to u
  Relay-Arrived sound reads w typed (first hop) = Hop-Arrived sound reads w typed hop
  Relay-Arrived {from} {s} sound reads w typed
        (further {processes = processes} {to = to} before hop) =
      let (w', typed', chain, at) = Relay-Arrived sound reads w typed before in
      let (w'', typed'', chain', at') = Hop-Arrived sound reads w' typed' hop in
      (
        w'',
        typed'',
        chain'
            ∙ ap (limit_chain to.max_scope_chain_len) chain
            ∙ sym (cut_in-append processes to (scope_chain (under env from) (some s))),
        λ k.
            at' k
            ∙ ap (transferable (registry_of env) k) (at k)
            ∙ transferable-transferable (registry_of env) k (get_value s k),
      )
