-- ===== src/Dactor/Journey.antt =====
-- A request that goes from actor to actor, in one process and between processes. The
-- processes have the same registry and codecs, and limits of their own.
use dcontext.Config.{Config}
use dcontext.Context.Limits.{under}
use dcontext.Base.{
  ℕ, false, ◌≡◌, refl, ap, ◌∙◌, sym, String, List, Option, none, some, [], ◌∷◌, ◌++◌, map, ok,
  string_eq,
}
use mathlib.Core.Path.{subst}
use mathlib.Core.List.{append_assoc, append-nil}
use dcontext.Base.HashMap.{Distinct, get}
use dcontext.Value.{Bytes}
use dcontext.Store.{ContextStore}
use dcontext.Store.Shape.{IsWellFormed}
use dcontext.Store.Lookup.{get_value}
use dcontext.Store.Chain.{limit_chain}
use dcontext.Store.Names.{limit_chain-append}
use dcontext.Snapshot.{ContextSnapshot}
use dcontext.Wire.Sound.{RegistryIsSound}
use dcontext.Wire.RoundTrip.{ReadsBack}
use dcontext.Context.{Env, Cell, registry_of, capture, capture_serialized, scope_chain}
use dcontext.Context.Transfer.{transferable, IsTyped, capture-Distinct, scope_chain-capture}
use dcontext.Context.Transfer.Wired.{
  transferable-transferable, transferable-IsTyped, deserialize-capture_serialized,
}
use dcontext.Future.{WithContext}
use dcontext.Dactor.{ErrorPolicy}
use dcontext.Dactor.Headers.{HeaderMap}
use dcontext.Dactor.Outbound.{on_send}
use dcontext.Dactor.Inbound.{remote_scope, on_receive, wrap_handler}
use dcontext.Dactor.Pipeline.{
  handler_store, transferable-capture, get_value-handler_store, scope_chain-handler_store,
  handler_store-IsWellFormed,
}
use dcontext.Dactor.Hops.{transport, on_receive-snapshot, on_receive-wire, wrap_handler-snapshot}

-- A chain of names to which each of the actors adds its remote scope, in a process with its limits.
abbrev pub entered : List (Config × String) → List String → List String
entered [] chain = chain
entered ((limits, actor) ∷ actors) chain =
    entered actors (limit_chain limits.max_scope_chain_len (chain ++ remote_scope actor ∷ []))

entered-append :
    (actors : List (Config × String)) (last : Config × String) (chain : List String)
    → entered (actors ++ last ∷ []) chain ≡ entered (last ∷ []) (entered actors chain)
entered-append [] last chain = refl
entered-append ((limits, actor) ∷ actors) last chain =
    entered-append actors last
      (limit_chain limits.max_scope_chain_len (chain ++ remote_scope actor ∷ []))

-- The limit of the chain is the same in the processes of all the actors.
abbrev pub HaveLimit : ℕ → List (Config × String) → Type 0
HaveLimit n [] = Unit
HaveLimit n ((limits, actor) ∷ actors) = (limits.max_scope_chain_len ≡ n) × HaveLimit n actors

-- A chain that was cut to the limit before is cut once more at the end, and that is all.
entered_cut :
    (n : ℕ) (actors : List (Config × String)) (chain : List String)
    → HaveLimit n actors
    → entered actors (limit_chain n chain)
      ≡ limit_chain n (chain ++ map (λ a. remote_scope a.1) actors)
entered_cut n [] chain same = ap (limit_chain n) (sym (append-nil chain))
entered_cut n ((limits, actor) ∷ actors) chain (same, rest) =
    ap (λ k. entered actors (limit_chain k (limit_chain n chain ++ remote_scope actor ∷ []))) same
    ∙ ap (entered actors) (limit_chain-append n chain (remote_scope actor ∷ []))
    ∙ entered_cut n actors (chain ++ remote_scope actor ∷ []) rest
    ∙ ap (limit_chain n)
        (append_assoc chain (remote_scope actor ∷ []) (map (λ a. remote_scope a.1) actors))

abbrev HasActor : List (Config × String) → Type 0
HasActor actors =
    (first : Config × String) × (rest : List (Config × String)) × (actors ≡ first ∷ rest)

append-HasActor :
    (actors : List (Config × String)) (last : Config × String) → HasActor (actors ++ last ∷ [])
append-HasActor [] last = (last, [], refl)
append-HasActor (first ∷ actors) last = (first, actors ++ last ∷ [], refl)

entered_once :
    (n : ℕ) (actors : List (Config × String)) (chain : List String)
    → HasActor actors
    → HaveLimit n actors
    → entered actors chain ≡ limit_chain n (chain ++ map (λ a. remote_scope a.1) actors)
entered_once n [] chain (first, rest, e) same = cc
entered_once n ((limits, actor) ∷ actors) chain some_actor (same, rest) =
    ap (λ k. entered actors (limit_chain k (chain ++ remote_scope actor ∷ []))) same
    ∙ entered_cut n actors (chain ++ remote_scope actor ∷ []) rest
    ∙ ap (limit_chain n)
        (append_assoc chain (remote_scope actor ∷ []) (map (λ a. remote_scope a.1) actors))

module _ {D : Type 0} (F : Type 0) (m : HeaderMap D) (env : Env D) where
  open m use {Headers, insert_wire, get_snapshot, get_snapshot-insert_snapshot}

  -- A handler under the first store, in a process with the first limits, sends a message to the
  -- actor, with any policies, and the actor's handler is wrapped with the second store, in a process
  -- with the second limits.
  pub data Delivery (from : Config) (s u : ContextStore D) (actor : String) : Config → Type 0 where
    in_process :
        (policy policy' : ErrorPolicy) (headers : Headers) (cell : Cell D) (next : F)
        → wrap_handler m
            (under env from)
            actor
            (on_receive m policy'
              (under env from)
              (on_send m policy (under env from) false (some s) headers).0).0
            cell
            next
          ≡ some (record { inner = next; store = some u })
        → Delivery from s u actor from
    to_process :
        {to : Config} (policy : ErrorPolicy) (fresh : Headers) (cell : Cell D) (next : F)
        (bytes : Bytes)
        → capture_serialized (under env from) (some s) ≡ ok bytes
        → get_snapshot fresh ≡ none
        → wrap_handler m
            (under env to)
            actor
            (on_receive m policy (under env to) (transport m (record { bytes = bytes }) fresh)).0
            cell
            next
          ≡ some (record { inner = next; store = some u })
        → Delivery from s u actor to

  -- One delivery or more, each from the handler of the one before: the limits of the first process
  -- and its store, the actors in order with the limits of their processes, the limits of the last
  -- process, and the store of the last handler.
  pub data Journey (from : Config) (s : ContextStore D)
      : List (Config × String) → Config → ContextStore D → Type 0 where
    sent :
        {to : Config} {u : ContextStore D} {actor : String}
        → Delivery from s u actor to
        → Journey from s ((to, actor) ∷ []) to u
    sent_on :
        {actors : List (Config × String)} {via to : Config} {t u : ContextStore D} {actor : String}
        → Journey from s actors via t
        → Delivery via t u actor to
        → Journey from s (actors ++ (to, actor) ∷ []) to u

  -- The second store is the handler's, made from a snapshot of the first.
  abbrev Handles : Config → ContextStore D → String → Config → ContextStore D → Type 0
  Handles from s actor to u =
      (snap : ContextSnapshot D) × (handler_store (under env to) actor snap ≡ u)
      × Distinct snap.values
      × (snap.scope_chain ≡ scope_chain (under env from) (some s))
      × ((k : String)
          → transferable (registry_of env) k (get k snap.values)
            ≡ transferable (registry_of env) k (get_value s k))

  same_store :
      {t u : ContextStore D} {next : F} {o : Option (WithContext D F)}
      → o ≡ some (record { inner = next; store = some t })
      → o ≡ some (record { inner = next; store = some u })
      → t ≡ u
  same_store p q = cc

  Delivery-Handles :
      {from : Config} {s u : ContextStore D} {actor : String} {to : Config}
      → RegistryIsSound env.serde (registry_of env)
      → ReadsBack env.bincode
      → IsWellFormed s
      → IsTyped (registry_of env) s
      → Delivery from s u actor to
      → Handles from s actor to u
  unfolding on_send transport
  Delivery-Handles {from} {s} {u} {actor} sound reads w typed
        (in_process policy policy' headers cell next wrapped) =
      let e = under env from in
      let snap = capture e (some s) in
      let found = get_snapshot-insert_snapshot (record { snapshot = snap }) headers in
      let received = on_receive-snapshot m policy' e _ found in
      (
        snap,
        same_store
            (wrap_handler-snapshot m e actor _ snap cell next
              (ap (λ r. get_snapshot r.0) received ∙ found))
            wrapped,
        capture-Distinct e s,
        scope_chain-capture e s,
        λ k. transferable-capture e s k w,
      )
  Delivery-Handles {from} {s} {u} {actor} sound reads w typed
        (to_process {to} policy fresh cell next bytes serialized none_yet wrapped) =
      let (snap, restored, chain, d, at) =
        deserialize-capture_serialized (under env from) s sound reads w typed serialized in
      let received = on_receive-wire m policy (under env to) bytes fresh none_yet restored in
      (
        snap,
        same_store
            (wrap_handler-snapshot m (under env to) actor _ snap cell next (
              ap (λ r. get_snapshot r.0) received
              ∙ get_snapshot-insert_snapshot (record { snapshot = snap })
                  (insert_wire (record { bytes = bytes }) fresh)))
            wrapped,
        d,
        chain,
        at,
      )

  abbrev Reached :
      Config → ContextStore D → List (Config × String) → Config → ContextStore D → Type 0
  Reached from s actors to u =
      IsWellFormed u
      × IsTyped (registry_of env) u
      × ((k : String) → get_value u k ≡ transferable (registry_of env) k (get_value s k))
      × (scope_chain (under env to) (some u)
          ≡ entered actors (scope_chain (under env from) (some s)))

  Delivery-Reached :
      {from : Config} {s u : ContextStore D} {actor : String} {to : Config}
      → RegistryIsSound env.serde (registry_of env)
      → ReadsBack env.bincode
      → IsWellFormed s
      → IsTyped (registry_of env) s
      → Delivery from s u actor to
      → Reached from s ((to, actor) ∷ []) to u
  Delivery-Reached {from} {s} {u} {actor} {to} sound reads w typed delivery =
      let (snap, same, d, chain, at) = Delivery-Handles sound reads w typed delivery in
      let e = under env to in
      let shown = λ (k : String). get_value-handler_store e actor snap k d ∙ at k in
      subst (Reached from s ((to, actor) ∷ []) to) same (
        handler_store-IsWellFormed e actor snap,
        λ k v r found reg.
            transferable-IsTyped (registry_of env) k (get_value s k) v r (sym (shown k) ∙ found)
              reg,
        shown,
        scope_chain-handler_store e actor snap d ∙ ap (entered ((to, actor) ∷ [])) chain,
      )

  -- From a well-formed, well-typed store, through any number of actors of processes with one sound
  -- registry and the same codecs, where bincode reads back what it wrote, whatever their limits,
  -- each handler sending on, under any policies and in its process or to another: the last handler
  -- is wrapped with a well-formed, well-typed store. It shows at each key what the first store
  -- showed, if that may cross, and its scope chain is that of the first store, to which each actor
  -- in order has added its remote scope at the end, cut to the limit of its process.
  pub Journey-Reached :
      {from : Config} {s : ContextStore D} {actors : List (Config × String)} {to : Config}
      {u : ContextStore D}
      → RegistryIsSound env.serde (registry_of env)
      → ReadsBack env.bincode
      → IsWellFormed s
      → IsTyped (registry_of env) s
      → Journey from s actors to u
      → Reached from s actors to u
  Journey-Reached sound reads w typed (sent delivery) =
      Delivery-Reached sound reads w typed delivery
  Journey-Reached {from} {s} sound reads w typed
        (sent_on {actors = actors} {to = to} {actor = actor} before last) =
      let (w', typed', at, chain) = Journey-Reached sound reads w typed before in
      let (w'', typed'', at', chain') = Delivery-Reached sound reads w' typed' last in
      (
        w'',
        typed'',
        λ k.
            at' k
            ∙ ap (transferable (registry_of env) k) (at k)
            ∙ transferable-transferable (registry_of env) k (get_value s k),
        chain'
            ∙ ap (entered ((to, actor) ∷ [])) chain
            ∙ sym (entered-append actors (to, actor) (scope_chain (under env from) (some s))),
      )

  Journey-HasActor :
      {from : Config} {s : ContextStore D} {actors : List (Config × String)} {to : Config}
      {u : ContextStore D}
      → Journey from s actors to u
      → HasActor actors
  Journey-HasActor (sent {to} {actor = actor} delivery) = append-HasActor [] (to, actor)
  Journey-HasActor (sent_on {actors = actors} {to = to} {actor = actor} before last) =
      append-HasActor actors (to, actor)

  -- From a well-formed, well-typed store, through any number of actors of processes with one sound
  -- registry, the same codecs and the same limit of the scope chain, where bincode reads back what
  -- it wrote, whatever the limit of the process that sends first: the scope chain of the last
  -- handler's store is that of the first store with the remote scopes of all the actors, in order,
  -- at its end, cut to the limit once.
  pub Journey-chain :
      {from : Config} {s : ContextStore D} {actors : List (Config × String)} {to : Config}
      {u : ContextStore D} (n : ℕ)
      → RegistryIsSound env.serde (registry_of env)
      → ReadsBack env.bincode
      → IsWellFormed s
      → IsTyped (registry_of env) s
      → HaveLimit n actors
      → Journey from s actors to u
      → scope_chain (under env to) (some u)
        ≡ limit_chain n
            (scope_chain (under env from) (some s) ++ map (λ a. remote_scope a.1) actors)
  Journey-chain {from} {s} n sound reads w typed same journey =
      let (_, _, _, chain) = Journey-Reached sound reads w typed journey in
      chain
      ∙ entered_once n _ (scope_chain (under env from) (some s)) (Journey-HasActor journey) same
