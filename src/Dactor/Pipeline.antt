-- ===== src/Dactor/Pipeline.antt =====
-- The store that `wrap_handler` makes from the snapshot in the headers.
use dcontext.Base.{
  ◌≡◌, refl, ap, ◌∙◌, String, some, [], ◌∷◌, ◌++◌, arith, if◌then◌else◌, ltb, string_eq,
}
use dcontext.Base.HashMap.{Distinct, get}
use dcontext.Store.{ContextStore, max_scope_depth}
use dcontext.Store.Shape.{IsWellFormed}
use dcontext.Store.Lookup.{get_value}
use dcontext.Store.Push
use dcontext.Store.Chain
use dcontext.Store.Chain.{limit_chain, full_chain}
use dcontext.Store.Keeps.{push_scope-IsWellFormed}
use dcontext.Store.Visible.{get_value-push_scope}
use dcontext.Store.Names.{full_chain-from_values_with_chain, scope_chain-push_scope}
use dcontext.Snapshot.{ContextSnapshot, store_from_snapshot_with_registry}
use dcontext.Context.{Env, Cell, registry_of, capture, scope_chain, store_from_snapshot, push_scope}
use dcontext.Context.Transfer.{
  store_from_snapshot-IsWellFormed, transferable, get-capture, get_value-store_from_snapshot,
  get_value-capture, capture-Distinct, scope_chain-capture, scope_chain-attached,
}
use dcontext.Context.Transfer.Wired.{transferable-transferable}
use dcontext.Future.{attach}
use dcontext.Dactor.Inbound.{scoped_block, remote_scope, wrap_next}

module _ {D : Type 0} where
  pub transferable-capture :
      (env : Env D) (s : ContextStore D) (k : String)
      → IsWellFormed s
      → transferable (registry_of env) k (get k (capture env (some s)).values)
        ≡ transferable (registry_of env) k (get_value s k)
  unfolding transferable
  transferable-capture env s k w = ground (arith, get-capture env s k w)

  -- The store of the handler, made from the snapshot in the headers.
  pub handler_store : Env D → String → ContextSnapshot D → ContextStore D
  handler_store env actor snap = store_from_snapshot env (
      capture env (
        some
          (Push.push_scope (registry_of env) (some (remote_scope actor))
            (store_from_snapshot env snap)).0))

  pub wrap_next-handler_store :
      {F : Type 0} (env : Env D) (actor : String) (snap : ContextSnapshot D) (cell : Cell D)
      (next : F)
      → wrap_next env actor snap cell next
        ≡ some (record { inner = next; store = some (handler_store env actor snap) })
  unfolding wrap_next attach scoped_block push_scope handler_store
  wrap_next-handler_store env actor snap cell next = refl

  depth-store_from_snapshot :
      (env : Env D) (snap : ContextSnapshot D) → (store_from_snapshot env snap).depth ≡ 1
  unfolding store_from_snapshot store_from_snapshot_with_registry
  depth-store_from_snapshot env snap = refl

  pushed-IsWellFormed :
      (env : Env D) (actor : String) (snap : ContextSnapshot D)
      → Distinct snap.values
      → IsWellFormed
          (Push.push_scope
            (registry_of env)
            (some (remote_scope actor))
            (store_from_snapshot env snap)).0
  pushed-IsWellFormed env actor snap d =
      push_scope-IsWellFormed (registry_of env) (some (remote_scope actor))
        (store_from_snapshot env snap) (store_from_snapshot-IsWellFormed env snap d)
        (omega (arith, depth-store_from_snapshot env snap))

  scope_chain-store :
      (env : Env D) (s : ContextStore D) → scope_chain env (some s) ≡ Chain.scope_chain env.config s
  unfolding scope_chain
  scope_chain-store env s = refl

  full_chain-store_from_snapshot :
      (env : Env D) (snap : ContextSnapshot D)
      → full_chain (store_from_snapshot env snap) ≡ snap.scope_chain
  unfolding store_from_snapshot store_from_snapshot_with_registry
  full_chain-store_from_snapshot env snap = full_chain-from_values_with_chain _ snap.scope_chain

  pub get_value-handler_store :
      (env : Env D) (actor : String) (snap : ContextSnapshot D) (k : String)
      → Distinct snap.values
      → get_value (handler_store env actor snap) k
        ≡ transferable (registry_of env) k (get k snap.values)
  unfolding handler_store
  get_value-handler_store env actor snap k d =
      let a = store_from_snapshot env snap in
      let w = store_from_snapshot-IsWellFormed env snap d in
      let p = (Push.push_scope (registry_of env) (some (remote_scope actor)) a).0 in
      let wp = pushed-IsWellFormed env actor snap d in
      get_value-capture env p k wp
      ∙ ap (transferable (registry_of env) k) (
          get_value-push_scope (registry_of env) (some (remote_scope actor)) a k w
          ∙ get_value-store_from_snapshot env snap k d)
      ∙ transferable-transferable (registry_of env) k (get k snap.values)

  pub handler_store-IsWellFormed :
      (env : Env D) (actor : String) (snap : ContextSnapshot D)
      → IsWellFormed (handler_store env actor snap)
  unfolding handler_store
  handler_store-IsWellFormed env actor snap =
      store_from_snapshot-IsWellFormed env _ (capture-Distinct env _)

  pub scope_chain-handler_store :
      (env : Env D) (actor : String) (snap : ContextSnapshot D)
      → Distinct snap.values
      → scope_chain env (some (handler_store env actor snap))
        ≡ limit_chain env.config.max_scope_chain_len (snap.scope_chain ++ remote_scope actor ∷ [])
  unfolding handler_store
  scope_chain-handler_store env actor snap d =
      let a = store_from_snapshot env snap in
      let name = remote_scope actor in
      let p = (Push.push_scope (registry_of env) (some name) a).0 in
      scope_chain-attached env p (capture env (some p)) (scope_chain-capture env p)
      ∙ scope_chain-store env p
      ∙ scope_chain-push_scope env.config (registry_of env) name a
          (store_from_snapshot-IsWellFormed env snap d)
      ∙ ap
          (λ n.
            limit_chain env.config.max_scope_chain_len
              (full_chain a ++ (if ltb max_scope_depth n then [] else name ∷ [])))
          (depth-store_from_snapshot env snap)
      ∙ ap (λ c. limit_chain env.config.max_scope_chain_len (c ++ name ∷ []))
          (full_chain-store_from_snapshot env snap)
