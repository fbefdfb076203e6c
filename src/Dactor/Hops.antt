-- ===== src/Dactor/Hops.antt =====
-- A message from its sender's store to the store under which its handler runs, on one side and
-- the other, and what the error policies do.
use dcontext.Base.{
  true, false, ◌≡◌, refl, ap, ◌∙◌, String, none, some, [], ◌∷◌, ◌++◌, ok, string_eq,
}
use dcontext.Value.{Bytes}
use dcontext.Store.{ContextStore}
use dcontext.Store.Shape.{IsWellFormed}
use dcontext.Store.Lookup.{get_value}
use dcontext.Store.Chain.{limit_chain}
use dcontext.Snapshot.{ContextSnapshot}
use dcontext.Wire.Decode.{deserialize_to_snapshot}
use dcontext.Wire.Sound.{RegistryIsSound}
use dcontext.Wire.RoundTrip.{ReadsBack}
use dcontext.Context.{Env, Cell, registry_of, capture, capture_serialized, deserialize, scope_chain}
use dcontext.Context.Transfer.{transferable, IsTyped, capture-Distinct, scope_chain-capture}
use dcontext.Context.Transfer.Wired.{deserialize-capture_serialized}
use dcontext.Dactor.{ErrorPolicy, proceed}
use dcontext.Dactor.Headers.{
  HeaderMap, ContextHeader, ContextSnapshotHeader, from_bytes, wire_to_bytes,
}
use dcontext.Dactor.Outbound.{on_send, send_remote}
use dcontext.Dactor.Inbound.{bytes_to_snapshot, remote_scope, on_receive, wrap_handler}
use dcontext.Dactor.Pipeline.{
  handler_store, transferable-capture, wrap_next-handler_store, get_value-handler_store,
  scope_chain-handler_store,
}

-- The header of a message on the receiver's side: the wire header's bytes, read back by the
-- deserializer that `register_context_headers` gives to dactor.
unfoldable pub transport : {D : Type 0} (m : HeaderMap D) → ContextHeader → m.Headers → m.Headers
transport m h fresh = elim (wire_to_bytes h) [
  | some bytes ↦ m.insert_wire (from_bytes bytes) fresh
  | none ↦ fresh
]

module _ {D : Type 0} (m : HeaderMap D) where
  open m use {Headers, insert_wire, get_wire, get_snapshot, insert_snapshot}

  pub on_receive-snapshot :
      (policy : ErrorPolicy) (env : Env D) (headers : Headers) {h : ContextSnapshotHeader D}
      → get_snapshot headers ≡ some h
      → on_receive m policy env headers ≡ (headers, proceed)
  unfolding on_receive
  on_receive-snapshot policy env headers h = rw (h, on_receive)

  pub on_receive-wire :
      (policy : ErrorPolicy) (env : Env D) (bytes : Bytes) (fresh : Headers)
      {snap : ContextSnapshot D}
      → get_snapshot fresh ≡ none
      → deserialize_to_snapshot env.bincode (registry_of env) bytes ≡ ok snap
      → let arrived = insert_wire (record { bytes = bytes }) fresh in
        on_receive m policy env arrived
        ≡ (insert_snapshot (record { snapshot = snap }) arrived, proceed)
  unfolding on_receive bytes_to_snapshot deserialize
  on_receive-wire policy env bytes fresh none_yet restored =
      rw (on_receive, m.get_snapshot-insert_wire (record { bytes = bytes }) fresh)
        (rw none_yet
          (rw (m.get_wire-insert_wire (record { bytes = bytes }) fresh) (rw restored refl)))

  on_send-wire :
      (policy : ErrorPolicy) (env : Env D) (cell : Cell D) (headers : Headers) {bytes : Bytes}
      → capture_serialized env cell ≡ ok bytes
      → on_send m policy env true cell headers
        ≡ (insert_wire (record { bytes = bytes }) headers, proceed)
  unfolding on_send send_remote capture_serialized
  on_send-wire policy env cell headers h = rw h

module _ {D F : Type 0} (m : HeaderMap D) where
  open m use {Headers, insert_wire, get_wire, get_snapshot, insert_snapshot}

  pub wrap_handler-snapshot :
      (env : Env D) (actor : String) (headers : Headers) (snap : ContextSnapshot D) (cell : Cell D)
      (next : F)
      → get_snapshot headers ≡ some (record { snapshot = snap })
      → wrap_handler m env actor headers cell next
        ≡ some (record { inner = next; store = some (handler_store env actor snap) })
  unfolding wrap_handler
  wrap_handler-snapshot env actor headers snap cell next h =
      rw h (wrap_next-handler_store env actor snap cell next)

  -- A message from a well-formed store to an actor of the same process. The send succeeds,
  -- receiving changes nothing, and the handler is wrapped with a store that shows at each key
  -- what the sender showed, if that may cross, and the sender's scope chain with the actor's
  -- remote scope at its end, cut to the limit.
  pub local_hop :
      (policy policy' : ErrorPolicy) (env : Env D) (actor : String) (s : ContextStore D)
      (headers : Headers) (cell : Cell D) (next : F)
      → IsWellFormed s
      → let sent = on_send m policy env false (some s) headers in
        (s' : ContextStore D) × (sent.1 ≡ proceed)
        × (on_receive m policy' env sent.0 ≡ (sent.0, proceed))
        × (wrap_handler m env actor sent.0 cell next
            ≡ some (record { inner = next; store = some s' }))
        × ((k : String) → get_value s' k ≡ transferable (registry_of env) k (get_value s k))
        × (scope_chain env (some s')
            ≡ limit_chain env.config.max_scope_chain_len
                (scope_chain env (some s) ++ remote_scope actor ∷ []))
  unfolding on_send
  local_hop policy policy' env actor s headers cell next w =
      let snap = capture env (some s) in
      let d = capture-Distinct env s in
      let found = m.get_snapshot-insert_snapshot (record { snapshot = snap }) headers in
      (
        handler_store env actor snap,
        refl,
        on_receive-snapshot m policy' env _ found,
        wrap_handler-snapshot env actor _ snap cell next found,
        λ k. get_value-handler_store env actor snap k d ∙ transferable-capture env s k w,
        scope_chain-handler_store env actor snap d
            ∙ ap (λ c. limit_chain env.config.max_scope_chain_len (c ++ remote_scope actor ∷ []))
                (scope_chain-capture env s),
      )

  -- A message from a well-formed, well-typed store to another process with the same sound
  -- registry, where bincode reads back what it wrote and the capture serialises. The send
  -- succeeds with the wire header; when the header arrives among others that hold no snapshot,
  -- receiving succeeds, and the handler is wrapped with a store that shows at each key what the
  -- sender showed, if that may cross, and the sender's scope chain with the actor's remote scope
  -- at its end, cut to the limit.
  pub remote_hop :
      (policy policy' : ErrorPolicy) (env : Env D) (actor : String) (s : ContextStore D)
      (headers fresh : Headers) (cell : Cell D) (next : F) {bytes : Bytes}
      → RegistryIsSound env.serde (registry_of env)
      → ReadsBack env.bincode
      → IsWellFormed s
      → IsTyped (registry_of env) s
      → capture_serialized env (some s) ≡ ok bytes
      → get_snapshot fresh ≡ none
      → let sent = on_send m policy env true (some s) headers in
        let arrived = transport m (record { bytes = bytes }) fresh in
        let received = on_receive m policy' env arrived in
        (s' : ContextStore D) × (sent.1 ≡ proceed)
        × (get_wire sent.0 ≡ some (record { bytes = bytes }))
        × (received.1 ≡ proceed)
        × (wrap_handler m env actor received.0 cell next
            ≡ some (record { inner = next; store = some s' }))
        × ((k : String) → get_value s' k ≡ transferable (registry_of env) k (get_value s k))
        × (scope_chain env (some s')
            ≡ limit_chain env.config.max_scope_chain_len
                (scope_chain env (some s) ++ remote_scope actor ∷ []))
  unfolding transport
  remote_hop policy policy' env actor s headers fresh cell next {bytes} sound reads w typed h
        none_yet =
      let (snap, restored, chain, d, at) =
        deserialize-capture_serialized env s sound reads w typed h in
      let sent = on_send-wire m policy env (some s) headers h in
      let received = on_receive-wire m policy' env bytes fresh none_yet restored in
      let arrived = insert_wire (record { bytes = bytes }) fresh in
      (
        handler_store env actor snap,
        ap (λ r. r.1) sent,
        ap (λ r. get_wire r.0) sent ∙ m.get_wire-insert_wire (record { bytes = bytes }) headers,
        ap (λ r. r.1) received,
        wrap_handler-snapshot env actor _ snap cell next (
            ap (λ r. get_snapshot r.0) received
            ∙ m.get_snapshot-insert_snapshot (record { snapshot = snap }) arrived),
        λ k. get_value-handler_store env actor snap k d ∙ at k,
        scope_chain-handler_store env actor snap d
            ∙ ap (λ c. limit_chain env.config.max_scope_chain_len (c ++ remote_scope actor ∷ []))
                chain,
      )
