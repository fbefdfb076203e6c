-- ===== src/Dactor/Extract.antt =====
-- `extract_context` on a message's headers against what the interceptor makes of them.
use dcontext.Base.{
  ◌≡◌, refl, ap, ◌∙◌, sym, ◌⊎◌, String, some, arith, and_then, Option-cases, inl, inr,
}
use dcontext.Snapshot.{ContextSnapshot}
use dcontext.Context.{Env, Cell}
use dcontext.Dactor.{ErrorPolicy, log_and_continue, reject}
use dcontext.Dactor.Headers.{HeaderMap}
use dcontext.Dactor.Inbound.{
  bytes_to_snapshot, on_corrupt, on_receive, wrap_handler, extract_context, with_propagated_context,
}
use dcontext.Dactor.Pipeline.{handler_store, wrap_next-handler_store}

module _ {D : Type 0} (m : HeaderMap D) where
  open m use {Headers, get_wire, get_snapshot, insert_snapshot}

  on_corrupt-headers :
      (policy : ErrorPolicy) (headers : Headers) → (on_corrupt m policy headers).0 ≡ headers
  unfolding on_corrupt
  on_corrupt-headers log_and_continue headers = refl
  on_corrupt-headers reject headers = refl

  received-snapshot :
      (policy : ErrorPolicy) (env : Env D) (headers : Headers)
      → and_then (get_snapshot (on_receive m policy env headers).0) (λ h. some h.snapshot)
        ≡ extract_context m env headers
  unfolding on_receive extract_context
  received-snapshot policy env headers = elim (Option-cases (get_snapshot headers)) [
    | inr (found, e) ↦ ground arith
    | inl no_snapshot ↦ elim (Option-cases (get_wire headers)) [
      | inl no_wire ↦ ground arith
      | inr (w, e) ↦ elim (Option-cases (bytes_to_snapshot env w.bytes)) [
        | inl corrupt ↦ ground (arith, on_corrupt-headers policy headers)
        | inr (snap, restored) ↦
            ground (arith, m.get_snapshot-insert_snapshot (record { snapshot = snap }) headers)
      ]
    ]
  ]

  on_receive_cases :
      (policy : ErrorPolicy) (env : Env D) (headers : Headers)
      → ((on_receive m policy env headers).0 ≡ headers)
        ⊎ ((snap : ContextSnapshot D) × ((on_receive m policy env headers).0
              ≡ insert_snapshot (record { snapshot = snap }) headers)
            × (extract_context m env headers ≡ some snap))
  unfolding on_receive extract_context
  on_receive_cases policy env headers = elim (Option-cases (get_snapshot headers)) [
    | inr (found, e) ↦ inl (ground arith)
    | inl no_snapshot ↦ elim (Option-cases (get_wire headers)) [
      | inl no_wire ↦ inl (ground arith)
      | inr (w, e) ↦ elim (Option-cases (bytes_to_snapshot env w.bytes)) [
        | inl corrupt ↦ inl (ground (arith, on_corrupt-headers policy headers))
        | inr (snap, restored) ↦ inr (snap, ground arith, ground arith)
      ]
    ]
  ]

  extract_context-insert_snapshot :
      (env : Env D) (snap : ContextSnapshot D) (headers : Headers)
      → extract_context m env (insert_snapshot (record { snapshot = snap }) headers) ≡ some snap
  unfolding extract_context
  extract_context-insert_snapshot env snap headers =
      rw (m.get_snapshot-insert_snapshot (record { snapshot = snap }) headers, extract_context)

  extracted_again :
      (policy : ErrorPolicy) (env : Env D) (headers : Headers)
      → extract_context m env (on_receive m policy env headers).0 ≡ extract_context m env headers
  extracted_again policy env headers = elim (on_receive_cases policy env headers) [
    | inl same ↦ ap (extract_context m env) same
    | inr (snap, received, extracted) ↦
        ap (extract_context m env) received
        ∙ extract_context-insert_snapshot env snap headers
        ∙ sym extracted
  ]

  with_propagated_context-same :
      {F : Type 0} (env : Env D) (headers headers' : Headers) (f : F)
      → extract_context m env headers ≡ extract_context m env headers'
      → with_propagated_context m env headers f ≡ with_propagated_context m env headers' f
  unfolding with_propagated_context
  with_propagated_context-same env headers headers' f same = rw (same, with_propagated_context)

  wrapped-snapshot :
      {F : Type 0} (env : Env D) (actor : String) (headers : Headers) (cell : Cell D) (next : F)
      → wrap_handler m env actor headers cell next
        ≡ and_then
            (and_then (get_snapshot headers) (λ h. some h.snapshot))
            (λ snap. some (record { inner = next; store = some (handler_store env actor snap) }))
  unfolding wrap_handler
  wrapped-snapshot env actor headers cell next = elim (Option-cases (get_snapshot headers)) [
    | inl none_found ↦ rw none_found refl
    | inr (h, found) ↦ rw found (wrap_next-handler_store env actor h.snapshot cell next)
  ]

  -- Whatever the policy, and for any thread on which the received message is wrapped: its handler
  -- is wrapped exactly if `extract_context` finds a snapshot in the headers that arrived. The store
  -- of the wrapped handler is then restored from what is captured in the actor's remote scope, over
  -- the store of that snapshot. Receiving changes neither what `extract_context` finds nor what
  -- `with_propagated_context` awaits.
  pub extract_context-on_receive :
      {F : Type 0} (policy : ErrorPolicy) (env : Env D) (actor : String) (headers : Headers)
      (cell : Cell D) (f : F)
      → let received = (on_receive m policy env headers).0 in
        (wrap_handler m env actor received cell f
          ≡ and_then
              (extract_context m env headers)
              (λ snap. some (record { inner = f; store = some (handler_store env actor snap) })))
        × (extract_context m env received ≡ extract_context m env headers)
        × (with_propagated_context m env received f ≡ with_propagated_context m env headers f)
  extract_context-on_receive policy env actor headers cell f = (
    wrapped-snapshot env actor _ cell f
        ∙ ap
            (λ found.
              and_then found
                (λ snap. some (record { inner = f; store = some (handler_store env actor snap) })))
            (received-snapshot policy env headers),
    extracted_again policy env headers,
    with_propagated_context-same env _ headers f (extracted_again policy env headers),
  )
