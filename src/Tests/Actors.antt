-- ===== src/Tests/Actors.antt =====
-- Futures that take turns, and messages between actors, on a pair of headers.
use dcontext.Base.{
  if◌then◌else◌, nat_eqb, ◌%◌, ◌≤◌, ◌-◌, arith, and_then, ℕ, ◌+◌, ◌≡◌, refl, String, true, false,
  Option, some, none, [], ◌∷◌, ◌++◌, not, ◌||◌, is_some,
}
use dcontext.Store.{ContextStore, new_store}
use dcontext.Store.Lookup.{get_value}
use dcontext.Store.Chain.{limit_chain}
use dcontext.Context.{registry_of, scope_chain}
use dcontext.Context.Typed.{set_context_variable}
use dcontext.Context.Transfer.{transferable}
use dcontext.Future.{PollFn, with_store}
use dcontext.Future.Turns.{Executor, count, turns, alone, turns-alone}
use dcontext.Dactor.{log_and_continue, reject, proceed}
use dcontext.Dactor.Headers.{HeaderMap, ContextHeader, ContextSnapshotHeader}
use dcontext.Dactor.Outbound.{on_send}
use dcontext.Dactor.Inbound.{
  on_receive, wrap_handler, remote_scope, extract_context, with_propagated_context,
}
use dcontext.Dactor.Pipeline.{handler_store}
use dcontext.Dactor.Extract.{extract_context-on_receive}
use dcontext.Dactor.Hops.{transport, local_hop, remote_hop}
use dcontext.Dactor.Policies.{is_refused, policies}
use dcontext.Future.Fair.{Pool, IsFair, ticks, alone_within, settles}
use dcontext.Tests.Fixtures.{
  u64, env, in_api, request_store, request_store-IsWellFormed, env-IsSound, env-IsTyped,
}
use dcontext.Tests.Codec.{codec-ReadsBack}
use dcontext.Tests.Transfers.{captured}

-- A future that writes its number of polls.
abbrev counting : PollFn ℕ ℕ ℕ
counting n cell = (n + 1, set_context_variable u64 "request_id" n cell, none)

abbrev two_tasks : Executor ℕ ℕ
two_tasks = record { tasks = λ i. with_store new_store i; cell = some in_api }

turns-alone_example :
    ((turns counting (0 ∷ 1 ∷ 0 ∷ []) two_tasks).cell ≡ some in_api)
    × ((i : ℕ)
        → (turns counting (0 ∷ 1 ∷ 0 ∷ []) two_tasks).tasks i
          ≡ alone counting (count i (0 ∷ 1 ∷ 0 ∷ [])) (with_store new_store i))
turns-alone_example = turns-alone counting (0 ∷ 1 ∷ 0 ∷ []) two_tasks

abbrev pub header_pair : HeaderMap ℕ
header_pair = record {
  Headers = Option ContextHeader × Option (ContextSnapshotHeader ℕ);
  insert_wire = λ h m. (some h, m.1);
  get_wire = λ m. m.0;
  insert_snapshot = λ h m. (m.0, some h);
  get_snapshot = λ m. m.1;
  get_wire-insert_wire = λ h m. refl;
  get_snapshot-insert_snapshot = λ h m. refl;
  get_snapshot-insert_wire = λ h m. refl;
}

abbrev pub handler : ℕ
handler = 0

local_hop_example :
    (s' : ContextStore ℕ) × ((on_send header_pair reject env false
        (some request_store)
        (none, none)).1
      ≡ proceed)
    × (on_receive header_pair reject env
          (on_send header_pair reject env false (some request_store) (none, none)).0
        ≡ ((on_send header_pair reject env false (some request_store) (none, none)).0, proceed))
    × (wrap_handler header_pair env "Worker"
          (on_send header_pair reject env false (some request_store) (none, none)).0
          (some in_api)
          handler
        ≡ some (record { inner = handler; store = some s' }))
    × ((k : String) → get_value s' k ≡ transferable (registry_of env) k (get_value request_store k))
    × (scope_chain env (some s')
        ≡ limit_chain env.config.max_scope_chain_len
            (scope_chain env (some request_store) ++ remote_scope "Worker" ∷ []))
local_hop_example =
    local_hop header_pair reject reject env "Worker" request_store (none, none) (some in_api)
      handler request_store-IsWellFormed

remote_hop_example :
    (s' : ContextStore ℕ) × ((on_send header_pair reject env true
        (some request_store)
        (none, none)).1
      ≡ proceed)
    × ((on_send header_pair reject env true (some request_store) (none, none)).0.0
        ≡ some (record { bytes = 1 ∷ 1 ∷ 7 ∷ [] }))
    × ((on_receive header_pair reject env
          (transport header_pair (record { bytes = 1 ∷ 1 ∷ 7 ∷ [] }) (none, none))).1
        ≡ proceed)
    × (wrap_handler header_pair env "Worker"
          (on_receive header_pair reject env
            (transport header_pair (record { bytes = 1 ∷ 1 ∷ 7 ∷ [] }) (none, none))).0
          (some in_api)
          handler
        ≡ some (record { inner = handler; store = some s' }))
    × ((k : String) → get_value s' k ≡ transferable (registry_of env) k (get_value request_store k))
    × (scope_chain env (some s')
        ≡ limit_chain env.config.max_scope_chain_len
            (scope_chain env (some request_store) ++ remote_scope "Worker" ∷ []))
remote_hop_example =
    remote_hop header_pair reject reject env "Worker" request_store (none, none) (none, none)
      (some in_api) handler env-IsSound codec-ReadsBack request_store-IsWellFormed env-IsTyped
      captured refl

policies_example :
    ((on_send header_pair log_and_continue env true (some request_store) (none, none)).1 ≡ proceed)
    × ((on_receive header_pair log_and_continue env (none, none)).1 ≡ proceed)
    × ((is_refused (on_send header_pair reject env true (some request_store) (none, none)).1
          || is_some (on_send header_pair reject env true (some request_store) (none, none)).0.0)
        ≡ true)
    × ((is_refused (on_receive header_pair reject env (none, none)).1
          || (is_some (on_receive header_pair reject env (none, none)).0.1
              || not (is_some (on_receive header_pair reject env (none, none)).0.0)))
        ≡ true)
policies_example = policies header_pair env true (some request_store) (none, none)

abbrev wired : header_pair.Headers
wired = (some (record { bytes = 1 ∷ 1 ∷ 7 ∷ [] }), none)

extract_context-on_receive_example :
    (wrap_handler header_pair env "Worker"
        (on_receive header_pair reject env wired).0
        (some in_api)
        handler
      ≡ and_then (extract_context header_pair env wired) (λ snap.
        some (record { inner = handler; store = some (handler_store env "Worker" snap) })))
    × (extract_context header_pair env (on_receive header_pair reject env wired).0
        ≡ extract_context header_pair env wired)
    × (with_propagated_context header_pair env (on_receive header_pair reject env wired).0 handler
        ≡ with_propagated_context header_pair env wired handler)
extract_context-on_receive_example =
    extract_context-on_receive header_pair reject env "Worker" wired (some in_api) handler

-- A future that is ready at its third poll.
abbrev ready_at_two : PollFn ℕ ℕ ℕ
ready_at_two n cell =
    (n + 1, set_context_variable u64 "request_id" n cell, if nat_eqb n 2 then some n else none)

abbrev two_results : Pool ℕ ℕ ℕ
two_results = record {
  tasks = λ i. with_store new_store 0;
  results = λ i. none;
  cell = some in_api;
}

abbrev alternating : ℕ → ℕ
alternating t = t % 2

alternating-IsFair : IsFair 1 alternating
alternating-IsFair t = (1 - t % 2, omega arith)

ready_alone : alone_within ready_at_two 3 (with_store new_store 0) ≡ some 2
unfolding alone_within with_store
ready_alone = refl

settles_example :
    (k : ℕ) × ((m : ℕ)
      → k ≤ m
      → ((ticks ready_at_two alternating m two_results).results 1 ≡ some 2)
        × ((ticks ready_at_two alternating m two_results).cell ≡ some in_api))
settles_example =
    settles ready_at_two alternating 3 1 2 two_results alternating-IsFair refl ready_alone
