-- ===== src/Tests/Programs.antt =====
-- Builds in which the programs of samples/src/bin serialize and read back.
use dcontext.Base.{
  true, string_eq, if◌then◌else◌, err, ◌≡◌, refl, some, List, [], ◌∷◌, ok, err, nat_eqb,
  if◌then◌else◌,
}
use dcontext.Value.{Serde}
use dcontext.Wire.{Bincode}
use dcontext.Samples.Program.{printed}
use dcontext.Samples.CrossProcess
use dcontext.Samples.CrossProcess.{Base64, two_orders}
use dcontext.Samples.Remote.{both_entries, cross_process_lines, cross_process-printed}
use dcontext.Base.{Option}
use dcontext.Store.{new_store}
use dcontext.Context.{Cell}
use dcontext.Samples.Program.{World}
use dcontext.Benches.{BenchValue, keys, three_keys, snapshot_round, fork_round}
use dcontext.Benches.Scopes.{ready}
use dcontext.Benches.Tasks.{tasks-returned}

abbrev trace : CrossProcess.Data
trace = CrossProcess.trace_context (record { trace_id = "tid"; span_id = "span" })

abbrev auth : CrossProcess.Data
auth = CrossProcess.auth_info (record { user_id = "alice"; roles = "admin" ∷ [] })

-- A value is written as the number of its type.
abbrev sender_serde : Serde CrossProcess.Data
sender_serde = record {
  type_name = λ t. "T";
  serialize = λ t d. ok (t ∷ []);
  deserialize = λ t b. ok (if nat_eqb t 1 then trace else auth);
}

abbrev sender_bincode : Bincode
sender_bincode = record {
  serialize = λ wire. ok (0 ∷ []);
  deserialize = λ b. ok (both_entries true (1 ∷ []) (2 ∷ []));
}

abbrev plain_text : Base64
plain_text = record { encode = λ b. b; decode = λ text. ok text }

cross_process-printed_example :
    printed sender_serde sender_bincode (CrossProcess.body plain_text (two_orders true) trace auth)
    ≡ some (cross_process_lines plain_text trace auth (0 ∷ []))
cross_process-printed_example =
    cross_process-printed sender_serde sender_bincode plain_text true trace auth refl refl refl refl
      refl refl refl

no_serde : {D : Type 0} → Serde D
no_serde = record {
  type_name = λ t. "T";
  serialize = λ t d. err "unsupported";
  deserialize = λ t b. err "unsupported";
}

abbrev no_bincode : Bincode
no_bincode = record { serialize = λ wire. err "unsupported"; deserialize = λ b. err "unsupported" }

-- Three threads that keep new stores.
abbrev bench_world : World BenchValue
bench_world = ready no_serde no_bincode [] new_store

abbrev three_stores : List (Option (Cell BenchValue))
three_stores = some (some new_store) ∷ some (some new_store) ∷ some (some new_store) ∷ []

tasks-returned_example :
    (snapshot_round 5 three_keys (λ _. new_store) 3 bench_world ≡ some (three_stores, bench_world))
    × (fork_round 5 three_keys (λ _. new_store) 3 bench_world ≡ some (three_stores, bench_world))
    × (snapshot_round 10 keys (λ _. new_store) 3 bench_world ≡ some (three_stores, bench_world))
    × (fork_round 10 keys (λ _. new_store) 3 bench_world ≡ some (three_stores, bench_world))
tasks-returned_example = tasks-returned no_serde no_bincode [] new_store (λ _. new_store) 3
