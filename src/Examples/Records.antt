-- ===== src/Examples/Records.antt =====
-- Examples for receipts, creation, circuits, and runs of calls.
use harness_golden_path.Prelude.{
  pos, ◌≡◌, ◌≢◌, ◌≤◌, ◌<◌, refl, true, false, none, some, List, [], ◌∷◌, find, Extends, opt_is_iff,
  arith,
}
use harness_golden_path.Contracts.{transient}
use harness_golden_path.Store.Tables.{Task, Circuit, init_state, opened}
use harness_golden_path.Store.Txn.{ok, begin}
use harness_golden_path.Store.Actions.{Env, by_key, find_task, record_circuit_failure}
use harness_golden_path.Store.Lifecycle.{create_task, insert_row, new_task}
use harness_golden_path.Store.Receipts.{submit_receipt}
use harness_golden_path.Store.Requests.{Request, heartbeat, receipt, expire, release, run}
use harness_golden_path.Store.Completion.{Accepted, receipt-Accepted_lands}
use harness_golden_path.Store.Creation.{create_once}
use harness_golden_path.Store.Circuits.{circuit_opens_at_threshold}
use harness_golden_path.Store.Evolution.{Evolves, run-Evolves}
use harness_golden_path.Store.Log.{run_appends}
use harness_golden_path.Examples.{
  env, later, card, running, guarded, state_with, receipt_by, circuit_with,
}

receipt-Accepted_lands_example :
    Accepted env
      (receipt_by "nas-1")
      guarded
      []
      (submit_receipt env (receipt_by "nas-1") (state_with guarded [])).0
      (submit_receipt env (receipt_by "nas-1") (state_with guarded [])).1.db
receipt-Accepted_lands_example =
    receipt-Accepted_lands env (receipt_by "nas-1") (state_with guarded []) (refl, tt) refl refl
      refl

other_worker : running.owner_instance ≢ some "nas-2"
other_worker e =
    let same : false ≡ true = (opt_is_iff running.owner_instance "nas-2").1 e in ground arith

created : (create_task env card init_state).0 ≡ ok (new_task env card "deterministic_monitor", true)
unfolding create_task insert_row
created = refl

create_once_example :
    create_task later card (create_task env card init_state).1
    ≡ (ok (new_task env card "deterministic_monitor", false), (create_task env card init_state).1)
create_once_example = create_once env later card card init_state refl refl refl created

circuit_opens_at_threshold_example :
    (new : Circuit) × (find
        (by_key "route:deterministic_monitor")
        (record_circuit_failure env "route:deterministic_monitor" transient
          (begin (state_with running (circuit_with 2 ∷ [])))).1.working.circuits
      ≡ some new)
    × (new.failure_count ≡ 3)
    × (3 ≤ 3 → (new.state ≡ opened) × (new.open_until ≡ some 301000000))
    × (3 < 3 → (new.state ≡ (circuit_with 2).state) × (new.open_until ≡ none))
circuit_opens_at_threshold_example =
    circuit_opens_at_threshold env "route:deterministic_monitor" transient
      (begin (state_with running (circuit_with 2 ∷ []))) refl

abbrev calls : List (Env × Request)
calls =
    (env, heartbeat 1 "nas-1" (pos 30))
    ∷ (env, receipt (receipt_by "nas-1"))
    ∷ (later, expire)
    ∷ (later, release)
    ∷ []

run-Evolves_example :
    (new : Task) × (find_task 1 (run calls (state_with running [])).db ≡ some new)
    × Evolves running new
run-Evolves_example = run-Evolves calls (state_with running []) 1 running refl

run_appends_example :
    Extends (state_with running []).db.events (run calls (state_with running [])).db.events
run_appends_example = run_appends calls (state_with running [])
