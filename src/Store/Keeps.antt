-- ===== src/Store/Keeps.antt =====
-- Invariants of the database of src/harness/store.py: what has to be shown of a property so that every
-- call keeps it.
pub mod Pieces
pub mod Calls
use harness_golden_path.Prelude.{
  ℕ, ℤ, ◌≡◌, sym, ◌∙◌, ap, refl, String, Option, none, some, List, [], ◌∷◌, ◌++◌, Bool, true, false,
  ◌&&◌, any, update, Bool-cases, inl, inr,
}
use mathlib.Core.List.{append-nil, append_assoc}
use harness_golden_path.Contracts.{TaskStatus, FailureClass, may_move, ◌is◌}
use harness_golden_path.Contracts.Models.{FailureReport, ResultReceipt, ApprovalCard, TaskCard}
use harness_golden_path.Contracts.Events.{HarnessEventType, Payload}
use harness_golden_path.Store.Tables.{Task, Event, Db, State, Circuit, RecoveryCard, ApprovalStatus}
use harness_golden_path.Store.Txn.{with_connect, modify}
use harness_golden_path.Store.Actions.{
  Env, update_tasks, by_id, with_status, insert_event, event, insert_card, create_recovery_card,
  insert_dead_letter, record_dead_letter, record_circuit_failure, set_status,
}
use harness_golden_path.Store.Lifecycle.{
  insert_row, new_task, create_task, create_task_txn, insert_task,
}
use harness_golden_path.Store.Leases.{
  can_claim, take_claim, holds_lease, renew, lease_expired_at, to_recovery, claim, claim_txn,
  heartbeat, heartbeat_txn, expire_leases, expire_leases_txn, recover_row,
}
use harness_golden_path.Store.Failures.{
  schedule, is_due, release as release_row, Action, trip, recover, react, schedule_retry, bury,
  hand_over, give_up, report_failure, report_failure_txn, release_due_retries_txn, tell_release,
  release_due_retries,
}
use harness_golden_path.Store.Receipts.{
  insert_receipt, start_work, conclude, close_route, accept, reject, submit_receipt,
  submit_receipt_txn,
}
use harness_golden_path.Store.Approvals.{
  insert_approval, request_approval, request_approval_txn, decide, parse_decision, decide_or_refuse,
  decide_approval,
}
use harness_golden_path.Store.Preserve.{
  Preserves, Preserves-with_connect, Preserves-pure, Preserves-raise, Preserves-gets,
  Preserves-or_raise, Preserves-branch, Preserves-bind, Preserves-on_row, Preserves-commit,
  Preserves-raise_if, Preserves-for_each,
}
use harness_golden_path.Store.Requests.{
  Request, create, receipt, failure, ask, decision, expire, release, serve, run, run_induction,
}

-- Any card may come.
abbrev pub Anyone : TaskCard → Type 0
Anyone card = Unit

-- The changes that the calls make to the table of tasks and to the log, where `create_task` gets only
-- cards that are admitted. The other tables do not matter to the property.
pub record Laws (Admits : TaskCard → Type 0) (P : Db → Type 0) : Type 0 where
  pub elsewhere : (db db' : Db) → db'.tasks ≡ db.tasks → db'.events ≡ db.events → P db → P db'
  pub logged : (db : Db) (new : Event) → P db → P (record db { events = db.events ++ new ∷ [] })
  pub moved :
      (db : Db) (id : ℕ) (expected target : TaskStatus)
      → may_move expected target ≡ true
      → P db
      → P (record db {
        tasks = update (λ t. by_id id t && (t.status is expected)) (with_status target) db.tasks;
      })
  pub scheduled :
      (db : Db) (id at : ℕ) (c : FailureClass) (key : Option String)
      → P db
      → P (record db { tasks = update (by_id id) (schedule at c key) db.tasks })
  pub taken :
      (db : Db) (id now : ℕ) (circuits : List Circuit) (role worker : String) (minutes : ℤ)
      → P db
      → P (record db {
        tasks =
            update
              (λ t. by_id id t && can_claim now circuits t)
              (take_claim now role worker minutes)
              db.tasks;
      })
  pub renewed :
      (db : Db) (id now : ℕ) (worker : String) (minutes : ℤ)
      → P db
      → P (record db {
        tasks = update (λ t. by_id id t && holds_lease now worker t) (renew now minutes) db.tasks;
      })
  pub expired :
      (db : Db) (now : ℕ)
      → P db
      → P (record db { tasks = update (lease_expired_at now) to_recovery db.tasks })
  pub released :
      (db : Db) (now : ℕ) (circuits : List Circuit)
      → P db
      → P (record db { tasks = update (is_due now circuits) release_row db.tasks })
  pub created :
      (db : Db) (env : Env) (card : TaskCard) (ref : String)
      → Admits card
      → any (by_id card.task_id) db.tasks ≡ false
      → P db
      → P (record db { tasks = db.tasks ++ new_task env card ref ∷ [] })
