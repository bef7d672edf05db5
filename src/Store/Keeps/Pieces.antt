-- ===== src/Store/Keeps/Pieces.antt =====
-- A property with the laws of Store/Keeps under the helpers of src/harness/store.py.
use harness_golden_path.Prelude.{
  ℕ, ℤ, ◌≡◌, refl, String, Option, List, ◌&&◌, any, Bool-cases, inl, inr,
}
use harness_golden_path.Contracts.{TaskStatus, FailureClass, may_move}
use harness_golden_path.Contracts.Models.{FailureReport, ResultReceipt, ApprovalCard, TaskCard}
use harness_golden_path.Contracts.Events.{HarnessEventType, Payload}
use harness_golden_path.Store.Tables.{Task, Db, Circuit, RecoveryCard, ApprovalStatus}
use harness_golden_path.Store.Txn.{modify}
use harness_golden_path.Store.Actions.{
  Env, update_tasks, by_id, insert_event, event, insert_card, create_recovery_card,
  insert_dead_letter, record_dead_letter, record_circuit_failure, set_status,
}
use harness_golden_path.Store.Lifecycle.{insert_row, insert_task}
use harness_golden_path.Store.Leases.{
  can_claim, take_claim, holds_lease, renew, lease_expired_at, to_recovery, recover_row,
}
use harness_golden_path.Store.Failures.{
  schedule, is_due, release as release_row, Action, trip, recover, react, schedule_retry, bury,
  hand_over, give_up, tell_release,
}
use harness_golden_path.Store.Receipts.{
  insert_receipt, start_work, conclude, close_route, accept, reject,
}
use harness_golden_path.Store.Approvals.{insert_approval, decide}
use harness_golden_path.Store.Preserve.{
  Preserves, Preserves-pure, Preserves-raise, Preserves-gets, Preserves-or_raise, Preserves-branch,
  Preserves-bind, Preserves-on_row, Preserves-raise_if, Preserves-for_each,
}
use harness_golden_path.Store.Keeps.{Laws}
use harness_golden_path.Store.Preserve.{Preserves-commit}

-- `C` is the property of what is committed, `P` of what the transaction sees.
module _ {Admits : TaskCard → Type 0} (C P : Db → Type 0) (laws : Laws Admits P) where
  Preserves-elsewhere :
      (f : Db → Db)
      → ((db : Db) → (f db).tasks ≡ db.tasks)
      → ((db : Db) → (f db).events ≡ db.events)
      → Preserves C P (modify f)
  Preserves-elsewhere f t e = record {
    at = λ c p q. (p, laws.elsewhere c.working (f c.working) (t c.working) (e c.working) q);
  }

  pub insert_event-Keeps :
      (env : Env) (id corr : ℕ) (kind : HarnessEventType) (payload : Payload)
      → Preserves C P (insert_event env id corr kind payload)
  unfolding insert_event
  insert_event-Keeps env id corr kind payload = record {
    at = λ c p q. (p, laws.logged c.working _ q);
  }

  ruleset local_rules = (
    Preserves-pure, Preserves-raise, Preserves-gets, Preserves-or_raise, Preserves-branch,
    Preserves-bind, Preserves-on_row, Preserves-raise_if, Preserves-for_each, Preserves-elsewhere,
  )

  pub event-Keeps :
      (env : Env) (id corr : ℕ) (kind : HarnessEventType) (payload : Payload)
      → Preserves C P (event env id corr kind payload)
  unfolding event
  event-Keeps env id corr kind payload = search (local_rules, insert_event-Keeps) depth 14

  pub set_status-Keeps : (id : ℕ) (e t : TaskStatus) → Preserves C P (set_status id e t)
  unfolding set_status
  set_status-Keeps id e t = elim (Bool-cases (may_move e t)) [
    | inl legal ↦ rw legal (record { at = λ c p q. (p, laws.moved c.working id e t legal q) })
    | inr illegal ↦ rw illegal (record { at = λ c p q. (p, q) })
  ]

  -- The UPDATEs of the calls.
  pub scheduled-Keeps :
      (id at : ℕ) (c : FailureClass) (key : Option String)
      → Preserves C P (update_tasks (by_id id) (schedule at c key))
  scheduled-Keeps id at c key = record { at = λ k p q. (p, laws.scheduled k.working id at c key q) }

  pub taken-Keeps :
      (id now : ℕ) (circuits : List Circuit) (role worker : String) (minutes : ℤ)
      → Preserves C P (
          update_tasks
            (λ t. by_id id t && can_claim now circuits t)
            (take_claim now role worker minutes))
  taken-Keeps id now circuits role worker minutes = record {
    at = λ k p q. (p, laws.taken k.working id now circuits role worker minutes q);
  }

  pub renewed-Keeps :
      (id now : ℕ) (worker : String) (minutes : ℤ)
      → Preserves C P
          (update_tasks (λ t. by_id id t && holds_lease now worker t) (renew now minutes))
  renewed-Keeps id now worker minutes = record {
    at = λ k p q. (p, laws.renewed k.working id now worker minutes q);
  }

  pub expired-Keeps : (now : ℕ) → Preserves C P (update_tasks (lease_expired_at now) to_recovery)
  expired-Keeps now = record { at = λ k p q. (p, laws.expired k.working now q) }

  pub released-Keeps :
      (now : ℕ) (circuits : List Circuit)
      → Preserves C P (update_tasks (is_due now circuits) release_row)
  released-Keeps now circuits = record { at = λ k p q. (p, laws.released k.working now circuits q) }

  pub insert_card-Keeps : (card : RecoveryCard) → Preserves C P (insert_card card)
  unfolding insert_card
  insert_card-Keeps card = search (local_rules) depth 14

  pub create_recovery_card-Keeps :
      (env : Env) (task : Task) (trigger reason : String)
      → Preserves C P (create_recovery_card env task trigger reason)
  unfolding create_recovery_card
  create_recovery_card-Keeps env task trigger reason =
      search (local_rules, event-Keeps, insert_card-Keeps) depth 14

  pub insert_dead_letter-Keeps :
      (env : Env) (task : Task) (r : FailureReport) (reason : String)
      → Preserves C P (insert_dead_letter env task r reason)
  unfolding insert_dead_letter
  insert_dead_letter-Keeps env task r reason = record {
    at = λ c p q. (p, laws.elsewhere c.working _ refl refl q);
  }

  pub record_dead_letter-Keeps :
      (env : Env) (task : Task) (r : FailureReport) (reason : String)
      → Preserves C P (record_dead_letter env task r reason)
  unfolding record_dead_letter
  record_dead_letter-Keeps env task r reason =
      search (local_rules, event-Keeps, insert_dead_letter-Keeps) depth 14

  pub record_circuit_failure-Keeps :
      (env : Env) (key : String) (cls : FailureClass)
      → Preserves C P (record_circuit_failure env key cls)
  unfolding record_circuit_failure
  record_circuit_failure-Keeps env key cls = search (local_rules) depth 14

  pub recover-Keeps :
      (env : Env) (r : FailureReport) (task : Task) → Preserves C P (recover env r task)
  unfolding recover
  recover-Keeps env r task =
      search (local_rules, set_status-Keeps, create_recovery_card-Keeps) depth 14

  pub trip-Keeps :
      (env : Env) (cls : FailureClass) (key : Option String) → Preserves C P (trip env cls key)
  unfolding trip
  trip-Keeps env cls key = search (local_rules, record_circuit_failure-Keeps) depth 14

  pub schedule_retry-Keeps :
      (env : Env) (r : FailureReport) (task : Task) (circuit : Option Circuit)
      → Preserves C P (schedule_retry env r task circuit)
  unfolding schedule_retry
  schedule_retry-Keeps env r task circuit =
      search (local_rules, set_status-Keeps, scheduled-Keeps, event-Keeps) depth 14

  pub bury-Keeps :
      (env : Env) (r : FailureReport) (task : Task) (reason : String) (circuit : Option Circuit)
      → Preserves C P (bury env r task reason circuit)
  unfolding bury
  bury-Keeps env r task reason circuit =
      search (local_rules, set_status-Keeps, record_dead_letter-Keeps) depth 14

  pub hand_over-Keeps :
      (r : FailureReport) (task : Task) (action : Action) (status : TaskStatus)
      → Preserves C P (hand_over r task action status)
  unfolding hand_over
  hand_over-Keeps r task action status = search (local_rules, set_status-Keeps) depth 14

  pub give_up-Keeps :
      (env : Env) (r : FailureReport) (task : Task) → Preserves C P (give_up env r task)
  unfolding give_up
  give_up-Keeps env r task = search (local_rules, hand_over-Keeps, bury-Keeps) depth 14

  pub react-Keeps : (env : Env) (r : FailureReport) (task : Task) → Preserves C P (react env r task)
  unfolding react
  react-Keeps env r task =
      search (local_rules, trip-Keeps, schedule_retry-Keeps, bury-Keeps, give_up-Keeps) depth 14

  pub insert_receipt-Keeps : (env : Env) (r : ResultReceipt) → Preserves C P (insert_receipt env r)
  unfolding insert_receipt
  insert_receipt-Keeps env r = record { at = λ c p q. (p, laws.elsewhere c.working _ refl refl q) }

  pub start_work-Keeps : (id : ℕ) (current : TaskStatus) → Preserves C P (start_work id current)
  unfolding start_work
  start_work-Keeps id current = search (local_rules, set_status-Keeps) depth 14

  pub close_route-Keeps :
      (env : Env) (task : Task) (target : TaskStatus) (key : Option String)
      → Preserves C P (close_route env task target key)
  unfolding close_route
  close_route-Keeps env task target key = search (local_rules, event-Keeps) depth 14

  pub conclude-Keeps :
      (env : Env) (r : ResultReceipt) (task : Task) (current : TaskStatus)
      → Preserves C P (conclude env r task current)
  unfolding conclude
  conclude-Keeps env r task current =
      search (local_rules, set_status-Keeps, insert_receipt-Keeps, event-Keeps, close_route-Keeps)
        depth 14

  pub accept-Keeps :
      (env : Env) (r : ResultReceipt) (task : Task) → Preserves C P (accept env r task)
  unfolding accept
  accept-Keeps env r task = search (local_rules, start_work-Keeps, conclude-Keeps) depth 14

  pub reject-Keeps :
      ((db : Db) → P db → C db)
      → (env : Env) (r : ResultReceipt) (task : Task) → Preserves C P (reject env r task)
  unfolding reject
  reject-Keeps sync env r task = search (local_rules, Preserves-commit, event-Keeps) depth 14

  pub recover_row-Keeps : (env : Env) (task : Task) → Preserves C P (recover_row env task)
  unfolding recover_row
  recover_row-Keeps env task =
      search (local_rules, event-Keeps, create_recovery_card-Keeps) depth 14

  pub tell_release-Keeps : (env : Env) (task : Task) → Preserves C P (tell_release env task)
  unfolding tell_release
  tell_release-Keeps env task = search (local_rules, event-Keeps) depth 14

  pub insert_approval-Keeps :
      (env : Env) (card : ApprovalCard) → Preserves C P (insert_approval env card)
  unfolding insert_approval
  insert_approval-Keeps env card = search (local_rules) depth 14

  pub decide-Keeps :
      (env : Env) (id : ℕ) (d : ApprovalStatus) (text by reason : String)
      → Preserves C P (decide env id d text by reason)
  unfolding decide
  decide-Keeps env id d text by reason =
      search (local_rules, set_status-Keeps, event-Keeps) depth 14

  pub insert_row-Keeps :
      (env : Env) (card : TaskCard) (ref : String)
      → Admits card
      → Preserves C P (insert_row env card ref)
  unfolding insert_row
  insert_row-Keeps env card ref admitted = record {
    at = λ c p q. elim (Bool-cases (any (by_id card.task_id) c.working.tasks)) [
      | inl there ↦ rw there (p, q)
      | inr new ↦ rw new (p, laws.created c.working env card ref admitted new q)
    ];
  }

  pub insert_task-Keeps :
      (env : Env) (card : TaskCard) (ref : String)
      → Admits card
      → Preserves C P (insert_task env card ref)
  insert_task-Keeps env card ref admitted =
      search (local_rules, insert_row-Keeps, event-Keeps) depth 14
