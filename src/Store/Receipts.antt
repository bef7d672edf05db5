-- ===== src/Store/Receipts.antt =====
-- src/harness/store.py: `submit_receipt`.
use harness_golden_path.Prelude.{
  ℕ, String, Bool, not, Option, none, [], ◌∷◌, ◌++◌, ◌+◌, opt_is, any, update, is_nonempty,
  if◌then◌else◌,
}
use harness_golden_path.Contracts.{
  TaskStatus, claimed, in_progress, review, done, blocked, failed, ◌is◌, status_value,
  provider_value,
}
use harness_golden_path.Contracts.Models.{Outcome, ResultReceipt}
use harness_golden_path.Contracts.Events.{receipt_rejected, receipt_accepted, circuit_closed, text}
use harness_golden_path.Store.Tables.{Task, RoutingReceipt, closed, Circuit, State}
use harness_golden_path.Store.Txn.{
  task_not_found, receipt_from_non_owner, receipt_not_allowed, vanished, Result, Txn, branch,
  on_row, pure, raise, raise_if, gets, modify, commit, or_raise, with_connect, ok, ◌>>=◌, ◌>>◌,
}
use harness_golden_path.Store.Actions.{Env, by_key, find_task, event, is_execution, set_status}

unfoldable pub outcome_value : Outcome → String
outcome_value Outcome.completed = "completed"
outcome_value Outcome.failed = "failed"
outcome_value Outcome.blocked = "blocked"

abbrev pub needs_approval : Task → Bool
needs_approval t = is_nonempty t.approval_required

-- the target status of a receipt
unfoldable pub receipt_target : Task → Outcome → TaskStatus
receipt_target task Outcome.completed = if needs_approval task then review else done
receipt_target task Outcome.failed = failed
receipt_target task Outcome.blocked = blocked

-- INSERT INTO routing_receipts
unfoldable pub insert_receipt : Env → ResultReceipt → Txn (Unit {0})
insert_receipt env receipt c =
    let id = c.sequences.receipt + 1 in
    let row : RoutingReceipt = record {
      receipt_id = id;
      task_id = receipt.task_id;
      worker_instance = receipt.worker_instance;
      outcome = receipt.outcome;
      receipt = receipt;
      created_at = env.now;
    } in
    (
      ok tt,
      record c {
        working = record c.working { receipts = c.working.receipts ++ row ∷ [] };
        sequences = record c.sequences { receipt = id };
      },
    )

-- the UPDATE that closes the circuit
unfoldable pub close_circuit : Env → Circuit → Circuit
close_circuit env c = record c {
  state = closed;
  failure_count = 0;
  opened_at = none;
  open_until = none;
  updated_at = env.now;
}

-- `if target == REVIEW and task.get("circuit_key")`
unfoldable pub close_route : Env → Task → TaskStatus → Option String → Txn (Unit {0})
unfolding close_circuit event ◌is◌
close_route env task target circuit_key =
    on_row circuit_key
      (λ key.
        branch (target is review)
          (do
            known ← gets (λ db. any (by_key key) db.circuits)
            modify
                (λ db. record db { circuits = update (by_key key) (close_circuit env) db.circuits })
            branch known
                (event env task.task_id task.correlation_id circuit_closed
                  (("circuit_key", text key) ∷ []))
                (pure tt))
          (pure tt))
      (pure tt)

-- `if current == CLAIMED: …`; the answer is the new `current`
unfoldable pub start_work : ℕ → TaskStatus → Txn TaskStatus
unfolding ◌is◌
start_work task_id current =
    branch (current is claimed) (do set_status task_id current in_progress; pure in_progress)
      (pure current)

-- from the target status on: the receipt is stored and told
unfoldable pub conclude : Env → ResultReceipt → Task → TaskStatus → Txn Task
unfolding receipt_target insert_receipt event outcome_value status_value provider_value close_route
conclude env receipt task current = do
  let target = receipt_target task receipt.outcome
  set_status receipt.task_id current target
  insert_receipt env receipt
  event env task.task_id task.correlation_id receipt_accepted (
      ("outcome", text (outcome_value receipt.outcome))
      ∷ ("status", text (status_value target))
      ∷ ("model_ref", text receipt.cost_receipt.model_ref)
      ∷ ("provider_class", text (provider_value receipt.cost_receipt.provider_class))
      ∷ [])
  close_route env task target task.circuit_key
  after ← gets (find_task receipt.task_id)
  or_raise after vanished

-- the rest, once the receipt is the owner's
unfoldable pub accept : Env → ResultReceipt → Task → Txn Task
unfolding start_work conclude
accept env receipt task = do
  raise_if (not (is_execution task.status)) (receipt_not_allowed task.status)
  current ← start_work receipt.task_id task.status
  conclude env receipt task current

-- the audit event is committed before the exception ends the transaction
unfoldable pub reject : Env → ResultReceipt → Task → Txn Task
unfolding event
reject env receipt task = do
  event env task.task_id task.correlation_id receipt_rejected
      (("reason", text "not lease owner") ∷ ("worker", text receipt.worker_instance) ∷ [])
  commit
  raise receipt_from_non_owner

-- `submit_receipt`
unfoldable pub submit_receipt_txn : Env → ResultReceipt → Txn Task
unfolding accept reject
submit_receipt_txn env receipt = do
  found ← gets (find_task receipt.task_id)
  task ← or_raise found task_not_found
  branch (opt_is task.owner_instance receipt.worker_instance) (accept env receipt task)
      (reject env receipt task)

unfoldable pub submit_receipt : Env → ResultReceipt → State → Result Task × State
unfolding submit_receipt_txn
submit_receipt env receipt = with_connect (submit_receipt_txn env receipt)
