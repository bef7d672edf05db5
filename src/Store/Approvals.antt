-- ===== src/Store/Approvals.antt =====
-- src/harness/store.py: `request_approval`, `decide_approval` and `trace`.
use harness_golden_path.Prelude.{
  ℕ, String, Bool, true, false, not, Option, none, some, List, [], ◌∷◌, ◌++◌, ◌==◌, ◌=s=◌, any,
  find, select, update, if◌then◌else◌,
}
use harness_golden_path.Contracts.{TaskStatus, awaiting_approval, blocked, done}
use harness_golden_path.Contracts.Models.{ApprovalCard}
use harness_golden_path.Contracts.Events.{approval_requested, approval_decided, text, uuid}
use harness_golden_path.Store.Tables.{
  Event, ApprovalStatus, requested, approved, rejected, Approval, State,
}
use harness_golden_path.Store.Txn.{
  task_not_found, approval_not_found, invalid_decision, already_decided, unique_violation, Result,
  err, Txn, pure, raise_if, gets, modify, or_raise, with_connect, ◌>>=◌, ◌>>◌,
}
use harness_golden_path.Store.Actions.{Env, find_task, event, set_status}

abbrev pub by_approval : ℕ → Approval → Bool
by_approval approval_id a = a.approval_id == approval_id

abbrev new_approval : Env → ApprovalCard → Approval
new_approval env card = record {
  approval_id = card.approval_id;
  task_id = card.task_id;
  action = card.action;
  requested_by = card.requested_by;
  status = requested;
  decided_by = none;
  reason = "";
  decided_at = none;
  created_at = env.now;
}

-- INSERT INTO approvals: the primary key is checked
unfoldable pub insert_approval : Env → ApprovalCard → Txn (Unit {0})
insert_approval env card = do
  taken ← gets (λ db. any (by_approval card.approval_id) db.approvals)
  raise_if taken unique_violation
  modify (λ db. record db { approvals = db.approvals ++ new_approval env card ∷ [] })

-- `request_approval`; of the answer, the task's status
unfoldable pub request_approval_txn : Env → ApprovalCard → Txn TaskStatus
unfolding insert_approval event
request_approval_txn env card = do
  found ← gets (find_task card.task_id)
  task ← or_raise found task_not_found
  set_status card.task_id task.status awaiting_approval
  insert_approval env card
  event env task.task_id task.correlation_id approval_requested
      (("approval_id", uuid card.approval_id) ∷ ("action", text card.action) ∷ [])
  pure awaiting_approval

unfoldable pub request_approval : Env → ApprovalCard → State → Result TaskStatus × State
unfolding request_approval_txn
request_approval env card = with_connect (request_approval_txn env card)

-- `decision in ("approved", "rejected")`
unfoldable pub parse_decision : String → Option ApprovalStatus
parse_decision decision =
    if decision =s= "approved"
    then some approved
    else if decision =s= "rejected"
    then some rejected
    else none

unfoldable pub is_requested : ApprovalStatus → Bool
is_requested requested = true
is_requested _ = false

-- the UPDATE of `decide_approval`
unfoldable pub decided : Env → ApprovalStatus → String → String → Approval → Approval
decided env decision decided_by reason a = record a {
  status = decision;
  decided_by = some decided_by;
  reason = reason;
  decided_at = some env.now;
}

unfoldable pub decision_target : ApprovalStatus → TaskStatus
decision_target approved = done
decision_target _ = blocked

-- `decide_approval` with a decision of the two; of the answer, the task's status
unfoldable pub decide : Env → ℕ → ApprovalStatus → String → String → String → Txn TaskStatus
unfolding is_requested decided decision_target event
decide env approval_id decision decision_text decided_by reason = do
  found ← gets (λ db. find (by_approval approval_id) db.approvals)
  approval ← or_raise found approval_not_found
  raise_if (not (is_requested approval.status)) already_decided
  row ← gets (find_task approval.task_id)
  task ← or_raise row task_not_found
  modify (λ db. record db {
    approvals =
        update (by_approval approval_id) (decided env decision decided_by reason) db.approvals;
  })
  set_status task.task_id task.status (decision_target decision)
  event env task.task_id task.correlation_id approval_decided (
      ("approval_id", uuid approval_id)
      ∷ ("decision", text decision_text)
      ∷ ("decided_by", text decided_by)
      ∷ [])
  pure (decision_target decision)

-- an unknown decision raises before the connection opens
abbrev pub decide_or_refuse :
    Env → ℕ → String → String → String → Option ApprovalStatus → State → Result TaskStatus × State
decide_or_refuse env approval_id decision_text decided_by reason none s = (err invalid_decision, s)
decide_or_refuse env approval_id decision_text decided_by reason (some decision) s =
    with_connect (decide env approval_id decision decision_text decided_by reason) s

-- `decide_approval`
unfoldable pub decide_approval :
    Env → ℕ → String → String → String → State → Result TaskStatus × State
unfolding parse_decision decide
decide_approval env approval_id decision decided_by reason =
    decide_or_refuse env approval_id decision decided_by reason (parse_decision decision)

-- `trace`; ORDER BY event_id is the order of insertion, in which the events stand
unfoldable pub trace : ℕ → State → List Event
trace correlation_id s = select (λ e. e.correlation_id == correlation_id) s.db.events
