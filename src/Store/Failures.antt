-- ===== src/Store/Failures.antt =====
-- src/harness/store.py: `report_failure` and `release_due_retries`; the decision record is
-- `ResilienceDecision` of src/harness/resilience.py.
use Prim.Native.String.{◌++◌ as ◌++ₛ◌}
use harness_golden_path.Prelude.{
  ℕ, ◌+◌, max, String, Bool, true, false, not, ◌&&◌, Option, none, some, List, [], ◌∷◌, ◌==◌,
  opt_is, ltb, if◌then◌else◌,
}
use harness_golden_path.Contracts.{
  TaskStatus, ready, blocked, failed, recovery_required, retry_wait, awaiting_decision, ◌is◌,
  FailureClass, quota_exhausted, policy_violation, failure_value, side_effect_value,
}
use harness_golden_path.Contracts.Models.{FailureReport}
use harness_golden_path.Contracts.Events.{
  failure_classified, retry_scheduled, retry_released, Json, null, text, number, instant,
}
use harness_golden_path.Resilience.{
  circuit_cooldown_seconds, is_retryable, is_circuit_failure, retry_delay_seconds,
  requires_recovery,
}
use harness_golden_path.Store.Tables.{Task, CircuitState, Circuit, State}
use harness_golden_path.Store.Txn.{
  task_not_found, correlation_mismatch, report_from_non_owner, report_not_allowed, circuit_mismatch,
  Result, Txn, branch, on_row, for_each, pure, raise_if, gets, or_raise, with_connect, ◌>>=◌, ◌>>◌,
}
use harness_golden_path.Store.Actions.{
  Env, seconds, by_id, find_task, reached, is_open, circuit_blocks, update_tasks, event,
  create_recovery_card, record_dead_letter, record_circuit_failure, is_execution, set_status,
}

pub data Action : Type 0 where
  retry awaiting blocking dead_lettered recovery : Action

-- ResilienceDecision
pub record Decision : Type 0 where
  pub task_id : ℕ
  pub failure_class : FailureClass
  pub action : Action
  pub task_status : TaskStatus
  pub retry_at : Option ℕ
  pub recovery_id : Option ℕ
  pub dead_letter_id : Option ℕ
  pub circuit_state : Option CircuitState

abbrev decide_plain : Task → FailureClass → Action → TaskStatus → Decision
decide_plain task failure_class action status = record {
  task_id = task.task_id;
  failure_class = failure_class;
  action = action;
  task_status = status;
  retry_at = none;
  recovery_id = none;
  dead_letter_id = none;
  circuit_state = none;
}

-- `circuit["state"] if circuit else None`
abbrev pub state_of : Option Circuit → Option CircuitState
state_of none = none
state_of (some c) = some c.state

-- `circuit and circuit["state"] == "open"`
abbrev pub is_tripped : Option Circuit → Bool
is_tripped none = false
is_tripped (some c) = is_open c.state

abbrev opt_text : Option String → Json
opt_text none = null
opt_text (some s) = text s

-- `report.circuit_key and report.circuit_key != task["circuit_key"]`; the pattern of the model
-- refuses an empty key
abbrev pub key_differs : Option String → Option String → Bool
key_differs none task_key = false
key_differs (some key) task_key = not (opt_is task_key key)

-- the first branch: unknown side effects
unfoldable pub recover : Env → FailureReport → Task → Txn Decision
unfolding create_recovery_card failure_value
recover env report task = do
  set_status task.task_id task.status recovery_required
  recovery_id ← create_recovery_card env task (failure_value report.failure_class) report.reason
  pure (record (decide_plain task report.failure_class recovery recovery_required) {
    recovery_id = some recovery_id;
  })

-- the circuit of the task's route counts the failure
unfoldable pub trip : Env → FailureClass → Option String → Txn (Option Circuit)
unfolding is_circuit_failure record_circuit_failure
trip env failure_class circuit_key =
    on_row circuit_key
      (λ key.
        branch (is_circuit_failure failure_class)
          (do row ← record_circuit_failure env key failure_class; pure (some row)) (pure none))
      (pure none)

-- `delay_seconds`, which an open circuit stretches to its cooldown
unfoldable pub delay_of : FailureReport → Task → Option Circuit → ℕ
unfolding retry_delay_seconds
delay_of report task circuit =
    let delay_seconds =
      retry_delay_seconds report.failure_class task.attempt_count report.retry_after_seconds in
    if is_tripped circuit then max delay_seconds circuit_cooldown_seconds else delay_seconds

-- the second UPDATE of the retry branch
unfoldable pub schedule : ℕ → FailureClass → Option String → Task → Task
schedule retry_at failure_class circuit_key t = record t {
  next_attempt_at = some retry_at;
  last_failure_class = some failure_class;
  circuit_key = circuit_key;
}

-- the branch with attempts left
unfoldable pub schedule_retry : Env → FailureReport → Task → Option Circuit → Txn Decision
unfolding delay_of schedule event
schedule_retry env report task circuit = do
  let delay_seconds = delay_of report task circuit
  let retry_at = env.now + seconds delay_seconds
  set_status task.task_id task.status retry_wait
  update_tasks (by_id task.task_id) (schedule retry_at report.failure_class task.circuit_key)
  event env task.task_id task.correlation_id retry_scheduled (
      ("retry_at", instant retry_at)
      ∷ ("delay_seconds", number delay_seconds)
      ∷ ("attempt", number task.attempt_count)
      ∷ [])
  pure (record (decide_plain task report.failure_class retry retry_wait) {
    retry_at = some retry_at;
    circuit_state = state_of circuit;
  })

-- the branches that end in a dead letter
unfoldable pub bury : Env → FailureReport → Task → String → Option Circuit → Txn Decision
unfolding record_dead_letter
bury env report task reason circuit = do
  set_status task.task_id task.status failed
  dead_letter_id ← record_dead_letter env task report reason
  pure (record (decide_plain task report.failure_class dead_lettered failed) {
    dead_letter_id = some dead_letter_id;
    circuit_state = state_of circuit;
  })

-- `quota_exhausted`, `policy_violation`
unfoldable pub hand_over : FailureReport → Task → Action → TaskStatus → Txn Decision
hand_over report task action status = do
  set_status task.task_id task.status status
  pure (decide_plain task report.failure_class action status)

-- `failure_class == FailureClass.QUOTA_EXHAUSTED`
unfoldable pub is_quota_exhausted : FailureClass → Bool
is_quota_exhausted quota_exhausted = true
is_quota_exhausted _ = false

-- `failure_class == FailureClass.POLICY_VIOLATION`
unfoldable pub is_policy_violation : FailureClass → Bool
is_policy_violation policy_violation = true
is_policy_violation _ = false

-- the branches for the classes that are not retried
unfoldable pub give_up : Env → FailureReport → Task → Txn Decision
give_up env report task =
    branch (is_quota_exhausted report.failure_class)
      (hand_over report task awaiting awaiting_decision)
      (branch (is_policy_violation report.failure_class) (hand_over report task blocking blocked)
        (bury env report task report.reason none))

-- what follows once the side effects are known
unfoldable pub react : Env → FailureReport → Task → Txn Decision
react env report task = do
  circuit ← trip env report.failure_class task.circuit_key
  branch (is_retryable report.failure_class)
      (branch (ltb task.attempt_count task.card.budget.max_attempts)
        (schedule_retry env report task circuit)
        (bury env report task ("retry budget exhausted: " ++ₛ report.reason) circuit))
      (give_up env report task)

-- `report_failure`
unfoldable pub report_failure_txn : Env → FailureReport → Txn Decision
unfolding event failure_value side_effect_value
report_failure_txn env report = do
  found ← gets (find_task report.task_id)
  task ← or_raise found task_not_found
  raise_if (not (task.correlation_id == report.correlation_id)) correlation_mismatch
  raise_if (not (opt_is task.owner_instance report.worker_instance)) report_from_non_owner
  raise_if (not (is_execution task.status)) (report_not_allowed task.status)
  event env task.task_id task.correlation_id failure_classified (
      ("failure_class", text (failure_value report.failure_class))
      ∷ ("side_effect_state", text (side_effect_value report.side_effect_state))
      ∷ ("circuit_key", opt_text task.circuit_key)
      ∷ [])
  raise_if (key_differs report.circuit_key task.circuit_key) circuit_mismatch
  branch (requires_recovery report.failure_class report.side_effect_state) (recover env report task)
      (react env report task)

unfoldable pub report_failure : Env → FailureReport → State → Result Decision × State
unfolding report_failure_txn
report_failure env report = with_connect (report_failure_txn env report)

-- the WHERE clause of `release_due_retries`
unfoldable pub is_due : ℕ → List Circuit → Task → Bool
unfolding ◌is◌ circuit_blocks
is_due now circuits t =
    (t.status is retry_wait) && reached t.next_attempt_at now && not (circuit_blocks now circuits t)

-- the SET clause of `release_due_retries`
unfoldable pub release : Task → Task
release t = record t {
  status = ready;
  next_attempt_at = none;
  owner_instance = none;
  claimed_at = none;
  heartbeat_at = none;
}

-- one round of the loop of `release_due_retries`
unfoldable pub tell_release : Env → Task → Txn (Unit {0})
unfolding event
tell_release env row =
    event env row.task_id row.correlation_id retry_released
      (("next_attempt", number (row.attempt_count + 1)) ∷ [])

-- `release_due_retries`
unfoldable pub release_due_retries_txn : Env → Txn (List Task)
unfolding is_due release tell_release for_each
release_due_retries_txn env = do
  circuits ← gets (λ db. db.circuits)
  rows ← update_tasks (is_due env.now circuits) release
  for_each (tell_release env) rows
  pure rows

unfoldable pub release_due_retries : Env → State → Result (List Task) × State
unfolding release_due_retries_txn
release_due_retries env = with_connect (release_due_retries_txn env)
