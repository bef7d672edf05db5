-- ===== src/Store/Verdict.antt =====
-- What `report_failure` of src/harness/store.py decides: the table of its verdicts, and each branch.
use harness_golden_path.Prelude.{
  ◌+◌, ◌≡◌, ◌==◌, refl, String, Bool, true, false, Option, none, some, List, any, arith, find,
  update, if◌then◌else◌,
}
use harness_golden_path.Contracts.{
  TaskStatus, claimed, in_progress, blocked, failed, recovery_required, retry_wait,
  awaiting_decision, may_move, FailureClass, transient, rate_limited, quality_failure,
  quota_exhausted, policy_violation, permanent, uncertain_side_effect, SideEffectState, no_effect,
  confirmed_none, unknown,
}
use harness_golden_path.Contracts.Models.{FailureReport}
use harness_golden_path.Store.Tables.{Task, Circuit}
use harness_golden_path.Store.Txn.{Result, ok, Conn}
use harness_golden_path.Store.Actions.{Env, seconds, by_id, with_status, is_execution}
use harness_golden_path.Store.Failures.{
  Action, retry, awaiting, blocking, dead_lettered, recovery, Decision, recover, schedule, delay_of,
  schedule_retry, bury, hand_over,
}
use harness_golden_path.Store.Rows.{UniqueIds, find-update}
use harness_golden_path.Store.Moves.{set_status_ok, with_status-id}

-- The verdict on a failure with known side effects, by its class and by whether attempts are left.
abbrev pub verdict_on : FailureClass → Bool → Action
verdict_on transient left = if left then retry else dead_lettered
verdict_on rate_limited left = if left then retry else dead_lettered
verdict_on quality_failure left = if left then retry else dead_lettered
verdict_on quota_exhausted left = awaiting
verdict_on policy_violation left = blocking
verdict_on permanent left = dead_lettered
verdict_on uncertain_side_effect left = recovery

-- Unknown side effects override every class.
abbrev pub verdict : FailureClass → SideEffectState → Bool → Action
verdict c unknown left = recovery
verdict c no_effect left = verdict_on c left
verdict c confirmed_none left = verdict_on c left

abbrev pub status_after : Action → TaskStatus
status_after retry = retry_wait
status_after awaiting = awaiting_decision
status_after blocking = blocked
status_after dead_lettered = failed
status_after recovery = recovery_required

-- Every verdict is a move that the table of transitions has from both execution states.
pub may_leave :
    (s target : TaskStatus)
    → is_execution s ≡ true
    → may_move in_progress target ≡ true
    → may_move claimed target ≡ true
    → may_move s target ≡ true
may_leave claimed target e p q = q
may_leave in_progress target e p q = p
may_leave _ target e p q = ground arith

-- A report was decided as `action`: the answer says so, and the stored row has the status of the
-- verdict, the attempts that it had, and no lease.
pub record Decided (action : Action) (task : Task) (answer : Result Decision) (tasks : List Task)
    : Type 0 where
  pub decision : Decision
  pub answered : answer ≡ ok decision
  pub acted : decision.action ≡ action
  pub told : decision.task_status ≡ status_after action
  pub row : Task
  pub stored : find (by_id task.task_id) tasks ≡ some row
  pub moved : row.status ≡ status_after action
  pub attempts_kept : row.attempt_count ≡ task.attempt_count
  pub lease_freed : row.lease_expires_at ≡ none

module _ (env : Env) (r : FailureReport) (task : Task) (c : Conn)
    (unique : UniqueIds c.working.tasks)
    (found : find (by_id task.task_id) c.working.tasks ≡ some task)
    (working : is_execution task.status ≡ true) where
  find-moved :
      (target : TaskStatus)
      → find (by_id task.task_id) (update (by_id task.task_id) (with_status target) c.working.tasks)
        ≡ some (with_status target task)
  find-moved target = ground (
    arith,
    find-update (by_id task.task_id) (with_status target) (with_status-id target) task.task_id
        c.working.tasks,
  )

  pub hand_over_lands :
      (action : Action)
      → is_execution (status_after action) ≡ false
      → may_move task.status (status_after action) ≡ true
      → Decided action task
          (hand_over r task action (status_after action) c).0
          (hand_over r task action (status_after action) c).1.working.tasks
  unfolding hand_over with_status
  hand_over_lands action out m =
      rw (set_status_ok task.task_id (status_after action) c unique found m) (record {
        decision = _;
        answered = refl;
        acted = refl;
        told = refl;
        row = with_status (status_after action) task;
        stored = find-moved (status_after action);
        moved = ground arith;
        attempts_kept = ground arith;
        lease_freed = ground arith;
      })

  pub recover_lands :
      any (λ card. card.recovery_id == env.uuid4 c.sequences.drawn) c.working.recovery_cards ≡ false
      → Decided recovery task (recover env r task c).0 (recover env r task c).1.working.tasks
  unfolding recover with_status
  recover_lands fresh =
      let m =
        may_leave task.status recovery_required working (unfold may_move in refl)
          (unfold may_move in refl) in
      rw (set_status_ok task.task_id recovery_required c unique found m, fresh)
        (record {
          decision = _;
          answered = refl;
          acted = refl;
          told = refl;
          row = with_status recovery_required task;
          stored = find-moved recovery_required;
          moved = refl;
          attempts_kept = refl;
          lease_freed = refl;
        })

  pub bury_lands :
      (reason : String) (circuit : Option Circuit)
      → Decided dead_lettered task
          (bury env r task reason circuit c).0
          (bury env r task reason circuit c).1.working.tasks
  unfolding bury with_status
  bury_lands reason circuit =
      let m =
        may_leave task.status failed working (unfold may_move in refl) (unfold may_move in refl) in
      rw (set_status_ok task.task_id failed c unique found m) (record {
        decision = _;
        answered = refl;
        acted = refl;
        told = refl;
        row = with_status failed task;
        stored = find-moved failed;
        moved = refl;
        attempts_kept = refl;
        lease_freed = refl;
      })

  pub schedule_retry_lands :
      (circuit : Option Circuit)
      → Decided retry task
          (schedule_retry env r task circuit c).0
          (schedule_retry env r task circuit c).1.working.tasks
  unfolding schedule_retry with_status schedule
  schedule_retry_lands circuit =
      let m =
        may_leave task.status retry_wait working (unfold may_move in refl)
          (unfold may_move in refl) in
      let planned =
        schedule (env.now + seconds (delay_of r task circuit)) r.failure_class task.circuit_key in
      rw (set_status_ok task.task_id retry_wait c unique found m) (record {
        decision = _;
        answered = refl;
        acted = refl;
        told = refl;
        row = planned (with_status retry_wait task);
        stored = ground (
          arith,
          find-moved retry_wait,
          find-update (by_id task.task_id) planned (λ t. refl) task.task_id
              (update (by_id task.task_id) (with_status retry_wait) c.working.tasks),
        );
        moved = refl;
        attempts_kept = refl;
        lease_freed = refl;
      })
