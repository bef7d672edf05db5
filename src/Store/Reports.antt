-- ===== src/Store/Reports.antt =====
-- `report_failure` of src/harness/store.py as a whole, on the reports that pass its tests.
use harness_golden_path.Prelude.{
  ◌≡◌, ◌==◌, refl, sym, subst, Bool, Bool-cases, true, false, inl, inr, none, some, any, arith,
  find, ltb, opt_is, ==_iff,
}
use harness_golden_path.Contracts.{may_move, blocked, awaiting_decision}
use harness_golden_path.Contracts.Models.{FailureReport}
use harness_golden_path.Resilience.{requires_recovery, is_retryable}
use harness_golden_path.Store.Tables.{Task, State}
use harness_golden_path.Store.Txn.{Result, Conn, settle}
use harness_golden_path.Store.Actions.{Env, by_id, find_task, is_execution}
use harness_golden_path.Store.Failures.{
  Action, retry, awaiting, blocking, dead_lettered, recovery, Decision, key_differs, react, give_up,
  is_quota_exhausted, is_policy_violation, report_failure,
}
use harness_golden_path.Store.Rows.{UniqueIds, find-id}
use harness_golden_path.Store.Breaker.{trip_ok}
use harness_golden_path.Store.Verdict.{
  verdict, verdict_on, Decided, may_leave, hand_over_lands, recover_lands, bury_lands,
  schedule_retry_lands,
}

abbrev pub left : Task → Bool
left task = ltb task.attempt_count task.card.budget.max_attempts

module _ (env : Env) (r : FailureReport) (task : Task) (c : Conn)
    (unique : UniqueIds c.working.tasks)
    (found : find (by_id task.task_id) c.working.tasks ≡ some task)
    (working : is_execution task.status ≡ true) where
  -- The classes that are not retried.
  give_up-Decided :
      is_retryable r.failure_class ≡ false
      → requires_recovery r.failure_class r.side_effect_state ≡ false
      → Decided
          (verdict_on r.failure_class (left task))
          task
          (give_up env r task c).0
          (give_up env r task c).1.working.tasks
  unfolding give_up is_retryable requires_recovery is_quota_exhausted is_policy_violation
  give_up-Decided once known = elim (Bool-cases (is_quota_exhausted r.failure_class)) [
    | inl quota ↦
        let v : verdict_on r.failure_class (left task) ≡ awaiting = ground arith in
        rw (v, quota)
          (hand_over_lands env r task c unique found working awaiting refl (
            may_leave task.status awaiting_decision working (unfold may_move in refl)
              (unfold may_move in refl)))
    | inr other ↦ elim (Bool-cases (is_policy_violation r.failure_class)) [
      | inl policy ↦
          let v : verdict_on r.failure_class (left task) ≡ blocking = ground arith in
          rw (v, other, policy)
            (hand_over_lands env r task c unique found working blocking refl (
              may_leave task.status blocked working (unfold may_move in refl)
                (unfold may_move in refl)))
      | inr neither ↦
          let v : verdict_on r.failure_class (left task) ≡ dead_lettered = ground arith in
          rw (v, other, neither) (bury_lands env r task c unique found working r.reason none)
    ]
  ]

module _ (env : Env) (r : FailureReport) (task : Task) (c : Conn)
    (unique : UniqueIds c.working.tasks)
    (found : find (by_id task.task_id) c.working.tasks ≡ some task)
    (working : is_execution task.status ≡ true) where
  -- What follows once the side effects are known.
  react-Decided :
      requires_recovery r.failure_class r.side_effect_state ≡ false
      → Decided
          (verdict_on r.failure_class (left task))
          task
          (react env r task c).0
          (react env r task c).1.working.tasks
  unfolding react is_retryable
  react-Decided known =
      let t = trip_ok env r.failure_class task.circuit_key c in
      let unique' = subst UniqueIds (sym t.same_tasks) unique in
      let found' : find (by_id task.task_id) t.after.working.tasks ≡ some task =
        rw t.same_tasks found in
      elim (Bool-cases (is_retryable r.failure_class)) [
        | inr once ↦
            rw (t.answered, once)
              (give_up-Decided env r task t.after unique' found' working once known)
        | inl again ↦ elim (Bool-cases (left task)) [
          | inl more ↦
              let v : verdict_on r.failure_class (left task) ≡ retry = ground arith in
              rw (v, t.answered, again, more)
                (schedule_retry_lands env r task t.after unique' found' working t.circuit)
          | inr none_left ↦
              let v : verdict_on r.failure_class (left task) ≡ dead_lettered = ground arith in
              rw (v, t.answered, again, none_left)
                (bury_lands env r task t.after unique' found' working _ t.circuit)
        ]
      ]

-- `settle` keeps what was decided.
settled :
    {action : Action} {task : Task} (out : Result Decision × Conn)
    → Decided action task out.0 out.1.working.tasks
    → Decided action task (settle out.1 out.0).0 (settle out.1 out.0).1.db.tasks
settled (answer, after) h = rw h.answered (record {
  decision = h.decision;
  answered = refl;
  acted = h.acted;
  told = h.told;
  row = h.row;
  stored = h.stored;
  moved = h.moved;
  attempts_kept = h.attempts_kept;
  lease_freed = h.lease_freed;
})

-- The tests that `report_failure` makes on a report, and that the identifier of a new recovery card
-- is not taken.
pub record IsAcceptable (env : Env) (r : FailureReport) (task : Task) (s : State) : Type 0 where
  pub same_correlation : task.correlation_id ≡ r.correlation_id
  pub from_owner : opt_is task.owner_instance r.worker_instance ≡ true
  pub executing : is_execution task.status ≡ true
  pub own_route : key_differs r.circuit_key task.circuit_key ≡ false
  pub fresh :
      any (λ card. card.recovery_id == env.uuid4 s.sequences.drawn) s.db.recovery_cards ≡ false

-- Where ids are unique, a report that passes the tests of `report_failure` (IsAcceptable: it is
-- its owner's, about a task in execution) is always decided, as the table of verdicts says for
-- its class, its side effects and the attempts left. The answer and the stored row agree; the
-- row keeps its attempts and has no lease.
pub report_failure_decides :
    (env : Env) (r : FailureReport) (s : State) {task : Task}
    → UniqueIds s.db.tasks
    → find_task r.task_id s.db ≡ some task
    → IsAcceptable env r task s
    → let (answer, after) = report_failure env r s in
      Decided (verdict r.failure_class r.side_effect_state (left task)) task answer after.db.tasks
unfolding report_failure
report_failure_decides env r s {task} unique found h =
    let corr : (task.correlation_id == r.correlation_id) ≡ true =
      (==_iff _ _).1 h.same_correlation in
    let same : find (by_id task.task_id) s.db.tasks ≡ some task =
      subst (λ k. find (by_id k) s.db.tasks ≡ some task) (sym (find-id r.task_id s.db.tasks found))
        found in
    elim (Bool-cases (requires_recovery r.failure_class r.side_effect_state)) [
      | inl unknown ↦
          let v : verdict r.failure_class r.side_effect_state (left task) ≡ recovery =
            unfold requires_recovery in ground arith in
          rw (found, corr, h.from_owner, h.executing, h.own_route, unknown, v)
            (settled _ (recover_lands env r task _ unique same h.executing h.fresh))
      | inr known ↦
          let v : verdict r.failure_class r.side_effect_state (left task)
              ≡ verdict_on r.failure_class (left task) =
            unfold requires_recovery in ground arith in
          rw (found, corr, h.from_owner, h.executing, h.own_route, known, v)
            (settled _ (react-Decided env r task _ unique same h.executing known))
    ]
