-- ===== src/Store/Decisions.antt =====
-- `decide_approval` and `transition` of src/harness/store.py.
use harness_golden_path.Prelude.{
  ℕ, ◌+◌, ◌≡◌, refl, sym, subst, String, Bool-cases, true, false, inl, inr, some, List, [], ◌∷◌,
  ◌++◌, arith, find, update,
}
use harness_golden_path.Contracts.{TaskStatus, done, blocked, may_move, status_value}
use harness_golden_path.Contracts.Events.{status_changed, text}
use harness_golden_path.Store.Tables.{
  Task, Approval, ApprovalStatus, requested, approved, rejected, Db, State,
}
use harness_golden_path.Store.Txn.{Result, ok, err, Conn, not_allowed, begin}
use harness_golden_path.Store.Actions.{Env, by_id, find_task, event, with_status}
use harness_golden_path.Store.Lifecycle.{transition}
use harness_golden_path.Store.Approvals.{
  by_approval, decided, is_requested, decision_target, parse_decision, decide, decide_approval,
}
use harness_golden_path.Store.Rows.{UniqueIds, find-id}
use harness_golden_path.Store.Moves.{found_moved, set_status_ok, set_status_refused}

pub find_approval-update :
    (id : ℕ) (change : Approval → Approval) (rows : List Approval) {a : Approval}
    → ((x : Approval) → (change x).approval_id ≡ x.approval_id)
    → find (by_approval id) rows ≡ some a
    → find (by_approval id) (update (by_approval id) change rows) ≡ some (change a)
find_approval-update id change [] keeps h = ground arith
find_approval-update id change (x ∷ rows) {a} keeps h = elim (Bool-cases (by_approval id x)) [
  | inl e ↦ ground (arith, keeps x)
  | inr e ↦ ground (arith, find_approval-update id change rows {a = a} keeps)
]

-- A decided approval and its task.
pub record Settles (id : ℕ) (d : ApprovalStatus) (by : String) (task : Task)
    (answer : Result TaskStatus) (db : Db) : Type 0 where
  pub answered : answer ≡ ok (decision_target d)
  pub entry : Approval
  pub kept : find (by_approval id) db.approvals ≡ some entry
  pub says : entry.status ≡ d
  pub signed : entry.decided_by ≡ some by
  pub row : Task
  pub stored : find_task task.task_id db ≡ some row
  pub approves : d ≡ approved → row.status ≡ done
  pub rejects : d ≡ rejected → row.status ≡ blocked

-- Where ids are unique, a decision on a requested approval is carried out if its task may move
-- there: `approved` takes the task to `done` and `rejected` to `blocked`, and the approval
-- records what was decided and by whom.
pub decision_lands :
    (env : Env) (id : ℕ) (words by reason : String) (s : State) {a : Approval} {d : ApprovalStatus}
    {task : Task}
    → UniqueIds s.db.tasks
    → find (by_approval id) s.db.approvals ≡ some a
    → a.status ≡ requested
    → find_task a.task_id s.db ≡ some task
    → parse_decision words ≡ some d
    → may_move task.status (decision_target d) ≡ true
    → let (answer, after) = decide_approval env id words by reason s in
      Settles id d by task answer after.db
unfolding decide_approval decide event decided decision_target
decision_lands env id words by reason s {a} {d} {task} unique found is_open has_task parsed legal =
    let waits : is_requested a.status ≡ true = unfold is_requested in ground arith in
    let same = find-id a.task_id s.db.tasks has_task in
    let there : find (by_id task.task_id) s.db.tasks ≡ some task =
      subst (λ k. find (by_id k) s.db.tasks ≡ some task) (sym same) has_task in
    let c : Conn = record (begin s) {
      working = record s.db {
        approvals = update (by_approval id) (decided env d by reason) s.db.approvals;
      };
    } in
    rw
      (
        parsed,
        found,
        waits,
        has_task,
        set_status_ok task.task_id (decision_target d) c unique there legal,
      )
      (record {
        answered = refl;
        entry = decided env d by reason a;
        kept = find_approval-update id (decided env d by reason) s.db.approvals (λ x. refl) found;
        says = refl;
        signed = refl;
        row = with_status (decision_target d) task;
        stored = found_moved task.task_id (decision_target d) s.db.tasks there;
        approves = λ e. unfold with_status in ground arith;
        rejects = λ e. unfold with_status in ground arith;
      })

-- Where ids are unique, `transition` moves a task that is there exactly along the table: a move
-- that the table has goes through and is logged with both statuses and the reason, any other
-- raises and changes nothing.
pub transition_exactly :
    (env : Env) (id : ℕ) (target : TaskStatus) (reason : String) (s : State) {task : Task}
    → UniqueIds s.db.tasks
    → find_task id s.db ≡ some task
    → let (answer, after) = transition env id target reason s in
      (may_move task.status target ≡ true
        → (answer ≡ ok (with_status target task))
          × (find_task id after.db ≡ some (with_status target task))
          × (after.db.events
              ≡ s.db.events
                ++ record {
                  event_id = s.sequences.event + 1;
                  task_id = task.task_id;
                  correlation_id = task.correlation_id;
                  event_type = status_changed;
                  payload =
                      ("from", text (status_value task.status))
                      ∷ ("to", text (status_value target))
                      ∷ ("reason", text reason)
                      ∷ [];
                  created_at = env.now;
                }
                  ∷ []))
      × (may_move task.status target ≡ false
          → (answer ≡ err (not_allowed task.status target)) × (after ≡ s))
unfolding transition event
transition_exactly env id target reason s {task} unique found = (
  (λ legal.
      let moved = found_moved id target s.db.tasks found in
      rw (found, set_status_ok id target (begin s) unique found legal, moved) (refl, moved, refl)),
  (λ illegal. rw (found, set_status_refused id task.status target (begin s) illegal) (refl, refl)),
)
