-- ===== src/Store/Completion.antt =====
-- `submit_receipt` of src/harness/store.py: where a receipt of the owner takes its task.
use harness_golden_path.Prelude.{
  ◌+◌, ◌≡◌, ◌≢◌, ◌∙◌, opt_is_iff, refl, sym, subst, String, Bool-cases, true, false, inl, inr,
  Option, none, some, List, [], ◌∷◌, ◌++◌, any, arith, find, opt_is,
}
use harness_golden_path.Contracts.{
  TaskStatus, claimed, in_progress, review, done, failed, blocked, may_move, ◌is◌,
}
use harness_golden_path.Contracts.Models.{Outcome, ResultReceipt}
use harness_golden_path.Store.Tables.{Task, RoutingReceipt, Db, State}
use harness_golden_path.Store.Txn.{
  Result, ok, err, Conn, settle, gets, or_raise, vanished, receipt_from_non_owner, ◌>>◌, ◌>>=◌,
}
use harness_golden_path.Store.Actions.{
  Env, by_id, by_key, find_task, event, with_status, is_execution,
}
use harness_golden_path.Store.Receipts.{
  receipt_target, start_work, close_route, conclude, accept, reject, submit_receipt,
}
use harness_golden_path.Contracts.Events.{receipt_rejected, text}
use harness_golden_path.Store.Rows.{UniqueIds, update-UniqueIds}
use harness_golden_path.Store.Moves.{found_moved, set_status_ok, with_status-id}

-- From both execution states, once work has started, every target of a receipt can be reached.
target_allowed : (t : Task) (o : Outcome) → may_move in_progress (receipt_target t o) ≡ true
unfolding may_move receipt_target
target_allowed t o = ground arith

close_route_tasks :
    (env : Env) (t : Task) (target : TaskStatus) (key : Option String) (c : Conn)
    → ((close_route env t target key c).0 ≡ ok tt)
      × ((close_route env t target key c).1.working.tasks ≡ c.working.tasks)
      × ((close_route env t target key c).1.working.receipts ≡ c.working.receipts)
unfolding close_route event
close_route_tasks env t target none c = (refl, refl, refl)
close_route_tasks env t target (some key) c = elim (Bool-cases (target is review)) [
  | inr other ↦ rw other (refl, refl, refl)
  | inl done' ↦ elim (Bool-cases (any (by_key key) c.working.circuits)) [
    | inl known ↦ rw (done', known) (refl, refl, refl)
    | inr unseen ↦ rw (done', unseen) (refl, refl, refl)
  ]
]

-- Where a receipt should take a task: completed work is done only where no approval is required, and
-- goes to review otherwise.
abbrev pub promised : List String → Outcome → TaskStatus
promised [] Outcome.completed = done
promised (_ ∷ _) Outcome.completed = review
promised _ Outcome.failed = failed
promised _ Outcome.blocked = blocked

target_promised : (t : Task) (o : Outcome) → receipt_target t o ≡ promised t.approval_required o
unfolding receipt_target
target_promised t o = ground arith

-- An accepted receipt: the answer is the stored row, in the status that the receipt asks for and with
-- no lease, and the receipt is stored behind those that were there.
pub record Accepted (env : Env) (r : ResultReceipt) (t : Task) (before : List RoutingReceipt)
    (answer : Result Task) (db : Db) : Type 0 where
  pub row : Task
  pub answered : answer ≡ ok row
  pub stored : find_task r.task_id db ≡ some row
  pub reached : row.status ≡ promised t.approval_required r.outcome
  pub lease_freed : row.lease_expires_at ≡ none
  pub entry : RoutingReceipt
  pub kept : db.receipts ≡ before ++ entry ∷ []
  pub same_receipt : entry.receipt ≡ r

leaves_execution : (t : Task) (o : Outcome) → is_execution (receipt_target t o) ≡ false
unfolding receipt_target
leaves_execution t o = ground arith

-- The end of `conclude`: the circuit, and the row that is read again.
tail_lands :
    (env : Env) (r : ResultReceipt) (t row : Task) (k : Conn) (before : List RoutingReceipt)
    (entry : RoutingReceipt)
    → find_task r.task_id k.working ≡ some row
    → row.status ≡ receipt_target t r.outcome
    → row.lease_expires_at ≡ none
    → k.working.receipts ≡ before ++ entry ∷ []
    → entry.receipt ≡ r
    → let out =
        (close_route env t (receipt_target t r.outcome) t.circuit_key
            >> (gets (find_task r.task_id) >>= λ after. or_raise after vanished))
          k in
      Accepted env r t before out.0 out.1.working
tail_lands env r t row k before entry found status lease receipts same =
    let (answered, tasks, kept) =
      close_route_tasks env t (receipt_target t r.outcome) t.circuit_key k in
    let stored : find (by_id r.task_id)
          (close_route env t (receipt_target t r.outcome) t.circuit_key k).1.working.tasks
        ≡ some row =
      rw tasks found in
    rw (answered, stored)
      (record {
        row = row;
        answered = refl;
        stored = stored;
        reached = status ∙ target_promised t r.outcome;
        lease_freed = lease;
        entry = entry;
        kept = kept ∙ receipts;
        same_receipt = same;
      })

with_status-status : (target : TaskStatus) (t : Task) → (with_status target t).status ≡ target
unfolding with_status
with_status-status target t = ground arith

with_status-lease :
    (target : TaskStatus) (t : Task)
    → is_execution target ≡ false
    → (with_status target t).lease_expires_at ≡ none
unfolding with_status
with_status-lease target t idle = ground arith

-- `now` is the row as it stands when the status is set; `t` is the row as it was read.
conclude_lands :
    (env : Env) (r : ResultReceipt) (t now : Task) (c : Conn)
    → UniqueIds c.working.tasks
    → find (by_id r.task_id) c.working.tasks ≡ some now
    → may_move now.status (receipt_target t r.outcome) ≡ true
    → Accepted env r t c.working.receipts
        (conclude env r t now.status c).0
        (conclude env r t now.status c).1.working
unfolding conclude
conclude_lands env r t now c unique found m =
    let target = receipt_target t r.outcome in
    let ok_moved = set_status_ok r.task_id target c unique found m in
    rw (ok_moved) (
      tail_lands env r t (with_status target now) _ c.working.receipts _
        (found_moved r.task_id target c.working.tasks found) (with_status-status target now)
        (with_status-lease target now (leaves_execution t r.outcome)) refl refl)

accept_lands :
    (env : Env) (r : ResultReceipt) (t : Task) (c : Conn)
    → UniqueIds c.working.tasks
    → find (by_id r.task_id) c.working.tasks ≡ some t
    → is_execution t.status ≡ true
    → Accepted env r t c.working.receipts (accept env r t c).0 (accept env r t c).1.working
unfolding accept start_work with_status
accept_lands env r t c unique found executing = elim (Bool-cases (t.status is claimed)) [
  | inl fresh ↦
      let m : may_move t.status in_progress ≡ true =
        unfold may_move in unfold ◌is◌ in ground arith in
      rw (executing, fresh, set_status_ok r.task_id in_progress c unique found m)
        (conclude_lands env r t (with_status in_progress t) _
          (update-UniqueIds (by_id r.task_id) (with_status in_progress) (with_status-id in_progress)
            c.working.tasks unique)
          (found_moved r.task_id in_progress c.working.tasks found) (target_allowed t r.outcome))
  | inr started ↦
      let working : t.status ≡ in_progress = unfold ◌is◌ in ground arith in
      rw (executing, started)
        (conclude_lands env r t t c unique found (
          subst (λ x. may_move x (receipt_target t r.outcome) ≡ true) (sym working)
            (target_allowed t r.outcome)))
]

settled :
    {env : Env} {r : ResultReceipt} {t : Task} {before : List RoutingReceipt}
    (out : Result Task × Conn)
    → Accepted env r t before out.0 out.1.working
    → Accepted env r t before (settle out.1 out.0).0 (settle out.1 out.0).1.db
settled (answer, after) h = rw h.answered (record {
  row = h.row;
  answered = refl;
  stored = h.stored;
  reached = h.reached;
  lease_freed = h.lease_freed;
  entry = h.entry;
  kept = h.kept;
  same_receipt = h.same_receipt;
})

-- Where ids are unique, a receipt of the worker that owns a task in execution is always
-- accepted: the task moves to the status that the receipt asks for (`done` only where no
-- approval is required, and `review` otherwise), its lease ends, and the receipt is stored.
pub receipt-Accepted_lands :
    (env : Env) (r : ResultReceipt) (s : State) {t : Task}
    → UniqueIds s.db.tasks
    → find_task r.task_id s.db ≡ some t
    → t.owner_instance ≡ some r.worker_instance
    → is_execution t.status ≡ true
    → let (answer, after) = submit_receipt env r s in Accepted env r t s.db.receipts answer after.db
unfolding submit_receipt
receipt-Accepted_lands env r s {t} unique found owner executing =
    let o : opt_is t.owner_instance r.worker_instance ≡ true = (opt_is_iff _ _).1 owner in
    rw (found, o) (settled _ (accept_lands env r t _ unique found executing))

-- A receipt of anyone but the owner raises OwnershipError and leaves every table as it was,
-- except for the log, which keeps the attempt.
pub receipt_of_other_refused :
    (env : Env) (r : ResultReceipt) (s : State) {t : Task}
    → find_task r.task_id s.db ≡ some t
    → t.owner_instance ≢ some r.worker_instance
    → let (answer, after) = submit_receipt env r s in
      (answer ≡ err receipt_from_non_owner)
      × (after.db ≡ record s.db {
        events =
            s.db.events
            ++ record {
              event_id = s.sequences.event + 1;
              task_id = t.task_id;
              correlation_id = t.correlation_id;
              event_type = receipt_rejected;
              payload =
                  ("reason", text "not lease owner") ∷ ("worker", text r.worker_instance) ∷ [];
              created_at = env.now;
            }
              ∷ [];
      })
unfolding submit_receipt reject event
receipt_of_other_refused env r s {t} found other =
    elim (Bool-cases (opt_is t.owner_instance r.worker_instance)) [
      | inl same ↦ absurd (other ((opt_is_iff _ _).0 same))
      | inr differs ↦ rw (found, differs) (refl, refl)
    ]
