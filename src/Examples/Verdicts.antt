-- ===== src/Examples/Verdicts.antt =====
-- Examples for approvals, transitions, releases and admission.
use harness_golden_path.Prelude.{
  String, ◌≡◌, ◌⊎◌, ◌↔◌, length, refl, true, false, none, some, [], ◌∷◌, any,
}
use harness_golden_path.Contracts.{ready, retry_wait, done, awaiting_approval, cancelled, may_move}
use harness_golden_path.Store.Tables.{
  Task, Approval, ApprovalStatus, requested, approved, rejected, State,
}
use harness_golden_path.Store.Txn.{StoreError, ok, err, already_decided}
use harness_golden_path.Store.Actions.{set_status, event, insert_event}
use harness_golden_path.Store.Approvals.{decision_target, parse_decision, decide_approval}
use harness_golden_path.Store.Failures.{is_due, release_due_retries}
use harness_golden_path.Store.Decisions.{Settles, decision_lands}
use harness_golden_path.Store.Finality.{decision_is_final}
use harness_golden_path.Store.Rollback.{raising_calls_change_nothing}
use harness_golden_path.Store.Retries.{IsRetryDue, ready_again, release_complete}
use harness_golden_path.Examples.{env, later, task_with, state_with}

abbrev waiting : Task
waiting = task_with awaiting_approval ("merge_main" ∷ []) none

abbrev approval_in : ApprovalStatus → Approval
approval_in status = record {
  approval_id = 5;
  task_id = 1;
  action = "merge_main";
  requested_by = "nas-1";
  status = status;
  decided_by = none;
  reason = "";
  decided_at = none;
  created_at = 0;
}

abbrev with_approval : ApprovalStatus → State
with_approval status = record (state_with waiting []) {
  db = record (state_with waiting []).db { approvals = approval_in status ∷ [] };
}

parsed : parse_decision "approved" ≡ some approved
unfolding parse_decision
parsed = refl

may_finish : may_move awaiting_approval (decision_target approved) ≡ true
unfolding may_move decision_target
may_finish = refl

accepted : (decide_approval env 5 "approved" "Micha" "" (with_approval requested)).0 ≡ ok done
unfolding decide_approval set_status event insert_event
accepted = refl

abbrev word : String → String
word text = text

decision_is_final_example :
    let after = (decide_approval env 5 "approved" "Micha" "" (with_approval requested)).1 in
    (e : StoreError) × (decide_approval later 5 "rejected" "Eve" "" after ≡ (err e, after))
    × ((word "rejected" ≡ "approved") ⊎ (word "rejected" ≡ "rejected") → e ≡ already_decided)
decision_is_final_example =
    decision_is_final env later 5 "approved" "Micha" "" "rejected" "Eve" ""
      (with_approval requested) accepted

decision_lands_example :
    Settles 5 approved "Micha" waiting
      (decide_approval env 5 "approved" "Micha" "" (with_approval requested)).0
      (decide_approval env 5 "approved" "Micha" "" (with_approval requested)).1.db
decision_lands_example =
    decision_lands env 5 "approved" "Micha" "" (with_approval requested) (refl, tt) refl refl refl
      parsed may_finish

may_cancel : may_move ready cancelled ≡ true
unfolding may_move
may_cancel = refl

abbrev delayed : Task
delayed = record (task_with retry_wait [] none) { next_attempt_at = some 500000 }

waits_no_more : is_due 1000000 [] delayed ≡ true
unfolding is_due
waits_no_more = refl

release_complete_example :
    let (answer, after) = release_due_retries env (state_with delayed []) in
    ((t : Task) → (is_due 1000000 [] t ≡ true) ↔ IsRetryDue 1000000 [] t)
    × (answer ≡ ok (ready_again delayed ∷ []))
    × (after.db.tasks ≡ ready_again delayed ∷ [])
    × (any (is_due 1000000 []) after.db.tasks ≡ false)
    × (length after.db.events ≡ 1)
unfolding is_due
release_complete_example = release_complete env (state_with delayed [])

raises_decided :
    (decide_approval env 5 "approved" "Micha" "" (with_approval rejected)).0 ≡ err already_decided
unfolding decide_approval
raises_decided = refl

raising_calls_change_nothing_example :
    (decide_approval env 5 "approved" "Micha" "" (with_approval rejected)).1.db
    ≡ (with_approval rejected).db
raising_calls_change_nothing_example =
    (raising_calls_change_nothing env (with_approval rejected) already_decided).4 5 "approved"
      "Micha" "" raises_decided
