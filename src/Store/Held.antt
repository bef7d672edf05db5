-- ===== src/Store/Held.antt =====
-- Unknown side effects in src/harness/store.py: `report_failure`, with `claim` and `release_due_retries`.
use harness_golden_path.Prelude.{
  ℕ, ℤ, ◌≡◌, ◌∙◌, ap, refl, subst, String, false, none, some, List, [], ◌∷◌, arith, find, update,
}
use harness_golden_path.Contracts.{recovery_required, unknown}
use harness_golden_path.Contracts.Models.{FailureReport}
use harness_golden_path.Store.Tables.{Task, Circuit, State}
use harness_golden_path.Store.Txn.{ok}
use harness_golden_path.Store.Actions.{Env, by_id, find_task}
use harness_golden_path.Store.Leases.{can_claim, claim}
use harness_golden_path.Store.Failures.{report_failure, is_due, release_due_retries}
use harness_golden_path.Store.Retries.{ready_again, release_complete}
use harness_golden_path.Store.Requests.{failure, serve, run}
use harness_golden_path.Store.Rows.{UniqueIds, find-id, find-update, update-UniqueIds}
use harness_golden_path.Store.Claiming.{claim_refused}
use harness_golden_path.Store.Identity.{run_unique}
use harness_golden_path.Store.Verdict.{verdict, status_after}
use harness_golden_path.Store.Reports.{left, IsAcceptable, report_failure_decides}

held_not_free :
    (now : ℕ) (circuits : List Circuit) (t : Task)
    → t.status ≡ recovery_required
    → can_claim now circuits t ≡ false
unfolding can_claim
held_not_free now circuits t h = ground arith

held_not_due :
    (now : ℕ) (circuits : List Circuit) (t : Task)
    → t.status ≡ recovery_required
    → is_due now circuits t ≡ false
unfolding is_due
held_not_due now circuits t h = ground arith

-- A task that waits for its recovery, and that no claim gets: it answers None and changes nothing, and
-- so it is after the due retries have been released, whatever the times are.
pub record IsHeld (id : ℕ) (s : State) : Type 0 where
  pub row : Task
  pub stored : find_task id s.db ≡ some row
  pub waits : row.status ≡ recovery_required
  pub refused :
      (env : Env) (role worker : String) (minutes : ℤ)
      → claim env id role worker minutes s ≡ (ok none, s)
  pub not_released :
      (release env : Env) (role worker : String) (minutes : ℤ)
      → let released = (release_due_retries release s).1 in
        claim env id role worker minutes released ≡ (ok none, released)

recovery_holds :
    (id : ℕ) (s : State) (row : Task)
    → UniqueIds s.db.tasks
    → find_task id s.db ≡ some row
    → row.status ≡ recovery_required
    → IsHeld id s
recovery_holds id s row unique stored waits = record {
  row = row;
  stored = stored;
  waits = waits;
  refused = λ env role worker minutes.
      claim_refused env id role worker minutes s unique stored
        (held_not_free env.now s.db.circuits row waits);
  not_released = λ release env role worker minutes.
      let due = is_due release.now s.db.circuits in
      let released = (release_due_retries release s).1 in
      let updated : released.db.tasks ≡ update due ready_again s.db.tasks =
        (release_complete release s).2 in
      let still : find (by_id id) (update due ready_again s.db.tasks) ≡ some row =
        find-update due ready_again (λ t. refl) id s.db.tasks
        ∙ rw (stored, held_not_due release.now s.db.circuits row waits) refl in
      claim_refused env id role worker minutes released
        (rw updated (update-UniqueIds due ready_again (λ t. refl) s.db.tasks unique))
        (rw updated still) (held_not_free env.now released.db.circuits row waits);
}

-- Where ids are unique and a report that passes the tests of `report_failure` says that its side
-- effects are unknown, the task then stands in `recovery_required`. A claim of it, by whom and at what
-- time it may be, answers None and changes nothing, also after the due retries have been released.
pub unknown_effects_hold :
    (env : Env) (r : FailureReport) (s : State) {task : Task}
    → UniqueIds s.db.tasks
    → find_task r.task_id s.db ≡ some task
    → IsAcceptable env r task s
    → r.side_effect_state ≡ unknown
    → IsHeld r.task_id (report_failure env r s).1
unfolding run serve
unknown_effects_hold env r s {task} unique found h effects =
    let d = report_failure_decides env r s unique found h in
    let unique' : UniqueIds (report_failure env r s).1.db.tasks =
      run_unique ((env, failure r) ∷ []) s unique in
    let stored =
      subst (λ k. find (by_id k) (report_failure env r s).1.db.tasks ≡ some d.row)
        (find-id r.task_id s.db.tasks found) d.stored in
    let held : d.row.status ≡ recovery_required =
      d.moved ∙ ap (λ e. status_after (verdict r.failure_class e (left task))) effects in
    recovery_holds r.task_id (report_failure env r s).1 d.row unique' stored held
