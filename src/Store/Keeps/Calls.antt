-- ===== src/Store/Keeps/Calls.antt =====
-- A property with the laws of Store/Keeps under the calls of src/harness/store.py.
use harness_golden_path.Prelude.{ℕ, ℤ, String, Option, none, some, List, [], ◌∷◌, All}
use harness_golden_path.Contracts.Models.{FailureReport, ResultReceipt, ApprovalCard, TaskCard}
use harness_golden_path.Store.Tables.{Db, State, ApprovalStatus}
use harness_golden_path.Store.Actions.{Env}
use harness_golden_path.Store.Lifecycle.{create_task, create_task_txn}
use harness_golden_path.Store.Leases.{
  claim, claim_txn, heartbeat, heartbeat_txn, expire_leases, expire_leases_txn,
}
use harness_golden_path.Store.Failures.{
  report_failure, report_failure_txn, release_due_retries_txn, release_due_retries,
}
use harness_golden_path.Store.Receipts.{submit_receipt, submit_receipt_txn}
use harness_golden_path.Store.Approvals.{
  request_approval, request_approval_txn, decide, parse_decision, decide_or_refuse, decide_approval,
}
use harness_golden_path.Store.Preserve.{
  Preserves, Preserves-with_connect, Preserves-pure, Preserves-raise, Preserves-gets,
  Preserves-or_raise, Preserves-branch, Preserves-bind, Preserves-on_row, Preserves-commit,
  Preserves-raise_if, Preserves-for_each,
}
use harness_golden_path.Store.Requests.{
  Request, create, receipt, failure, ask, decision, expire, release, serve, run,
}
use harness_golden_path.Contracts.Events.{task_claimed, heartbeat_rejected, text, number}
use harness_golden_path.Store.Txn
use harness_golden_path.Store.Txn.{on_row, pure, gets, commit, raise, ◌>>=◌, ◌>>◌}
use harness_golden_path.Prelude.{fetchone}
use harness_golden_path.Store.Tables.{Task}
use harness_golden_path.Store.Actions.{find_task, event}
use harness_golden_path.Store.Keeps.{Anyone, Laws}
use harness_golden_path.Store.Keeps.Pieces.{
  accept-Keeps, decide-Keeps, event-Keeps, expired-Keeps, insert_approval-Keeps, insert_task-Keeps,
  react-Keeps, recover-Keeps, recover_row-Keeps, reject-Keeps, released-Keeps, renewed-Keeps,
  set_status-Keeps, taken-Keeps, tell_release-Keeps,
}

module _ {Admits : TaskCard → Type 0} (C P : Db → Type 0) (laws : Laws Admits P) where
  ruleset keeps_rules = (
    Preserves-pure, Preserves-raise, Preserves-gets, Preserves-or_raise, Preserves-branch,
    Preserves-bind, Preserves-on_row, Preserves-raise_if, Preserves-for_each, event-Keeps,
    set_status-Keeps, recover-Keeps, react-Keeps, accept-Keeps, expired-Keeps, released-Keeps,
    recover_row-Keeps, tell_release-Keeps, insert_approval-Keeps, insert_task-Keeps,
  )

  pub create_task_txn-Keeps :
      (env : Env) (card : TaskCard) → Admits card → Preserves C P (create_task_txn env card)
  unfolding create_task_txn
  create_task_txn-Keeps env card admitted = search keeps_rules depth 14

  -- What `claim` does with the row that it has taken, or with none.
  tell_claim-Keeps :
      (env : Env) (worker : String) (rows : List Task)
      → Preserves C P (
          on_row
            (fetchone rows)
            (λ row. do
              event env row.task_id row.correlation_id task_claimed
                  (("worker", text worker) ∷ ("attempt", number row.attempt_count) ∷ [])
              pure (some row))
            (pure none))
  tell_claim-Keeps env worker rows = search (keeps_rules) depth 14

  -- What `heartbeat` does with the row that it has renewed, or with none.
  tell_refusal-Keeps :
      ((db : Db) → P db → C db)
      → (env : Env) (id : ℕ) (worker : String) (rows : List Task)
      → Preserves C P (
          on_row (fetchone rows) pure do
            found ← gets (find_task id)
            on_row found
                (λ task.
                  event env task.task_id task.correlation_id heartbeat_rejected
                    (("worker", text worker) ∷ []))
                (pure tt)
            commit
            raise Txn.heartbeat_rejected)
  tell_refusal-Keeps sync env id worker rows = search (keeps_rules, Preserves-commit) depth 14

  pub claim_txn-Keeps :
      (env : Env) (id : ℕ) (role worker : String) (minutes : ℤ)
      → Preserves C P (claim_txn env id role worker minutes)
  unfolding claim_txn
  claim_txn-Keeps env id role worker minutes = Preserves-bind _ _ (Preserves-gets _) λ circuits.
      Preserves-bind _ _ (taken-Keeps C P laws id env.now circuits role worker minutes)
        (tell_claim-Keeps env worker)

  pub heartbeat_txn-Keeps :
      ((db : Db) → P db → C db)
      → (env : Env) (id : ℕ) (worker : String) (minutes : ℤ)
      → Preserves C P (heartbeat_txn env id worker minutes)
  unfolding heartbeat_txn
  heartbeat_txn-Keeps sync env id worker minutes =
      Preserves-bind _ _ (renewed-Keeps C P laws id env.now worker minutes)
        (tell_refusal-Keeps sync env id worker)

  pub submit_receipt_txn-Keeps :
      ((db : Db) → P db → C db)
      → (env : Env) (r : ResultReceipt) → Preserves C P (submit_receipt_txn env r)
  unfolding submit_receipt_txn
  submit_receipt_txn-Keeps sync env r = search (keeps_rules, reject-Keeps C P laws sync) depth 14

  pub report_failure_txn-Keeps :
      (env : Env) (r : FailureReport) → Preserves C P (report_failure_txn env r)
  unfolding report_failure_txn
  report_failure_txn-Keeps env r = search keeps_rules depth 14

  pub request_approval_txn-Keeps :
      (env : Env) (card : ApprovalCard) → Preserves C P (request_approval_txn env card)
  unfolding request_approval_txn
  request_approval_txn-Keeps env card = search keeps_rules depth 14

  pub expire_leases_txn-Keeps : (env : Env) → Preserves C P (expire_leases_txn env)
  unfolding expire_leases_txn
  expire_leases_txn-Keeps env = search keeps_rules depth 14

  pub release_due_retries_txn-Keeps : (env : Env) → Preserves C P (release_due_retries_txn env)
  unfolding release_due_retries_txn
  release_due_retries_txn-Keeps env = search keeps_rules depth 14

-- The cards that a call brings are admitted.
abbrev pub Admitted : (TaskCard → Type 0) → Request → Type 0
Admitted Admits (create card) = Admits card
Admitted Admits _ = Unit

module _ {Admits : TaskCard → Type 0} (P : Db → Type 0) (laws : Laws Admits P) where
  decided-Keeps :
      (env : Env) (id : ℕ) (words by reason : String) (d : Option ApprovalStatus) (s : State)
      → P s.db
      → P (decide_or_refuse env id words by reason d s).1.db
  decided-Keeps env id words by reason none s h = h
  decided-Keeps env id words by reason (some d) s h =
      Preserves-with_connect (decide env id d words by reason) s
        (decide-Keeps P P laws env id d words by reason) h

  decide_approval-Keeps :
      (env : Env) (id : ℕ) (words by reason : String) (s : State)
      → P s.db
      → P (decide_approval env id words by reason s).1.db
  unfolding decide_approval
  decide_approval-Keeps env id words by reason s h =
      decided-Keeps env id words by reason (parse_decision words) s h

  -- Every call keeps a property that has the laws, whether it answers or raises.
  pub serve-Keeps :
      (env : Env) (request : Request) (s : State)
      → Admitted Admits request
      → P s.db
      → P (serve env request s).db
  unfolding serve create_task claim heartbeat submit_receipt report_failure request_approval
      expire_leases release_due_retries
  serve-Keeps env (create card) s ok h =
      Preserves-with_connect (create_task_txn env card) s
        (create_task_txn-Keeps P P laws env card ok) h
  serve-Keeps env (Request.claim id role worker minutes) s ok h =
      Preserves-with_connect (claim_txn env id role worker minutes) s
        (claim_txn-Keeps P P laws env id role worker minutes) h
  serve-Keeps env (Request.heartbeat id worker minutes) s ok h =
      Preserves-with_connect (heartbeat_txn env id worker minutes) s
        (heartbeat_txn-Keeps P P laws (λ db h. h) env id worker minutes) h
  serve-Keeps env (receipt r) s ok h =
      Preserves-with_connect (submit_receipt_txn env r) s
        (submit_receipt_txn-Keeps P P laws (λ db h. h) env r) h
  serve-Keeps env (failure r) s ok h =
      Preserves-with_connect (report_failure_txn env r) s (report_failure_txn-Keeps P P laws env r)
        h
  serve-Keeps env (ask card) s ok h =
      Preserves-with_connect (request_approval_txn env card) s
        (request_approval_txn-Keeps P P laws env card) h
  serve-Keeps env expire s ok h =
      Preserves-with_connect (expire_leases_txn env) s (expire_leases_txn-Keeps P P laws env) h
  serve-Keeps env release s ok h =
      Preserves-with_connect (release_due_retries_txn env) s
        (release_due_retries_txn-Keeps P P laws env) h
  serve-Keeps env (decision id words by reason) s ok h =
      decide_approval-Keeps env id words by reason s h

  pub run-Keeps :
      (calls : List (Env × Request)) (s : State)
      → All (λ c. Admitted Admits c.1) calls
      → P s.db
      → P (run calls s).db
  unfolding run
  run-Keeps [] s ok h = h
  run-Keeps ((env, request) ∷ rest) s ok h =
      run-Keeps rest (serve env request s) ok.1 (serve-Keeps env request s ok.0 h)

no_card_refused : (request : Request) → Admitted Anyone request
no_card_refused (create card) = tt
no_card_refused _ = tt

no_call_refused : (calls : List (Env × Request)) → All (λ c. Admitted Anyone c.1) calls
no_call_refused [] = tt
no_call_refused ((env, request) ∷ rest) = (no_card_refused request, no_call_refused rest)

-- A property that does not depend on the cards is kept by every run.
pub run_keeps :
    (P : Db → Type 0) (laws : Laws Anyone P) (calls : List (Env × Request)) (s : State)
    → P s.db
    → P (run calls s).db
run_keeps P laws calls s h = run-Keeps P laws calls s (no_call_refused calls) h
