-- ===== src/Store/Rollback.antt =====
-- Calls of src/harness/store.py that raise.
use harness_golden_path.Prelude.{ℕ, ℤ, ◌≡◌, refl, String, Option, none, some}
use harness_golden_path.Contracts.Models.{TaskCard, FailureReport, ApprovalCard}
use harness_golden_path.Store.Tables.{Db, State, ApprovalStatus}
use harness_golden_path.Store.Txn.{err, StoreError}
use harness_golden_path.Store.Actions.{Env}
use harness_golden_path.Store.Lifecycle.{create_task, create_task_txn}
use harness_golden_path.Store.Leases.{claim, claim_txn, expire_leases, expire_leases_txn}
use harness_golden_path.Store.Failures.{
  report_failure, report_failure_txn, release_due_retries, release_due_retries_txn,
}
use harness_golden_path.Store.Approvals.{
  request_approval, request_approval_txn, decide, decide_or_refuse, decide_approval, parse_decision,
}
use harness_golden_path.Store.Preserve.{Preserves-rollback}
use harness_golden_path.Store.Keeps.{Anyone, Laws}
use harness_golden_path.Store.Keeps.Pieces.{decide-Keeps}
use harness_golden_path.Store.Keeps.Calls.{
  create_task_txn-Keeps, claim_txn-Keeps, report_failure_txn-Keeps, request_approval_txn-Keeps,
  expire_leases_txn-Keeps, release_due_retries_txn-Keeps,
}

abbrev pub Anything : Db → Type 0
Anything db = Unit

pub Anything-laws : Laws Anyone Anything
Anything-laws = record {
  elsewhere = λ db db' t e h. tt;
  logged = λ db new h. tt;
  moved = λ db id expected target legal h. tt;
  scheduled = λ db id at c key h. tt;
  taken = λ db id now circuits role worker minutes h. tt;
  renewed = λ db id now worker minutes h. tt;
  expired = λ db now h. tt;
  released = λ db now circuits h. tt;
  created = λ db env card ref admitted new h. tt;
}

decide_or_refuse-rollback :
    (env : Env) (id : ℕ) (words by reason : String) (d : Option ApprovalStatus) (s : State)
    (e : StoreError)
    → (decide_or_refuse env id words by reason d s).0 ≡ err e
    → (decide_or_refuse env id words by reason d s).1.db ≡ s.db
decide_or_refuse-rollback env id words by reason none s e h = refl
decide_or_refuse-rollback env id words by reason (some d) s e h =
    Preserves-rollback (λ db. db ≡ s.db) Anything (decide env id d words by reason) s e
      (decide-Keeps (λ db. db ≡ s.db) Anything Anything-laws env id d words by reason) refl tt h

-- When one of these calls raises, for whatever reason, the tables are as they were: creating,
-- claiming, reporting a failure, requesting and deciding an approval, expiring leases, releasing
-- retries.
pub raising_calls_change_nothing :
    (env : Env) (s : State) (e : StoreError)
    → ((card : TaskCard)
        → (create_task env card s).0 ≡ err e
        → (create_task env card s).1.db ≡ s.db)
      × ((id : ℕ) (role worker : String) (minutes : ℤ)
          → (claim env id role worker minutes s).0 ≡ err e
          → (claim env id role worker minutes s).1.db ≡ s.db)
      × ((r : FailureReport)
          → (report_failure env r s).0 ≡ err e
          → (report_failure env r s).1.db ≡ s.db)
      × ((card : ApprovalCard)
          → (request_approval env card s).0 ≡ err e
          → (request_approval env card s).1.db ≡ s.db)
      × ((id : ℕ) (words by reason : String)
          → (decide_approval env id words by reason s).0 ≡ err e
          → (decide_approval env id words by reason s).1.db ≡ s.db)
      × ((expire_leases env s).0 ≡ err e → (expire_leases env s).1.db ≡ s.db)
      × ((release_due_retries env s).0 ≡ err e → (release_due_retries env s).1.db ≡ s.db)
unfolding create_task claim report_failure request_approval decide_approval expire_leases
    release_due_retries
raising_calls_change_nothing env s e =
    let C : Db → Type 0 = λ db. db ≡ s.db in
    (
      (λ card h.
          Preserves-rollback C Anything (create_task_txn env card) s e
            (create_task_txn-Keeps C Anything Anything-laws env card tt) refl tt h),
      (λ id role worker minutes h.
          Preserves-rollback C Anything (claim_txn env id role worker minutes) s e
            (claim_txn-Keeps C Anything Anything-laws env id role worker minutes) refl tt h),
      (λ r h.
          Preserves-rollback C Anything (report_failure_txn env r) s e
            (report_failure_txn-Keeps C Anything Anything-laws env r) refl tt h),
      (λ card h.
          Preserves-rollback C Anything (request_approval_txn env card) s e
            (request_approval_txn-Keeps C Anything Anything-laws env card) refl tt h),
      (λ id words by reason h.
          decide_or_refuse-rollback env id words by reason (parse_decision words) s e h),
      (λ h.
          Preserves-rollback C Anything (expire_leases_txn env) s e
            (expire_leases_txn-Keeps C Anything Anything-laws env) refl tt h),
      (λ h.
          Preserves-rollback C Anything (release_due_retries_txn env) s e
            (release_due_retries_txn-Keeps C Anything Anything-laws env) refl tt h),
    )
