-- ===== src/Store/Requests.antt =====
-- The calls of the store that the API of src/harness/app.py makes, and runs of them.
use harness_golden_path.Prelude.{ℕ, ℤ, String, List, [], ◌∷◌}
use harness_golden_path.Contracts.Models.{TaskCard, ResultReceipt, FailureReport, ApprovalCard}
use harness_golden_path.Store.Tables.{State}
use harness_golden_path.Store.Actions.{Env}
use harness_golden_path.Store.Lifecycle.{create_task}
use harness_golden_path.Store.Leases
use harness_golden_path.Store.Leases.{expire_leases}
use harness_golden_path.Store.Failures.{report_failure, release_due_retries}
use harness_golden_path.Store.Receipts.{submit_receipt}
use harness_golden_path.Store.Approvals.{request_approval, decide_approval}

pub data Request : Type 0 where
  create : TaskCard → Request
  claim : ℕ → String → String → ℤ → Request
  heartbeat : ℕ → String → ℤ → Request
  receipt : ResultReceipt → Request
  failure : FailureReport → Request
  ask : ApprovalCard → Request
  decision : ℕ → String → String → String → Request
  expire : Request
  release : Request

-- The state that a call leaves, whether it answers or raises.
unfoldable pub serve : Env → Request → State → State
serve env (create card) s = (create_task env card s).1
serve env (claim id role worker minutes) s = (Leases.claim env id role worker minutes s).1
serve env (heartbeat id worker minutes) s = (Leases.heartbeat env id worker minutes s).1
serve env (receipt r) s = (submit_receipt env r s).1
serve env (failure r) s = (report_failure env r s).1
serve env (ask card) s = (request_approval env card s).1
serve env (decision id text by reason) s = (decide_approval env id text by reason s).1
serve env expire s = (expire_leases env s).1
serve env release s = (release_due_retries env s).1

-- Calls one after another, each at its own time.
unfoldable pub run : List (Env × Request) → State → State
run [] s = s
run ((env, request) ∷ rest) s = run rest (serve env request s)

module _ (P : State → Type 0)
    (step : (env : Env) (request : Request) (s : State) → P s → P (serve env request s)) where
  pub run_induction : (calls : List (Env × Request)) (s : State) → P s → P (run calls s)
  unfolding run
  run_induction [] s h = h
  run_induction ((env, request) ∷ rest) s h =
      run_induction rest (serve env request s) (step env request s h)
