-- ===== src/App/Http.antt =====
-- src/harness/app.py: the endpoints with what FastAPI has parsed for them, and the answers. A UUID of
-- a path is its 128-bit number. `detail` texts that only repeat an exception are that exception.
use Prim.Native.String.{◌++◌ as ◌++ₛ◌}
use harness_golden_path.Prelude.{ℕ, ℤ, String, Bool, Option, List}
use harness_golden_path.Contracts.{TaskStatus}
use harness_golden_path.Contracts.Models.{TaskCard, ResultReceipt, FailureReport}
use harness_golden_path.Auth.{AuthError}
use harness_golden_path.Policy.{PolicyError}
use harness_golden_path.Projection.{Batch}
use harness_golden_path.Metrics.{QualityMetricsSnapshot}
use harness_golden_path.Cockpit.Models.{CockpitSnapshot}
use harness_golden_path.Store.Tables.{Task, Event}
use harness_golden_path.Store.Txn.{StoreError}
use harness_golden_path.Store.Failures.{Decision}
use harness_golden_path.Store.Snapshots.{ResilienceSnapshot}

pub record ClaimRequest : Type 0 where
  pub owner_role : String
  pub worker_id : String
  pub lease_minutes : ℤ

pub record HeartbeatRequest : Type 0 where
  pub worker_id : String
  pub lease_minutes : ℤ

pub record ApprovalRequest : Type 0 where
  pub action : String
  pub requested_by : String

pub record DecisionRequest : Type 0 where
  pub decision : String
  pub decided_by : String
  pub reason : String

-- one constructor for each function that `create_app` registers
pub data Endpoint : Type 0 where
  health cockpit quality_metrics resilience expire_leases release_retries : Endpoint
  pandaos_projection : ℤ → Bool → Endpoint
  create_task : TaskCard → Endpoint
  get_task trace : ℕ → Endpoint
  claim : ℕ → ClaimRequest → Endpoint
  heartbeat : ℕ → HeartbeatRequest → Endpoint
  receipts : ℕ → ResultReceipt → Endpoint
  report_failure : ℕ → FailureReport → Endpoint
  approval_request : ℕ → ApprovalRequest → Endpoint
  decide : ℕ → DecisionRequest → Endpoint

-- the methods of the decorators
unfoldable pub method_of : Endpoint → String
method_of health = "GET"
method_of cockpit = "GET"
method_of quality_metrics = "GET"
method_of resilience = "GET"
method_of (pandaos_projection _ _) = "GET"
method_of (get_task _) = "GET"
method_of (trace _) = "GET"
method_of expire_leases = "POST"
method_of release_retries = "POST"
method_of (create_task _) = "POST"
method_of (claim _ _) = "POST"
method_of (heartbeat _ _) = "POST"
method_of (receipts _ _) = "POST"
method_of (report_failure _ _) = "POST"
method_of (approval_request _ _) = "POST"
method_of (decide _ _) = "POST"

-- the paths of the decorators, with the text that stands for the parameter in braces
unfoldable pub path_of : Endpoint → String → String
path_of health text = "/health"
path_of cockpit text = "/v1/operations/cockpit"
path_of quality_metrics text = "/v1/operations/metrics"
path_of resilience text = "/v1/operations/resilience"
path_of (pandaos_projection _ _) text = "/v1/projections/pandaos"
path_of (get_task _) text = "/v1/tasks/" ++ₛ text
path_of (trace _) text = "/v1/traces/" ++ₛ text
path_of expire_leases text = "/v1/maintenance/expire-leases"
path_of release_retries text = "/v1/maintenance/release-retries"
path_of (create_task _) text = "/v1/tasks"
path_of (claim _ _) text = "/v1/tasks/" ++ₛ (text ++ₛ "/claim")
path_of (heartbeat _ _) text = "/v1/tasks/" ++ₛ (text ++ₛ "/heartbeat")
path_of (receipts _ _) text = "/v1/tasks/" ++ₛ (text ++ₛ "/receipts")
path_of (report_failure _ _) text = "/v1/tasks/" ++ₛ (text ++ₛ "/failures")
path_of (approval_request _ _) text = "/v1/tasks/" ++ₛ (text ++ₛ "/approval-requests")
path_of (decide _ _) text = "/v1/approvals/" ++ₛ (text ++ₛ "/decisions")

-- A request that the router has matched. `drawn_id` is what `uuid4` gives where the request makes
-- an approval card.
pub record HttpRequest : Type 0 where
  pub endpoint : Endpoint
  pub path_text : String
  pub authorization : Option String
  pub drawn_id : ℕ

pub data Body : Type 0 where
  detail : String → Body
  store_detail : StoreError → Body
  auth_detail : AuthError → Body
  policy_detail : PolicyError → Body
  -- of an exception that no handler catches
  internal_error : Body
  healthy : Body
  cockpit_body : CockpitSnapshot → Body
  metrics_body : QualityMetricsSnapshot → Body
  resilience_body : ResilienceSnapshot → Body
  projection_body : Batch → Body
  created_body : Task → Bool → Body
  task_body : Task → Body
  decision_body : Decision → Body
  -- of an approval, with its id and the status of its task
  approval_body : ℕ → TaskStatus → Body
  events_body : List Event → Body
  tasks_body : List Task → Body

pub record Response : Type 0 where
  pub status_code : ℕ
  pub body : Body

abbrev pub respond : ℕ → Body → Response
respond status_code body = record { status_code = status_code; body = body }
