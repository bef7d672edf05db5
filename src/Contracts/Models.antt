-- ===== src/Contracts/Models.antt =====
-- src/harness/contracts.py: the fields of the pydantic models. A text is held as it is after
-- `str_strip_whitespace`; a UUID is its 128-bit number, a time counts microseconds. `schema_version`
-- and the other one-valued literals are left out, and so is `created_at`, which no code reads.
use harness_golden_path.Prelude.{ℕ, String, Bool, Option, List}
use harness_golden_path.Contracts.{
  ExecutorRole, ProviderClass, DataClassification, ProjectionKind, FailureClass, SideEffectState,
}

pub record Budget : Type 0 where
  pub max_runtime_minutes : ℕ
  pub max_attempts : ℕ
  -- a float in the source, of which the constraint leaves 0 alone; here in Rappen
  pub max_incremental_cloud_cost_chf : ℕ

pub record Scope : Type 0 where
  pub include : List String
  pub exclude : List String

pub record ModelRouting : Type 0 where
  pub permitted_provider_classes : List ProviderClass
  pub default_route : List String

pub record TaskCard : Type 0 where
  pub task_id : ℕ
  pub correlation_id : ℕ
  pub title : String
  pub project : String
  pub task_class : String
  pub data_classification : DataClassification
  pub projection_kind : ProjectionKind
  pub owner_role : ExecutorRole
  pub objective : String
  pub scope : Scope
  pub acceptance : List String
  pub budget : Budget
  pub model_routing : ModelRouting
  pub idempotency_key : String
  pub approval_required : List String

pub data Outcome : Type 0 where
  completed failed blocked : Outcome

pub data CheckState : Type 0 where
  passed failed not_run : CheckState

pub record Validation : Type 0 where
  pub lint : CheckState
  pub tests : CheckState
  pub details : String

pub record Artifacts : Type 0 where
  pub branch : Option String
  pub worktree_ref : Option String
  pub commit_sha : Option String
  pub pull_request : Option String
  pub test_report : Option String

pub data QuotaStatus : Type 0 where
  available partial unavailable unknown : QuotaStatus

pub record CostReceipt : Type 0 where
  pub provider_class : ProviderClass
  pub model_ref : String
  pub incremental_cost_chf : ℕ
  pub subscription_quota_consumed : Bool
  pub quota_status : QuotaStatus

pub record ResultReceipt : Type 0 where
  pub task_id : ℕ
  pub correlation_id : ℕ
  pub worker_instance : String
  pub outcome : Outcome
  pub summary : String
  pub artifacts : Artifacts
  pub validation : Validation
  pub cost_receipt : CostReceipt

pub record FailureReport : Type 0 where
  pub task_id : ℕ
  pub correlation_id : ℕ
  pub worker_instance : String
  pub failure_class : FailureClass
  pub reason : String
  pub side_effect_state : SideEffectState
  pub circuit_key : Option String
  pub retry_after_seconds : Option ℕ

pub record ApprovalCard : Type 0 where
  pub approval_id : ℕ
  pub task_id : ℕ
  pub action : String
  pub requested_by : String
