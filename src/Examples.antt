-- ===== src/Examples.antt =====
-- Inputs for the examples.
pub mod Work
pub mod Records
pub mod Displays
pub mod Rules
pub mod Verdicts
pub mod Graphs
pub mod Service
pub mod Watch
use harness_golden_path.Prelude.{ℕ, ◌+◌, String, false, Option, none, some, List, [], ◌∷◌}
use harness_golden_path.Contracts.{
  TaskStatus, ready, claimed, in_progress, done, recovery_required, hermes_nas, local_model,
  internal, operational, transient, unknown, no_effect, confirmed_none, FailureClass,
  SideEffectState,
}
use harness_golden_path.Contracts.Models
use harness_golden_path.Contracts.Models.{TaskCard, ResultReceipt, FailureReport, completed}
use harness_golden_path.Store.Tables.{Task, Circuit, State, empty_db, closed, opened, Event}
use harness_golden_path.Store.Actions.{Env}

abbrev pub env : Env
env = record { now = 1000000; uuid4 = λ n. n + 100 }

abbrev pub later : Env
later = record { now = 9000000000; uuid4 = λ n. n + 100 }

abbrev pub card_with : List String → TaskCard
card_with approvals = record {
  task_id = 1;
  correlation_id = 7;
  title = "Watch the weather page";
  project = "harness";
  task_class = "read_only_monitor";
  data_classification = internal;
  projection_kind = operational;
  owner_role = hermes_nas;
  objective = "Fetch the page and report its status.";
  scope = record { include = "docs" ∷ []; exclude = [] };
  acceptance = "A report is stored" ∷ [];
  budget = record {
    max_runtime_minutes = 600;
    max_attempts = 2;
    max_incremental_cloud_cost_chf = 0;
  };
  model_routing = record {
    permitted_provider_classes = local_model ∷ [];
    default_route = "deterministic_monitor" ∷ [];
  };
  idempotency_key = "weather-2026-11-26";
  approval_required = approvals;
}

abbrev pub card : TaskCard
card = card_with []

abbrev pub task_with : TaskStatus → List String → Option ℕ → Task
task_with status approvals lease = record {
  task_id = 1;
  correlation_id = 7;
  title = "Watch the weather page";
  project = "harness";
  owner_role = "hermes_nas";
  status = status;
  card = card_with approvals;
  idempotency_key = "weather-2026-11-26";
  approval_required = approvals;
  owner_instance = some "nas-1";
  claimed_at = none;
  heartbeat_at = none;
  lease_expires_at = lease;
  attempt_count = 1;
  created_at = 0;
  next_attempt_at = none;
  last_failure_class = none;
  circuit_key = some "route:deterministic_monitor";
}

abbrev pub idle : Task
idle = task_with ready [] none

abbrev pub running : Task
running = task_with claimed [] (some 5000000)

abbrev pub guarded : Task
guarded = task_with claimed ("merge_main" ∷ []) (some 5000000)

abbrev pub finished : Task
finished = task_with done [] none

abbrev pub state_with : Task → List Circuit → State
state_with t circuits = record {
  db = record empty_db { tasks = t ∷ []; circuits = circuits };
  sequences = record { event = 0; receipt = 0; dead_letter = 0; drawn = 0 };
}

abbrev pub report_of : FailureClass → SideEffectState → FailureReport
report_of failure_class effects = record {
  task_id = 1;
  correlation_id = 7;
  worker_instance = "nas-1";
  failure_class = failure_class;
  reason = "the page did not answer";
  side_effect_state = effects;
  circuit_key = none;
  retry_after_seconds = none;
}

abbrev pub receipt_by : String → ResultReceipt
receipt_by worker = record {
  task_id = 1;
  correlation_id = 7;
  worker_instance = worker;
  outcome = completed;
  summary = "the page answered";
  artifacts = record {
    branch = none;
    worktree_ref = none;
    commit_sha = none;
    pull_request = none;
    test_report = none;
  };
  validation = record { lint = Models.not_run; tests = Models.not_run; details = "" };
  cost_receipt = record {
    provider_class = local_model;
    model_ref = "deterministic_monitor";
    incremental_cost_chf = 0;
    subscription_quota_consumed = false;
    quota_status = Models.available;
  };
}

abbrev pub circuit_with : ℕ → Circuit
circuit_with failures = record {
  circuit_key = "route:deterministic_monitor";
  state = closed;
  failure_count = failures;
  failure_threshold = 3;
  opened_at = none;
  open_until = none;
  last_failure_class = some transient;
  updated_at = 0;
}

abbrev pub open_one : Circuit
open_one = record (circuit_with 3) {
  state = opened;
  opened_at = some 0;
  open_until = some 300000000;
}
