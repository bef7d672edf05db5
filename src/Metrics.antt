-- ===== src/Metrics.antt =====
-- src/harness/metrics.py: the counts that `build_quality_metrics_snapshot` takes from the receipts. A
-- rate is the float next to numerator / denominator, and only these two are kept. Costs are in Rappen.
pub mod Sums
pub mod Receipts
pub mod RouteCounts
pub mod Totals
use harness_golden_path.Prelude.{
  ℕ, ◌+◌, String, Bool, true, false, not, ◌&&◌, ◌||◌, Option, none, some, List, [], ◌∷◌, length,
  find, count, sort_by, tally_all, str_lt, ◌=s=◌, ◌==◌, ltb, if◌then◌else◌,
}
use harness_golden_path.Contracts.{ProjectionKind, operational, evidence, provider_value}
use harness_golden_path.Contracts.Models
use harness_golden_path.Contracts.Models.{Outcome, ResultReceipt, CheckState, passed, not_run}
use harness_golden_path.Store.Tables.{Task, RoutingReceipt, Db}
use harness_golden_path.Store.Actions.{Env, by_id}

-- `status` of a metric
pub data Availability : Type 0 where
  available unavailable : Availability

pub record MetricValue : Type 0 where
  pub status : Availability
  pub numerator : Option ℕ
  pub denominator : Option ℕ
  pub reason : Option String

pub record RouteMetrics : Type 0 where
  pub model_ref : String
  pub provider_class : String
  pub receipt_count : ℕ
  pub completed_count : ℕ
  pub non_completed_count : ℕ
  pub incremental_cost_chf : ℕ

-- a row of `validation_checks`: how many receipts give each state
pub record StateCounts : Type 0 where
  pub passed : ℕ
  pub failed : ℕ
  pub not_run : ℕ

pub record ValidationChecks : Type 0 where
  pub lint : StateCounts
  pub tests : StateCounts

pub record QualityMetricsSnapshot : Type 0 where
  pub generated_at : ℕ
  pub receipt_count : ℕ
  pub first_pass_rate : MetricValue
  pub retry_rate : MetricValue
  pub escalation_rate : MetricValue
  pub rework_minutes : MetricValue
  pub validation_checks : ValidationChecks
  pub routes : List RouteMetrics

abbrev unavailable_for : String → MetricValue
unavailable_for reason = record {
  status = unavailable;
  numerator = none;
  denominator = none;
  reason = some reason;
}

-- `_rate_metric`
unfoldable pub rate_metric : ℕ → ℕ → MetricValue
rate_metric numerator denominator =
    if denominator == 0
    then unavailable_for "no terminal ResultReceiptV1 evidence is persisted"
    else record {
      status = available;
      numerator = some numerator;
      denominator = some denominator;
      reason = none;
    }

-- card->>'projection_kind' = 'operational'
unfoldable pub is_operational : ProjectionKind → Bool
is_operational operational = true
is_operational evidence = false

-- a row of the query
pub record Joined : Type 0 where
  pub outcome : Outcome
  pub receipt : ResultReceipt
  pub attempt_count : ℕ

abbrev join_row : RoutingReceipt → Option Task → List Joined → List Joined
join_row rr none rest = rest
join_row rr (some task) rest =
    if is_operational task.card.projection_kind
    then record { outcome = rr.outcome; receipt = rr.receipt; attempt_count = task.attempt_count }
      ∷ rest
    else rest

-- routing_receipts JOIN agent_tasks, on its primary key; ORDER BY receipt_id is the order of insertion
unfoldable pub join_tasks : List Task → List RoutingReceipt → List Joined
unfolding is_operational
join_tasks tasks [] = []
join_tasks tasks (rr ∷ rest) = join_row rr (find (by_id rr.task_id) tasks) (join_tasks tasks rest)

unfoldable pub is_completed : Outcome → Bool
is_completed Outcome.completed = true
is_completed Outcome.failed = false
is_completed Outcome.blocked = false

abbrev pub is_passed : CheckState → Bool
is_passed CheckState.passed = true
is_passed CheckState.failed = false
is_passed CheckState.not_run = false

abbrev pub is_failed : CheckState → Bool
is_failed CheckState.passed = false
is_failed CheckState.failed = true
is_failed CheckState.not_run = false

abbrev pub is_not_run : CheckState → Bool
is_not_run CheckState.passed = false
is_not_run CheckState.failed = false
is_not_run CheckState.not_run = true

-- the counts of one check
unfoldable pub state_counts : List CheckState → StateCounts
state_counts states = record {
  passed = count is_passed states;
  failed = count is_failed states;
  not_run = count is_not_run states;
}

-- `model_ref` and `provider_class` of a row; a receipt always has both
unfoldable pub has_route : Joined → Bool
has_route row = not (row.receipt.cost_receipt.model_ref =s= "")

abbrev pub same_route : Joined → RouteMetrics → Bool
same_route row m =
    (row.receipt.cost_receipt.model_ref =s= m.model_ref)
    && (provider_value row.receipt.cost_receipt.provider_class =s= m.provider_class)

abbrev pub new_route : Joined → RouteMetrics
new_route row = record {
  model_ref = row.receipt.cost_receipt.model_ref;
  provider_class = provider_value row.receipt.cost_receipt.provider_class;
  receipt_count = 0;
  completed_count = 0;
  non_completed_count = 0;
  incremental_cost_chf = 0;
}

abbrev pub one_more : Bool → Joined → RouteMetrics → RouteMetrics
one_more true row m = record m {
  receipt_count = 1 + m.receipt_count;
  completed_count = 1 + m.completed_count;
  incremental_cost_chf = row.receipt.cost_receipt.incremental_cost_chf + m.incremental_cost_chf;
}
one_more false row m = record m {
  receipt_count = 1 + m.receipt_count;
  non_completed_count = 1 + m.non_completed_count;
  incremental_cost_chf = row.receipt.cost_receipt.incremental_cost_chf + m.incremental_cost_chf;
}

-- the body of the loop, on the entry of the row's route
unfoldable pub add_receipt : Joined → RouteMetrics → RouteMetrics
unfolding is_completed
add_receipt row m = one_more (is_completed row.outcome) row m

-- `if not model_ref or not provider_class: continue`
unfoldable pub with_route : List Joined → List Joined
unfolding has_route
with_route [] = []
with_route (row ∷ rows) = let rest = with_route rows in if has_route row then row ∷ rest else rest

-- `route_totals`
unfoldable pub route_totals : List Joined → List RouteMetrics
unfolding with_route add_receipt
route_totals rows = tally_all same_route new_route add_receipt (with_route rows) []

-- the key of the sort
abbrev pub route_lt : RouteMetrics → RouteMetrics → Bool
route_lt a b =
    str_lt a.model_ref b.model_ref
    || ((a.model_ref =s= b.model_ref) && str_lt a.provider_class b.provider_class)

unfoldable pub first_pass : Joined → Bool
unfolding is_completed
first_pass row = is_completed row.outcome && (row.attempt_count == 1)

abbrev pub retried : Joined → Bool
retried row = ltb 1 row.attempt_count

-- `[item.get(check) for item in validations]`
unfoldable pub lint_states : List ResultReceipt → List CheckState
lint_states [] = []
lint_states (r ∷ rs) = r.validation.lint ∷ lint_states rs

unfoldable pub tests_states : List ResultReceipt → List CheckState
tests_states [] = []
tests_states (r ∷ rs) = r.validation.tests ∷ tests_states rs

unfoldable pub validation_checks : List ResultReceipt → ValidationChecks
unfolding lint_states tests_states state_counts
validation_checks receipts = record {
  lint = state_counts (lint_states receipts);
  tests = state_counts (tests_states receipts);
}

unfoldable pub receipts_of : List Joined → List ResultReceipt
receipts_of [] = []
receipts_of (row ∷ rows) = row.receipt ∷ receipts_of rows

-- `build_quality_metrics_snapshot`
unfoldable pub build_quality_metrics_snapshot : Env → Db → QualityMetricsSnapshot
unfolding join_tasks route_totals validation_checks receipts_of first_pass rate_metric
build_quality_metrics_snapshot env db =
    let rows = join_tasks db.tasks db.receipts in
    record {
      generated_at = env.now;
      receipt_count = length rows;
      first_pass_rate = rate_metric (count first_pass rows) (length rows);
      retry_rate = rate_metric (count retried rows) (length rows);
      escalation_rate = unavailable_for "no normalized escalation event is persisted";
      rework_minutes = unavailable_for "no rework duration is persisted";
      validation_checks = validation_checks (receipts_of rows);
      routes = sort_by route_lt (route_totals rows);
    }
