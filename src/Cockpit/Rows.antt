-- ===== src/Cockpit/Rows.antt =====
-- src/harness/cockpit.py: what `build_cockpit_snapshot` reads from the tables and the policies. Costs
-- are in Rappen. A collation says which text PostgreSQL sorts first.
use harness_golden_path.Prelude.{
  ℕ, ◌+◌, String, Bool, true, false, not, ◌&&◌, ◌||◌, Option, none, some, is_some, List, [], ◌∷◌,
  map, any, select, count, one_if, sum_of, sort_by, sorted_set, tally_all, str_lt, str_mem,
  same_set, opt_is, is_nonempty, ◌=s=◌, ltb, max, if◌then◌else◌,
}
use harness_golden_path.Contracts.{
  TaskStatus, ready, claimed, in_progress, review, awaiting_approval, blocked, failed, done,
  cancelled, recovery_required, retry_wait, awaiting_decision, status_value, ◌is◌,
}
use harness_golden_path.Contracts.Models.{ResultReceipt, QuotaStatus, Artifacts}
use harness_golden_path.Contracts.Events.{event_value}
use harness_golden_path.Policy.{Model, Catalog, keys}
use harness_golden_path.Metrics.{is_operational}
use harness_golden_path.Store.Tables.{Task, Event, RoutingReceipt, Db}
use harness_golden_path.Store.Actions.{Env, by_id, before, after, is_open, is_execution}
use harness_golden_path.Cockpit.Models.{
  PanelStatus, WorkerRow, RiskSummary, available, partial, unavailable,
}

-- SQL's `max` of two values, of which either may be NULL
abbrev pub latest : Option ℕ → Option ℕ → Option ℕ
latest none b = b
latest (some a) none = some a
latest (some a) (some b) = some (max a b)

-- a task with an owner
pub record Owned : Type 0 where
  pub owner_instance : String
  pub task : Task

abbrev owned_row : Task → Option String → List Owned → List Owned
owned_row t none rest = rest
owned_row t (some worker) rest = record { owner_instance = worker; task = t } ∷ rest

-- WHERE owner_instance IS NOT NULL
unfoldable pub owned_tasks : List Task → List Owned
owned_tasks [] = []
owned_tasks (t ∷ ts) = owned_row t t.owner_instance (owned_tasks ts)

-- GROUP BY owner_role, owner_instance
abbrev pub same_worker : Owned → WorkerRow → Bool
same_worker o w = (o.task.owner_role =s= w.owner_role) && (o.owner_instance =s= w.owner_instance)

abbrev pub new_worker : Owned → WorkerRow
new_worker o = record {
  owner_role = o.task.owner_role;
  owner_instance = o.owner_instance;
  task_count = 0;
  active_task_count = 0;
  last_heartbeat_at = none;
  latest_lease_expires_at = none;
}

unfoldable pub add_task : Owned → WorkerRow → WorkerRow
add_task o w = record w {
  task_count = 1 + w.task_count;
  active_task_count = one_if (is_execution o.task.status) + w.active_task_count;
  last_heartbeat_at = latest o.task.heartbeat_at w.last_heartbeat_at;
  latest_lease_expires_at = latest o.task.lease_expires_at w.latest_lease_expires_at;
}

abbrev pub Collation : Type 0
Collation = String → String → Bool

abbrev pub worker_lt : Collation → WorkerRow → WorkerRow → Bool
worker_lt lt a b =
    lt a.owner_role b.owner_role
    || ((a.owner_role =s= b.owner_role) && lt a.owner_instance b.owner_instance)

-- `worker_rows`
unfoldable pub worker_rows : Collation → List Task → List WorkerRow
unfolding owned_tasks add_task
worker_rows lt tasks =
    sort_by (worker_lt lt) (tally_all same_worker new_worker add_task (owned_tasks tasks) [])

-- `receipt.get(…)` of each row
unfoldable pub stored_receipts : List RoutingReceipt → List ResultReceipt
stored_receipts [] = []
stored_receipts (row ∷ rows) = row.receipt ∷ stored_receipts rows

unfoldable pub quota_value : QuotaStatus → String
quota_value QuotaStatus.available = "available"
quota_value QuotaStatus.partial = "partial"
quota_value QuotaStatus.unavailable = "unavailable"
quota_value QuotaStatus.unknown = "unknown"

abbrev non_empty : List String → List String
non_empty = select (λ s. not (s =s= ""))

-- `sorted({item[key] for item in cost_receipts if item.get(key)})`; every receipt has its costs
unfoldable pub observed : (ResultReceipt → String) → List ResultReceipt → List String
observed field receipts = sorted_set (non_empty (map field receipts))

abbrev is_verified_oauth : Model → Bool
is_verified_oauth m =
    opt_is m.provider_class "subscription_oauth" && opt_is m.connection_status "verified"

unfoldable pub verified_oauth : Catalog → List String
verified_oauth models = sort_by str_lt (keys (select (λ e. is_verified_oauth e.1) models))

abbrev visibility_of : Option String → String
visibility_of none = "unavailable"
visibility_of (some v) = v

unfoldable pub visibilities : Catalog → List String
visibilities models = sorted_set (
    map (λ e. visibility_of e.1.quota_visibility)
      (select (λ e. opt_is e.1.provider_class "subscription_oauth") models))

-- `quota_panel_status`
unfoldable pub quota_panel_status : List ResultReceipt → List String → List String → PanelStatus
quota_panel_status receipts statuses visibility =
    if is_nonempty receipts
    then if is_nonempty statuses
        && same_set statuses ("available" ∷ [])
        && same_set visibility ("full" ∷ [])
      then available
      else partial
    else unavailable

abbrev pub all_statuses : List TaskStatus
all_statuses =
    ready ∷ claimed ∷ in_progress ∷ review ∷ awaiting_approval ∷ blocked ∷ failed ∷ done ∷ cancelled
    ∷ recovery_required ∷ retry_wait ∷ awaiting_decision ∷ []

-- `status_counts`: GROUP BY status, and 0 for a status of no task
unfoldable pub status_counts : List Task → List (String × ℕ)
unfolding ◌is◌ status_value
status_counts tasks = map (λ s. (status_value s, count (λ t. t.status is s) tasks)) all_statuses

-- max(created_at)
unfoldable pub last_event : List Event → Option ℕ
last_event [] = none
last_event (e ∷ es) = latest (some e.created_at) (last_event es)

abbrev pub operational_task : Task → Bool
operational_task t = is_operational t.card.projection_kind

-- the query of `risk_summary`
unfoldable pub risk_summary : Env → Db → RiskSummary
unfolding is_operational ◌is◌
risk_summary env db =
    let tasks = select operational_task db.tasks in
    record {
      blocked_count = count (λ t. t.status is blocked) tasks;
      failed_count = count (λ t. t.status is failed) tasks;
      recovery_count = count (λ t. t.status is recovery_required) tasks;
      expired_active_lease_count =
          count (λ t. is_execution t.status && before t.lease_expires_at env.now) tasks;
      open_dead_letter_count =
          count (λ d. not (is_some d.resolved_at) && any (by_id d.task_id) tasks) db.dead_letters;
      open_recovery_card_count = count (λ c. any (by_id c.task_id) tasks) db.recovery_cards;
      open_circuit_count =
          count
            (λ c.
              is_open c.state
              && after c.open_until env.now
              && any (λ t. opt_is t.circuit_key c.circuit_key) tasks)
            db.circuits;
    }

-- `any(value > 0 for value in risk_summary.values())`
unfoldable pub has_risk : RiskSummary → Bool
has_risk r =
    ltb 0 r.blocked_count
    || ltb 0 r.failed_count
    || ltb 0 r.recovery_count
    || ltb 0 r.expired_active_lease_count
    || ltb 0 r.open_dead_letter_count
    || ltb 0 r.open_recovery_card_count
    || ltb 0 r.open_circuit_count

-- `if value`
abbrev truthy : Option String → Bool
truthy none = false
truthy (some v) = not (v =s= "")

abbrev artifacts_in : Artifacts → ℕ
artifacts_in a =
    one_if (truthy a.branch)
    + one_if (truthy a.worktree_ref)
    + one_if (truthy a.commit_sha)
    + one_if (truthy a.pull_request)
    + one_if (truthy a.test_report)

unfoldable pub artifact_count : List ResultReceipt → ℕ
artifact_count = sum_of (λ r. artifacts_in r.artifacts)

-- event_type IN ('knowledge_captured', 'handover_recorded')
unfoldable pub is_knowledge : Event → Bool
unfolding event_value
is_knowledge e =
    str_mem (event_value e.event_type) ("knowledge_captured" ∷ "handover_recorded" ∷ [])

-- `bool(value.get(…, False))`
abbrev pub or_false : Option Bool → Bool
or_false none = false
or_false (some b) = b

abbrev pub or_unavailable : List String → List String
or_unavailable [] = "unavailable" ∷ []
or_unavailable (v ∷ vs) = v ∷ vs

abbrev pub if_available : Bool → PanelStatus
if_available true = available
if_available false = unavailable
