-- ===== src/Cockpit/Panels.antt =====
-- `build_cockpit_snapshot` of src/harness/cockpit.py: the panels.
use harness_golden_path.Prelude.{
  ◌||◌, List, [], ◌∷◌, length, count, sum_of, sort_by, str_lt, is_nonempty, ltb, if◌then◌else◌,
}
use harness_golden_path.Contracts.{provider_value}
use harness_golden_path.Contracts.Models.{ResultReceipt}
use harness_golden_path.Policy.{Catalog, RoutingPolicy, keys}
use harness_golden_path.Metrics.{validation_checks}
use harness_golden_path.Store.Tables.{Db}
use harness_golden_path.Store.Actions.{Env}
use harness_golden_path.Cockpit.Models.{
  CockpitPanel, ModelOauth, QuotaCost, Quality, FlowSummary, RiskSummary, Knowledge, Routing,
  CockpitSnapshot, available, partial,
}
use harness_golden_path.Cockpit.Rows.{
  Collation, worker_rows, stored_receipts, quota_value, observed, verified_oauth, visibilities,
  quota_panel_status, status_counts, last_event, risk_summary, has_risk, artifact_count,
  is_knowledge, if_available, or_false, or_unavailable,
}

-- the panels on the receipts and the policies
unfoldable pub oauth_panel : Catalog → List ResultReceipt → CockpitPanel ModelOauth
unfolding verified_oauth observed
oauth_panel models receipts = record {
  status = if_available (is_nonempty (verified_oauth models));
  sources = "policies/model-catalog.yaml" ∷ "routing_receipts.receipt.cost_receipt" ∷ [];
  content = record {
    verified_oauth_routes = verified_oauth models;
    observed_models = observed (λ r. r.cost_receipt.model_ref) receipts;
    live_oauth_probe = "unavailable";
  };
}

unfoldable pub quota_panel : Catalog → List ResultReceipt → CockpitPanel QuotaCost
unfolding observed visibilities quota_panel_status quota_value
quota_panel models receipts =
    let statuses = observed (λ r. quota_value r.cost_receipt.quota_status) receipts in
    record {
      status = quota_panel_status receipts statuses (visibilities models);
      sources = "routing_receipts.receipt.cost_receipt" ∷ "policies/model-catalog.yaml" ∷ [];
      content = record {
        receipt_count = length receipts;
        incremental_cost_chf = sum_of (λ r. r.cost_receipt.incremental_cost_chf) receipts;
        quota_statuses = statuses;
        quota_visibility = or_unavailable (visibilities models);
      };
    }

unfoldable pub quality_panel : List ResultReceipt → CockpitPanel Quality
quality_panel receipts = record {
  status = if_available (is_nonempty receipts);
  sources = "routing_receipts.receipt.validation" ∷ [];
  content = record { receipt_count = length receipts; checks = validation_checks receipts };
}

unfoldable pub flow_panel : Db → CockpitPanel FlowSummary
unfolding status_counts last_event
flow_panel db = record {
  status = available;
  sources = "agent_tasks.status" ∷ "agent_events.created_at" ∷ [];
  content = record {
    task_count = sum_of (λ e. e.1) (status_counts db.tasks);
    status_counts = status_counts db.tasks;
    event_count = length db.events;
    last_event_at = last_event db.events;
  };
}

unfoldable pub risk_panel : Env → Db → CockpitPanel RiskSummary
unfolding risk_summary has_risk
risk_panel env db = record {
  status = if has_risk (risk_summary env db) then partial else available;
  sources =
      "agent_tasks.status" ∷ "agent_tasks.lease_expires_at" ∷ "dead_letters.resolved_at"
      ∷ "recovery_cards.status" ∷ "circuit_breakers.state" ∷ [];
  content = risk_summary env db;
}

unfoldable pub knowledge_panel : Db → CockpitPanel Knowledge
unfolding artifact_count is_knowledge stored_receipts
knowledge_panel db =
    let artifacts = artifact_count (stored_receipts db.receipts) in
    let events = count is_knowledge db.events in
    record {
      status = if_available (ltb 0 artifacts || ltb 0 events);
      sources = "routing_receipts.receipt.artifacts" ∷ "agent_events.event_type" ∷ [];
      content = record { artifact_count = artifacts; knowledge_event_count = events };
    }

unfoldable pub routing_panel : Catalog → RoutingPolicy → List ResultReceipt → CockpitPanel Routing
unfolding observed
routing_panel models policy receipts = record {
  status = available;
  sources =
      "policies/routing-policy.yaml" ∷ "policies/model-catalog.yaml"
      ∷ "routing_receipts.receipt.cost_receipt" ∷ [];
  content = record {
    api_metered = "disabled";
    api_metered_allowed = or_false policy.api_metered_allowed;
    configured_classes = sort_by str_lt (keys policy.classes);
    verified_routes = sort_by str_lt (keys models);
    observed_provider_classes =
        observed (λ r. provider_value r.cost_receipt.provider_class) receipts;
  };
}

-- `build_cockpit_snapshot`
unfoldable pub build_cockpit_snapshot :
    Collation → Env → Db → Catalog → RoutingPolicy → CockpitSnapshot
unfolding worker_rows stored_receipts oauth_panel quota_panel quality_panel flow_panel risk_panel
    knowledge_panel routing_panel
build_cockpit_snapshot lt env db models policy =
    let receipts = stored_receipts db.receipts in
    let rows = worker_rows lt db.tasks in
    record {
      generated_at = env.now;
      panels = record {
        workers = record {
          status = if_available (is_nonempty rows);
          sources = "agent_tasks.owner_instance" ∷ "agent_tasks.heartbeat_at" ∷ [];
          content = rows;
        };
        model_oauth = oauth_panel models receipts;
        quota_cost = quota_panel models receipts;
        quality = quality_panel receipts;
        flow = flow_panel db;
        risks = risk_panel env db;
        knowledge = knowledge_panel db;
        routing = routing_panel models policy receipts;
      };
    }
