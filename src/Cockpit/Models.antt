-- ===== src/Cockpit/Models.antt =====
-- src/harness/cockpit.py: the panels and what stands in each.
use harness_golden_path.Prelude.{ℕ, String, Bool, Option, List}
use harness_golden_path.Metrics.{ValidationChecks}

pub data PanelStatus : Type 0 where
  available partial unavailable disabled : PanelStatus

pub record CockpitPanel (Data : Type 0) : Type 0 where
  pub status : PanelStatus
  pub sources : List String
  pub content : Data

-- a row of the query of the workers
pub record WorkerRow : Type 0 where
  pub owner_role : String
  pub owner_instance : String
  pub task_count : ℕ
  pub active_task_count : ℕ
  pub last_heartbeat_at : Option ℕ
  pub latest_lease_expires_at : Option ℕ

-- the `data` of each panel
pub record ModelOauth : Type 0 where
  pub verified_oauth_routes : List String
  pub observed_models : List String
  pub live_oauth_probe : String

pub record QuotaCost : Type 0 where
  pub receipt_count : ℕ
  pub incremental_cost_chf : ℕ
  pub quota_statuses : List String
  pub quota_visibility : List String

pub record Quality : Type 0 where
  pub receipt_count : ℕ
  pub checks : ValidationChecks

pub record FlowSummary : Type 0 where
  pub task_count : ℕ
  pub status_counts : List (String × ℕ)
  pub event_count : ℕ
  pub last_event_at : Option ℕ

pub record RiskSummary : Type 0 where
  pub blocked_count : ℕ
  pub failed_count : ℕ
  pub recovery_count : ℕ
  pub expired_active_lease_count : ℕ
  pub open_dead_letter_count : ℕ
  pub open_recovery_card_count : ℕ
  pub open_circuit_count : ℕ

pub record Knowledge : Type 0 where
  pub artifact_count : ℕ
  pub knowledge_event_count : ℕ

pub record Routing : Type 0 where
  pub api_metered : String
  pub api_metered_allowed : Bool
  pub configured_classes : List String
  pub verified_routes : List String
  pub observed_provider_classes : List String

pub record CockpitPanels : Type 0 where
  pub workers : CockpitPanel (List WorkerRow)
  pub model_oauth : CockpitPanel ModelOauth
  pub quota_cost : CockpitPanel QuotaCost
  pub quality : CockpitPanel Quality
  pub flow : CockpitPanel FlowSummary
  pub risks : CockpitPanel RiskSummary
  pub knowledge : CockpitPanel Knowledge
  pub routing : CockpitPanel Routing

pub record CockpitSnapshot : Type 0 where
  pub generated_at : ℕ
  pub panels : CockpitPanels
