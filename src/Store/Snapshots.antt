-- ===== src/Store/Snapshots.antt =====
-- src/harness/store.py: the read-only snapshots. Nothing is written, so the state stays as it is.
use harness_golden_path.Prelude.{◌&&◌, ◌||◌, Bool, List, sort_by, ltb, ◌==◌}
use harness_golden_path.Store.Tables.{Circuit, DeadLetter, RecoveryCard, State}
use harness_golden_path.Store.Actions.{Env}
use harness_golden_path.Policy.{Catalog, RoutingPolicy}
use harness_golden_path.Metrics.{QualityMetricsSnapshot, build_quality_metrics_snapshot}
use harness_golden_path.Cockpit.Models.{CockpitSnapshot}
use harness_golden_path.Cockpit.Rows.{Collation}
use harness_golden_path.Cockpit.Panels.{build_cockpit_snapshot}

-- `cockpit_snapshot`
unfoldable pub cockpit_snapshot :
    Collation → Env → Catalog → RoutingPolicy → State → CockpitSnapshot
cockpit_snapshot lt env models policy s = build_cockpit_snapshot lt env s.db models policy

-- `quality_metrics_snapshot`
unfoldable pub quality_metrics_snapshot : Env → State → QualityMetricsSnapshot
quality_metrics_snapshot env s = build_quality_metrics_snapshot env s.db

-- ResilienceSnapshot
pub record ResilienceSnapshot : Type 0 where
  pub circuits : List Circuit
  pub dead_letters : List DeadLetter
  pub recovery_cards : List RecoveryCard

-- ORDER BY created_at, recovery_id
abbrev card_lt : RecoveryCard → RecoveryCard → Bool
card_lt a b =
    ltb a.created_at b.created_at
    || ((a.created_at == b.created_at) && ltb a.recovery_id b.recovery_id)

-- `resilience_snapshot`; ORDER BY dead_letter_id is the order of insertion
unfoldable pub resilience_snapshot : Collation → State → ResilienceSnapshot
resilience_snapshot lt s = record {
  circuits = sort_by (λ a b. lt a.circuit_key b.circuit_key) s.db.circuits;
  dead_letters = s.db.dead_letters;
  recovery_cards = sort_by card_lt s.db.recovery_cards;
}
