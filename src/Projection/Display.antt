-- ===== src/Projection/Display.antt =====
-- What `project_task` of src/harness/projection.py shows.
use harness_golden_path.Prelude.{◌≡◌, true, false, ◌⊎◌, arith}
use mathlib.Core.Logic.{◌↔◌}
use harness_golden_path.Contracts.{TaskStatus, done, cancelled, may_move, ProjectionKind}
use harness_golden_path.Contracts.Graph.{final_exactly}
use harness_golden_path.Projection.{
  Formats, Row, completed, PandaStatus, panda_status, needs_action, project_task,
}

completed_final : (s : TaskStatus) → (panda_status s ≡ completed) ↔ ((s ≡ done) ⊎ (s ≡ cancelled))
unfolding panda_status
completed_final s = (ground arith, ground arith)

-- PandaOS shows a task as completed exactly when it is final: no move of the table leads on from it.
pub completed_iff_final :
    (f : Formats) (row : Row)
    → ((project_task f row).status ≡ completed)
      ↔ ((t : TaskStatus) → may_move row.task.status t ≡ false)
unfolding project_task
completed_iff_final f row = (
  (λ h. (final_exactly row.task.status).1 ((completed_final row.task.status).0 h)),
  (λ h. (completed_final row.task.status).1 ((final_exactly row.task.status).0 h)),
)

-- A task that asks for an action is not completed, and is no evidence fixture.
pub action_required_open :
    (f : Formats) (row : Row)
    → (project_task f row).action_required ≡ true
    → ((project_task f row).status ≡ PandaStatus.pending)
      × (row.task.card.projection_kind ≡ ProjectionKind.operational)
unfolding project_task panda_status needs_action
action_required_open f row h = (ground arith, ground arith)
