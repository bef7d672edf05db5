-- ===== src/Contracts/Graph.antt =====
-- TRANSITIONS of src/harness/contracts.py as a graph.
use harness_golden_path.Prelude.{◌≡◌, true, false, arith, ◌⊎◌}
use mathlib.Core.Logic.{◌↔◌}
use harness_golden_path.Contracts.{
  TaskStatus, ready, claimed, in_progress, blocked, done, cancelled, may_move,
}

-- The moves of the table of transitions, one after another.
pub data Reach : TaskStatus → TaskStatus → Type 0 where
  here : {s : TaskStatus} → Reach s s
  move : {s t u : TaskStatus} → Reach s t → may_move t u ≡ true → Reach s u

-- Work starts only from a claim, and a claim only from `ready`: a task that waits for recovery, a
-- retry, an approval or a decision is never taken up again without becoming ready first.
pub work_needs_claim :
    (s : TaskStatus)
    → (may_move s claimed ≡ true → s ≡ ready) × (may_move s in_progress ≡ true → s ≡ claimed)
unfolding may_move
work_needs_claim s = (ground arith, ground arith)

-- Exactly `done` and `cancelled` have no way out.
pub final_exactly :
    (s : TaskStatus) → ((t : TaskStatus) → may_move s t ≡ false) ↔ ((s ≡ done) ⊎ (s ≡ cancelled))
unfolding may_move
final_exactly s = (
  (λ stuck. ground (arith, stuck ready, stuck cancelled, stuck done, stuck blocked, stuck claimed)),
  (λ final t. ground arith),
)
