-- ===== src/Contracts/Checked.antt =====
-- The accepted models of src/harness/contracts.py, for the store.
use harness_golden_path.Prelude.{
  ℕ, String, ◌≡◌, ◌≢◌, ◌≤◌, Bool, true, false, not, ◌&&◌, all, any, List, [], ◌∷◌, All, ltb, arith,
  refl,
}
use harness_golden_path.Contracts.{
  uncertain_side_effect, unknown, ExecutorRole, hermes_local, hermes_nas, ProviderClass,
  api_metered,
}
use harness_golden_path.Contracts.Models.{Budget, Scope, TaskCard, FailureReport, ModelRouting}
use harness_golden_path.Contracts.Validation.{
  sized, is_project, is_task_class, check_budget, check_scope, unsafe_path, check_routing,
  is_metered, is_nas, check_card, check_failure_report, is_uncertain, is_unknown,
}
use harness_golden_path.Resilience.{requires_recovery}

all_safe :
    (paths : List String)
    → all (λ p. not (unsafe_path p)) paths ≡ true
    → All (λ p. unsafe_path p ≡ false) paths
all_safe [] h = tt
all_safe (p ∷ paths) h = (ground arith, all_safe paths (ground arith))

none_metered :
    (classes : List ProviderClass)
    → any is_metered classes ≡ false
    → All (λ c. c ≢ api_metered) classes
unfolding is_metered
none_metered [] h = tt
none_metered (c ∷ classes) h = ((λ e. ground arith), none_metered classes (ground arith))

scope_safe :
    (s : Scope)
    → check_scope s ≡ true
    → All (λ p. unsafe_path p ≡ false) s.include × All (λ p. unsafe_path p ≡ false) s.exclude
unfolding check_scope
scope_safe s h = (all_safe s.include (ground arith), all_safe s.exclude (ground arith))

routing_unmetered :
    (r : ModelRouting)
    → check_routing r ≡ true
    → All (λ c. c ≢ api_metered) r.permitted_provider_classes
unfolding check_routing
routing_unmetered r h = none_metered r.permitted_provider_classes (ground arith)

budget_bounds :
    (b : Budget)
    → check_budget b ≡ true
    → (1 ≤ b.max_attempts) × (b.max_attempts ≤ 5) × (b.max_incremental_cloud_cost_chf ≡ 0)
unfolding check_budget
budget_bounds b h = (ground arith, ground arith, ground arith)

local_runtime :
    (minutes : ℕ) (role : ExecutorRole)
    → not (ltb 480 minutes && not (is_nas role)) ≡ true
    → role ≢ hermes_nas
    → minutes ≤ 480
unfolding is_nas
local_runtime minutes hermes_nas h ne = absurd (ne refl)
local_runtime minutes hermes_local h ne = ground arith

parts :
    (a b c d scope e budget routing k p runtime : Bool)
    → (a && b && c && d && scope && e && budget && routing && k && p && runtime) ≡ true
    → (scope ≡ true) × (budget ≡ true) × (routing ≡ true) × (runtime ≡ true)
parts a b c d scope e budget routing k p runtime h =
    (ground arith, ground arith, ground arith, ground arith)

-- A card that the model accepts allows at least one attempt and at most five, no cloud cost and no
-- metered provider, and names no unsafe path. More than 480 minutes are for the NAS executor alone.
pub card_bounds :
    (c : TaskCard)
    → check_card c ≡ true
    → (1 ≤ c.budget.max_attempts)
      × (c.budget.max_attempts ≤ 5)
      × (c.budget.max_incremental_cloud_cost_chf ≡ 0)
      × All (λ k. k ≢ api_metered) c.model_routing.permitted_provider_classes
      × All (λ p. unsafe_path p ≡ false) c.scope.include
      × All (λ p. unsafe_path p ≡ false) c.scope.exclude
      × (c.owner_role ≢ hermes_nas → c.budget.max_runtime_minutes ≤ 480)
unfolding check_card
card_bounds c h =
    let (scope, budget, routing, runtime) =
      parts (sized 8 160 c.title) (is_project c.project) (is_task_class c.task_class)
        (sized 20 4000 c.objective) (check_scope c.scope) (all (sized 8 500) c.acceptance)
        (check_budget c.budget) (check_routing c.model_routing) (sized 16 128 c.idempotency_key)
        (all (sized 3 80) c.approval_required)
        (not (ltb 480 c.budget.max_runtime_minutes && not (is_nas c.owner_role))) h in
    let b = budget_bounds c.budget budget in
    let s = scope_safe c.scope scope in
    (
      b.0,
      b.1,
      b.2,
      routing_unmetered c.model_routing routing,
      s.0,
      s.1,
      local_runtime c.budget.max_runtime_minutes c.owner_role runtime,
    )

-- A report that the model accepts and that calls its side effects uncertain always needs recovery: it
-- cannot say at once that they are confirmed.
pub uncertain_reports_recover :
    (r : FailureReport)
    → check_failure_report r ≡ true
    → r.failure_class ≡ uncertain_side_effect
    → (r.side_effect_state ≡ unknown)
      × (requires_recovery r.failure_class r.side_effect_state ≡ true)
unfolding check_failure_report requires_recovery is_uncertain is_unknown
uncertain_reports_recover r h e = (ground arith, ground arith)
