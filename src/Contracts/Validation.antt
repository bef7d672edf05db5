-- ===== src/Contracts/Validation.antt =====
-- src/harness/contracts.py: what the field constraints and the validators of the models accept.
-- Pydantic gathers the errors of one model; here a model is accepted or not.
use text.Mathlib.Text.{starts_with, find?}
use harness_golden_path.Prelude.{
  ℕ, String, Bool, true, false, not, ◌&&◌, ◌||◌, Option, none, some, List, [], ◌∷◌, ◌==◌, leb, ltb,
  any, all, length, codes, is_some,
}
use harness_golden_path.Contracts.{
  ExecutorRole, hermes_local, hermes_nas, ProviderClass, local_model, subscription_oauth,
  api_metered, FailureClass, uncertain_side_effect, SideEffectState, no_effect, confirmed_none,
  unknown,
}
use harness_golden_path.Contracts.Models.{
  Artifacts, ResultReceipt, Budget, Scope, ModelRouting, TaskCard, CostReceipt, FailureReport,
  ApprovalCard,
}

-- Field(ge=lo, le=hi)
abbrev within : ℕ → ℕ → ℕ → Bool
within lo hi n = leb lo n && leb n hi

-- Field(min_length=lo, max_length=hi), in characters
abbrev pub sized : ℕ → ℕ → String → Bool
sized lo hi s = within lo hi (length (codes s))

-- A constraint on a field that may be None.
abbrev optional {ℓ} : {A : Type ℓ} → (A → Bool) → Option A → Bool
optional test none = true
optional test (some a) = test a

is_lower : ℕ → Bool
is_lower c = within b'a' b'z' c

is_upper : ℕ → Bool
is_upper c = within b'A' b'Z' c

is_digit : ℕ → Bool
is_digit c = within b'0' b'9' c

one_of : List ℕ → ℕ → Bool
one_of allowed c = any (λ a. c == a) allowed

-- `^[a-z0-9_/-]{3,100}$`
pub is_model_ref : String → Bool
unfolding is_lower is_digit one_of
is_model_ref s =
    sized 3 100 s
    && all (λ c. is_lower c || is_digit c || one_of (b'_' ∷ b'/' ∷ b'-' ∷ []) c) (codes s)

-- `^[a-zA-Z0-9._-]{2,80}$`
unfoldable pub is_project : String → Bool
unfolding is_lower is_upper is_digit one_of
is_project s =
    sized 2 80 s
    && all (λ c. is_lower c || is_upper c || is_digit c || one_of (b'.' ∷ b'_' ∷ b'-' ∷ []) c)
        (codes s)

starts_lower : List ℕ → Bool
unfolding is_lower
starts_lower [] = false
starts_lower (c ∷ _) = is_lower c

-- `^[a-z][a-z0-9_]{2,79}$`
unfoldable pub is_task_class : String → Bool
unfolding is_lower is_digit one_of starts_lower
is_task_class s =
    sized 3 80 s
    && starts_lower (codes s)
    && all (λ c. is_lower c || is_digit c || one_of (b'_' ∷ []) c) (codes s)

-- `^[a-zA-Z0-9._:/-]{3,120}$`
is_circuit_key : String → Bool
unfolding is_lower is_upper is_digit one_of
is_circuit_key s =
    sized 3 120 s
    && all
        (λ c.
          is_lower c
          || is_upper c
          || is_digit c
          || one_of (b'.' ∷ b'_' ∷ b':' ∷ b'/' ∷ b'-' ∷ []) c)
        (codes s)

unfoldable pub check_budget : Budget → Bool
check_budget b =
    within 1 10080 b.max_runtime_minutes
    && within 1 5 b.max_attempts
    && within 0 0 b.max_incremental_cloud_cost_chf

-- `reject_unsafe_paths`, for one path
unfoldable pub unsafe_path : String → Bool
unsafe_path path =
    any (λ prefix. starts_with path prefix) ("../" ∷ "~" ∷ "/etc/" ∷ "/var/run/" ∷ [])
    || is_some (find? path "..")

unfoldable pub check_scope : Scope → Bool
unfolding unsafe_path
check_scope s =
    all (sized 1 300) s.include
    && all (sized 1 300) s.exclude
    && all (λ p. not (unsafe_path p)) s.include
    && all (λ p. not (unsafe_path p)) s.exclude

unfoldable pub is_metered : ProviderClass → Bool
is_metered local_model = false
is_metered subscription_oauth = false
is_metered api_metered = true

-- the patterns of the route, and `enforce_oauth_only`
unfoldable pub check_routing : ModelRouting → Bool
unfolding is_model_ref is_metered
check_routing r =
    all is_model_ref r.default_route && not (any is_metered r.permitted_provider_classes)

unfoldable pub is_nas : ExecutorRole → Bool
is_nas hermes_local = false
is_nas hermes_nas = true

-- the field constraints, and `restrict_long_running_tasks_to_nas`
unfoldable pub check_card : TaskCard → Bool
unfolding is_project is_task_class check_budget check_scope check_routing is_nas
check_card c =
    sized 8 160 c.title
    && is_project c.project
    && is_task_class c.task_class
    && sized 20 4000 c.objective
    && check_scope c.scope
    && all (sized 8 500) c.acceptance
    && check_budget c.budget
    && check_routing c.model_routing
    && sized 16 128 c.idempotency_key
    && all (sized 3 80) c.approval_required
    && not (ltb 480 c.budget.max_runtime_minutes && not (is_nas c.owner_role))

-- the field constraints, and `forbid_metered`
unfoldable pub check_cost_receipt : CostReceipt → Bool
unfolding is_model_ref is_metered
check_cost_receipt r =
    is_model_ref r.model_ref
    && within 0 0 r.incremental_cost_chf
    && not (is_metered r.provider_class)

unfoldable pub is_uncertain : FailureClass → Bool
is_uncertain uncertain_side_effect = true
is_uncertain _ = false

unfoldable pub is_unknown : SideEffectState → Bool
is_unknown no_effect = false
is_unknown confirmed_none = false
is_unknown unknown = true

-- the field constraints, and `require_unknown_side_effect`
unfoldable pub check_failure_report : FailureReport → Bool
unfolding is_circuit_key is_uncertain is_unknown
check_failure_report r =
    sized 3 120 r.worker_instance
    && sized 10 2000 r.reason
    && optional is_circuit_key r.circuit_key
    && optional (within 0 86400) r.retry_after_seconds
    && not (is_uncertain r.failure_class && not (is_unknown r.side_effect_state))

unfoldable pub check_approval_card : ApprovalCard → Bool
check_approval_card a = sized 3 80 a.action && sized 3 120 a.requested_by

unfoldable pub check_artifacts : Artifacts → Bool
check_artifacts a =
    optional (sized 0 200) a.branch
    && optional (sized 0 200) a.worktree_ref
    && optional (sized 0 64) a.commit_sha
    && optional (sized 0 300) a.pull_request
    && optional (sized 0 300) a.test_report

unfoldable pub check_result_receipt : ResultReceipt → Bool
unfolding check_artifacts check_cost_receipt
check_result_receipt r =
    sized 3 120 r.worker_instance
    && sized 10 4000 r.summary
    && check_artifacts r.artifacts
    && sized 0 2000 r.validation.details
    && check_cost_receipt r.cost_receipt
