-- ===== src/Contracts.antt =====
-- src/harness/contracts.py: the enumerations and the table of transitions. The models are in the
-- child modules.
pub mod Events
pub mod Models
pub mod Validation
pub mod Graph
pub mod Checked
use harness_golden_path.Prelude.{
  ℕ, String, ◌==◌, arith, refl, ◌≡◌, Bool, true, false, List, [], ◌∷◌, any,
}
use mathlib.Core.Logic.{◌↔◌}

pub data TaskStatus : Type 0 where
  ready claimed in_progress review awaiting_approval blocked failed done cancelled : TaskStatus
  recovery_required retry_wait awaiting_decision : TaskStatus

unfoldable pub transitions : TaskStatus → List TaskStatus
transitions ready = claimed ∷ cancelled ∷ []
transitions claimed =
    in_progress ∷ blocked ∷ failed ∷ recovery_required ∷ retry_wait ∷ awaiting_decision ∷ []
transitions in_progress =
    review ∷ done ∷ blocked ∷ failed ∷ recovery_required ∷ retry_wait ∷ awaiting_decision ∷ []
transitions review = awaiting_approval ∷ blocked ∷ done ∷ []
transitions awaiting_approval = done ∷ blocked ∷ []
transitions blocked = ready ∷ cancelled ∷ []
transitions failed = ready ∷ cancelled ∷ []
transitions recovery_required = ready ∷ blocked ∷ done ∷ cancelled ∷ []
transitions retry_wait = ready ∷ recovery_required ∷ cancelled ∷ []
transitions awaiting_decision = ready ∷ blocked ∷ cancelled ∷ []
transitions done = []
transitions cancelled = []

pub data ExecutorRole : Type 0 where
  hermes_local hermes_nas : ExecutorRole

pub data ProviderClass : Type 0 where
  local_model subscription_oauth api_metered : ProviderClass

pub data DataClassification : Type 0 where
  internal confidential_local confidential_cloud_approved secret : DataClassification

pub data ProjectionKind : Type 0 where
  operational evidence : ProjectionKind

pub data FailureClass : Type 0 where
  transient rate_limited quality_failure quota_exhausted policy_violation : FailureClass
  permanent uncertain_side_effect : FailureClass

pub data SideEffectState : Type 0 where
  no_effect confirmed_none unknown : SideEffectState

-- `.value` of the enumerations, where a payload holds it
unfoldable pub status_value : TaskStatus → String
status_value ready = "ready"
status_value claimed = "claimed"
status_value in_progress = "in_progress"
status_value review = "review"
status_value awaiting_approval = "awaiting_approval"
status_value blocked = "blocked"
status_value failed = "failed"
status_value done = "done"
status_value cancelled = "cancelled"
status_value recovery_required = "recovery_required"
status_value retry_wait = "retry_wait"
status_value awaiting_decision = "awaiting_decision"

unfoldable pub role_value : ExecutorRole → String
role_value hermes_local = "hermes_local"
role_value hermes_nas = "hermes_nas"

unfoldable pub provider_value : ProviderClass → String
provider_value local_model = "local_model"
provider_value subscription_oauth = "subscription_oauth"
provider_value api_metered = "api_metered"

unfoldable pub data_value : DataClassification → String
data_value internal = "internal"
data_value confidential_local = "confidential_local"
data_value confidential_cloud_approved = "confidential_cloud_approved"
data_value secret = "secret"

unfoldable pub failure_value : FailureClass → String
failure_value transient = "transient"
failure_value rate_limited = "rate_limited"
failure_value quality_failure = "quality_failure"
failure_value quota_exhausted = "quota_exhausted"
failure_value policy_violation = "policy_violation"
failure_value permanent = "permanent"
failure_value uncertain_side_effect = "uncertain_side_effect"

unfoldable pub side_effect_value : SideEffectState → String
side_effect_value no_effect = "none"
side_effect_value confirmed_none = "confirmed_none"
side_effect_value unknown = "unknown"

-- the position in the enumeration, by which two statuses are compared
position : TaskStatus → ℕ
position ready = 0
position claimed = 1
position in_progress = 2
position review = 3
position awaiting_approval = 4
position blocked = 5
position failed = 6
position done = 7
position cancelled = 8
position recovery_required = 9
position retry_wait = 10
position awaiting_decision = 11

-- `s == t`, and `status = 'literal'` in SQL
infix 50 ◌is◌
unfoldable pub ◌is◌ : TaskStatus → TaskStatus → Bool
unfolding position
s is t = position s == position t

pub is_iff : (s t : TaskStatus) → ((s is t) ≡ true) ↔ (s ≡ t)
unfolding ◌is◌
is_iff s t = ground arith

-- `target in TRANSITIONS[expected]`
unfoldable pub may_move : TaskStatus → TaskStatus → Bool
unfolding transitions ◌is◌
may_move expected target = any (λ t. target is t) (transitions expected)
