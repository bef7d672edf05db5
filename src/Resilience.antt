-- ===== src/Resilience.antt =====
-- src/harness/resilience.py: the classes of failures, the thresholds, and the backoff.
pub mod Backoff
use harness_golden_path.Prelude.{
  ℕ, ◌-◌, ◌*◌, ◌^◌, min, max, Bool, true, false, ◌||◌, Option, or_else, if◌then◌else◌,
}
use harness_golden_path.Contracts.{
  FailureClass, transient, rate_limited, quality_failure, quota_exhausted, policy_violation,
  permanent, uncertain_side_effect, SideEffectState, no_effect, confirmed_none, unknown,
}

-- `failure_class in RETRYABLE_FAILURES`
unfoldable pub is_retryable : FailureClass → Bool
is_retryable transient = true
is_retryable rate_limited = true
is_retryable quality_failure = true
is_retryable _ = false

-- `failure_class in CIRCUIT_FAILURES`
unfoldable pub is_circuit_failure : FailureClass → Bool
is_circuit_failure transient = true
is_circuit_failure rate_limited = true
is_circuit_failure _ = false

abbrev pub circuit_failure_threshold : ℕ
circuit_failure_threshold = 3

abbrev pub circuit_cooldown_seconds : ℕ
circuit_cooldown_seconds = 300

abbrev pub base_backoff_seconds : ℕ
base_backoff_seconds = 30

abbrev pub max_backoff_seconds : ℕ
max_backoff_seconds = 3600

is_rate_limited : FailureClass → Bool
is_rate_limited rate_limited = true
is_rate_limited _ = false

-- `attempt_count - 1` stops at 0, as `max(attempt_count - 1, 0)` does
unfoldable pub exponential : ℕ → ℕ
exponential attempt_count = min (base_backoff_seconds * 2 ^ (attempt_count - 1)) max_backoff_seconds

unfoldable pub retry_delay_seconds : FailureClass → ℕ → Option ℕ → ℕ
unfolding exponential is_rate_limited
retry_delay_seconds failure_class attempt_count retry_after_seconds =
    if is_rate_limited failure_class
    then max (exponential attempt_count) (or_else retry_after_seconds 0)
    else exponential attempt_count

is_uncertain : FailureClass → Bool
is_uncertain uncertain_side_effect = true
is_uncertain _ = false

is_unknown : SideEffectState → Bool
is_unknown unknown = true
is_unknown _ = false

unfoldable pub requires_recovery : FailureClass → SideEffectState → Bool
unfolding is_uncertain is_unknown
requires_recovery failure_class side_effect_state =
    is_uncertain failure_class || is_unknown side_effect_state
