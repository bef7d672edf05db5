-- ===== src/Examples/Rules.antt =====
-- Examples for the policy, authorization, the contracts and the backoff.
use text.Mathlib.Text.{starts_with}
use mathlib.Core.List.{Mem}
use harness_golden_path.Prelude.{
  ◌≢◌, ℕ, String, ◌≡◌, ◌≤◌, refl, true, Option, none, some, List, [], ◌∷◌, or_else, max,
  if◌then◌else◌, ◌=s=◌,
}
use harness_golden_path.Contracts.{
  transient, internal, rate_limited, unknown, uncertain_side_effect,
}
use harness_golden_path.Contracts.Validation.{check_card, check_failure_report}
use harness_golden_path.Resilience.{retry_delay_seconds, base_backoff_seconds, max_backoff_seconds}
use harness_golden_path.Resilience.Backoff.{retry_delay_bounds}
use harness_golden_path.Policy.{
  Catalog, AgentPolicy, RoutingClass, DataPolicy, AuthorityPolicy, assert_route_allowed,
  assert_task_allowed,
}
use harness_golden_path.Policy.Tasks.{IsLawful, task_allowed_sound}
use harness_golden_path.Auth.{
  Principal, Files, Authorizer, ok, nas_worker, orchestrator, allows, read_token, strip, drop,
  from_environment, authenticate,
}
use harness_golden_path.Auth.Access.{authenticate_sound}
use harness_golden_path.Examples.{card, report_of}

abbrev local_data : List String
local_data = "internal" ∷ "confidential_local" ∷ "confidential_cloud_approved" ∷ []

abbrev pub catalog : Catalog
catalog =
    (
      "deterministic_monitor",
      record {
        provider_class = some "local_model";
        connection_status = some "verified";
        allowed_data_classes = some local_data;
        quota_visibility = none;
      },
    )
    ∷ []

abbrev pub agents : AgentPolicy
agents = record {
  executors =
      (
        "hermes_nas",
        record {
          routing_executor_aliases = "hermes_nas_operator" ∷ [];
          allowed_task_classes = "read_only_monitor" ∷ [];
          allowed_data_classes = "internal" ∷ [];
        },
      )
      ∷ [];
  task_classes = ("read_only_monitor", []) ∷ [];
}

abbrev pub classes : List (String × RoutingClass)
classes =
    (
      "read_only_monitor",
      record { executor = some "hermes_nas_operator"; route = some ("deterministic_monitor" ∷ []) },
    )
    ∷ []

abbrev pub data_policy : DataPolicy
data_policy = record {
  classifications =
      "internal" ∷ "confidential_local" ∷ "confidential_cloud_approved" ∷ "secret" ∷ [];
  provider_classes =
      ("local_model", local_data)
      ∷ ("subscription_oauth", "internal" ∷ [])
      ∷ ("api_metered", [])
      ∷ [];
}

abbrev pub authority : AuthorityPolicy
authority = record {
  authoritative_system = some "control_harness";
  runtime_status_writeback = some "forbidden";
}

route_accepted : assert_route_allowed card.model_routing catalog internal ≡ none
unfolding assert_route_allowed
route_accepted = refl

pub task_accepted : assert_task_allowed card catalog classes agents data_policy authority ≡ none
unfolding assert_task_allowed
task_accepted = refl

task_allowed_sound_example : IsLawful card catalog classes agents
task_allowed_sound_example =
    task_allowed_sound card catalog classes agents data_policy authority task_accepted

abbrev pub token : String
token = "0123456789abcdef0123456789abcdef"

abbrev pub files : Files
files path = if path =s= "/run/nas" then some token else some "fedcba9876543210fedcba9876543210"

abbrev pub environ : String → Option String
environ name =
    if name =s= "HARNESS_AUTH_REQUIRED"
    then some "1"
    else if name =s= "HARNESS_NAS_WORKER_TOKEN_FILE"
    then some "/run/nas"
    else some "/run/orchestrator"

abbrev pub nas : Principal
nas = record {
  name = "svc-hermes-nas";
  role = "hermes_nas";
  scopes = nas_worker.scopes;
  token_file = some "/run/nas";
}

abbrev panda : Principal
panda = record {
  name = "svc-panda-orchestrator";
  role = "orchestrator";
  scopes = orchestrator.scopes;
  token_file = some "/run/orchestrator";
}

abbrev pub authorizer : Authorizer
authorizer = record { principals = panda ∷ nas ∷ []; enabled = true }

pub configured : from_environment files environ ≡ ok authorizer
unfolding from_environment
configured = refl

pub recognised :
    authenticate files authorizer (some "Bearer 0123456789abcdef0123456789abcdef") "tasks:claim"
    ≡ ok nas
unfolding authenticate
recognised = refl

authenticate_sound_example :
    (header : String) × (some "Bearer 0123456789abcdef0123456789abcdef" ≡ some header)
    × (starts_with header "Bearer " ≡ true)
    × Mem nas authorizer.principals
    × (allows nas "tasks:claim" ≡ true)
    × (read_token files nas.token_file ≡ ok (strip (drop 7 header)))
authenticate_sound_example =
    authenticate_sound files authorizer (some "Bearer 0123456789abcdef0123456789abcdef")
      "tasks:claim" refl recognised

pub card_accepted : check_card card ≡ true
unfolding check_card
card_accepted = refl

report_checked : check_failure_report (report_of uncertain_side_effect unknown) ≡ true
unfolding check_failure_report
report_checked = refl

retry_delay_bounds_example :
    let delay = retry_delay_seconds transient 2 in
    (base_backoff_seconds ≤ delay (some 5000))
    × (delay (some 5000) ≤ max max_backoff_seconds (or_else (some 5000) 0))
    × (transient ≡ rate_limited → or_else (some 5000) 0 ≤ delay (some 5000))
    × (transient ≢ rate_limited
        → (delay (some 5000) ≤ max_backoff_seconds)
          × ((other : Option ℕ) → delay (some 5000) ≡ delay other))
retry_delay_bounds_example = retry_delay_bounds transient 2 (some 5000)
