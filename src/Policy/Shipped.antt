-- ===== src/Policy/Shipped.antt =====
-- The documents of policies/*.yaml, with the keys that src/harness/policy.py and src/harness/cockpit.py
-- read.
use harness_golden_path.Prelude.{String, false, Option, some, [], ◌∷◌}
use harness_golden_path.Contracts.Models.{TaskCard}
use harness_golden_path.Policy.{
  PolicyError, Catalog, AgentPolicy, RoutingPolicy, RoutingClass, DataPolicy, AuthorityPolicy,
  assert_task_allowed,
}

-- policies/model-catalog.yaml
abbrev pub shipped_catalog : Catalog
shipped_catalog =
    (
      "deterministic_monitor",
      record {
        provider_class = some "local_model";
        connection_status = some "verified";
        allowed_data_classes =
            some ("internal" ∷ "confidential_local" ∷ "confidential_cloud_approved" ∷ []);
        quota_visibility = some "unavailable";
      },
    )
    ∷ (
      "anthropic_oauth_reasoner",
      record {
        provider_class = some "subscription_oauth";
        connection_status = some "verified";
        allowed_data_classes = some ("internal" ∷ "confidential_cloud_approved" ∷ []);
        quota_visibility = some "partial";
      },
    )
    ∷ []

abbrev by_oauth : String → RoutingClass
by_oauth executor = record {
  executor = some executor;
  route = some ("anthropic_oauth_reasoner" ∷ []);
}

-- policies/routing-policy.yaml
abbrev pub shipped_routing : RoutingPolicy
shipped_routing = record {
  api_metered_allowed = some false;
  classes =
      (
        "read_only_monitor",
        record {
          executor = some "hermes_nas_operator";
          route = some ("deterministic_monitor" ∷ []);
        },
      )
      ∷ ("docs_change", by_oauth "hermes_local_builder")
      ∷ ("context_pack", by_oauth "panda_orchestrator")
      ∷ ("scope_risk_route", by_oauth "panda_orchestrator")
      ∷ ("complex_code", by_oauth "hermes_local_builder")
      ∷ ("review", by_oauth "hermes_local_reviewer")
      ∷ ("knowledge_capture", by_oauth "panda_orchestrator")
      ∷ [];
}

-- policies/agent-policy.yaml
abbrev pub shipped_agents : AgentPolicy
shipped_agents = record {
  executors =
      (
        "hermes_local",
        record {
          routing_executor_aliases = "hermes_local_builder" ∷ "hermes_local_reviewer" ∷ [];
          allowed_task_classes = "docs_change" ∷ "complex_code" ∷ [];
          allowed_data_classes =
              "internal" ∷ "confidential_local" ∷ "confidential_cloud_approved" ∷ [];
        },
      )
      ∷ (
        "hermes_nas",
        record {
          routing_executor_aliases = "hermes_nas_operator" ∷ [];
          allowed_task_classes = "read_only_monitor" ∷ [];
          allowed_data_classes = "internal" ∷ [];
        },
      )
      ∷ [];
  task_classes =
      ("docs_change", "merge_main" ∷ [])
      ∷ ("complex_code", "merge_main" ∷ [])
      ∷ ("read_only_monitor", [])
      ∷ [];
}

-- policies/data-classification.yaml
abbrev pub shipped_data : DataPolicy
shipped_data = record {
  classifications =
      "internal" ∷ "confidential_local" ∷ "confidential_cloud_approved" ∷ "secret" ∷ [];
  provider_classes =
      ("local_model", "internal" ∷ "confidential_local" ∷ "confidential_cloud_approved" ∷ [])
      ∷ ("subscription_oauth", "internal" ∷ "confidential_cloud_approved" ∷ [])
      ∷ ("api_metered", [])
      ∷ [];
}

-- policies/task-authority.yaml; `runtime_status_writeback` stands below `projections`
abbrev pub shipped_authority : AuthorityPolicy
shipped_authority = record {
  authoritative_system = some "control_harness";
  runtime_status_writeback = some "forbidden";
}

-- `assert_task_allowed` with the documents of the repository
unfoldable pub shipped_verdict : TaskCard → Option PolicyError
unfolding assert_task_allowed
shipped_verdict card =
    assert_task_allowed card shipped_catalog shipped_routing.classes shipped_agents shipped_data
      shipped_authority
