-- ===== src/Policy/Tasks.antt =====
-- What `assert_task_allowed` of src/harness/policy.py accepts.
use harness_golden_path.Prelude.{
  String, ◌≡◌, ◌≢◌, subst, Bool, Option-cases, true, inl, inr, Option, none, some, List, All,
  str_mem, subset, same_set, is_nonempty, opt_is, arith,
}
use harness_golden_path.Contracts.{secret, DataClassification, data_value, role_value}
use harness_golden_path.Contracts.Models.{TaskCard}
use harness_golden_path.Policy.{
  PolicyError, wrong_authority, writeback_allowed, incomplete_classifications, incomplete_providers,
  embeds_secret, Catalog, Executor, AgentPolicy, RoutingClass, DataPolicy, AuthorityPolicy, lookup,
  keys, in_aliases, is_route, first_error, require, not_secret, check_catalog, check_executor,
  assert_route_allowed, assert_task_allowed, all_classifications, all_providers,
}
use harness_golden_path.Policy.Routes.{IsUsable, route_allowed_sound}

module _ (card : TaskCard) (catalog : Catalog) (classes : List (String × RoutingClass))
    (agents : AgentPolicy) where
  -- A task that the executor policy lets pass.
  pub record IsLawful : Type 0 where
    pub public_data : card.data_classification ≢ secret
    pub executor : Executor
    pub known_executor : lookup (role_value card.owner_role) agents.executors ≡ some executor
    pub may_execute : str_mem card.task_class executor.allowed_task_classes ≡ true
    pub may_see : str_mem (data_value card.data_classification) executor.allowed_data_classes ≡ true
    pub required : List String
    pub known_class : lookup card.task_class agents.task_classes ≡ some required
    pub approvals : subset required card.approval_required ≡ true
    pub routing : RoutingClass
    pub known_routing : lookup card.task_class classes ≡ some routing
    pub by_alias : in_aliases routing.executor executor.routing_executor_aliases ≡ true
    pub takes_route : is_route routing.route card.model_routing.default_route ≡ true
    pub has_route : is_nonempty card.model_routing.default_route ≡ true
    pub usable :
        All
          (IsUsable card.model_routing.permitted_provider_classes catalog card.data_classification)
          card.model_routing.default_route

  executor_lawful :
      (executor : Executor)
      → lookup (role_value card.owner_role) agents.executors ≡ some executor
      → card.data_classification ≢ secret
      → check_executor card catalog classes agents (some executor) ≡ none
      → IsLawful
  unfolding check_executor
  executor_lawful executor known open_data h =
      elim (Option-cases (lookup card.task_class classes)) [
        | inl absent ↦ absurd (ground arith)
        | inr (c, has_class) ↦ elim (Option-cases (lookup card.task_class agents.task_classes)) [
          | inl absent ↦ absurd (ground arith)
          | inr (required, has) ↦
              let allowed : assert_route_allowed card.model_routing catalog card.data_classification
                  ≡ none =
                ground arith in
              let (has_route, usable) =
                route_allowed_sound card.model_routing catalog card.data_classification allowed in
              record {
                public_data = open_data;
                executor = executor;
                known_executor = known;
                may_execute = ground arith;
                may_see = ground arith;
                required = required;
                known_class = has;
                approvals = ground arith;
                routing = c;
                known_routing = has_class;
                by_alias = ground arith;
                takes_route = ground arith;
                has_route = has_route;
                usable = usable;
              }
        ]
      ]

chain :
    (a b c d f : Bool) (ea eb ec ed ef : PolicyError) (catalog rest : Option PolicyError)
    → require a ea
        (require b eb (require c ec (require d ed (first_error catalog (require f ef rest)))))
      ≡ none
    → (f ≡ true) × (rest ≡ none)
chain a b c d f ea eb ec ed ef catalog rest h = (ground arith, ground arith)

no_executor_refused :
    (card : TaskCard) (catalog : Catalog) (classes : List (String × RoutingClass))
    (agents : AgentPolicy)
    → ¬ (check_executor card catalog classes agents none ≡ none)
unfolding check_executor
no_executor_refused card catalog classes agents h = ground arith

secret_apart : (kind : DataClassification) → not_secret kind ≡ true → kind ≢ secret
secret_apart kind h e = ground arith

-- A task that `assert_task_allowed` accepts embeds no secret, is one that its executor may run on data
-- that it may see, asks for every approval that its class requires, and takes the route of its class, by one of the
-- executor's aliases; every model of that route is usable.
pub task_allowed_sound :
    (card : TaskCard) (catalog : Catalog) (classes : List (String × RoutingClass))
    (agents : AgentPolicy) (data_policy : DataPolicy) (authority : AuthorityPolicy)
    → assert_task_allowed card catalog classes agents data_policy authority ≡ none
    → IsLawful card catalog classes agents
unfolding assert_task_allowed
task_allowed_sound card catalog classes agents data_policy authority h =
    let found = lookup (role_value card.owner_role) agents.executors in
    let (open_data, rest) =
      chain (opt_is authority.authoritative_system "control_harness")
        (opt_is authority.runtime_status_writeback "forbidden")
        (same_set data_policy.classifications all_classifications)
        (same_set (keys data_policy.provider_classes) all_providers)
        (not_secret card.data_classification) wrong_authority writeback_allowed
        incomplete_classifications incomplete_providers embeds_secret
        (check_catalog data_policy.provider_classes catalog)
        (check_executor card catalog classes agents found) h in
    elim (Option-cases found) [
      | inl absent ↦ absurd (
          no_executor_refused card catalog classes agents
            (subst (λ o. check_executor card catalog classes agents o ≡ none) absent rest))
      | inr (executor, known) ↦
          executor_lawful card catalog classes agents executor known (secret_apart _ open_data)
            (subst (λ o. check_executor card catalog classes agents o ≡ none) known rest)
    ]
