-- ===== src/Policy.antt =====
-- src/harness/policy.py: `assert_route_allowed` and `assert_task_allowed`. A YAML document is a record
-- of the keys that they read: an optional field is what `.get` gives, a mapping a list of its pairs.
pub mod Routes
pub mod Tasks
pub mod Admission
pub mod Shipped
pub mod ShippedTasks
use harness_golden_path.Prelude.{
  String, Bool, true, false, not, ◌&&◌, Option, none, some, List, [], ◌∷◌, any, str_mem, subset,
  same_set, opt_is, is_nonempty, ◌=s=◌, if◌then◌else◌,
}
use harness_golden_path.Contracts.{
  ProviderClass, local_model, subscription_oauth, api_metered, DataClassification, internal,
  confidential_local, confidential_cloud_approved, secret, data_value, provider_value, role_value,
}
use harness_golden_path.Contracts.Models.{TaskCard, ModelRouting}

-- one constructor for each `raise PolicyError`, and for the two lookups that can raise otherwise
pub data PolicyError : Type 0 where
  empty_route : PolicyError
  not_in_catalog metered not_verified outside_permitted no_data_policy data_forbidden :
      String → PolicyError
  no_provider_class : String → PolicyError
  wrong_authority writeback_allowed incomplete_classifications incomplete_providers : PolicyError
  unknown_provider conflicting_data : String → PolicyError
  embeds_secret no_executor class_not_executable data_not_accessible : PolicyError
  no_routing wrong_executor wrong_route no_requirements missing_approval : PolicyError

pub record Model : Type 0 where
  pub provider_class : Option String
  pub connection_status : Option String
  pub allowed_data_classes : Option (List String)
  pub quota_visibility : Option String

abbrev pub Catalog : Type 0
Catalog = List (String × Model)

pub record Executor : Type 0 where
  pub routing_executor_aliases : List String
  pub allowed_task_classes : List String
  pub allowed_data_classes : List String

pub record AgentPolicy : Type 0 where
  pub executors : List (String × Executor)
  -- of each class, `required_approvals`
  pub task_classes : List (String × List String)

pub record RoutingClass : Type 0 where
  pub executor : Option String
  pub route : Option (List String)

pub record RoutingPolicy : Type 0 where
  -- of `defaults`
  pub api_metered_allowed : Option Bool
  pub classes : List (String × RoutingClass)

pub record DataPolicy : Type 0 where
  pub classifications : List String
  pub provider_classes : List (String × List String)

pub record AuthorityPolicy : Type 0 where
  pub authoritative_system : Option String
  pub runtime_status_writeback : Option String

-- `mapping.get(key)`
abbrev pub lookup {ℓ} : {A : Type ℓ} → String → List (String × A) → Option A
lookup key [] = none
lookup key ((k, v) ∷ rest) = let found = lookup key rest in if key =s= k then some v else found

abbrev pub keys {ℓ} : {A : Type ℓ} → List (String × A) → List String
keys [] = []
keys ((k, v) ∷ rest) = k ∷ keys rest

-- `ProviderClass(value)`
abbrev pub parse_provider : Option String → Option ProviderClass
parse_provider v =
    if opt_is v "local_model"
    then some local_model
    else if opt_is v "subscription_oauth"
    then some subscription_oauth
    else if opt_is v "api_metered"
    then some api_metered
    else none

abbrev pub same_provider : ProviderClass → ProviderClass → Bool
same_provider local_model local_model = true
same_provider subscription_oauth subscription_oauth = true
same_provider api_metered api_metered = true
same_provider _ _ = false

-- `if not test: raise e`, and then the rest; `none` is a check that raises nothing
abbrev pub require {ℓ} : {E : Type ℓ} → Bool → E → Option E → Option E
require true e rest = rest
require false e rest = some e

abbrev permits :
    Option ProviderClass → List ProviderClass → String → Option PolicyError → Option PolicyError
permits none classes ref rest = some (no_provider_class ref)
permits (some c) classes ref rest =
    require (any (same_provider c) classes) (outside_permitted ref) rest

abbrev allows_data : Option (List String) → DataClassification → String → Option PolicyError
allows_data none kind ref = some (no_data_policy ref)
allows_data (some classes) kind ref =
    require (str_mem (data_value kind) classes) (data_forbidden ref) none

-- the body of the loop of `assert_route_allowed`, on the model that the catalog has for `ref`
unfoldable pub check_model :
    List ProviderClass → DataClassification → String → Option Model → Option PolicyError
unfolding data_value
check_model permitted kind ref none = some (not_in_catalog ref)
check_model permitted kind ref (some m) =
    require (not (opt_is m.provider_class "api_metered")) (metered ref) (
      require (opt_is m.connection_status "verified") (not_verified ref) (
        permits (parse_provider m.provider_class) permitted ref
          (allows_data m.allowed_data_classes kind ref)))

-- `e or rest`: the first check that raises
abbrev pub first_error {ℓ} : {E : Type ℓ} → Option E → Option E → Option E
first_error none rest = rest
first_error (some e) rest = some e

unfoldable pub check_route :
    List ProviderClass → Catalog → DataClassification → List String → Option PolicyError
unfolding check_model
check_route permitted models kind [] = none
check_route permitted models kind (ref ∷ refs) =
    first_error (check_model permitted kind ref (lookup ref models))
      (check_route permitted models kind refs)

-- `assert_route_allowed`
unfoldable pub assert_route_allowed :
    ModelRouting → Catalog → DataClassification → Option PolicyError
unfolding check_route
assert_route_allowed routing models kind =
    require (is_nonempty routing.default_route) empty_route
      (check_route routing.permitted_provider_classes models kind routing.default_route)

-- `model.get("allowed_data_classes", [])`
abbrev classes_of : Model → List String
classes_of m = elim m.allowed_data_classes [ none ↦ [] | some classes ↦ classes ]

abbrev agrees : String → Model → Option (List String) → Option PolicyError
agrees ref m none = some (unknown_provider ref)
agrees ref m (some rules) = require (same_set (classes_of m) rules) (conflicting_data ref) none

-- `provider_rules[model.get("provider_class")]`; None is no key
abbrev rules_of : Option String → List (String × List String) → Option (List String)
rules_of none rules = none
rules_of (some provider) rules = lookup provider rules

-- the loop of `assert_task_allowed` over the catalog
unfoldable pub check_catalog : List (String × List String) → Catalog → Option PolicyError
check_catalog rules [] = none
check_catalog rules ((ref, m) ∷ models) =
    first_error (agrees ref m (rules_of m.provider_class rules)) (check_catalog rules models)

abbrev pub same_list : List String → List String → Bool
same_list [] [] = true
same_list (x ∷ xs) (y ∷ ys) = (x =s= y) && same_list xs ys
same_list _ _ = false

-- `route == default_route`; None equals no list
abbrev pub is_route : Option (List String) → List String → Bool
is_route none route = false
is_route (some r) route = same_list route r

-- `class_policy.get("executor") in aliases`; None is in no list of texts
abbrev pub in_aliases : Option String → List String → Bool
in_aliases none aliases = false
in_aliases (some e) aliases = str_mem e aliases

abbrev check_approvals :
    Option (List String) → List String → Option PolicyError → Option PolicyError
check_approvals none given rest = some no_requirements
check_approvals (some required) given rest = require (subset required given) missing_approval rest

abbrev check_class :
    Option RoutingClass → Executor → List String → Option PolicyError → Option PolicyError
check_class none executor route rest = some no_routing
check_class (some c) executor route rest =
    require (in_aliases c.executor executor.routing_executor_aliases) wrong_executor
      (require (is_route c.route route) wrong_route rest)

abbrev pub not_secret : DataClassification → Bool
not_secret secret = false
not_secret _ = true

-- what `assert_task_allowed` checks once the executor is known
unfoldable pub check_executor :
    TaskCard
    → Catalog
    → List (String × RoutingClass)
    → AgentPolicy
    → Option Executor
    → Option PolicyError
unfolding assert_route_allowed data_value
check_executor card catalog classes agents none = some no_executor
check_executor card catalog classes agents (some executor) =
    require (str_mem card.task_class executor.allowed_task_classes) class_not_executable (
      require (str_mem (data_value card.data_classification) executor.allowed_data_classes)
        data_not_accessible
        (check_class (lookup card.task_class classes) executor card.model_routing.default_route (
          check_approvals (lookup card.task_class agents.task_classes) card.approval_required
            (assert_route_allowed card.model_routing catalog card.data_classification))))

abbrev pub all_classifications : List String
all_classifications =
    "internal" ∷ "confidential_local" ∷ "confidential_cloud_approved" ∷ "secret" ∷ []

abbrev pub all_providers : List String
all_providers = "local_model" ∷ "subscription_oauth" ∷ "api_metered" ∷ []

-- `assert_task_allowed`
unfoldable pub assert_task_allowed :
    TaskCard
    → Catalog
    → List (String × RoutingClass)
    → AgentPolicy
    → DataPolicy
    → AuthorityPolicy
    → Option PolicyError
unfolding check_catalog check_executor role_value
assert_task_allowed card catalog classes agents data_policy authority =
    require (opt_is authority.authoritative_system "control_harness") wrong_authority (
      require (opt_is authority.runtime_status_writeback "forbidden") writeback_allowed (
        require (same_set data_policy.classifications all_classifications)
          incomplete_classifications
          (require (same_set (keys data_policy.provider_classes) all_providers) incomplete_providers
            (first_error (check_catalog data_policy.provider_classes catalog) (
              require (not_secret card.data_classification) embeds_secret (
                check_executor card catalog classes agents
                  (lookup (role_value card.owner_role) agents.executors)))))))
