-- ===== src/Workflow.antt =====
-- src/harness/workflow.py: workflow definitions as graphs of nodes. Loading the YAML files is not
-- modelled.
pub mod Walk
use harness_golden_path.Prelude.{
  ℕ, String, Bool, true, false, not, ◌&&◌, ◌||◌, Option, none, some, List, [], ◌∷◌, ◌++◌, any, all,
  find, str_mem, ◌=s=◌, if◌then◌else◌,
}
use harness_golden_path.Policy.{require, first_error}

pub data AutonomyLevel : Type 0 where
  a0 a1 a2 a3 a4 a5 : AutonomyLevel

pub record WorkflowLimits : Type 0 where
  pub max_runtime_minutes : ℕ
  pub max_attempts : ℕ

pub record WorkflowTransitions : Type 0 where
  pub success : Option String
  pub failure : Option String
  pub approval : Option String
  pub retry : Option String

pub record WorkflowNode : Type 0 where
  pub node_id : String
  pub display_name : String
  pub owner_role : String
  pub autonomy_level : AutonomyLevel
  pub protected_side_effect : Bool
  pub allowed_tools : List String
  pub allowed_model_roles : List String
  pub routing_policy_class : Option String
  pub input_schema : String
  pub output_schema : String
  pub required_artifacts : List String
  pub limits : WorkflowLimits
  pub transitions : WorkflowTransitions

pub record WorkflowDefinition : Type 0 where
  pub workflow_id : String
  pub entry_node : String
  pub nodes : List WorkflowNode

-- the ValueErrors of the validators, and the PolicyError
pub data WorkflowError : Type 0 where
  unprotected_approval : String → WorkflowError
  duplicate_node : WorkflowError
  unknown_entry : String → WorkflowError
  unknown_target : String → String → WorkflowError
  unknown_class : String → String → WorkflowError

-- `TERMINAL_SENTINELS`
abbrev pub terminal_sentinels : List String
terminal_sentinels = "done" ∷ "blocked" ∷ "failed" ∷ "cancelled" ∷ "recovery_required" ∷ []

-- `if t`: a transition that is there, and is not the empty text
abbrev pub truthy : Option String → List String
truthy none = []
truthy (some t) = if t =s= "" then [] else t ∷ []

-- `WorkflowTransitions.targets`
unfoldable pub targets : WorkflowTransitions → List String
targets t = truthy t.success ++ (truthy t.failure ++ (truthy t.approval ++ truthy t.retry))

abbrev is_a4 : AutonomyLevel → Bool
is_a4 a4 = true
is_a4 _ = false

-- `approval_nodes_are_a4_and_protected`
unfoldable pub check_protection : WorkflowNode → Option WorkflowError
check_protection n =
    require (not (is_a4 n.autonomy_level && not n.protected_side_effect))
      (unprotected_approval n.node_id) none

abbrev pub ids_of : List WorkflowNode → List String
ids_of [] = []
ids_of (n ∷ ns) = n.node_id ∷ ids_of ns

-- `len(ids) == len(set(ids))`
abbrev pub distinct : List String → Bool
distinct [] = true
distinct (x ∷ xs) = not (str_mem x xs) && distinct xs

abbrev pub is_defined : List String → String → Bool
is_defined ids target = str_mem target ids || str_mem target terminal_sentinels

-- the inner loop of `validate_graph`
abbrev pub check_targets : List String → String → List String → Option WorkflowError
check_targets ids from [] = none
check_targets ids from (t ∷ ts) =
    first_error (require (is_defined ids t) (unknown_target from t) none)
      (check_targets ids from ts)

unfoldable pub check_nodes : List String → List WorkflowNode → Option WorkflowError
unfolding targets
check_nodes ids [] = none
check_nodes ids (n ∷ ns) =
    first_error (check_targets ids n.node_id (targets n.transitions)) (check_nodes ids ns)

-- `validate_graph`
unfoldable pub validate_graph : WorkflowDefinition → Option WorkflowError
unfolding check_nodes
validate_graph w =
    let ids = ids_of w.nodes in
    require (distinct ids) duplicate_node
      (require (str_mem w.entry_node ids) (unknown_entry w.entry_node) (check_nodes ids w.nodes))

-- `WorkflowDefinition.node`; `none` is KeyError
unfoldable pub node : WorkflowDefinition → String → Option WorkflowNode
node w node_id = find (λ n. n.node_id =s= node_id) w.nodes

abbrev check_routing_class : List String → String → Option String → Option WorkflowError
check_routing_class classes from none = none
check_routing_class classes from (some c) = require (str_mem c classes) (unknown_class from c) none

-- `validate_against_routing_policy`, on the names of the policy's classes
unfoldable pub validate_against_routing_policy :
    List WorkflowNode → List String → Option WorkflowError
validate_against_routing_policy [] classes = none
validate_against_routing_policy (n ∷ ns) classes =
    first_error (check_routing_class classes n.node_id n.routing_policy_class)
      (validate_against_routing_policy ns classes)
