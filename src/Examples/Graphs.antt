-- ===== src/Examples/Graphs.antt =====
-- An example for workflows.
use harness_golden_path.Prelude.{◌≡◌, ◌≢◌, refl, String, false, Option, none, some, [], ◌∷◌}
use harness_golden_path.Workflow.{WorkflowNode, WorkflowDefinition, a1, validate_graph}
use harness_golden_path.Workflow.Walk.{lost, enter, walk, success, failure, walk_never_lost}

abbrev step : String → Option String → WorkflowNode
step name next = record {
  node_id = name;
  display_name = name;
  owner_role = "hermes_nas";
  autonomy_level = a1;
  protected_side_effect = false;
  allowed_tools = [];
  allowed_model_roles = [];
  routing_policy_class = none;
  input_schema = "in";
  output_schema = "out";
  required_artifacts = [];
  limits = record { max_runtime_minutes = 10; max_attempts = 1 };
  transitions = record { success = next; failure = some "failed"; approval = none; retry = none };
}

abbrev two_steps : WorkflowDefinition
two_steps = record {
  workflow_id = "watch";
  entry_node = "fetch";
  nodes = step "fetch" (some "report") ∷ step "report" (some "done") ∷ [];
}

two_steps_valid : validate_graph two_steps ≡ none
unfolding validate_graph
two_steps_valid = refl

walk_never_lost_example :
    walk two_steps (enter two_steps "fetch") (success ∷ failure ∷ []) ≢ lost "report"
walk_never_lost_example =
    walk_never_lost two_steps (success ∷ failure ∷ []) "report" two_steps_valid
