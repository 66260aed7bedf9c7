-- ===== src/Plan/Tests.antt =====
-- The search of a plan of three nodes, and of a plan with a cycle.
use job_slayer.Base.{String, ◌≡◌, ◌≢◌, ◌↔◌, refl, false, List, [], ◌∷◌, none, ok, err}
use job_slayer.Plan.{TaskPlanNode, TaskPlanEdge, NodeKind, EdgeRelation}
use job_slayer.Plan.Graph.{
  cyclic, out_of_fuel, successors, each, visit, search, validate_task_plan_graph,
}
use job_slayer.Plan.Acyclic.{IsPlanGraph, validate_task_plan_graph_iff, validate_terminates}

abbrev node : String → TaskPlanNode
node id = record {
  node_id = id;
  title = "Title";
  description = "";
  kind = NodeKind.task;
  executor_hint = none;
  acceptance_criteria = [];
  deliverables = [];
  constraints = [];
  risks = [];
  verification_requirements = [];
  requires_human_decision = false;
  attributes = [];
}

abbrev edge : String → String → String → TaskPlanEdge
edge id source target = record {
  edge_id = id;
  source_node_id = source;
  target_node_id = target;
  relation = EdgeRelation.dependency;
  label = none;
}

abbrev nodes : List TaskPlanNode
nodes = node "a" ∷ node "b" ∷ node "c" ∷ []

abbrev diamond : List TaskPlanEdge
diamond = edge "ab" "a" "b" ∷ edge "bc" "b" "c" ∷ edge "ac" "a" "c" ∷ []

abbrev circle : List TaskPlanEdge
circle = edge "ab" "a" "b" ∷ edge "bc" "b" "c" ∷ edge "ca" "c" "a" ∷ []

diamond_accepted : validate_task_plan_graph nodes diamond ≡ ok tt
unfolding validate_task_plan_graph search visit each successors
diamond_accepted = refl

circle_refused : validate_task_plan_graph nodes circle ≡ err cyclic
unfolding validate_task_plan_graph search visit each successors
circle_refused = refl

validate_task_plan_graph_iff_example :
    (validate_task_plan_graph nodes circle ≡ ok tt) ↔ IsPlanGraph nodes circle
validate_task_plan_graph_iff_example = validate_task_plan_graph_iff nodes circle

validate_terminates_example : validate_task_plan_graph nodes circle ≢ err out_of_fuel
validate_terminates_example = validate_terminates nodes circle
