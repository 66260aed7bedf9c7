-- ===== src/Manager/Tests.antt =====
-- The coordinator's theorems at a run of two nodes.
use job_slayer.Base.{◌≡◌, refl, true, [], ◌∷◌, none, some, Result, ok, err, ◌↔◌}
use job_slayer.Workflow.State.{planned, deliverable_accepted}
use job_slayer.Manager.{
  NodeKind, NodeExecution, RunStage, RunSnapshot, derive_run_stage, Action, complete, start_node,
  Decision, active_decision, satisfied_states, all_in,
}
use job_slayer.Manager.Ready.{
  DecisionError, find_node, are_satisfied, ready_nodes, active_nodes, decide,
}
use job_slayer.Manager.Decisions.{IsDecidedFor, decide-IsNext}
use job_slayer.Manager.Completion.{decide-complete_iff}
use job_slayer.Manager.Cursor.{
  Cursor, is_bound, is_valid_intent, new_intent, initial_cursor, projection, advancing_cursor,
}
use job_slayer.Manager.Bound.{decide-is_bound, advancing_cursor-is_bound}

abbrev design : NodeExecution
design = record {
  node_id = "design";
  kind = NodeKind.task;
  dependency_node_ids = [];
  workflow_state = deliverable_accepted;
  provider_reference = none;
}

abbrev build : NodeExecution
build = record {
  node_id = "build";
  kind = NodeKind.task;
  dependency_node_ids = "design" ∷ [];
  workflow_state = planned;
  provider_reference = none;
}

abbrev half_done : RunSnapshot
half_done = record {
  run_id = "run-1";
  revision = 4;
  stage = RunStage.run_ready;
  nodes = build ∷ design ∷ [];
}

abbrev done : RunSnapshot
done = record {
  run_id = "run-1";
  revision = 9;
  stage = RunStage.run_completed;
  nodes = design ∷ [];
}

abbrev decided : Result DecisionError Decision → Decision
decided (ok d) = d
decided (err e) = record {
  stage = job_slayer.Manager.needs_attention;
  action = job_slayer.Manager.ask_attention;
  node_id = none;
  reason = "";
}

abbrev next_decision : Decision
unfolding decide ready_nodes active_nodes are_satisfied find_node
next_decision = decided (decide half_done)

next_decided : decide half_done ≡ ok next_decision
unfolding next_decision decide ready_nodes active_nodes are_satisfied find_node
next_decided = refl

decide-IsNext_example : (n : NodeExecution) × IsDecidedFor half_done next_decision n
unfolding next_decision
decide-IsNext_example = decide-IsNext half_done next_decision next_decided refl

abbrev last_decision : Decision
unfolding decide ready_nodes active_nodes
last_decision = decided (decide done)

last_decided : decide done ≡ ok last_decision
unfolding last_decision decide ready_nodes active_nodes
last_decided = refl

stage_derived : done.stage ≡ derive_run_stage done.nodes
unfolding derive_run_stage
stage_derived = refl

decide-complete_iff_example :
    (last_decision.action ≡ complete) ↔ (all_in satisfied_states done.nodes ≡ true)
decide-complete_iff_example = decide-complete_iff done last_decision stage_derived last_decided

abbrev first_cursor : Cursor
unfolding initial_cursor next_decision
first_cursor = initial_cursor half_done next_decision

decide-is_bound_example :
    (is_bound (initial_cursor half_done next_decision) ≡ true)
    × (is_bound (projection first_cursor half_done next_decision (some "tmcoord-1")) ≡ true)
decide-is_bound_example =
    decide-is_bound half_done next_decision first_cursor (some "tmcoord-1") next_decided

advancing_cursor-is_bound_example :
    (is_bound (advancing_cursor first_cursor half_done next_decision "build" "tmcoord-1") ≡ true)
    × (is_valid_intent (new_intent "tmcoord-1" half_done next_decision "build") ≡ true)
unfolding first_cursor next_decision
advancing_cursor-is_bound_example =
    advancing_cursor-is_bound half_done next_decision first_cursor "tmcoord-1" "build" next_decided
      refl refl
