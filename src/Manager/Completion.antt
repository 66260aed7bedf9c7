-- ===== src/Manager/Completion.antt =====
-- When the coordinator reports that a run is complete.
use job_slayer.Base.{
  String, Bool, true, false, List, [], ◌∷◌, Option, none, some, ok, ◌≡◌, refl, sym, ap, ◌∙◌, subst,
  ◌↔◌, arith, >>=-eq-ok, ok-injective,
}
use job_slayer.Workflow.State.{TaskState, implementing}
use job_slayer.Manager.{
  NodeKind, NodeExecution, RunStage, run_completed, run_cancelled, RunSnapshot, satisfied_states,
  all_in, derive_run_stage, Action, complete, Decision, active_decision, validation, human_gate,
}
use job_slayer.Manager.Ready.{
  ready_nodes, active_nodes, start_decision, ready_decision, node_decision, decide_in, decide,
}
use job_slayer.Manager.Decisions.{node}

abbrev is_complete : Action → Bool
is_complete complete = true
is_complete _ = false

active_incomplete :
    (id : String) (kind : NodeKind) (ds : List String) (state : TaskState)
    (reference : Option String)
    → is_complete (active_decision (node id kind ds state reference)).action ≡ false
unfolding active_decision
active_incomplete id NodeKind.task ds implementing none = refl
active_incomplete id NodeKind.milestone ds implementing none = refl
active_incomplete id validation ds implementing none = refl
active_incomplete id human_gate ds implementing none = refl
active_incomplete id kind ds implementing (some r) = refl
active_incomplete id kind ds _ reference = refl

start_incomplete :
    (id : String) (kind : NodeKind) (ds : List String) (state : TaskState)
    (reference : Option String)
    → is_complete (start_decision (node id kind ds state reference)).action ≡ false
start_incomplete id NodeKind.task ds state reference = refl
start_incomplete id NodeKind.milestone ds state reference = refl
start_incomplete id validation ds state reference = refl
start_incomplete id human_gate ds state reference = refl

ready_incomplete : (next : List NodeExecution) → is_complete (ready_decision next).action ≡ false
ready_incomplete [] = refl
ready_incomplete (n ∷ ns) =
    start_incomplete n.node_id n.kind n.dependency_node_ids n.workflow_state n.provider_reference

abbrev completes : Decision → Bool
completes d = is_complete d.action

node_incomplete :
    (run : RunSnapshot) (active : List NodeExecution) (d : Decision)
    → node_decision run active ≡ ok d
    → completes d ≡ false
node_incomplete run [] d h =
    let (next, found, e) = >>=-eq-ok (ready_nodes run.nodes run.nodes) _ h in
    sym (ap completes (ok-injective e)) ∙ ready_incomplete next
node_incomplete run (n ∷ []) d h =
    sym (ap completes (ok-injective h))
    ∙ active_incomplete n.node_id n.kind n.dependency_node_ids n.workflow_state n.provider_reference
node_incomplete run (n ∷ m ∷ ns) d h = sym (ap completes (ok-injective h))

is_run_completed : RunStage → Bool
is_run_completed run_completed = true
is_run_completed _ = false

decide-completes :
    (run : RunSnapshot) (stage : RunStage) (d : Decision)
    → decide_in run stage ≡ ok d
    → completes d ≡ is_run_completed stage
unfolding is_run_completed
decide-completes run run_completed d h = sym (ap completes (ok-injective h))
decide-completes run run_cancelled d h = sym (ap completes (ok-injective h))
decide-completes run _ d h = node_incomplete run (active_nodes run.nodes) d h

stage-all_in :
    (nodes : List NodeExecution)
    → is_run_completed (derive_run_stage nodes) ≡ all_in satisfied_states nodes
unfolding derive_run_stage is_run_completed
stage-all_in nodes = ground arith

complete_iff : (a : Action) → (a ≡ complete) ↔ (is_complete a ≡ true)
complete_iff a = ((λ e. ap is_complete e), (λ h. ground arith))

-- In a run whose stage is derived from its nodes, the decision is to complete exactly when the run
-- has nodes and each of them is completed, approved as a gate, or accepted as a deliverable.
pub decide-complete_iff :
    (run : RunSnapshot) (d : Decision)
    → run.stage ≡ derive_run_stage run.nodes
    → decide run ≡ ok d
    → (d.action ≡ complete) ↔ (all_in satisfied_states run.nodes ≡ true)
unfolding decide
decide-complete_iff run d derived h =
    let same : is_complete d.action ≡ all_in satisfied_states run.nodes =
      decide-completes run run.stage d h ∙ ap is_run_completed derived ∙ stage-all_in run.nodes in
    subst (λ b. (d.action ≡ complete) ↔ (b ≡ true)) same (complete_iff d.action)
