-- ===== src/Manager.antt =====
-- task_manager/execution.py, the stage of a run, and the decision of the serial coordinator in
-- application/task_manager_coordinator.py. A node execution is modelled with the fields that the
-- coordinator reads.
pub mod Ready
pub mod Decisions
pub mod Completion
pub mod Cursor
pub mod Bound
mod Tests
use Prim.Native.String.{◌++◌ as join}
use job_slayer.Base.{
  ℕ, String, Bool, true, false, not, ◌&&◌, ◌||◌, List, [], ◌∷◌, Option, none, some, any, all,
  is_empty, if◌then◌else◌, str_eq, Result, ok, err, ◌>>=◌,
}
pub use job_slayer.Plan.{NodeKind, task, milestone, validation, human_gate}
use job_slayer.Workflow.State.{
  TaskState, draft, planned, plan_review, implementing, verifying, repairing, reviewing,
  merge_review, integrating, blocked, failed, completed, cancelled, gate_approved,
  deliverable_accepted, is_state, is_among,
}

pub record NodeExecution : Type 0 where
  pub node_id : String
  pub kind : NodeKind
  pub dependency_node_ids : List String
  pub workflow_state : TaskState
  pub provider_reference : Option String

pub data RunStage : Type 0 where
  run_ready run_running run_needs_attention run_verifying run_completed run_cancelled : RunStage

-- `_SATISFIED_STATES`
abbrev pub satisfied_states : List TaskState
satisfied_states = completed ∷ gate_approved ∷ deliverable_accepted ∷ []

-- `_ACTIVE_STATES`
abbrev pub active_states : List TaskState
active_states =
    implementing ∷ verifying ∷ repairing ∷ reviewing ∷ merge_review ∷ integrating ∷ blocked ∷ failed
    ∷ []

abbrev pub is_in : List TaskState → NodeExecution → Bool
is_in states n = is_among n.workflow_state states

-- `states and states <= {...}`
abbrev pub all_in : List TaskState → List NodeExecution → Bool
all_in states nodes = not (is_empty nodes) && all (is_in states) nodes

-- `states & {...}`
abbrev pub some_in : List TaskState → List NodeExecution → Bool
some_in states nodes = any (is_in states) nodes

unfoldable pub derive_run_stage : List NodeExecution → RunStage
derive_run_stage nodes =
    if all_in satisfied_states nodes
    then run_completed
    else if some_in (implementing ∷ []) nodes
    then run_running
    else if some_in (blocked ∷ failed ∷ repairing ∷ []) nodes
    then run_needs_attention
    else if some_in (verifying ∷ reviewing ∷ merge_review ∷ integrating ∷ []) nodes
    then run_verifying
    else if all_in (completed ∷ cancelled ∷ []) nodes
    then run_cancelled
    else run_ready

-- The fields of a run snapshot that the coordinator reads.
pub record RunSnapshot : Type 0 where
  pub run_id : String
  pub revision : ℕ
  pub stage : RunStage
  pub nodes : List NodeExecution

pub data CoordinatorStage : Type 0 where
  ready advancing waiting_human waiting_review needs_attention finished : CoordinatorStage

pub data Action : Type 0 where
  start_node run_validation observe_node verify_node integrate_checkpoint : Action
  wait_human wait_review ask_attention complete : Action

-- `SIDE_EFFECTING_COORDINATOR_ACTIONS`
abbrev pub has_side_effect : Action → Bool
has_side_effect start_node = true
has_side_effect run_validation = true
has_side_effect observe_node = true
has_side_effect verify_node = true
has_side_effect integrate_checkpoint = true
has_side_effect _ = false

pub record Decision : Type 0 where
  pub stage : CoordinatorStage
  pub action : Action
  pub node_id : Option String
  pub reason : String

-- The value of a state, in the reason of a decision.
abbrev pub state_value : TaskState → String
state_value draft = "draft"
state_value planned = "planned"
state_value plan_review = "plan_review"
state_value implementing = "implementing"
state_value verifying = "verifying"
state_value repairing = "repairing"
state_value reviewing = "reviewing"
state_value merge_review = "merge_review"
state_value integrating = "integrating"
state_value blocked = "blocked"
state_value failed = "failed"
state_value completed = "completed"
state_value cancelled = "cancelled"
state_value gate_approved = "gate_approved"
state_value deliverable_accepted = "deliverable_accepted"

abbrev decision : CoordinatorStage → Action → Option String → String → Decision
decision stage action node_id reason = record {
  stage = stage;
  action = action;
  node_id = node_id;
  reason = reason;
}

abbrev is_validation : NodeKind → Bool
is_validation validation = true
is_validation _ = false

-- `_active_decision`
unfoldable pub active_decision : NodeExecution → Decision
active_decision n = in_state n.workflow_state
  where
    implementing_decision : Option String → Decision
    implementing_decision none =
        decision ready (if is_validation n.kind then run_validation else start_node)
          (some n.node_id) "recover the persisted provider start intent without duplicating it"
    implementing_decision (some reference) =
        decision ready observe_node (some n.node_id)
          "observe the one bound provider run and append normalized feedback"

    waiting : Decision
    waiting =
        decision waiting_review wait_review (some n.node_id)
          "passing evidence is waiting for an authorized independent review"

    in_state : TaskState → Decision
    in_state implementing = implementing_decision n.provider_reference
    in_state verifying =
        decision ready verify_node (some n.node_id)
          "compile provider facts into a deterministic verification report"
    in_state integrating =
        decision ready integrate_checkpoint (some n.node_id)
          "integrate the exact independently reviewed and approved checkpoint"
    in_state reviewing = waiting
    in_state merge_review = waiting
    in_state other = decision needs_attention ask_attention (some n.node_id) (
        join "node is "
          (join (state_value other) "; explicit repair, retry, or cancellation is required"))
