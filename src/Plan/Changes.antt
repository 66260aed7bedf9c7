-- ===== src/Plan/Changes.antt =====
-- application/task_orchestration.py: what each operation of `TaskOrchestrationService` makes of the
-- latest snapshot: the next snapshot and the name of the operation, or the exception. A `Call` holds
-- what the clock and `uuid4` answer.
use Prim.Native.String.{◌++◌ as join}
use job_slayer.Base.{
  ℕ, ◌+◌, String, Bool, false, not, ◌&&◌, [], ◌∷◌, ◌++◌, Option, none, some, any, is_empty,
  is_sha256, strip, str_eq, if◌then◌else◌, Result, ok, err, require, ◌>>=◌, ◌>>◌,
}
use job_slayer.Time.{Datetime}
use job_slayer.Plan.Snapshot.{
  TaskPlanMessage, DiscussionRole, TaskPlanProposalDraft, TaskPlanProposal, TaskPlanSnapshot,
  TaskPlanStatus, is_none, is_aware, is_valid_message, is_valid_proposal, is_consistent_snapshot,
}
use job_slayer.Plan.Assess.{is_blocker, assess_task_plan, effective_nodes, effective_edges}
use job_slayer.Plan.Record.{JournalError}
use job_slayer.Plan.Port.{PlanningAgent}

pub data OrchestrationError : Type 0 where
  not_found stale_revision proposal_pending proposal_mismatch archived incomplete :
      OrchestrationError
  refused invalid_value planning_failed : OrchestrationError
  journal_failed : JournalError → OrchestrationError

-- `clock()`, the first and the second time it is asked, and the identifiers made from `uuid4`.
pub record Call : Type 0 where
  pub now : Datetime
  pub later : Datetime
  pub message_id : String
  pub reply_id : String
  pub proposal_id : String
  pub node_id : String
  pub edge_id : String

-- The snapshot to append, and the operation that its record names.
abbrev pub Change : Type 0
Change = Result OrchestrationError (TaskPlanSnapshot × String)

-- A model's constructor: it raises unless the value passes the validators.
abbrev pub validated : {A : Type 0} → (A → Bool) → A → Result OrchestrationError A
validated test a = do require (test a) invalid_value; ok a

-- `_require_active`
unfoldable pub require_active_plan : TaskPlanSnapshot → Result OrchestrationError (Unit {0})
require_active_plan s = require (not s.is_archived) archived

-- `_editable`, on the latest snapshot.
unfoldable pub require_editable : TaskPlanSnapshot → Result OrchestrationError (Unit {0})
unfolding require_active_plan
require_editable s = do require_active_plan s; require (is_none s.pending_proposal) proposal_pending

-- `_now`
abbrev pub read_clock : Datetime → Result OrchestrationError (Unit {0})
read_clock t = require (is_aware t) invalid_value

-- The fields that `_next_snapshot` sets on every new revision.
abbrev pub advanced : Datetime → TaskPlanSnapshot → TaskPlanSnapshot → TaskPlanSnapshot
advanced now latest updated = record updated {
  revision = latest.revision + 1;
  status = TaskPlanStatus.draft;
  finalized_by = none;
  finalized_at = none;
  updated_at = now;
}

-- `_next_snapshot`: `updated` is the latest snapshot with the keyword arguments.
unfoldable pub next_snapshot :
    Datetime → TaskPlanSnapshot → TaskPlanSnapshot → Result OrchestrationError TaskPlanSnapshot
next_snapshot now latest updated = do
  read_clock now
  validated is_consistent_snapshot (advanced now latest updated)

-- `self._next_snapshot(latest, **updates)` with the operation that is appended.
abbrev pub changed : Datetime → TaskPlanSnapshot → TaskPlanSnapshot → String → Change
changed now latest updated operation = do s ← next_snapshot now latest updated; ok (s, operation)

-- `_proposal_from_draft`
unfoldable pub proposal_from_draft :
    PlanningAgent → Call → TaskPlanProposalDraft → ℕ → Result OrchestrationError TaskPlanProposal
proposal_from_draft agent call draft based_on_revision = validated is_valid_proposal (record {
  draft = draft;
  proposal_id = call.proposal_id;
  based_on_revision = based_on_revision;
  agent_adapter = agent.adapter_id;
  created_at = call.now;
})

abbrev pub user_message : Call → String → TaskPlanMessage
user_message call text = record {
  message_id = call.message_id;
  role = DiscussionRole.user;
  content = text;
  created_at = call.now;
  agent_adapter = none;
}

abbrev pub agent_message : Call → TaskPlanProposal → TaskPlanMessage
agent_message call p = record {
  message_id = call.reply_id;
  role = DiscussionRole.agent;
  content = p.summary;
  created_at = call.now;
  agent_adapter = some p.agent_adapter;
}

-- `propose`, with PlanningAgentError for no answer.
abbrev pub answered : Option TaskPlanProposalDraft → Result OrchestrationError TaskPlanProposalDraft
answered none = err planning_failed
answered (some draft) = ok draft

unfoldable pub discuss : PlanningAgent → Call → TaskPlanSnapshot → String → Option String → Change
unfolding require_active_plan next_snapshot proposal_from_draft
discuss agent call latest content selected =
    let text = strip content in
    do
      require_active_plan latest
      require (not (str_eq text "")) invalid_value
      read_clock call.now
      question ← validated is_valid_message (user_message call text)
      draft ← answered (
          agent.propose (record {
            plan_id = latest.plan_id;
            task_description = latest.task_description;
            based_on_revision = latest.revision;
            nodes = effective_nodes latest;
            edges = effective_edges latest;
            conversation = latest.conversation ++ question ∷ [];
            user_message = text;
            selected_node_id = selected;
          }))
      proposal ← proposal_from_draft agent call draft latest.revision
      reply ← validated is_valid_message (agent_message call proposal)
      changed call.later latest
          (record latest {
            conversation = latest.conversation ++ question ∷ [] ++ reply ∷ [];
            pending_proposal = some proposal;
          })
          "discussion.proposal_recorded"

-- `latest.f == value` on an optional text.
abbrev pub is_text : Option String → String → Bool
is_text none value = false
is_text (some text) value = str_eq text value

unfoldable pub set_execution_target : Call → TaskPlanSnapshot → String → String → Change
unfolding require_active_plan next_snapshot
set_execution_target call latest target_id source_bundle_sha256 =
    let identifier = strip target_id in
    let digest = strip source_bundle_sha256 in
    do
      require_active_plan latest
      require (is_none latest.pending_proposal) proposal_pending
      require (not (str_eq identifier "")) invalid_value
      require (is_sha256 digest) invalid_value
      require
          (not (
            is_text latest.execution_target_id identifier
            && is_text latest.execution_target_source_sha256 digest))
          refused
      changed call.now latest
          (record latest {
            execution_target_id = some identifier;
            execution_target_source_sha256 = some digest;
          })
          (join "plan.execution_target_selected:" identifier)

unfoldable pub pin_execution_target_source : Call → TaskPlanSnapshot → String → Change
unfolding require_active_plan next_snapshot
pin_execution_target_source call latest source_bundle_sha256 =
    let digest = strip source_bundle_sha256 in
    do
      require_active_plan latest
      require (not (is_none latest.execution_target_id)) refused
      require (is_none latest.execution_target_source_sha256) refused
      require (is_sha256 digest) invalid_value
      changed call.now latest (record latest { execution_target_source_sha256 = some digest })
          "plan.execution_target_source_pinned"

-- `if proposal is None or proposal.proposal_id != proposal_id: raise`
abbrev pub pending : TaskPlanSnapshot → String → Result OrchestrationError TaskPlanProposal
pending s proposal_id = elim s.pending_proposal [
  | none ↦ err proposal_mismatch
  | some p ↦ if str_eq p.proposal_id proposal_id then ok p else err proposal_mismatch
]

unfoldable pub apply_proposal : Call → TaskPlanSnapshot → String → Change
unfolding next_snapshot
apply_proposal call latest proposal_id = do
  p ← pending latest proposal_id
  changed call.now latest
      (record latest { nodes = p.nodes; edges = p.edges; pending_proposal = none })
      "agent_proposal.applied_by_user"

unfoldable pub reject_proposal : Call → TaskPlanSnapshot → String → Change
unfolding require_active_plan next_snapshot
reject_proposal call latest proposal_id = do
  require_active_plan latest
  p ← pending latest proposal_id
  changed call.now latest (record latest { pending_proposal = none })
      "agent_proposal.rejected_by_user"

unfoldable pub set_archived : String → Call → TaskPlanSnapshot → Bool → Change
unfolding next_snapshot
set_archived actor_id call latest wanted = do
  require (is_none latest.pending_proposal) proposal_pending
  require (if latest.is_archived then not wanted else wanted) refused
  read_clock call.now
  changed call.later latest
      (record latest {
        is_archived = wanted;
        archived_by = if wanted then some actor_id else none;
        archived_at = if wanted then some call.now else none;
      })
      (if wanted then "plan.archived_by_user" else "plan.restored_by_user")

abbrev pub final_snapshot : String → Call → TaskPlanSnapshot → TaskPlanSnapshot
final_snapshot actor_id call latest = record latest {
  revision = latest.revision + 1;
  status = TaskPlanStatus.finalized;
  latest_finalized_revision = some (latest.revision + 1);
  finalized_by = some actor_id;
  finalized_at = some call.now;
  updated_at = call.now;
}

unfoldable pub finalize : String → Call → TaskPlanSnapshot → Change
unfolding require_active_plan
finalize actor_id call latest = do
  require_active_plan latest
  require (is_none latest.pending_proposal) proposal_pending
  require (not (is_empty latest.nodes)) refused
  require (not (any is_blocker (assess_task_plan latest).issues)) incomplete
  read_clock call.now
  s ← validated is_consistent_snapshot (final_snapshot actor_id call latest)
  ok (s, "plan.finalized_by_user")
