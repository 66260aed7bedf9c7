-- ===== src/Plan/Service.antt =====
-- `TaskOrchestrationService` of application/task_orchestration.py over any store of the port: a
-- request reads the latest revision of a plan, and appends the next one or raises.
use job_slayer.Base.{
  ℕ, String, Bool, true, false, not, List, [], ◌∷◌, Option, none, some, ◌==◌, get_last?, is_empty,
  strip, str_eq, Result, ok, err, require, ◌>>=◌, ◌>>◌,
}
use job_slayer.Workflow.State.{ActorType}
use job_slayer.Plan.{EdgeRelation}
use job_slayer.Plan.Snapshot.{
  TaskPlanProposal, TaskPlanMessage, TaskPlanSnapshot, TaskPlanStatus, is_valid_message,
  is_consistent_snapshot,
}
use job_slayer.Plan.Assess.{TaskPlanAssessment, assess_task_plan}
use job_slayer.Plan.Record.{Entry, TaskPlanRevisionRecord, JournalError}
use job_slayer.Plan.Port.{TaskPlanStore, PlanningAgent}
use job_slayer.Plan.Changes.{
  OrchestrationError, not_found, stale_revision, refused, invalid_value, journal_failed, Call,
  Change, validated, read_clock, proposal_from_draft, user_message, agent_message, answered,
  discuss, set_execution_target, pin_execution_target_source, apply_proposal, reject_proposal,
  set_archived, finalize,
}
use job_slayer.Plan.Edits.{
  NewNode, NodeUpdate, NewEdge, or_fresh, create_node, update_node, delete_node, create_edge,
  update_edge, delete_edge, derive_from_revision, is_split, split_arguments,
}

-- A call of an operation on a plan that exists.
pub data Request : Type 0 where
  to_discuss : String → Option String → Request
  to_set_target : String → String → Request
  to_pin_target to_apply to_reject to_delete_node to_delete_edge : String → Request
  to_create_node : NewNode → Request
  to_update_node : String → NodeUpdate → Request
  to_split_node : String → String → String → EdgeRelation → Request
  to_create_edge : NewEdge → Request
  to_update_edge : String → EdgeRelation → Option String → Request
  to_derive : ℕ → Request
  to_archive : Bool → Request
  to_finalize : Request

-- The test of the relation, with which `split_node` begins.
abbrev pub is_allowed : Request → Bool
is_allowed (to_split_node source title description relation) = is_split relation
is_allowed _ = true

module _ (agent : PlanningAgent) (actor_id : String) where
  unfoldable pub change : Call → List TaskPlanRevisionRecord → TaskPlanSnapshot → Request → Change
  change call rs latest (to_discuss content selected) = discuss agent call latest content selected
  change call rs latest (to_set_target target digest) =
      set_execution_target call latest target digest
  change call rs latest (to_pin_target digest) = pin_execution_target_source call latest digest
  change call rs latest (to_apply proposal_id) = apply_proposal call latest proposal_id
  change call rs latest (to_reject proposal_id) = reject_proposal call latest proposal_id
  change call rs latest (to_create_node a) = create_node call latest a
  change call rs latest (to_update_node id u) = update_node call latest id u
  change call rs latest (to_delete_node id) = delete_node call latest id
  change call rs latest (to_split_node source title description relation) =
      create_node call latest (split_arguments source title description relation)
  change call rs latest (to_create_edge a) = create_edge call latest a
  change call rs latest (to_update_edge id relation label) =
      update_edge call latest id relation label
  change call rs latest (to_delete_edge id) = delete_edge call latest id
  change call rs latest (to_derive revision) = derive_from_revision call rs latest revision
  change call rs latest (to_archive wanted) = set_archived actor_id call latest wanted
  change call rs latest to_finalize = finalize actor_id call latest

-- What the store raises passes through.
abbrev pub from_journal : {A : Type 0} → Result JournalError A → Result OrchestrationError A
from_journal (ok a) = ok a
from_journal (err e) = err (journal_failed e)

abbrev pub latest_of :
    List TaskPlanRevisionRecord → Result OrchestrationError TaskPlanRevisionRecord
latest_of rs = elim (get_last? rs) [ none ↦ err not_found | some r ↦ ok r ]

module _ {S Env : Type 0} (store : TaskPlanStore S Env) where
  unfoldable pub history : S → String → Result OrchestrationError (List TaskPlanRevisionRecord)
  history s plan_id = do
    rs ← from_journal (store.history s plan_id)
    require (not (is_empty rs)) not_found
    ok rs

  unfoldable pub get : S → String → Result OrchestrationError TaskPlanRevisionRecord
  unfolding history
  get s plan_id = do rs ← history s plan_id; latest_of rs

  unfoldable pub assess : S → String → Result OrchestrationError TaskPlanAssessment
  unfolding get
  assess s plan_id = do r ← get s plan_id; ok (assess_task_plan r.snapshot)

  -- The latest records of some plans, those without a record left out.
  latest_records : S → List String → Result OrchestrationError (List TaskPlanRevisionRecord)
  latest_records s [] = ok []
  latest_records s (id ∷ ids) = do
    rs ← from_journal (store.history s id)
    rest ← latest_records s ids
    ok (elim (get_last? rs) [ none ↦ rest | some r ↦ r ∷ rest ])

  unfoldable pub list_latest : S → Result OrchestrationError (List TaskPlanRevisionRecord)
  unfolding latest_records
  list_latest s = do ids ← from_journal (store.list_plan_ids s); latest_records s ids

  -- `_expected`
  unfoldable pub expected : S → String → ℕ → Result OrchestrationError TaskPlanRevisionRecord
  unfolding get
  expected s plan_id revision = do
    r ← get s plan_id
    require (r.sequence == revision) stale_revision
    ok r

-- `_append`, by a human.
abbrev pub entry_of : String → TaskPlanSnapshot × String → Entry
entry_of actor_id (s, operation) = record {
  snapshot = s;
  actor_type = ActorType.human;
  actor_id = actor_id;
  operation = operation;
}

abbrev pub created_snapshot :
    Call → String → String → TaskPlanMessage → TaskPlanMessage → TaskPlanProposal → TaskPlanSnapshot
created_snapshot call id text question reply proposal = record {
  plan_id = id;
  revision = 1;
  task_description = text;
  execution_target_id = none;
  execution_target_source_sha256 = none;
  status = TaskPlanStatus.draft;
  nodes = [];
  edges = [];
  conversation = question ∷ reply ∷ [];
  pending_proposal = some proposal;
  latest_finalized_revision = none;
  finalized_by = none;
  finalized_at = none;
  is_archived = false;
  archived_by = none;
  archived_at = none;
  created_at = call.now;
  updated_at = call.now;
}

module _ {S Env : Type 0} (store : TaskPlanStore S Env) (agent : PlanningAgent)
    (actor_id : String) where
  abbrev pub commit : Env → S → Change → Result OrchestrationError TaskPlanRevisionRecord × S
  commit env s (err e) = (err e, s)
  commit env s (ok c) =
      let (r, s') = store.append env s (entry_of actor_id c) in (from_journal r, s')

  -- `create`, up to its append; `fresh` is the identifier of a plan that is not named.
  unfoldable pub create_change : Call → String → S → String → Option String → Change
  unfolding proposal_from_draft
  create_change call fresh s task_description plan_id =
      let text = strip task_description in
      let id = or_fresh plan_id fresh in
      do
        require (not (str_eq text "")) invalid_value
        rs ← from_journal (store.history s id)
        require (is_empty rs) refused
        read_clock call.now
        question ← validated is_valid_message (user_message call text)
        draft ← answered (
            agent.propose (record {
              plan_id = id;
              task_description = text;
              based_on_revision = 0;
              nodes = [];
              edges = [];
              conversation = question ∷ [];
              user_message = text;
              selected_node_id = none;
            }))
        proposal ← proposal_from_draft agent call draft 0
        reply ← validated is_valid_message (agent_message call proposal)
        snapshot ←
            validated is_consistent_snapshot (created_snapshot call id text question reply proposal)
        ok (snapshot, "plan.created_with_agent_proposal")

  unfoldable pub create :
      Env
      → Call
      → String
      → S
      → String
      → Option String
      → Result OrchestrationError TaskPlanRevisionRecord × S
  unfolding create_change
  create env call fresh s task_description plan_id =
      commit env s (create_change call fresh s task_description plan_id)

  -- A request on a plan, up to its append.
  abbrev pub requested : Call → S → String → ℕ → Request → Change
  requested call s plan_id expected_revision request = do
    require (is_allowed request) invalid_value
    latest ← expected store s plan_id expected_revision
    rs ← history store s plan_id
    change agent actor_id call rs latest.snapshot request

  unfoldable pub perform :
      Env → Call → S → String → ℕ → Request → Result OrchestrationError TaskPlanRevisionRecord × S
  unfolding expected history change
  perform env call s plan_id expected_revision request =
      commit env s (requested call s plan_id expected_revision request)
