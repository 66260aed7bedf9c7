-- ===== src/Plan/Snapshot.antt =====
-- orchestration/__init__.py: messages, proposals and snapshots of a plan, with their validators. A
-- validator of a model tests the model's own fields; pydantic tests an instance inside only where
-- it is read from data, so the tests of the parts stand apart.
use job_slayer.Base.{
  ℕ, String, Bool, true, false, not, ◌&&◌, List, Option, none, some, all, ltb, leb, ◌==◌, length,
  codes, is_empty, is_identifier, is_sha256, is_unique, is_blank, str_eq, ok, err,
}
use job_slayer.Time.{Datetime, naive, aware}
use job_slayer.Plan.{TaskPlanNode, TaskPlanEdge, is_sized, optional, is_valid_node, is_valid_edge}
use job_slayer.Plan.Graph.{validate_task_plan_graph}

-- `value.tzinfo is not None`
abbrev pub is_aware : Datetime → Bool
is_aware (naive t) = false
is_aware (aware t) = true

-- `a < b` on two values with a timezone.
abbrev pub precedes : Datetime → Datetime → Bool
precedes (aware a) (aware b) = ltb a.instant b.instant
precedes _ _ = false

abbrev pub is_none : {A : Type 0} → Option A → Bool
is_none none = true
is_none (some a) = false

-- An identifier of at most `high` characters.
abbrev pub is_name : ℕ → String → Bool
is_name high text = is_identifier text && is_sized 1 high text

pub data DiscussionRole : Type 0 where
  user agent system : DiscussionRole

pub record TaskPlanMessage : Type 0 where
  pub message_id : String
  pub role : DiscussionRole
  pub content : String
  pub created_at : Datetime
  pub agent_adapter : Option String

-- An agent's message names its adapter, no other message names one.
abbrev has_adapter : DiscussionRole → Option String → Bool
has_adapter agent none = false
has_adapter agent (some name) = not (str_eq name "")
has_adapter _ adapter = is_none adapter

unfoldable pub is_valid_message : TaskPlanMessage → Bool
is_valid_message m =
    is_name 128 m.message_id
    && is_sized 1 12000 m.content
    && optional (is_sized 0 160) m.agent_adapter
    && not (is_blank m.content)
    && is_aware m.created_at
    && has_adapter m.role m.agent_adapter

pub record TaskPlanProposalDraft : Type 0 where
  pub summary : String
  pub nodes : List TaskPlanNode
  pub edges : List TaskPlanEdge
  pub agent_invocation_id : Option String
  pub evidence_artifact_ids : List String

-- Whether `validate_task_plan_graph` returns.
abbrev pub is_graph : List TaskPlanNode → List TaskPlanEdge → Bool
is_graph nodes edges = elim (validate_task_plan_graph nodes edges) [ ok _ ↦ true | err _ ↦ false ]

abbrev has_evidence : List String → Bool
has_evidence ids =
    leb (length ids) 16
    && all (λ id. not (is_blank id) && leb (length (codes id)) 160) ids
    && is_unique ids

unfoldable pub is_valid_draft : TaskPlanProposalDraft → Bool
is_valid_draft d =
    is_sized 1 4000 d.summary
    && all is_valid_node d.nodes
    && all is_valid_edge d.edges
    && optional (is_name 128) d.agent_invocation_id
    && not (is_blank d.summary)
    && has_evidence d.evidence_artifact_ids
    && is_graph d.nodes d.edges

pub record TaskPlanProposal : Type 0 where
  pub draft : TaskPlanProposalDraft
  pub open draft use *
  pub proposal_id : String
  pub based_on_revision : ℕ
  pub agent_adapter : String
  pub created_at : Datetime

unfoldable pub is_valid_proposal : TaskPlanProposal → Bool
is_valid_proposal p =
    is_valid_draft p.draft
    && is_name 128 p.proposal_id
    && is_sized 1 160 p.agent_adapter
    && is_aware p.created_at

pub data TaskPlanStatus : Type 0 where
  draft finalized : TaskPlanStatus

pub record TaskPlanSnapshot : Type 0 where
  pub plan_id : String
  pub revision : ℕ
  pub task_description : String
  pub execution_target_id : Option String
  pub execution_target_source_sha256 : Option String
  pub status : TaskPlanStatus
  pub nodes : List TaskPlanNode
  pub edges : List TaskPlanEdge
  pub conversation : List TaskPlanMessage
  pub pending_proposal : Option TaskPlanProposal
  pub latest_finalized_revision : Option ℕ
  pub finalized_by : Option String
  pub finalized_at : Option Datetime
  pub is_archived : Bool
  pub archived_by : Option String
  pub archived_at : Option Datetime
  pub created_at : Datetime
  pub updated_at : Datetime

-- A mark of who did something and when: both are there, with a timezone, or neither is.
abbrev pub is_marked : Option String → Option Datetime → Bool
is_marked (some by) (some at) = is_aware at
is_marked _ _ = false

abbrev pub is_unmarked : Option String → Option Datetime → Bool
is_unmarked by at = is_none by && is_none at

abbrev pub is_now : ℕ → Option ℕ → Bool
is_now revision none = false
is_now revision (some n) = n == revision

-- The branches of `validate_snapshot` on the status.
abbrev pub has_finalization : TaskPlanStatus → TaskPlanSnapshot → Bool
has_finalization finalized s =
    not (is_empty s.nodes)
    && is_none s.pending_proposal
    && is_marked s.finalized_by s.finalized_at
    && is_now s.revision s.latest_finalized_revision
has_finalization draft s = is_unmarked s.finalized_by s.finalized_at

abbrev pub has_fields : TaskPlanSnapshot → Bool
has_fields s =
    is_name 128 s.plan_id
    && leb 1 s.revision
    && is_sized 1 12000 s.task_description
    && optional (is_name 128) s.execution_target_id
    && optional is_sha256 s.execution_target_source_sha256
    && optional (is_sized 0 160) s.finalized_by
    && optional (is_sized 0 160) s.archived_by

-- The other parts of `validate_snapshot`: the times, the latest finalization, the archive.
abbrev pub has_times : TaskPlanSnapshot → Bool
has_times s =
    not (is_blank s.task_description)
    && is_aware s.created_at
    && is_aware s.updated_at
    && not (precedes s.updated_at s.created_at)

abbrev pub has_latest : ℕ → Option ℕ → Bool
has_latest revision none = true
has_latest revision (some n) = leb 1 n && leb n revision

abbrev pub has_archive : Bool → Option String → Option Datetime → Bool
has_archive true by at = is_marked by at
has_archive false by at = is_unmarked by at

-- The constraints on the fields, and `validate_snapshot`.
unfoldable pub is_consistent_snapshot : TaskPlanSnapshot → Bool
is_consistent_snapshot s =
    has_fields s
    && has_times s
    && is_graph s.nodes s.edges
    && has_latest s.revision s.latest_finalized_revision
    && has_finalization s.status s
    && has_archive s.is_archived s.archived_by s.archived_at

-- A snapshot that is read from data: its parts are tested as well.
unfoldable pub is_valid_plan : TaskPlanSnapshot → Bool
unfolding is_consistent_snapshot
is_valid_plan s =
    is_consistent_snapshot s
    && all is_valid_node s.nodes
    && all is_valid_edge s.edges
    && all is_valid_message s.conversation
    && elim s.pending_proposal [ none ↦ true | some p ↦ is_valid_proposal p ]
