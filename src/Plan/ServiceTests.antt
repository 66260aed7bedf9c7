-- ===== src/Plan/ServiceTests.antt =====
-- A plan in a directory of the local store: created, applied, finalized, archived.
use job_slayer.Base.{
  ℕ, String, ◌≡◌, ◌↔◌, refl, subst, Bool, true, false, ◌||◌, ◌&&◌, any, leb, List, [], ◌∷◌, Option,
  none, some, ok, err, get_last?, is_identifier, is_sha256, is_blank, strip,
}
use job_slayer.Time.{Datetime, aware}
use job_slayer.Workflow.Journal.Jsonl.{Fault, no_fault}
use job_slayer.Plan.{
  TaskPlanNode, TaskPlanEdge, NodeKind, EdgeRelation, is_valid_node, is_valid_edge,
}
use job_slayer.Plan.Graph.{successors, each, visit, search, validate_task_plan_graph}
use job_slayer.Plan.Snapshot.{
  precedes, TaskPlanSnapshot, TaskPlanProposalDraft, is_valid_message, is_valid_draft,
  is_valid_proposal, is_consistent_snapshot, is_valid_plan,
}
use job_slayer.Plan.Assess.{assess_task_plan}
use job_slayer.Plan.Readiness.{is_finalizable}
use job_slayer.Plan.Record.{
  Entry, RevisionPayload, TaskPlanRevisionRecord, is_valid_revision,
  build_task_plan_revision_record, verify_links_from,
}
use job_slayer.Plan.Port.{PlanningAgent}
use job_slayer.Plan.Changes.{
  OrchestrationError, stale_revision, Call, next_snapshot, proposal_from_draft, require_active_plan,
  require_editable, apply_proposal, set_archived, finalize, final_snapshot,
}
use job_slayer.Plan.Service.{
  Request, to_apply, to_finalize, to_archive, history, get, expected, change, create_change, create,
  commit, requested, perform,
}
use job_slayer.Plan.Local.{PlanCodec, Directory, is_plan_path, read_plan, append_revision}
use job_slayer.Plan.LocalPort.{local_plans}
use job_slayer.Plan.Edits.{NewNode, create_node, delete_node}
use job_slayer.Plan.Final.{finalize_iff}
use job_slayer.Workflow.State.{ActorType}
use job_slayer.Plan.Refines.{Refines, payload_of, append_revision-Refines}
use job_slayer.Plan.Rules.{perform_archived}
use job_slayer.Plan.Concurrent.{IsRefused, perform-one_winner}
use job_slayer.Plan.Finalized.{is_finalized_at, Reaches-finalized}
use job_slayer.Plan.Roundtrip.{create_node-delete_node}
use Prim.Native.String.{◌++◌ as join}
use job_slayer.Plan.Reached.{
  Reaches, HoldsLineage, Reaches-HoldsLineage, starting, creating, performing,
}

abbrev hash : String
hash = "0123456789abcdef0123456789abcdef0123456789abcdef0123456789abcdef"

abbrev constant : RevisionPayload → String
constant p = hash

-- A line stands for the record in it.
abbrev if_valid : Bool → TaskPlanRevisionRecord → Option TaskPlanRevisionRecord
if_valid true r = some r
if_valid false r = none

if_valid_sound :
    (b : Bool) (q r : TaskPlanRevisionRecord)
    → if_valid b q ≡ some r
    → is_valid_revision q.payload ≡ b
    → is_valid_revision r.payload ≡ true
if_valid_sound true q r h e =
    let same : q ≡ r = cc in
    subst (λ (k : TaskPlanRevisionRecord). is_valid_revision k.payload ≡ true) same e
if_valid_sound false q r h e = absurd (cc)

abbrev plain : PlanCodec TaskPlanRevisionRecord TaskPlanRevisionRecord constant
unfolding is_sha256
plain = record {
  is_blank_line = λ line. false;
  load = λ line. some line;
  supplied_hash = λ raw. some raw.record_hash;
  hash_without = λ raw. constant raw.payload;
  validate = λ raw. if_valid (is_valid_revision raw.payload) raw;
  dump = λ r. r;
  render = λ r. r;
  render_not_blank = λ r. refl;
  load-render = λ r. refl;
  supplied_hash-dump = λ r. refl;
  hash_without-dump = λ r. refl;
  validate-dump = λ r valid sha. rw valid refl;
  validate_sound = λ raw r h. if_valid_sound (is_valid_revision raw.payload) raw r h refl;
  digest_is_sha256 = λ p. refl;
}

abbrev node : String → NodeKind → List String → TaskPlanNode
node id kind requirements = record {
  node_id = id;
  title = "Title";
  description = "";
  kind = kind;
  executor_hint = none;
  acceptance_criteria = [];
  deliverables = [];
  constraints = [];
  risks = [];
  verification_requirements = requirements;
  requires_human_decision = false;
  attributes = [];
}

abbrev edge : TaskPlanEdge
edge = record {
  edge_id = "ab";
  source_node_id = "a";
  target_node_id = "b";
  relation = EdgeRelation.dependency;
  label = none;
}

abbrev draft : TaskPlanProposalDraft
draft = record {
  summary = "Two steps";
  nodes = node "a" NodeKind.task [] ∷ node "b" NodeKind.validation ("pytest" ∷ []) ∷ [];
  edges = edge ∷ [];
  agent_invocation_id = none;
  evidence_artifact_ids = [];
}

abbrev planner : PlanningAgent
planner = record { adapter_id = "planner"; propose = λ request. some draft }

abbrev at : ℕ → Datetime
at t = aware (record { instant = t; offset = 0 })

abbrev call : ℕ → Call
call t = record {
  now = at t;
  later = at t;
  message_id = "message-1";
  reply_id = "message-2";
  proposal_id = "proposal-1";
  node_id = "node-1";
  edge_id = "edge-1";
}

abbrev env : ℕ → Fault × String × Datetime
env t = (no_fault, "plan-record-1", at t)

abbrev empty_directory : Directory TaskPlanRevisionRecord
empty_directory = record { names = []; lines = λ id. none }

abbrev is_alnum : ℕ → Bool
is_alnum c = (leb 48 c && leb c 57) || (leb 65 c && leb c 90) || (leb 97 c && leb c 122)

abbrev Files : Type 0
Files = Directory TaskPlanRevisionRecord

abbrev after_create : Files
after_create =
    (create (local_plans is_alnum plain) planner "human-1" (env 10) (call 10) "plan-2"
      empty_directory " Build it " (some "plan-1")).1

abbrev asked : ℕ → Files → ℕ → Request → Files
asked t d n request =
    (perform (local_plans is_alnum plain) planner "human-1" (env t) (call t) d "plan-1" n request).1

abbrev applied : Files
applied = asked 20 after_create 1 (to_apply "proposal-1")

abbrev final : Files
final = asked 30 applied 2 to_finalize

abbrev stored : Files
stored = asked 40 final 3 (to_archive true)

reached : Reaches (local_plans is_alnum plain) planner "human-1" empty_directory stored
reached =
    performing
      (performing
        (performing (creating starting (env 10) (call 10) "plan-2" " Build it " (some "plan-1"))
          (env 20) (call 20) "plan-1" 1 (to_apply "proposal-1"))
        (env 30) (call 30) "plan-1" 2 to_finalize)
      (env 40) (call 40) "plan-1" 3 (to_archive true)

abbrev records : Files → List TaskPlanRevisionRecord
unfolding read_plan is_plan_path
records d = elim (read_plan is_alnum plain no_fault d "plan-1") [ ok rs ↦ rs | err e ↦ [] ]

none_yet : read_plan is_alnum plain no_fault empty_directory "plan-1" ≡ ok []
unfolding read_plan is_plan_path
none_yet = refl

Reaches-HoldsLineage_example : HoldsLineage (local_plans is_alnum plain) stored "plan-1"
Reaches-HoldsLineage_example =
    Reaches-HoldsLineage (local_plans is_alnum plain) planner "human-1" "plan-1" none_yet reached

abbrev addition : NewNode
addition = record {
  title = "Third step";
  description = "";
  kind = NodeKind.task;
  executor_hint = none;
  source_node_id = some "b";
  relation = EdgeRelation.sequence;
  node_id = some "c";
  acceptance_criteria = [];
  deliverables = [];
  constraints = [];
  risks = [];
  verification_requirements = [];
  requires_human_decision = false;
}

-- What the run computes to.
record Scenario : Type 0 where
  first_answer : TaskPlanRevisionRecord
  first_returns :
      (perform
        (local_plans is_alnum plain)
        planner
        "human-1"
        (env 20)
        (call 20)
        after_create
        "plan-1"
        1
        (to_apply "proposal-1")).0
      ≡ ok first_answer
  applied_read : read_plan is_alnum plain no_fault applied "plan-1" ≡ ok (records applied)
  final_read : read_plan is_alnum plain no_fault final "plan-1" ≡ ok (records final)
  stored_read : read_plan is_alnum plain no_fault stored "plan-1" ≡ ok (records stored)
  applied_last : TaskPlanRevisionRecord
  applied_found : get_last? (records applied) ≡ some applied_last
  applied_consistent : is_consistent_snapshot applied_last.snapshot ≡ true
  applied_before : precedes (at 30) applied_last.snapshot.created_at ≡ false
  final_last : TaskPlanRevisionRecord
  final_found : get_last? (records final) ≡ some final_last
  final_marked : final_last.snapshot.latest_finalized_revision ≡ some 3
  final_named : final_last.snapshot.plan_id ≡ "plan-1"
  stored_last : TaskPlanRevisionRecord
  stored_found : get_last? (records stored) ≡ some stored_last
  stored_archived : stored_last.snapshot.is_archived ≡ true
  grown : TaskPlanSnapshot
  grown_returns :
      create_node (call 30) applied_last.snapshot addition ≡ ok (grown, "node.created:c")

abbrev run : Scenario
unfolding create_node require_editable create create_change perform expected get history change
    apply_proposal finalize set_archived next_snapshot proposal_from_draft require_active_plan
    assess_task_plan append_revision read_plan is_plan_path build_task_plan_revision_record
    verify_links_from is_valid_revision is_valid_plan is_consistent_snapshot is_valid_message
    is_valid_draft is_valid_proposal is_valid_node is_valid_edge validate_task_plan_graph search
    visit each successors is_identifier is_sha256 is_blank strip
run = record {
  first_answer = _;
  first_returns = refl;
  applied_read = refl;
  final_read = refl;
  stored_read = refl;
  applied_last = _;
  applied_found = refl;
  applied_consistent = refl;
  applied_before = refl;
  final_last = _;
  final_found = refl;
  final_marked = refl;
  final_named = refl;
  stored_last = _;
  stored_found = refl;
  stored_archived = refl;
  grown = _;
  grown_returns = refl;
}

abbrev drafted : TaskPlanSnapshot
drafted = run.applied_last.snapshot

perform_archived_example :
    (e : OrchestrationError) × (perform
        (local_plans is_alnum plain)
        planner
        "human-1"
        (env 50)
        (call 50)
        stored
        "plan-1"
        4
        to_finalize
      ≡ (err e, stored))
perform_archived_example =
    perform_archived (local_plans is_alnum plain) planner "human-1" "plan-1" (records stored)
      run.stored_last none_yet reached run.stored_read run.stored_found run.stored_archived (env 50)
      (call 50) 4 to_finalize refl

perform-one_winner_example :
    (perform
        (local_plans is_alnum plain)
        planner
        "human-1"
        (env 21)
        (call 21)
        applied
        "plan-1"
        1
        (to_apply "proposal-1")
      ≡ (err stale_revision, applied))
    × IsRefused (local_plans is_alnum plain) planner "human-1" applied "plan-1" (
        commit (local_plans is_alnum plain) planner "human-1" (env 21) applied (
          requested
            (local_plans is_alnum plain)
            planner
            "human-1"
            (call 21)
            after_create
            "plan-1"
            1
            (to_apply "proposal-1")))
perform-one_winner_example =
    perform-one_winner (local_plans is_alnum plain) planner "human-1" (env 20) (env 21) (call 20)
      (call 21) after_create "plan-1" 1 (to_apply "proposal-1") (to_apply "proposal-1")
      run.first_answer run.first_returns refl

reached_final : Reaches (local_plans is_alnum plain) planner "human-1" empty_directory final
reached_final =
    performing
      (performing (creating starting (env 10) (call 10) "plan-2" " Build it " (some "plan-1"))
        (env 20) (call 20) "plan-1" 1 (to_apply "proposal-1"))
      (env 30) (call 30) "plan-1" 2 to_finalize

Reaches-finalized_example : any (is_finalized_at 3) (records final) ≡ true
Reaches-finalized_example =
    Reaches-finalized (local_plans is_alnum plain) planner "human-1" "plan-1" (records final)
      run.final_last 3 none_yet reached_final run.final_read run.final_found run.final_marked

finalize_iff_example :
    (finalize "human-1" (call 30) drafted
      ≡ ok (final_snapshot "human-1" (call 30) drafted, "plan.finalized_by_user"))
    ↔ (is_finalizable drafted ≡ true)
finalize_iff_example =
    finalize_iff "human-1" (call 30) drafted run.applied_consistent refl run.applied_before refl

create_node-delete_node_example :
    (next : TaskPlanSnapshot) × (delete_node (call 30) run.grown "c"
      ≡ ok (next, join "node.deleted:" "c"))
    × (next.nodes ≡ drafted.nodes)
    × (next.edges ≡ drafted.edges)
create_node-delete_node_example =
    create_node-delete_node drafted run.grown (call 30) (call 30) addition "node.created:c"
      run.applied_consistent run.grown_returns refl run.applied_before

abbrev next_entry : Entry
next_entry = record {
  snapshot = run.final_last.snapshot;
  actor_type = ActorType.human;
  actor_id = "human-1";
  operation = "plan.finalized_by_user";
}

append_revision-Refines_example :
    Refines is_alnum plain
      (is_valid_revision (payload_of (records applied) next_entry "plan-record-9" (at 60)))
      (records applied)
      next_entry
      (append_revision is_alnum plain (no_fault, "plan-record-9", at 60) applied next_entry)
unfolding run
append_revision-Refines_example =
    append_revision-Refines is_alnum plain "plan-record-9" (at 60) applied next_entry
      (records applied) run.applied_read
