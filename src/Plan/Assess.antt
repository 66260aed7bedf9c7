-- ===== src/Plan/Assess.antt =====
-- `assess_task_plan` of orchestration/__init__.py: the issues of a plan, and whether one of them
-- blocks its finalization.
use Prim.Native.String.{◌++◌ as join}
use job_slayer.Base.{
  ℕ, String, Bool, true, false, not, ◌&&◌, List, [], ◌∷◌, ◌++◌, Option, none, some, any, ltb,
  length, is_empty, contains,
}
use job_slayer.Plan.{task, milestone, validation, human_gate, TaskPlanNode, TaskPlanEdge}
use job_slayer.Plan.Snapshot.{TaskPlanSnapshot, is_none}

pub data TaskPlanIssueSeverity : Type 0 where
  blocker warning info : TaskPlanIssueSeverity

pub record TaskPlanIssue : Type 0 where
  pub code : String
  pub severity : TaskPlanIssueSeverity
  pub message : String
  pub node_id : Option String

pub record TaskPlanAssessment : Type 0 where
  pub plan_id : String
  pub revision : ℕ
  pub ready_to_finalize : Bool
  pub issues : List TaskPlanIssue

abbrev pub is_blocker : TaskPlanIssue → Bool
is_blocker i = elim i.severity [ blocker ↦ true | _ ↦ false ]

-- The nodes and the edges under assessment: those of the pending proposal, if there is one.
abbrev pub effective_nodes : TaskPlanSnapshot → List TaskPlanNode
effective_nodes s = elim s.pending_proposal [ none ↦ s.nodes | some p ↦ p.nodes ]

abbrev pub effective_edges : TaskPlanSnapshot → List TaskPlanEdge
effective_edges s = elim s.pending_proposal [ none ↦ s.edges | some p ↦ p.edges ]

-- `if test: add(...)`
abbrev pub add_if :
    Bool → String → TaskPlanIssueSeverity → String → Option String → List TaskPlanIssue
add_if false code severity message node_id = []
add_if true code severity message node_id =
    record { code = code; severity = severity; message = message; node_id = node_id } ∷ []

abbrev pub is_validation : TaskPlanNode → Bool
is_validation n = elim n.kind [ validation ↦ true | _ ↦ false ]

abbrev is_human_gate : TaskPlanNode → Bool
is_human_gate n = elim n.kind [ human_gate ↦ true | _ ↦ false ]

abbrev delivers : TaskPlanNode → Bool
delivers n = elim n.kind [ task ↦ true | milestone ↦ true | _ ↦ false ]

-- The ends of the edges.
abbrev pub connected : List TaskPlanEdge → List String
connected [] = []
connected (e ∷ es) = e.source_node_id ∷ e.target_node_id ∷ connected es

abbrev titled : String → TaskPlanNode → String → String
titled before n after = join before (join n.title after)

-- Whether a validation node says nothing that can be verified.
abbrev pub is_unverifiable : TaskPlanNode → Bool
is_unverifiable n = is_validation n && is_empty n.verification_requirements

abbrev pub node_issues : List TaskPlanNode → List String → TaskPlanNode → List TaskPlanIssue
node_issues nodes ends n =
    add_if (is_empty n.acceptance_criteria) "node.acceptance_missing" warning
      (titled "“" n "”缺少验收标准。") (some n.node_id)
    ++ add_if (delivers n && is_empty n.deliverables) "node.deliverable_missing" info
        (titled "“" n "”尚未声明交付物。") (some n.node_id)
    ++ add_if (is_unverifiable n) "node.verification_missing" blocker
        (titled "验证节点“" n "”缺少可执行的验证要求。") (some n.node_id)
    ++ add_if (ltb 1 (length nodes) && not (contains n.node_id ends)) "node.isolated" warning
        (titled "“" n "”是孤立节点。") (some n.node_id)

abbrev pub issues_of_nodes :
    List TaskPlanNode → List String → List TaskPlanNode → List TaskPlanIssue
issues_of_nodes nodes ends [] = []
issues_of_nodes nodes ends (n ∷ ns) = node_issues nodes ends n ++ issues_of_nodes nodes ends ns

abbrev pub plan_issues : TaskPlanSnapshot → List TaskPlanIssue
plan_issues s =
    let nodes = effective_nodes s in
    add_if s.is_archived "plan.archived" blocker "归档计划需要先恢复为活动草案，才能再次定稿。" none
    ++ add_if (not (is_none s.pending_proposal)) "proposal.pending" blocker
        "仍有待处理的 Agent 提案；请先应用或拒绝。" none
    ++ add_if (is_empty nodes) "graph.empty" blocker "计划至少需要一个任务节点。" none
    ++ add_if (not (is_empty nodes) && not (any is_validation nodes)) "graph.validation_missing"
        warning "计划尚未设置确定性验证节点。" none
    ++ add_if (not (is_empty nodes) && not (any is_human_gate nodes)) "graph.human_gate_missing"
        warning "计划尚未设置人工决策节点。" none

unfoldable pub assess_task_plan : TaskPlanSnapshot → TaskPlanAssessment
assess_task_plan s =
    let issues =
      plan_issues s
      ++ issues_of_nodes (effective_nodes s) (connected (effective_edges s)) (effective_nodes s) in
    record {
      plan_id = s.plan_id;
      revision = s.revision;
      ready_to_finalize = not (any is_blocker issues);
      issues = issues;
    }
