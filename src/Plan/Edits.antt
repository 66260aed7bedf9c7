-- ===== src/Plan/Edits.antt =====
-- application/task_orchestration.py: the operations that edit the graph of a plan, on its latest
-- snapshot, and `derive_from_revision`.
use Prim.Native.String.{◌++◌ as join}
use job_slayer.Base.{
  ℕ, String, Bool, true, false, not, ◌||◌, List, [], ◌∷◌, ◌++◌, Option, none, some, ◌==◌, decimal,
  contains, str_eq, if◌then◌else◌, Result, ok, err, require, ◌>>=◌, ◌>>◌,
}
use job_slayer.Plan.{
  NodeKind, TaskPlanNode, EdgeRelation, TaskPlanEdge, branch, subtask, is_valid_node, is_valid_edge,
}
use job_slayer.Plan.Graph.{node_ids, edge_ids}
use job_slayer.Plan.Snapshot.{DiscussionRole, TaskPlanMessage, TaskPlanSnapshot, is_valid_message}
use job_slayer.Plan.Record.{TaskPlanRevisionRecord}
use job_slayer.Plan.Changes.{
  OrchestrationError, not_found, refused, Call, Change, validated, require_editable, read_clock,
  next_snapshot, changed,
}

-- The arguments of `create_node`.
pub record NewNode : Type 0 where
  pub title : String
  pub description : String
  pub kind : NodeKind
  pub executor_hint : Option String
  pub source_node_id : Option String
  pub relation : EdgeRelation
  pub node_id : Option String
  pub acceptance_criteria : List String
  pub deliverables : List String
  pub constraints : List String
  pub risks : List String
  pub verification_requirements : List String
  pub requires_human_decision : Bool

-- `given or fresh`
abbrev pub or_fresh : Option String → String → String
or_fresh none fresh = fresh
or_fresh (some given) fresh = if str_eq given "" then fresh else given

abbrev pub new_node : String → NewNode → TaskPlanNode
new_node id a = record {
  node_id = id;
  title = a.title;
  description = a.description;
  kind = a.kind;
  executor_hint = a.executor_hint;
  acceptance_criteria = a.acceptance_criteria;
  deliverables = a.deliverables;
  constraints = a.constraints;
  risks = a.risks;
  verification_requirements = a.verification_requirements;
  requires_human_decision = a.requires_human_decision;
  attributes = [];
}

-- The edge from the source node, when one is named.
abbrev pub source_edges :
    Call → NewNode → TaskPlanNode → Result OrchestrationError (List TaskPlanEdge)
source_edges call a n = elim a.source_node_id [
  | none ↦ ok []
  | some source ↦ do
    e ← validated is_valid_edge (record {
      edge_id = call.edge_id;
      source_node_id = source;
      target_node_id = n.node_id;
      relation = a.relation;
      label = none;
    })
    ok (e ∷ [])
]

-- Whether the source node, when one is named, is a node of the plan.
abbrev pub has_source : Option String → List TaskPlanNode → Bool
has_source none nodes = true
has_source (some source) nodes = contains source (node_ids nodes)

unfoldable pub create_node : Call → TaskPlanSnapshot → NewNode → Change
unfolding require_editable next_snapshot
create_node call latest a =
    let identifier = or_fresh a.node_id call.node_id in
    do
      require_editable latest
      require (not (contains identifier (node_ids latest.nodes))) refused
      require (has_source a.source_node_id latest.nodes) refused
      n ← validated is_valid_node (new_node identifier a)
      es ← source_edges call a n
      changed call.now latest
          (record latest { nodes = latest.nodes ++ n ∷ []; edges = latest.edges ++ es })
          (join "node.created:" n.node_id)

-- The arguments of `update_node`: a field that is not given stays.
pub record NodeUpdate : Type 0 where
  pub title : String
  pub description : String
  pub kind : NodeKind
  pub executor_hint : Option String
  pub acceptance_criteria : Option (List String)
  pub deliverables : Option (List String)
  pub constraints : Option (List String)
  pub risks : Option (List String)
  pub verification_requirements : Option (List String)
  pub requires_human_decision : Option Bool

abbrev pub or_current : {A : Type 0} → Option A → A → A
or_current none current = current
or_current (some given) current = given

abbrev pub updated_node : TaskPlanNode → NodeUpdate → TaskPlanNode
updated_node n u = record {
  node_id = n.node_id;
  title = u.title;
  description = u.description;
  kind = u.kind;
  executor_hint = u.executor_hint;
  acceptance_criteria = or_current u.acceptance_criteria n.acceptance_criteria;
  deliverables = or_current u.deliverables n.deliverables;
  constraints = or_current u.constraints n.constraints;
  risks = or_current u.risks n.risks;
  verification_requirements = or_current u.verification_requirements n.verification_requirements;
  requires_human_decision = or_current u.requires_human_decision n.requires_human_decision;
  attributes = n.attributes;
}

-- `next((node for node in nodes if node.node_id == node_id), None)`
abbrev pub find_plan_node : String → List TaskPlanNode → Result OrchestrationError TaskPlanNode
find_plan_node id [] = err not_found
find_plan_node id (n ∷ ns) =
    let rest = find_plan_node id ns in if str_eq n.node_id id then ok n else rest

abbrev pub replace_node : String → TaskPlanNode → List TaskPlanNode → List TaskPlanNode
replace_node id replacement [] = []
replace_node id replacement (n ∷ ns) =
    let rest = replace_node id replacement ns in
    (if str_eq n.node_id id then replacement else n) ∷ rest

unfoldable pub update_node : Call → TaskPlanSnapshot → String → NodeUpdate → Change
unfolding require_editable next_snapshot
update_node call latest id u = do
  require_editable latest
  current ← find_plan_node id latest.nodes
  replacement ← validated is_valid_node (updated_node current u)
  changed call.now latest (record latest { nodes = replace_node id replacement latest.nodes })
      (join "node.updated:" id)

abbrev pub without_node : String → List TaskPlanNode → List TaskPlanNode
without_node id [] = []
without_node id (n ∷ ns) =
    let rest = without_node id ns in if str_eq n.node_id id then rest else n ∷ rest

-- The edges that do not touch a node.
abbrev pub apart_from : String → List TaskPlanEdge → List TaskPlanEdge
apart_from id [] = []
apart_from id (e ∷ es) =
    let rest = apart_from id es in
    if str_eq e.source_node_id id || str_eq e.target_node_id id then rest else e ∷ rest

unfoldable pub delete_node : Call → TaskPlanSnapshot → String → Change
unfolding require_editable next_snapshot
delete_node call latest id = do
  require_editable latest
  require (contains id (node_ids latest.nodes)) not_found
  changed call.now latest
      (record latest { nodes = without_node id latest.nodes; edges = apart_from id latest.edges })
      (join "node.deleted:" id)

-- The arguments of `create_edge`.
pub record NewEdge : Type 0 where
  pub source_node_id : String
  pub target_node_id : String
  pub relation : EdgeRelation
  pub label : Option String
  pub edge_id : Option String

abbrev pub new_edge : String → NewEdge → TaskPlanEdge
new_edge id a = record {
  edge_id = id;
  source_node_id = a.source_node_id;
  target_node_id = a.target_node_id;
  relation = a.relation;
  label = a.label;
}

unfoldable pub create_edge : Call → TaskPlanSnapshot → NewEdge → Change
unfolding require_editable next_snapshot
create_edge call latest a =
    let identifier = or_fresh a.edge_id call.edge_id in
    do
      require_editable latest
      require (not (contains identifier (edge_ids latest.edges))) refused
      e ← validated is_valid_edge (new_edge identifier a)
      changed call.now latest (record latest { edges = latest.edges ++ e ∷ [] })
          (join "edge.created:" e.edge_id)

abbrev pub find_edge : String → List TaskPlanEdge → Result OrchestrationError TaskPlanEdge
find_edge id [] = err not_found
find_edge id (e ∷ es) = let rest = find_edge id es in if str_eq e.edge_id id then ok e else rest

abbrev pub replace_edge : String → TaskPlanEdge → List TaskPlanEdge → List TaskPlanEdge
replace_edge id replacement [] = []
replace_edge id replacement (e ∷ es) =
    let rest = replace_edge id replacement es in
    (if str_eq e.edge_id id then replacement else e) ∷ rest

-- `model_copy` does not validate the copy.
unfoldable pub update_edge :
    Call → TaskPlanSnapshot → String → EdgeRelation → Option String → Change
unfolding require_editable next_snapshot
update_edge call latest id relation label = do
  require_editable latest
  current ← find_edge id latest.edges
  changed call.now latest
      (record latest {
        edges =
            replace_edge id (record current { relation = relation; label = label }) latest.edges;
      })
      (join "edge.updated:" id)

abbrev pub without_edge : String → List TaskPlanEdge → List TaskPlanEdge
without_edge id [] = []
without_edge id (e ∷ es) =
    let rest = without_edge id es in if str_eq e.edge_id id then rest else e ∷ rest

unfoldable pub delete_edge : Call → TaskPlanSnapshot → String → Change
unfolding require_editable next_snapshot
delete_edge call latest id = do
  require_editable latest
  require (contains id (edge_ids latest.edges)) not_found
  changed call.now latest (record latest { edges = without_edge id latest.edges })
      (join "edge.deleted:" id)

-- The snapshot of a revision in a history.
abbrev pub find_revision :
    ℕ → List TaskPlanRevisionRecord → Result OrchestrationError TaskPlanSnapshot
find_revision n [] = err not_found
find_revision n (r ∷ rs) =
    let rest = find_revision n rs in if r.sequence == n then ok r.snapshot else rest

abbrev pub system_message : Call → ℕ → TaskPlanMessage
system_message call revision = record {
  message_id = call.message_id;
  role = DiscussionRole.system;
  content = join "用户从 revision " (join (decimal revision) " 派生了新的活动草案。");
  created_at = call.now;
  agent_adapter = none;
}

unfoldable pub derive_from_revision :
    Call → List TaskPlanRevisionRecord → TaskPlanSnapshot → ℕ → Change
unfolding require_editable next_snapshot
derive_from_revision call history latest source_revision = do
  require_editable latest
  source ← find_revision source_revision history
  read_clock call.now
  message ← validated is_valid_message (system_message call source_revision)
  changed call.later latest
      (record latest {
        task_description = source.task_description;
        nodes = source.nodes;
        edges = source.edges;
        conversation = latest.conversation ++ message ∷ [];
        pending_proposal = none;
      })
      (join "plan.derived_from_revision:" (decimal source_revision))

-- `split_node` tests the relation before it reads the plan.
abbrev pub is_split : EdgeRelation → Bool
is_split branch = true
is_split subtask = true
is_split _ = false

abbrev pub split_arguments : String → String → String → EdgeRelation → NewNode
split_arguments source title description relation = record {
  title = title;
  description = description;
  kind = NodeKind.task;
  executor_hint = none;
  source_node_id = some source;
  relation = relation;
  node_id = none;
  acceptance_criteria = [];
  deliverables = [];
  constraints = [];
  risks = [];
  verification_requirements = [];
  requires_human_decision = false;
}
