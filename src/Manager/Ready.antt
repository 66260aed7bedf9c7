-- ===== src/Manager/Ready.antt =====
-- `_decide` of the serial coordinator: which node is next.
use Prim.Native.String.{◌++◌ as join}
use job_slayer.Base.{
  String, Bool, true, false, List, [], ◌∷◌, none, some, if◌then◌else◌, str_eq, Result, ok, err,
  ◌>>=◌,
}
use job_slayer.Workflow.State.{TaskState, planned, plan_review}
use job_slayer.Manager.{
  NodeKind, validation, human_gate, NodeExecution, RunStage, run_completed, run_cancelled,
  RunSnapshot, satisfied_states, active_states, is_in, ready, waiting_human, needs_attention,
  finished, start_node, run_validation, wait_human, ask_attention, complete, Decision,
  active_decision,
}

-- `next` finds no node of the identifier and raises StopIteration.
pub data DecisionError : Type 0 where
  unknown_node : DecisionError

-- `_node`
unfoldable pub find_node : String → List NodeExecution → Result DecisionError NodeExecution
find_node id [] = err unknown_node
find_node id (n ∷ ns) = if str_eq n.node_id id then ok n else find_node id ns

-- `all(... for dependency in dependencies)`, which stops at the first that is not satisfied.
unfoldable pub are_satisfied : List NodeExecution → List String → Result DecisionError Bool
unfolding find_node
are_satisfied nodes [] = ok true
are_satisfied nodes (d ∷ ds) = do
  n ← find_node d nodes
  let rest = are_satisfied nodes ds
  if is_in satisfied_states n then rest else ok false

abbrev pub waiting_states : List TaskState
waiting_states = planned ∷ plan_review ∷ []

abbrev pub is_ready : List NodeExecution → NodeExecution → Result DecisionError Bool
is_ready nodes n =
    if is_in waiting_states n then are_satisfied nodes n.dependency_node_ids else ok false

-- The comprehension `ready`, over a suffix of the nodes of a run.
unfoldable pub ready_nodes :
    List NodeExecution → List NodeExecution → Result DecisionError (List NodeExecution)
unfolding are_satisfied
ready_nodes nodes [] = ok []
ready_nodes nodes (n ∷ ns) = do
  now ← is_ready nodes n
  rest ← ready_nodes nodes ns
  ok (if now then n ∷ rest else rest)

-- The comprehension `active`.
unfoldable pub active_nodes : List NodeExecution → List NodeExecution
active_nodes [] = []
active_nodes (n ∷ ns) =
    let rest = active_nodes ns in if is_in active_states n then n ∷ rest else rest

-- `", ".join(...)`
abbrev pub listed : List NodeExecution → String
listed [] = ""
listed (n ∷ []) = n.node_id
listed (n ∷ ns) = join n.node_id (join ", " (listed ns))

abbrev attention : String → Decision
attention reason = record {
  stage = needs_attention;
  action = ask_attention;
  node_id = none;
  reason = reason;
}

abbrev pub start_decision : NodeExecution → Decision
start_decision n = of_kind n.kind
  where
    of_kind : NodeKind → Decision
    of_kind human_gate = record {
      stage = waiting_human;
      action = wait_human;
      node_id = some n.node_id;
      reason = "next-ready node is a human gate and requires an authorized decision";
    }
    of_kind validation = record {
      stage = ready;
      action = run_validation;
      node_id = some n.node_id;
      reason = "next-ready validation node will run its finalized profile";
    }
    of_kind _ = record {
      stage = ready;
      action = start_node;
      node_id = some n.node_id;
      reason = "stable DAG order selected the only next node for execution";
    }

abbrev pub ready_decision : List NodeExecution → Decision
ready_decision [] =
    attention "no node is active or dependency-ready; the run needs operator inspection"
ready_decision (n ∷ ns) = start_decision n

abbrev pub node_decision : RunSnapshot → List NodeExecution → Result DecisionError Decision
node_decision run (n ∷ []) = ok (active_decision n)
node_decision run [] = do next ← ready_nodes run.nodes run.nodes; ok (ready_decision next)
node_decision run active =
    ok (attention (join "serial invariant found more than one active node: " (listed active)))

abbrev pub decide_in : RunSnapshot → RunStage → Result DecisionError Decision
decide_in run run_completed = ok (record {
  stage = finished;
  action = complete;
  node_id = none;
  reason = "all finalized DAG nodes passed governed completion";
})
decide_in run run_cancelled =
    ok (attention "run is cancelled; coordinator will not start further work")
decide_in run _ = node_decision run (active_nodes run.nodes)

unfoldable pub decide : RunSnapshot → Result DecisionError Decision
unfolding active_decision ready_nodes active_nodes
decide run = decide_in run run.stage
