-- ===== src/Manager/Bound.antt =====
-- The validator of cursors on the cursors that the coordinator copies without validation.
use job_slayer.Base.{
  String, Bool, true, not, ◌&&◌, List, [], ◌∷◌, Option, none, some, eq_refl, ok, ◌≡◌, refl, sym, ap,
  ◌∙◌, arith, >>=-eq-ok, ok-injective,
}
use job_slayer.Workflow.State.{TaskState, implementing}
use job_slayer.Manager.{
  NodeKind, validation, human_gate, NodeExecution, RunStage, run_completed, run_cancelled,
  advancing, finished, RunSnapshot, complete, has_side_effect, Decision, active_decision,
}
use job_slayer.Manager.Ready.{
  ready_nodes, active_nodes, start_decision, ready_decision, node_decision, decide_in, decide,
}
use job_slayer.Manager.Decisions.{node}
use job_slayer.Manager.Cursor.{
  Cursor, same_action, same_stage, is_none, is_bound, is_valid_intent, projection, initial_cursor,
  new_intent, advancing_cursor,
}

-- The tests of `validate_snapshot` that a decision decides.
abbrev pub is_consistent : Decision → Bool
is_consistent d =
    not (same_stage d.stage advancing)
    && not (has_side_effect d.action && is_none d.node_id)
    && not (same_action d.action complete && not (same_stage d.stage finished))

active_consistent :
    (id : String) (kind : NodeKind) (ds : List String) (state : TaskState)
    (reference : Option String)
    → is_consistent (active_decision (node id kind ds state reference)) ≡ true
unfolding active_decision
active_consistent id NodeKind.task ds implementing none = refl
active_consistent id NodeKind.milestone ds implementing none = refl
active_consistent id validation ds implementing none = refl
active_consistent id human_gate ds implementing none = refl
active_consistent id kind ds implementing (some r) = refl
active_consistent id kind ds _ reference = refl

ready_consistent : (next : List NodeExecution) → is_consistent (ready_decision next) ≡ true
ready_consistent [] = refl
ready_consistent (n ∷ ns) = of_kind n.kind
  where
    of_kind : (kind : NodeKind) → is_consistent (start_decision (record n { kind = kind })) ≡ true
    of_kind NodeKind.task = refl
    of_kind NodeKind.milestone = refl
    of_kind validation = refl
    of_kind human_gate = refl

node_consistent :
    (run : RunSnapshot) (active : List NodeExecution) (d : Decision)
    → node_decision run active ≡ ok d
    → is_consistent d ≡ true
node_consistent run [] d h =
    let (next, found, e) = >>=-eq-ok (ready_nodes run.nodes run.nodes) _ h in
    sym (ap is_consistent (ok-injective e)) ∙ ready_consistent next
node_consistent run (n ∷ []) d h =
    sym (ap is_consistent (ok-injective h))
    ∙ active_consistent n.node_id n.kind n.dependency_node_ids n.workflow_state n.provider_reference
node_consistent run (n ∷ m ∷ ns) d h = sym (ap is_consistent (ok-injective h))

decide_consistent :
    (run : RunSnapshot) (stage : RunStage) (d : Decision)
    → decide_in run stage ≡ ok d
    → is_consistent d ≡ true
decide_consistent run run_completed d h = sym (ap is_consistent (ok-injective h))
decide_consistent run run_cancelled d h = sym (ap is_consistent (ok-injective h))
decide_consistent run _ d h = node_consistent run (active_nodes run.nodes) d h

-- The cursor that a coordinator starts with, and each projection of a decision on an older cursor,
-- pass the validator of cursors, its tests of times apart.
pub decide-is_bound :
    (run : RunSnapshot) (d : Decision) (c : Cursor) (last_completed : Option String)
    → decide run ≡ ok d
    → (is_bound (initial_cursor run d) ≡ true)
      × (is_bound (projection c run d last_completed) ≡ true)
unfolding decide is_bound initial_cursor projection
decide-is_bound run d c last_completed h =
    let consistent = decide_consistent run run.stage d h in (consistent, consistent)

-- On the cursor of the same run, the cursor that records the intent of a decided side effect passes
-- the validator of cursors, and its intent the validator of intents, their tests of times apart.
pub advancing_cursor-is_bound :
    (run : RunSnapshot) (d : Decision) (c : Cursor) (id node_id : String)
    → decide run ≡ ok d
    → has_side_effect d.action ≡ true
    → c.run_id ≡ run.run_id
    → (is_bound (advancing_cursor c run d node_id id) ≡ true)
      × (is_valid_intent (new_intent id run d node_id) ≡ true)
unfolding decide is_bound advancing_cursor
advancing_cursor-is_bound run d c id node_id h effect same =
    let consistent = decide_consistent run run.stage d h in
    (ground (arith, effect, same, eq_refl node_id, eq_refl run.run_id), effect)
