-- ===== src/Manager/Cursor.antt =====
-- task_manager/coordinator.py: the intent and the cursor of the coordinator, without their times,
-- and the cursors that application/task_manager_coordinator.py writes.
use job_slayer.Base.{
  ℕ, ◌+◌, String, Bool, true, false, not, ◌&&◌, Option, none, some, ◌==◌, if◌then◌else◌, str_eq,
}
use job_slayer.Manager.{
  CoordinatorStage, ready, advancing, waiting_human, waiting_review, needs_attention, finished,
  RunSnapshot, Action, start_node, run_validation, observe_node, verify_node, integrate_checkpoint,
  wait_human, wait_review, ask_attention, complete, has_side_effect, Decision,
}

pub record Intent : Type 0 where
  pub intent_id : String
  pub run_id : String
  pub node_id : String
  pub action : Action
  pub expected_run_revision : ℕ

-- `TaskManagerCoordinatorSnapshot`
pub record Cursor : Type 0 where
  pub run_id : String
  pub revision : ℕ
  pub run_revision : ℕ
  pub stage : CoordinatorStage
  pub cursor_node_id : Option String
  pub next_action : Action
  pub pending_intent : Option Intent
  pub last_completed_intent_id : Option String
  pub reason : String

abbrev action_code : Action → ℕ
action_code start_node = 0
action_code run_validation = 1
action_code observe_node = 2
action_code verify_node = 3
action_code integrate_checkpoint = 4
action_code wait_human = 5
action_code wait_review = 6
action_code ask_attention = 7
action_code complete = 8

abbrev pub same_action : Action → Action → Bool
same_action a b = action_code a == action_code b

abbrev stage_code : CoordinatorStage → ℕ
stage_code ready = 0
stage_code advancing = 1
stage_code waiting_human = 2
stage_code waiting_review = 3
stage_code needs_attention = 4
stage_code finished = 5

abbrev pub same_stage : CoordinatorStage → CoordinatorStage → Bool
same_stage a b = stage_code a == stage_code b

abbrev pub same_node : Option String → Option String → Bool
same_node none none = true
same_node (some a) (some b) = str_eq a b
same_node _ _ = false

abbrev pub is_none : Option String → Bool
is_none none = true
is_none (some id) = false

-- The test of `validate_snapshot` on the pending intent.
abbrev pub is_intent_bound : Cursor → Option Intent → Bool
is_intent_bound c none = not (same_stage c.stage advancing)
is_intent_bound c (some i) =
    same_stage c.stage advancing
    && same_action c.next_action i.action
    && same_node c.cursor_node_id (some i.node_id)
    && str_eq i.run_id c.run_id
    && i.expected_run_revision == c.run_revision

-- `validate_snapshot`, without the tests of the times.
unfoldable pub is_bound : Cursor → Bool
is_bound c =
    is_intent_bound c c.pending_intent
    && not (has_side_effect c.next_action && is_none c.cursor_node_id)
    && not (same_action c.next_action complete && not (same_stage c.stage finished))

-- `validate_intent`, without the test of the time.
abbrev pub is_valid_intent : Intent → Bool
is_valid_intent i = has_side_effect i.action

-- The snapshot of `_ensure_cursor` for a run without a history.
unfoldable pub initial_cursor : RunSnapshot → Decision → Cursor
initial_cursor run d = record {
  run_id = run.run_id;
  revision = 1;
  run_revision = run.revision;
  stage = d.stage;
  cursor_node_id = d.node_id;
  next_action = d.action;
  pending_intent = none;
  last_completed_intent_id = none;
  reason = d.reason;
}

abbrev or_else : Option String → Option String → Option String
or_else none b = b
or_else (some a) b = if str_eq a "" then b else some a

-- `_append_projection`, the snapshot that it writes.
unfoldable pub projection : Cursor → RunSnapshot → Decision → Option String → Cursor
projection c run d last_completed = record c {
  revision = c.revision + 1;
  run_revision = run.revision;
  stage = d.stage;
  cursor_node_id = d.node_id;
  next_action = d.action;
  pending_intent = none;
  last_completed_intent_id = or_else last_completed c.last_completed_intent_id;
  reason = d.reason;
}

-- `_project_if_changed`: the cursor as it is, or the projection to write.
unfoldable pub is_projected : Cursor → RunSnapshot → Decision → Bool
is_projected c run d =
    c.run_revision == run.revision
    && same_stage c.stage d.stage
    && same_node c.cursor_node_id d.node_id
    && same_action c.next_action d.action
    && str_eq c.reason d.reason

unfoldable pub project_if_changed : Cursor → RunSnapshot → Decision → Cursor
unfolding is_projected projection
project_if_changed c run d = if is_projected c run d then c else projection c run d none

-- The intent of `_tick_with_lease`, with the identifier that a digest gives it.
abbrev pub new_intent : String → RunSnapshot → Decision → String → Intent
new_intent id run d node_id = record {
  intent_id = id;
  run_id = run.run_id;
  node_id = node_id;
  action = d.action;
  expected_run_revision = run.revision;
}

-- The cursor that records the intent before its side effect.
unfoldable pub advancing_cursor : Cursor → RunSnapshot → Decision → String → String → Cursor
advancing_cursor c run d node_id id = record c {
  revision = c.revision + 1;
  run_revision = run.revision;
  stage = advancing;
  cursor_node_id = some node_id;
  next_action = d.action;
  pending_intent = some (new_intent id run d node_id);
  reason = d.reason;
}
