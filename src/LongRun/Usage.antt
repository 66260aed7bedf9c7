-- ===== src/LongRun/Usage.antt =====
-- The usage and the limits of `LongRunningExecutionService` in
-- application/long_running_execution.py. `to_ms` is `int(d.total_seconds() * 1000)` of a time of
-- that many microseconds, in floating point.
use job_slayer.Base.{
  ℕ, ◌+◌, ◌-◌, String, Bool, true, false, ◌&&◌, List, [], ◌∷◌, ◌++◌, Option, none, some, any, ltb,
  leb, str_eq, if◌then◌else◌, Result, ok, err, require, ◌>>=◌, ◌>>◌,
}
use job_slayer.LongRun.{
  LongRunStatus, completed, failed, cancelled, lost, ProviderRunStatus, run_queued, run_running,
  run_completed, run_failed, run_cancelled, run_missing, BudgetEnforcement, hard, soft,
  LongRunBudgetDimension, is_dimension, task_elapsed, attempt_elapsed, model_active, tool_active,
  waiting, input_counted, output_counted, cost_counted, tools_counted, LongRunBudgetLimit,
  LongRunUsage, value_for, EventType, event_completed, event_failed, event_cancelled, event_lost,
  ProviderRunReference, ProviderRunObservation, ResumableRunHandle,
}
use job_slayer.LongRun.Store.{LongRunError}
use job_slayer.Leases.{LeaseError}

pub data ExecutionError : Type 0 where
  unknown_run not_admitted backwards outside_admission wrong_start_key unknown_artifact
        foreign_artifact broken_artifact :
      ExecutionError
  exhausted past_deadline not_live not_running wrong_provider_status unbound wrong_identity
        cursor_backwards usage_backwards :
      ExecutionError
  no_lease lease_missing lease_live lease_not_expired over_budget duplicate_artifact not_retryable
        changed_projection :
      ExecutionError
  invalid_time invalid_model : ExecutionError
  lease_rejected : LeaseError → ExecutionError
  store_failed : LongRunError → ExecutionError

-- `self.artifacts.get`, and `verify` of what it returns.
pub record Manifest : Type 0 where
  pub artifact_id : String
  pub task_id : String
  pub run_id : String
  pub sha256 : String
  pub intact : Bool

abbrev pub Artifacts : Type 0
Artifacts = String → Option Manifest

abbrev check_manifest : ResumableRunHandle → Option Manifest → Result ExecutionError (Unit {0})
check_manifest h none = err unknown_artifact
check_manifest h (some m) = do
  require (str_eq m.task_id h.task_id && str_eq m.run_id h.run_id) foreign_artifact
  require m.intact broken_artifact

-- `_validate_artifact_ids`
unfoldable pub check_artifacts :
    Artifacts → ResumableRunHandle → List String → Result ExecutionError (Unit {0})
check_artifacts artifacts h [] = ok tt
check_artifacts artifacts h (id ∷ ids) =
    let rest = check_artifacts artifacts h ids in do check_manifest h (artifacts id); rest

abbrev pub is_of_run :
    Option ProviderRunReference
    → ProviderRunObservation
    → Result ExecutionError ProviderRunReference
is_of_run none o = err unbound
is_of_run (some r) o = do
  require
      (str_eq o.provider_adapter r.provider_adapter && str_eq o.external_run_id r.external_run_id)
      wrong_identity
  ok r

-- The counters that a provider reports and that never fall.
abbrev pub counters : List LongRunBudgetDimension
counters =
    model_active ∷ tool_active ∷ waiting ∷ input_counted ∷ output_counted ∷ cost_counted
    ∷ tools_counted ∷ []

abbrev pub none_falls : List LongRunBudgetDimension → LongRunUsage → LongRunUsage → Bool
none_falls [] new old = true
none_falls (d ∷ ds) new old = leb (value_for old d) (value_for new d) && none_falls ds new old

abbrev max : ℕ → ℕ → ℕ
max a b = if leb a b then b else a

-- The cumulative usage after an observation: each counter grows by what the attempt adds.
abbrev pub cumulated : LongRunUsage → LongRunUsage → LongRunUsage → ℕ → ℕ → LongRunUsage
cumulated total prior reported elapsed attempt_ms = record {
  task_elapsed_ms = elapsed;
  attempt_elapsed_ms = total.attempt_elapsed_ms + (attempt_ms - prior.attempt_elapsed_ms);
  model_active_ms = total.model_active_ms + (reported.model_active_ms - prior.model_active_ms);
  tool_active_ms = total.tool_active_ms + (reported.tool_active_ms - prior.tool_active_ms);
  wait_ms = total.wait_ms + (reported.wait_ms - prior.wait_ms);
  input_tokens = total.input_tokens + (reported.input_tokens - prior.input_tokens);
  output_tokens = total.output_tokens + (reported.output_tokens - prior.output_tokens);
  cost_microusd = total.cost_microusd + (reported.cost_microusd - prior.cost_microusd);
  tool_calls = total.tool_calls + (reported.tool_calls - prior.tool_calls);
}

-- `_merge_usage`: the cumulative usage and that of the attempt.
unfoldable pub merge_usage :
    (ℕ → ℕ)
    → Artifacts
    → ResumableRunHandle
    → ProviderRunObservation
    → Result ExecutionError (LongRunUsage × LongRunUsage)
unfolding check_artifacts
merge_usage to_ms artifacts h o = do
  r ← is_of_run h.provider_run o
  check_artifacts artifacts h o.raw_event_artifact_ids
  require (leb h.updated_at.instant o.observed_at.instant) backwards
  require (leb h.event_cursor o.event_cursor) cursor_backwards
  require (none_falls counters o.usage h.attempt_usage) usage_backwards
  let elapsed = max h.usage.task_elapsed_ms (to_ms (o.observed_at.instant - h.created_at.instant))
  let attempt_ms =
      max h.attempt_usage.attempt_elapsed_ms (to_ms (o.observed_at.instant - r.started_at.instant))
  ok (
    cumulated h.usage h.attempt_usage o.usage elapsed attempt_ms,
    record o.usage { task_elapsed_ms = elapsed; attempt_elapsed_ms = attempt_ms },
  )

-- Whether a usage is over a limit.
abbrev pub exceeds : LongRunBudgetLimit → LongRunUsage → LongRunUsage → Bool
exceeds l usage attempt = elim l.maximum [
  | none ↦ false
  | some most ↦
      ltb most (
        value_for (if is_dimension l.dimension attempt_elapsed then attempt else usage) l.dimension)
]

abbrev is_level : BudgetEnforcement → BudgetEnforcement → Bool
is_level hard hard = true
is_level soft soft = true
is_level _ _ = false

-- `_limits`, at one level of enforcement.
unfoldable pub exceeded :
    BudgetEnforcement
    → List LongRunBudgetLimit
    → LongRunUsage
    → LongRunUsage
    → List LongRunBudgetDimension
exceeded level [] usage attempt = []
exceeded level (l ∷ ls) usage attempt =
    let rest = exceeded level ls usage attempt in
    if exceeds l usage attempt && is_level l.enforcement level then l.dimension ∷ rest else rest

abbrev has_dimension : LongRunBudgetDimension → List LongRunBudgetDimension → Bool
has_dimension d ds = any (is_dimension d) ds

abbrev kept_dimensions :
    List LongRunBudgetDimension → List LongRunBudgetDimension → List LongRunBudgetDimension
kept_dimensions [] wanted = []
kept_dimensions (d ∷ ds) wanted =
    let rest = kept_dimensions ds wanted in if has_dimension d wanted then d ∷ rest else rest

-- The dimensions in the order of their values.
abbrev all_dimensions : List LongRunBudgetDimension
all_dimensions =
    attempt_elapsed ∷ cost_counted ∷ input_counted ∷ model_active ∷ output_counted ∷ task_elapsed
    ∷ tool_active ∷ tools_counted ∷ waiting ∷ []

-- `_merged_dimensions`
abbrev pub merged_dimensions :
    List LongRunBudgetDimension → List LongRunBudgetDimension → List LongRunBudgetDimension
merged_dimensions existing new = kept_dimensions all_dimensions (existing ++ new)

-- `_terminal_status`
abbrev pub terminal_status : ProviderRunStatus → Bool → LongRunStatus
terminal_status run_missing over = lost
terminal_status run_cancelled over = cancelled
terminal_status run_completed false = completed
terminal_status _ over = failed

-- `.value` of a dimension and of a provider's status.
abbrev dimension_text : LongRunBudgetDimension → String
dimension_text task_elapsed = "task_elapsed_ms"
dimension_text attempt_elapsed = "attempt_elapsed_ms"
dimension_text model_active = "model_active_ms"
dimension_text tool_active = "tool_active_ms"
dimension_text waiting = "wait_ms"
dimension_text input_counted = "input_tokens"
dimension_text output_counted = "output_tokens"
dimension_text cost_counted = "cost_microusd"
dimension_text tools_counted = "tool_calls"

abbrev pub dimension_texts : List LongRunBudgetDimension → List String
dimension_texts [] = []
dimension_texts (d ∷ ds) = dimension_text d ∷ dimension_texts ds

abbrev pub status_text : ProviderRunStatus → String
status_text run_queued = "queued"
status_text run_running = "running"
status_text run_completed = "completed"
status_text run_failed = "failed"
status_text run_cancelled = "cancelled"
status_text run_missing = "missing"

-- The event of a terminal status.
abbrev pub terminal_event : LongRunStatus → EventType
terminal_event lost = event_lost
terminal_event cancelled = event_cancelled
terminal_event completed = event_completed
terminal_event _ = event_failed

-- `status in {QUEUED, RUNNING}`
abbrev pub is_underway : ProviderRunStatus → Bool
is_underway run_queued = true
is_underway run_running = true
is_underway _ = false
