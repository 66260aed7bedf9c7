-- ===== src/LongRun.antt =====
-- long_running/__init__.py: the models of resumable long-running work, with their validators. A
-- time is a `Stamp`, since every validator refuses one without a timezone.
pub mod Same
pub mod Store
pub mod Usage
pub mod Service
pub mod Start
pub mod Stranded
pub mod Finished
mod Tests
pub use job_slayer.Time.{Stamp}
use job_slayer.Base.{
  ℕ, ◌+◌, String, Bool, true, false, not, ◌&&◌, ◌||◌, List, [], ◌∷◌, Option, none, some, any, all,
  ltb, leb, ◌==◌, length, is_empty, is_identifier, is_unique, str_eq, if◌then◌else◌,
}

pub data LongRunStatus : Type 0 where
  admitted running cancelling completed failed cancelled lost : LongRunStatus

pub data ProviderRunStatus : Type 0 where
  run_queued run_running run_completed run_failed run_cancelled run_missing : ProviderRunStatus

pub data BudgetEnforcement : Type 0 where
  hard soft observe_only unavailable : BudgetEnforcement

pub data BillingMode : Type 0 where
  metered subscription unknown_billing : BillingMode

pub data LongRunBudgetDimension : Type 0 where
  task_elapsed attempt_elapsed model_active tool_active waiting : LongRunBudgetDimension
  input_counted output_counted cost_counted tools_counted : LongRunBudgetDimension

-- The position of a dimension in the order of the values' texts.
abbrev pub text_position : LongRunBudgetDimension → ℕ
text_position attempt_elapsed = 0
text_position cost_counted = 1
text_position input_counted = 2
text_position model_active = 3
text_position output_counted = 4
text_position task_elapsed = 5
text_position tool_active = 6
text_position tools_counted = 7
text_position waiting = 8

abbrev pub is_dimension : LongRunBudgetDimension → LongRunBudgetDimension → Bool
is_dimension a b = text_position a == text_position b

abbrev pub is_hard : BudgetEnforcement → Bool
is_hard hard = true
is_hard _ = false

abbrev pub is_bounded : BudgetEnforcement → Bool
is_bounded hard = true
is_bounded soft = true
is_bounded _ = false

pub record LongRunBudgetLimit : Type 0 where
  pub dimension : LongRunBudgetDimension
  pub enforcement : BudgetEnforcement
  pub maximum : Option ℕ

-- `validate_limit`: a hard or soft limit has a maximum, which is positive, no other limit has one.
abbrev has_maximum : Bool → Option ℕ → Bool
has_maximum true none = false
has_maximum true (some n) = ltb 0 n
has_maximum false none = true
has_maximum false (some n) = false

unfoldable pub is_valid_limit : LongRunBudgetLimit → Bool
is_valid_limit l = has_maximum (is_bounded l.enforcement) l.maximum

pub record LongRunningExecutionPolicy : Type 0 where
  pub policy_id : String
  pub billing_mode : BillingMode
  pub limits : List LongRunBudgetLimit
  pub max_attempts : ℕ
  pub lease_seconds : ℕ
  pub checkpoint_interval_ms : ℕ
  pub progress_warning_after_ms : ℕ

-- `limit_for`
abbrev pub limit_for : LongRunBudgetDimension → List LongRunBudgetLimit → Option LongRunBudgetLimit
limit_for d [] = none
limit_for d (l ∷ ls) =
    let rest = limit_for d ls in if is_dimension l.dimension d then some l else rest

abbrev is_limited : List LongRunBudgetLimit → LongRunBudgetLimit → Bool
is_limited ls l = any (λ other. is_dimension other.dimension l.dimension) ls

abbrev has_distinct_dimensions : List LongRunBudgetLimit → Bool
has_distinct_dimensions [] = true
has_distinct_dimensions (l ∷ ls) = not (is_limited ls l) && has_distinct_dimensions ls

-- The maximum of a required hard limit.
abbrev pub hard_maximum : Option LongRunBudgetLimit → Option ℕ
hard_maximum none = none
hard_maximum (some l) = if is_hard l.enforcement then l.maximum else none

abbrev fits_in : Option ℕ → Option ℕ → Bool
fits_in (some attempt) (some task) = leb attempt task
fits_in _ _ = false

abbrev is_metered : BillingMode → Bool
is_metered metered = true
is_metered _ = false

abbrev has_hard_cost : List LongRunBudgetLimit → Bool
has_hard_cost ls = elim (limit_for cost_counted ls) [
  | none ↦ false
  | some l ↦ is_hard l.enforcement
]

-- The fields, and `validate_policy`.
unfoldable pub is_valid_policy : LongRunningExecutionPolicy → Bool
unfolding is_valid_limit
is_valid_policy p =
    is_identifier p.policy_id
    && leb 2 (length p.limits)
    && all is_valid_limit p.limits
    && leb 1 p.max_attempts
    && leb p.max_attempts 100
    && leb 2 p.lease_seconds
    && leb p.lease_seconds 3600
    && ltb 0 p.checkpoint_interval_ms
    && ltb 0 p.progress_warning_after_ms
    && has_distinct_dimensions p.limits
    && fits_in (hard_maximum (limit_for attempt_elapsed p.limits))
        (hard_maximum (limit_for task_elapsed p.limits))
    && (is_metered p.billing_mode || not (has_hard_cost p.limits))

pub record LongRunUsage : Type 0 where
  pub task_elapsed_ms : ℕ
  pub attempt_elapsed_ms : ℕ
  pub model_active_ms : ℕ
  pub tool_active_ms : ℕ
  pub wait_ms : ℕ
  pub input_tokens : ℕ
  pub output_tokens : ℕ
  pub cost_microusd : ℕ
  pub tool_calls : ℕ

abbrev pub no_usage : LongRunUsage
no_usage = record {
  task_elapsed_ms = 0;
  attempt_elapsed_ms = 0;
  model_active_ms = 0;
  tool_active_ms = 0;
  wait_ms = 0;
  input_tokens = 0;
  output_tokens = 0;
  cost_microusd = 0;
  tool_calls = 0;
}

-- `value_for`
abbrev pub value_for : LongRunUsage → LongRunBudgetDimension → ℕ
value_for u task_elapsed = u.task_elapsed_ms
value_for u attempt_elapsed = u.attempt_elapsed_ms
value_for u model_active = u.model_active_ms
value_for u tool_active = u.tool_active_ms
value_for u waiting = u.wait_ms
value_for u input_counted = u.input_tokens
value_for u output_counted = u.output_tokens
value_for u cost_counted = u.cost_microusd
value_for u tools_counted = u.tool_calls

pub record ProviderRunReference : Type 0 where
  pub provider_adapter : String
  pub external_run_id : String
  pub provider_start_key : String
  pub start_evidence_artifact_id : String
  pub provider_session_id : Option String
  pub continuation_artifact_id : Option String
  pub started_at : Stamp

pub record ProviderRunObservation : Type 0 where
  pub provider_adapter : String
  pub external_run_id : String
  pub status : ProviderRunStatus
  pub event_cursor : ℕ
  pub usage : LongRunUsage
  pub raw_event_artifact_ids : List String
  pub observed_at : Stamp

pub record ResumableRunHandle : Type 0 where
  pub run_id : String
  pub task_id : String
  pub policy : LongRunningExecutionPolicy
  pub status : LongRunStatus
  pub version : ℕ
  pub attempt_number : ℕ
  pub provider_start_key : String
  pub provider_run : Option ProviderRunReference
  pub worker_lease_id : Option String
  pub worker_lease_version : Option ℕ
  pub event_cursor : ℕ
  pub checkpoint_count : ℕ
  pub usage : LongRunUsage
  pub attempt_usage : LongRunUsage
  pub hard_limit_dimensions : List LongRunBudgetDimension
  pub soft_limit_dimensions : List LongRunBudgetDimension
  pub created_at : Stamp
  pub updated_at : Stamp
  pub last_progress_at : Stamp

abbrev pub is_given : {A : Type 0} → Option A → Bool
is_given none = false
is_given (some a) = true

-- The bindings that a status needs: `validate_handle` on the provider's run and the lease.
abbrev pub has_bindings : LongRunStatus → Bool → Bool → Bool
has_bindings running provider lease = provider && lease
has_bindings cancelling provider lease = provider && lease
has_bindings admitted provider lease = not provider
has_bindings _ provider lease = true

abbrev lease_pair : Option String → Option ℕ → Bool
lease_pair none none = true
lease_pair (some id) (some version) = not (str_eq id "") && leb 1 version
lease_pair _ _ = false

abbrev is_valid_reference : Option ProviderRunReference → Bool
is_valid_reference none = true
is_valid_reference (some r) =
    not (str_eq r.provider_adapter "")
    && not (str_eq r.external_run_id "")
    && is_identifier r.provider_start_key
    && not (str_eq r.start_evidence_artifact_id "")

-- The fields, and `validate_handle`.
unfoldable pub is_valid_handle : ResumableRunHandle → Bool
unfolding is_valid_policy
is_valid_handle h =
    is_identifier h.run_id
    && not (str_eq h.task_id "")
    && is_valid_policy h.policy
    && leb 1 h.version
    && is_identifier h.provider_start_key
    && is_valid_reference h.provider_run
    && leb h.created_at.instant h.last_progress_at.instant
    && leb h.last_progress_at.instant h.updated_at.instant
    && leb h.attempt_number h.policy.max_attempts
    && lease_pair h.worker_lease_id h.worker_lease_version
    && has_bindings h.status (is_given h.provider_run) (is_given h.worker_lease_id)

pub data EventType : Type 0 where
  run_admitted provider_bound observed checkpointed progress_stalled limit_warning limit_exceeded :
      EventType
  cancel_requested recovered retry_authorized : EventType
  event_completed event_failed event_cancelled event_lost : EventType
