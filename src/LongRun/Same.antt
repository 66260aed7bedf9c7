-- ===== src/LongRun/Same.antt =====
-- `==` on the models, which pydantic decides field by field.
use job_slayer.Base.{ℕ, Bool, true, false, ◌&&◌, List, [], ◌∷◌, Option, none, some, ◌==◌, str_eq}
use job_slayer.LongRun.{
  Stamp, is_dimension, BillingMode, metered, subscription, unknown_billing, BudgetEnforcement, hard,
  soft, observe_only, unavailable, LongRunBudgetLimit, LongRunStatus, admitted, running, cancelling,
  completed, failed, cancelled, lost, LongRunningExecutionPolicy, LongRunUsage,
  ProviderRunReference, ResumableRunHandle,
}

abbrev same_option : {A : Type 0} → (A → A → Bool) → Option A → Option A → Bool
same_option test none none = true
same_option test (some a) (some b) = test a b
same_option test _ _ = false

abbrev same_list : {A : Type 0} → (A → A → Bool) → List A → List A → Bool
same_list test [] [] = true
same_list test (x ∷ xs) (y ∷ ys) = test x y && same_list test xs ys
same_list test (x ∷ xs) [] = false
same_list test [] (y ∷ ys) = false

-- Two instants are equal whatever the zones in which they are told.
abbrev same_time : Stamp → Stamp → Bool
same_time a b = a.instant == b.instant

abbrev same_usage : LongRunUsage → LongRunUsage → Bool
same_usage a b =
    a.task_elapsed_ms == b.task_elapsed_ms
    && a.attempt_elapsed_ms == b.attempt_elapsed_ms
    && a.model_active_ms == b.model_active_ms
    && a.tool_active_ms == b.tool_active_ms
    && a.wait_ms == b.wait_ms
    && a.input_tokens == b.input_tokens
    && a.output_tokens == b.output_tokens
    && a.cost_microusd == b.cost_microusd
    && a.tool_calls == b.tool_calls

abbrev billing_number : BillingMode → ℕ
billing_number metered = 0
billing_number subscription = 1
billing_number unknown_billing = 2

abbrev enforcement_number : BudgetEnforcement → ℕ
enforcement_number hard = 0
enforcement_number soft = 1
enforcement_number observe_only = 2
enforcement_number unavailable = 3

abbrev pub status_number : LongRunStatus → ℕ
status_number admitted = 0
status_number running = 1
status_number cancelling = 2
status_number completed = 3
status_number failed = 4
status_number cancelled = 5
status_number lost = 6

abbrev same_limit : LongRunBudgetLimit → LongRunBudgetLimit → Bool
same_limit a b =
    is_dimension a.dimension b.dimension
    && enforcement_number a.enforcement == enforcement_number b.enforcement
    && same_option ◌==◌ a.maximum b.maximum

unfoldable pub same_policy : LongRunningExecutionPolicy → LongRunningExecutionPolicy → Bool
same_policy a b =
    str_eq a.policy_id b.policy_id
    && billing_number a.billing_mode == billing_number b.billing_mode
    && same_list same_limit a.limits b.limits
    && a.max_attempts == b.max_attempts
    && a.lease_seconds == b.lease_seconds
    && a.checkpoint_interval_ms == b.checkpoint_interval_ms
    && a.progress_warning_after_ms == b.progress_warning_after_ms

abbrev same_reference : ProviderRunReference → ProviderRunReference → Bool
same_reference a b =
    str_eq a.provider_adapter b.provider_adapter
    && str_eq a.external_run_id b.external_run_id
    && str_eq a.provider_start_key b.provider_start_key
    && str_eq a.start_evidence_artifact_id b.start_evidence_artifact_id
    && same_option str_eq a.provider_session_id b.provider_session_id
    && same_option str_eq a.continuation_artifact_id b.continuation_artifact_id
    && same_time a.started_at b.started_at

unfoldable pub same_handle : ResumableRunHandle → ResumableRunHandle → Bool
unfolding same_policy
same_handle a b =
    str_eq a.run_id b.run_id
    && str_eq a.task_id b.task_id
    && same_policy a.policy b.policy
    && status_number a.status == status_number b.status
    && a.version == b.version
    && a.attempt_number == b.attempt_number
    && str_eq a.provider_start_key b.provider_start_key
    && same_option same_reference a.provider_run b.provider_run
    && same_option str_eq a.worker_lease_id b.worker_lease_id
    && same_option ◌==◌ a.worker_lease_version b.worker_lease_version
    && a.event_cursor == b.event_cursor
    && a.checkpoint_count == b.checkpoint_count
    && same_usage a.usage b.usage
    && same_usage a.attempt_usage b.attempt_usage
    && same_list is_dimension a.hard_limit_dimensions b.hard_limit_dimensions
    && same_list is_dimension a.soft_limit_dimensions b.soft_limit_dimensions
    && same_time a.created_at b.created_at
    && same_time a.updated_at b.updated_at
    && same_time a.last_progress_at b.last_progress_at
