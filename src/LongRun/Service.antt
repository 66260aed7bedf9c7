-- ===== src/LongRun/Service.antt =====
-- `LongRunningExecutionService` of application/long_running_execution.py over the two tables of
-- runs and of leases. A lease is written in a transaction of its own, before the event of the run:
-- an operation returns its answer and what the tables hold, after a raise too.
use job_slayer.Base.{
  ℕ, ◌+◌, ◌-◌, String, Bool, true, false, not, ◌&&◌, List, [], ◌∷◌, Option, none, some, ltb, leb,
  get_last?, is_empty, if◌then◌else◌, Result, ok, err, require, ◌>>=◌, ◌>>◌,
}
use job_slayer.Time.{Datetime, naive, aware}
use job_slayer.LongRun.{
  Stamp, LongRunBudgetDimension, LongRunStatus, admitted, running, cancelling, failed, lost,
  LongRunUsage, no_usage, ProviderRunObservation, ResumableRunHandle, limit_for, task_elapsed, hard,
  soft, EventType, observed, progress_stalled, limit_warning, limit_exceeded, cancel_requested,
  retry_authorized,
}
use job_slayer.LongRun.Same.{same_handle}
use job_slayer.LongRun.Store.{
  Detail, text, number, flag, texts, nothing, EventPayload, LongRunEvent, ProgressCheckpoint,
  LongRunDb, LongRunError, build_long_run_event, append_event, run_history, get_run,
}
use job_slayer.LongRun.Usage.{
  ExecutionError, unknown_run, backwards, exhausted, past_deadline, not_live, not_running,
  wrong_provider_status, no_lease, not_retryable, changed_projection, invalid_time, lease_rejected,
  store_failed, Artifacts, merge_usage, exceeded, merged_dimensions, terminal_status,
  terminal_event, dimension_texts, status_text, is_underway,
}
use job_slayer.Leases.{WorkerLease, LeaseError}
use job_slayer.Leases.Table.{LeaseDb}
use job_slayer.Leases.Store.{CallTime, heartbeat, request_cancel, release}

pub record Tables : Type 0 where
  pub runs : LongRunDb
  pub leases : LeaseDb

-- What a call draws from outside: the clock, and the identifiers that `uuid4` makes.
pub record RunCall : Type 0 where
  pub clock : Stamp
  pub event_id : String
  pub start_key : String
  pub lease_id : String

-- The code that the service only calls: the digest of events, the SQL comparison of times, the
-- conversion to milliseconds and the artifacts.
pub record Surroundings : Type 0 where
  pub digest : EventPayload → String
  pub iso_le : Stamp → Stamp → Bool
  pub to_ms : ℕ → ℕ
  pub artifacts : Artifacts

abbrev pub Answer : Type 0 → Type 0
Answer A = Result ExecutionError A × Tables

-- `_when`
abbrev pub time_of : RunCall → Option Datetime → Result ExecutionError Stamp
time_of call none = ok call.clock
time_of call (some (aware t)) = ok t
time_of call (some (naive t)) = err invalid_time

abbrev pub at_time : Stamp → CallTime
at_time t = record { now = some (aware t); clock = t }

abbrev pub from_store : {A : Type 0} → Result LongRunError A → Result ExecutionError A
from_store (ok a) = ok a
from_store (err e) = err (store_failed e)

abbrev pub last_event : Option LongRunEvent → Result ExecutionError LongRunEvent
last_event none = err changed_projection
last_event (some e) = ok e

abbrev found_run : Option ResumableRunHandle → Result ExecutionError ResumableRunHandle
found_run none = err unknown_run
found_run (some h) = ok h

abbrev pub is_live_status : LongRunStatus → Bool
is_live_status running = true
is_live_status cancelling = true
is_live_status _ = false

abbrev pub is_running : LongRunStatus → Bool
is_running running = true
is_running _ = false

abbrev pub is_admitted : LongRunStatus → Bool
is_admitted admitted = true
is_admitted _ = false

abbrev is_retryable : LongRunStatus → Bool
is_retryable failed = true
is_retryable lost = true
is_retryable _ = false

-- The worker's lease, as a live handle names it.
abbrev pub lease_of : ResumableRunHandle → Result ExecutionError (String × ℕ)
lease_of h = named h.worker_lease_id h.worker_lease_version
  where
    named : Option String → Option ℕ → Result ExecutionError (String × ℕ)
    named (some id) (some version) = ok (id, version)
    named _ _ = err no_lease

abbrev pub from_leases : {A : Type 0} → Result LeaseError A → Result ExecutionError A
from_leases (ok a) = ok a
from_leases (err e) = err (lease_rejected e)

-- `_heartbeat`, `_request_lease_cancel` and `_release_lease`.
abbrev pub send_heartbeat :
    LeaseDb → ResumableRunHandle → Stamp → Result ExecutionError (WorkerLease × LeaseDb)
send_heartbeat db h at = do
  lease ← lease_of h
  from_leases (heartbeat db lease.0 lease.1 h.policy.lease_seconds (at_time at))

abbrev pub cancel_lease :
    LeaseDb → ResumableRunHandle → Stamp → Result ExecutionError (WorkerLease × LeaseDb)
cancel_lease db h at = do
  lease ← lease_of h
  from_leases (request_cancel db lease.0 lease.1 (at_time at))

abbrev pub release_lease :
    LeaseDb → ResumableRunHandle → Stamp → Result ExecutionError (WorkerLease × LeaseDb)
release_lease db h at = do lease ← lease_of h; from_leases (release db lease.0 lease.1 (at_time at))

module _ (outside : Surroundings) where
  open outside use {digest, iso_le, to_ms, artifacts}

  -- `_required`
  unfoldable pub required : Tables → String → Result ExecutionError ResumableRunHandle
  required t id = do found ← from_store (get_run digest t.runs id); found_run found

  -- `_append`
  unfoldable pub append_handle :
      RunCall
      → LongRunDb
      → ResumableRunHandle
      → ResumableRunHandle
      → EventType
      → List Detail
      → Stamp
      → Option ProgressCheckpoint
      → Result ExecutionError (ResumableRunHandle × LongRunDb)
  append_handle call db current updated kind details at checkpoint = do
    es ← from_store (run_history digest db current.run_id)
    last ← last_event (get_last? es)
    require (same_handle last.handle current) changed_projection
    from_store (
        append_event digest db
          (build_long_run_event digest updated kind (some last.record_hash) details at
            call.event_id)
          current.version checkpoint)

  -- The event that follows the transaction on a lease.
  abbrev pub recorded :
      Tables → Result ExecutionError (ResumableRunHandle × LongRunDb) → Answer ResumableRunHandle
  recorded t (ok (h, db)) = (ok h, record t { runs = db })
  recorded t (err e) = (err e, t)

  -- A part that raises before anything is written, and what is done with its value.
  abbrev pub attempt_first :
      {A : Type 0}
      → Tables
      → Result ExecutionError A
      → (A → Answer ResumableRunHandle)
      → Answer ResumableRunHandle
  attempt_first t (err e) next = (err e, t)
  attempt_first t (ok a) next = next a

  -- A transaction on a lease, and what is done with the lease.
  abbrev pub with_lease :
      Tables
      → Result ExecutionError (WorkerLease × LeaseDb)
      → (WorkerLease → Tables → Answer ResumableRunHandle)
      → Answer ResumableRunHandle
  with_lease t (err e) next = (err e, t)
  with_lease t (ok (lease, db)) next = next lease (record t { leases = db })

  -- `_limits` of a run's policy.
  abbrev pub hard_of :
      ResumableRunHandle → LongRunUsage × LongRunUsage → List LongRunBudgetDimension
  hard_of h u = exceeded hard h.policy.limits u.0 u.1

  abbrev pub soft_of :
      ResumableRunHandle → LongRunUsage × LongRunUsage → List LongRunBudgetDimension
  soft_of h u = exceeded soft h.policy.limits u.0 u.1

  abbrev pub finished_handle :
      ResumableRunHandle
      → ProviderRunObservation
      → LongRunUsage × LongRunUsage
      → WorkerLease
      → ResumableRunHandle
  finished_handle h o u lease = record h {
    status = terminal_status o.status (not (is_empty (hard_of h u)));
    version = h.version + 1;
    worker_lease_version = some lease.version;
    event_cursor = o.event_cursor;
    usage = u.0;
    attempt_usage = u.1;
    hard_limit_dimensions = merged_dimensions h.hard_limit_dimensions (hard_of h u);
    soft_limit_dimensions = merged_dimensions h.soft_limit_dimensions (soft_of h u);
    updated_at = o.observed_at;
  }

  abbrev finish_details :
      ResumableRunHandle → ProviderRunObservation → LongRunUsage × LongRunUsage → List Detail
  finish_details h o u =
      text "provider_status" (status_text o.status)
      ∷ texts "raw_event_artifact_ids" o.raw_event_artifact_ids
      ∷ texts "hard_exceeded" (dimension_texts (hard_of h u))
      ∷ texts "soft_exceeded" (dimension_texts (soft_of h u))
      ∷ []

  -- What `finish` reads before it releases the lease.
  unfoldable pub finishable :
      Tables
      → String
      → ProviderRunObservation
      → Result ExecutionError (ResumableRunHandle × (LongRunUsage × LongRunUsage))
  unfolding required
  finishable t id o = do
    h ← required t id
    require (is_live_status h.status) not_live
    require (not (is_underway o.status)) wrong_provider_status
    u ← merge_usage to_ms artifacts h o
    ok (h, u)

  unfoldable pub finish :
      RunCall → Tables → String → ProviderRunObservation → Answer ResumableRunHandle
  unfolding finishable append_handle
  finish call t id o = attempt_first t (finishable t id o) (λ x.
      with_lease t (release_lease t.leases x.0 o.observed_at) (λ lease t'.
        let done = finished_handle x.0 o x.1 lease in
        recorded t' (
          append_handle call t'.runs x.0 done (terminal_event done.status)
            (finish_details x.0 o x.1) o.observed_at none)))

  -- `request_cancel`, up to the lease.
  unfoldable pub cancellable :
      RunCall
      → Tables
      → String
      → Option Datetime
      → Result ExecutionError (ResumableRunHandle × Stamp)
  unfolding required
  cancellable call t id now = do
    h ← required t id
    at ← time_of call now
    require (is_running h.status) not_running
    require (leb h.updated_at.instant at.instant) backwards
    ok (h, at)

  abbrev cancelling_handle : ResumableRunHandle → Stamp → WorkerLease → ResumableRunHandle
  cancelling_handle h at lease = record h {
    status = cancelling;
    version = h.version + 1;
    worker_lease_version = some lease.version;
    updated_at = at;
  }

  unfoldable pub request_run_cancel :
      RunCall → Tables → String → String → Option Datetime → Answer ResumableRunHandle
  unfolding cancellable append_handle
  request_run_cancel call t id reason now = attempt_first t (cancellable call t id now) (λ x.
      with_lease t (cancel_lease t.leases x.0 x.1) (λ lease t'. recorded t' (
        append_handle call t'.runs x.0 (cancelling_handle x.0 x.1 lease) cancel_requested
          (text "reason" reason ∷ []) x.1 none)))

  -- `observe`, up to the lease.
  unfoldable pub observable :
      Tables
      → String
      → ProviderRunObservation
      → Result ExecutionError (ResumableRunHandle × (LongRunUsage × LongRunUsage))
  unfolding required
  observable t id o = do
    h ← required t id
    require (is_live_status h.status) not_live
    require (is_underway o.status) wrong_provider_status
    u ← merge_usage to_ms artifacts h o
    ok (h, u)

  abbrev is_stalled : ResumableRunHandle → ProviderRunObservation → Bool → Bool
  is_stalled h o made_progress =
      not made_progress
      && leb h.policy.progress_warning_after_ms
          (to_ms (o.observed_at.instant - h.last_progress_at.instant))

  abbrev observed_event : Bool → Bool → Bool → EventType
  observed_event over warned stalled =
      if over
      then limit_exceeded
      else if warned
      then limit_warning
      else if stalled
      then progress_stalled
      else observed

  abbrev pub observed_handle :
      ResumableRunHandle
      → ProviderRunObservation
      → LongRunUsage × LongRunUsage
      → Bool
      → LongRunStatus
      → Option ℕ
      → ResumableRunHandle
  observed_handle h o u made_progress status lease_version = record h {
    status = status;
    version = h.version + 1;
    worker_lease_version = lease_version;
    event_cursor = o.event_cursor;
    usage = u.0;
    attempt_usage = u.1;
    hard_limit_dimensions = merged_dimensions h.hard_limit_dimensions (hard_of h u);
    soft_limit_dimensions = merged_dimensions h.soft_limit_dimensions (soft_of h u);
    updated_at = o.observed_at;
    last_progress_at = if made_progress then o.observed_at else h.last_progress_at;
  }

  abbrev observe_details :
      ResumableRunHandle
      → ProviderRunObservation
      → LongRunUsage × LongRunUsage
      → Bool
      → Option String
      → List Detail
  observe_details h o u made_progress stage =
      text "provider_status" (status_text o.status)
      ∷ number "event_cursor" o.event_cursor
      ∷ texts "raw_event_artifact_ids" o.raw_event_artifact_ids
      ∷ flag "made_progress" made_progress
      ∷ (elim stage [ none ↦ nothing "stage" | some s ↦ text "stage" s ])
      ∷ texts "hard_exceeded" (dimension_texts (hard_of h u))
      ∷ texts "soft_exceeded" (dimension_texts (soft_of h u))
      ∷ flag "progress_stalled" (is_stalled h o made_progress)
      ∷ []

  -- The append of `observe`, with the status and the version of the lease that it has settled on.
  abbrev pub append_observed :
      RunCall
      → Tables
      → ResumableRunHandle
      → ProviderRunObservation
      → LongRunUsage × LongRunUsage
      → Bool
      → Option String
      → LongRunStatus
      → Option ℕ
      → Answer ResumableRunHandle
  append_observed call t h o u made_progress stage status lease_version = recorded t (
      append_handle call t.runs h (observed_handle h o u made_progress status lease_version)
        (observed_event (not (is_empty (hard_of h u))) (not (is_empty (soft_of h u)))
          (is_stalled h o made_progress))
        (observe_details h o u made_progress stage) o.observed_at none)

  -- A running run asks for the cancellation of its lease when it is over a hard limit, and sends a
  -- heartbeat otherwise; a run that is being cancelled does neither.
  abbrev pub observe_running :
      RunCall
      → Tables
      → ResumableRunHandle
      → ProviderRunObservation
      → LongRunUsage × LongRunUsage
      → Bool
      → Option String
      → Bool
      → Answer ResumableRunHandle
  observe_running call t h o u made_progress stage true =
      with_lease t (cancel_lease t.leases h o.observed_at) (λ lease t'.
        append_observed call t' h o u made_progress stage cancelling (some lease.version))
  observe_running call t h o u made_progress stage false =
      with_lease t (send_heartbeat t.leases h o.observed_at) (λ lease t'.
        append_observed call t' h o u made_progress stage h.status (some lease.version))

  abbrev pub observe_live :
      RunCall
      → Tables
      → ResumableRunHandle
      → ProviderRunObservation
      → LongRunUsage × LongRunUsage
      → Bool
      → Option String
      → Bool
      → Answer ResumableRunHandle
  observe_live call t h o u made_progress stage true =
      observe_running call t h o u made_progress stage (not (is_empty (hard_of h u)))
  observe_live call t h o u made_progress stage false =
      append_observed call t h o u made_progress stage h.status h.worker_lease_version

  unfoldable pub observe :
      RunCall
      → Tables
      → String
      → ProviderRunObservation
      → Bool
      → Option String
      → Answer ResumableRunHandle
  unfolding observable append_handle
  observe call t id o made_progress stage =
      attempt_first t (observable t id o)
        (λ x. observe_live call t x.0 o x.1 made_progress stage (is_running x.0.status))

  -- `_require_not_past_task_deadline`
  abbrev pub within_deadline : ResumableRunHandle → Stamp → Bool
  within_deadline h at = elim (limit_for task_elapsed h.policy.limits) [
    | none ↦ false
    | some l ↦ elim l.maximum [
      | none ↦ false
      | some most ↦ leb (to_ms (at.instant - h.created_at.instant)) most
    ]
  ]

  unfoldable pub authorize_retry :
      RunCall → Tables → String → String → Option Datetime → Answer ResumableRunHandle
  unfolding required append_handle
  authorize_retry call t id reason now = recorded t (do
    h ← required t id
    at ← time_of call now
    require (is_retryable h.status) not_retryable
    require (leb h.updated_at.instant at.instant) backwards
    require (ltb h.attempt_number h.policy.max_attempts) exhausted
    require (within_deadline h at) past_deadline
    append_handle call t.runs h
        (record h {
          status = admitted;
          version = h.version + 1;
          attempt_number = h.attempt_number + 1;
          provider_start_key = call.start_key;
          provider_run = none;
          worker_lease_id = none;
          worker_lease_version = none;
          event_cursor = 0;
          attempt_usage = no_usage;
          updated_at = at;
          last_progress_at = at;
        })
        retry_authorized
        (text "reason" reason ∷ number "attempt_number" (h.attempt_number + 1) ∷ []) at none)
