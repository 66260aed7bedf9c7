-- ===== src/LongRun/Start.antt =====
-- The other operations of `LongRunningExecutionService`: the admission of a run, the binding of its
-- provider, checkpoints, and the takeover of an orphan.
use job_slayer.Base.{
  ℕ, ◌+◌, String, Bool, true, false, not, ◌&&◌, List, [], ◌∷◌, ◌++◌, Option, none, some, ltb, leb,
  codes, length, is_empty, is_identifier, is_sha256, is_unique, str_eq, if◌then◌else◌, Result, ok,
  err, require, ◌>>=◌, ◌>>◌,
}
use job_slayer.Time.{Datetime}
use job_slayer.LongRun.{
  Stamp, admitted, running, LongRunUsage, no_usage, ProviderRunReference, ProviderRunObservation,
  ResumableRunHandle, LongRunningExecutionPolicy, is_valid_handle, run_admitted, provider_bound,
  checkpointed, recovered,
}
use job_slayer.LongRun.Store.{
  Detail, text, number, ProgressCheckpoint, LongRunDb, create_run, build_long_run_event,
}
use job_slayer.LongRun.Usage.{
  ExecutionError, not_admitted, backwards, outside_admission, wrong_start_key, exhausted,
  past_deadline, not_running, wrong_provider_status, unknown_artifact, no_lease, lease_missing,
  lease_live, lease_not_expired, over_budget, duplicate_artifact, invalid_model, Manifest,
  check_artifacts, is_of_run, merge_usage, is_underway,
}
use job_slayer.LongRun.Service.{
  Tables, RunCall, Surroundings, Answer, time_of, at_time, from_store, from_leases, is_running,
  is_admitted, send_heartbeat, required, append_handle, recorded, attempt_first, with_lease,
  hard_of, within_deadline,
}
use job_slayer.Leases.{LeaseStatus, WorkerLease, is_live}
use job_slayer.Leases.Table.{LeaseDb}
use job_slayer.Leases.Store.{acquire, release}
use job_slayer.Leases.Reading.{recover_orphans, get}

abbrev admitted_handle :
    RunCall → String → String → LongRunningExecutionPolicy → Stamp → ResumableRunHandle
admitted_handle call id task policy at = record {
  run_id = id;
  task_id = task;
  policy = policy;
  status = admitted;
  version = 1;
  attempt_number = 1;
  provider_start_key = call.start_key;
  provider_run = none;
  worker_lease_id = none;
  worker_lease_version = none;
  event_cursor = 0;
  checkpoint_count = 0;
  usage = no_usage;
  attempt_usage = no_usage;
  hard_limit_dimensions = [];
  soft_limit_dimensions = [];
  created_at = at;
  updated_at = at;
  last_progress_at = at;
}

-- The request of `start_request`.
pub record ProviderStartRequest : Type 0 where
  pub run_id : String
  pub task_id : String
  pub attempt_number : ℕ
  pub provider_start_key : String

-- The fields of a checkpoint, as they are given to `checkpoint`.
pub record CheckpointFields : Type 0 where
  pub stage : String
  pub summary : String
  pub referenced_artifact_ids : List String
  pub workspace_state_sha256 : Option String
  pub continuation_artifact_id : Option String

module _ (outside : Surroundings) where
  open outside use {digest, iso_le, to_ms, artifacts}

  unfoldable pub admit :
      RunCall
      → Tables
      → String
      → String
      → LongRunningExecutionPolicy
      → Option Datetime
      → Answer ResumableRunHandle
  unfolding create_run
  admit call t id task policy now = recorded outside t (do
    at ← time_of call now
    let h = admitted_handle call id task policy at
    require (is_valid_handle h) invalid_model
    from_store (
        create_run digest t.runs (
          build_long_run_event digest h run_admitted none
            (number "attempt_number" 1 ∷ text "policy_id" policy.policy_id ∷ []) at call.event_id)))

  unfoldable pub start_request : Tables → String → Result ExecutionError ProviderStartRequest
  start_request t id = do
    h ← required outside t id
    require (is_admitted h.status) not_admitted
    ok (record {
      run_id = h.run_id;
      task_id = h.task_id;
      attempt_number = h.attempt_number;
      provider_start_key = h.provider_start_key;
    })

  -- `bind_provider`, up to the lease.
  unfoldable pub bindable :
      RunCall
      → Tables
      → String
      → ProviderRunReference
      → Option Datetime
      → Result ExecutionError (ResumableRunHandle × Stamp)
  unfolding required check_artifacts
  bindable call t id r now = do
    h ← required outside t id
    at ← time_of call now
    require (is_admitted h.status) not_admitted
    require (leb h.updated_at.instant at.instant) backwards
    require (leb h.created_at.instant r.started_at.instant && leb r.started_at.instant at.instant)
        outside_admission
    require (str_eq r.provider_start_key h.provider_start_key) wrong_start_key
    check_artifacts artifacts h (r.start_evidence_artifact_id ∷ [])
    require (leb h.attempt_number h.policy.max_attempts) exhausted
    require (within_deadline outside h at) past_deadline
    ok (h, at)

  abbrev pub bound_handle :
      ResumableRunHandle → ProviderRunReference → Stamp → WorkerLease → ResumableRunHandle
  bound_handle h r at lease = record h {
    status = running;
    version = h.version + 1;
    provider_run = some r;
    worker_lease_id = some lease.lease_id;
    worker_lease_version = some lease.version;
    event_cursor = 0;
    attempt_usage = no_usage;
    updated_at = at;
    last_progress_at = at;
  }

  -- A failed append gives the lease back, when that is possible.
  abbrev released_after : LeaseDb → WorkerLease → Stamp → LeaseDb
  released_after db lease at = elim (release db lease.lease_id lease.version (at_time at)) [
    | ok (l, db') ↦ db'
    | err e ↦ db
  ]

  abbrev bound :
      Tables
      → WorkerLease
      → Stamp
      → Result ExecutionError (ResumableRunHandle × LongRunDb)
      → Answer ResumableRunHandle
  bound t lease at (ok (h, db)) = (ok h, record t { runs = db })
  bound t lease at (err e) = (err e, record t { leases = released_after t.leases lease at })

  abbrev bind_details : ResumableRunHandle → ProviderRunReference → String → List Detail
  bind_details h r worker =
      text "provider_adapter" r.provider_adapter
      ∷ text "external_run_id" r.external_run_id
      ∷ text "provider_start_key" r.provider_start_key
      ∷ text "start_evidence_artifact_id" r.start_evidence_artifact_id
      ∷ text "worker_id" worker
      ∷ number "attempt_number" h.attempt_number
      ∷ []

  unfoldable pub bind_provider :
      RunCall
      → Tables
      → String
      → ProviderRunReference
      → String
      → Option Datetime
      → Answer ResumableRunHandle
  unfolding bindable append_handle
  bind_provider call t id r worker now = attempt_first outside t (bindable call t id r now) (λ x.
      with_lease outside t
        (from_leases
          (acquire t.leases call.lease_id worker id x.0.policy.lease_seconds (at_time x.1)))
        (λ lease t'. bound t' lease x.1 (
          append_handle outside call t'.runs x.0 (bound_handle x.0 r x.1 lease) provider_bound
            (bind_details x.0 r worker) x.1 none)))

  -- `(continuation_artifact_id,) if continuation_artifact_id else ()`
  abbrev continued : Option String → List String
  continued none = []
  continued (some id) = if str_eq id "" then [] else id ∷ []

  abbrev is_digest : Option String → Bool
  is_digest none = true
  is_digest (some d) = is_sha256 d

  abbrev is_checkpoint_text : ℕ → String → Bool
  is_checkpoint_text high s = leb 1 (length (codes s)) && leb (length (codes s)) high

  abbrev is_named : Option String → Bool
  is_named none = true
  is_named (some id) = not (str_eq id "")

  abbrev is_valid_checkpoint : CheckpointFields → Manifest → String → Bool
  is_valid_checkpoint c m id =
      is_identifier id
      && is_checkpoint_text 120 c.stage
      && is_checkpoint_text 4000 c.summary
      && is_digest c.workspace_state_sha256
      && is_named c.continuation_artifact_id
      && not (str_eq m.artifact_id "")
      && is_sha256 m.sha256
      && is_unique c.referenced_artifact_ids

  abbrev new_checkpoint :
      ResumableRunHandle → CheckpointFields → Manifest → String → Stamp → ProgressCheckpoint
  new_checkpoint h c m id at = record {
    checkpoint_id = id;
    run_id = h.run_id;
    sequence = h.checkpoint_count + 1;
    attempt_number = h.attempt_number;
    event_cursor = h.event_cursor;
    stage = c.stage;
    summary = c.summary;
    referenced_artifact_ids = c.referenced_artifact_ids;
    workspace_state_sha256 = c.workspace_state_sha256;
    continuation_artifact_id = c.continuation_artifact_id;
    checkpoint_artifact_id = m.artifact_id;
    checkpoint_sha256 = m.sha256;
    usage = h.usage;
    created_at = at;
  }

  -- `checkpoint`, up to the lease; `registered` is what the registry makes of the payload.
  unfoldable pub checkpointable :
      RunCall
      → Tables
      → String
      → CheckpointFields
      → Option Manifest
      → Option Datetime
      → Result ExecutionError (ResumableRunHandle × Stamp × ProgressCheckpoint)
  unfolding required check_artifacts
  checkpointable call t id c registered now = do
    h ← required outside t id
    at ← time_of call now
    require (is_running h.status) not_running
    require (leb h.updated_at.instant at.instant) backwards
    require (is_unique c.referenced_artifact_ids) duplicate_artifact
    check_artifacts artifacts h (c.referenced_artifact_ids ++ continued c.continuation_artifact_id)
    m ← elim registered [ none ↦ err unknown_artifact | some m ↦ ok m ]
    require (is_valid_checkpoint c m call.start_key) invalid_model
    ok (h, at, new_checkpoint h c m call.start_key at)

  abbrev checkpointed_handle : ResumableRunHandle → Stamp → WorkerLease → ResumableRunHandle
  checkpointed_handle h at lease = record h {
    version = h.version + 1;
    checkpoint_count = h.checkpoint_count + 1;
    worker_lease_version = some lease.version;
    updated_at = at;
    last_progress_at = at;
  }

  abbrev checkpoint_details : ProgressCheckpoint → List Detail
  checkpoint_details made =
      text "checkpoint_id" made.checkpoint_id
      ∷ text "checkpoint_artifact_id" made.checkpoint_artifact_id
      ∷ text "stage" made.stage
      ∷ []

  unfoldable pub checkpoint :
      RunCall
      → Tables
      → String
      → CheckpointFields
      → Option Manifest
      → Option Datetime
      → Answer ResumableRunHandle
  unfolding checkpointable append_handle
  checkpoint call t id c registered now =
      attempt_first outside t (checkpointable call t id c registered now) (λ x.
        with_lease outside t (send_heartbeat t.leases x.0 x.1) (λ lease t'. recorded outside t' (
          append_handle outside call t'.runs x.0 (checkpointed_handle x.0 x.1 lease) checkpointed
            (checkpoint_details x.2) x.1 (some x.2))))

  abbrev is_expired_lease : Option WorkerLease → Bool
  is_expired_lease none = false
  is_expired_lease (some l) = elim l.status [ LeaseStatus.expired ↦ true | _ ↦ false ]

  -- `recover`, up to the sweep of the orphans: the handle and its recorded lease, which is not live.
  unfoldable pub recoverable :
      Tables → String → ProviderRunObservation → Result ExecutionError (ResumableRunHandle × String)
  unfolding required check_artifacts
  recoverable t id o = do
    h ← required outside t id
    require (is_running h.status) not_running
    r ← is_of_run h.provider_run o
    check_artifacts artifacts h o.raw_event_artifact_ids
    require (is_underway o.status) wrong_provider_status
    lease_id ← elim h.worker_lease_id [ none ↦ err no_lease | some l ↦ ok l ]
    found ← from_leases (get t.leases lease_id)
    lease ← elim found [ none ↦ err lease_missing | some l ↦ ok l ]
    require (not (is_live lease o.observed_at)) lease_live
    ok (h, lease_id)

  -- After the sweep: the usage, with which the run goes on.
  abbrev resumable :
      LeaseDb
      → ResumableRunHandle
      → String
      → ProviderRunObservation
      → Result ExecutionError (LongRunUsage × LongRunUsage)
  resumable db h lease_id o = do
    found ← from_leases (get db lease_id)
    require (is_expired_lease found) lease_not_expired
    u ← merge_usage to_ms artifacts h o
    require (is_empty (hard_of outside h u)) over_budget
    ok u

  abbrev resumed_handle :
      ResumableRunHandle
      → ProviderRunObservation
      → LongRunUsage × LongRunUsage
      → WorkerLease
      → ResumableRunHandle
  resumed_handle h o u lease = record h {
    version = h.version + 1;
    worker_lease_id = some lease.lease_id;
    worker_lease_version = some lease.version;
    event_cursor = o.event_cursor;
    usage = u.0;
    attempt_usage = u.1;
    updated_at = o.observed_at;
    last_progress_at =
        if ltb h.event_cursor o.event_cursor then o.observed_at else h.last_progress_at;
  }

  abbrev resumed :
      RunCall
      → Tables
      → String
      → ResumableRunHandle
      → String
      → ProviderRunObservation
      → String
      → Answer ResumableRunHandle
  resumed call t id h lease_id o worker =
      attempt_first outside t (resumable t.leases h lease_id o) (λ u.
        with_lease outside t
          (from_leases (
            acquire t.leases call.lease_id worker id h.policy.lease_seconds
              (at_time o.observed_at)))
          (λ lease t'. recorded outside t' (
            append_handle outside call t'.runs h (resumed_handle h o u lease) recovered
              (text "expired_lease_id" lease_id
                ∷ text "replacement_lease_id" lease.lease_id
                ∷ text "worker_id" worker
                ∷ number "attempt_number" h.attempt_number
                ∷ [])
              o.observed_at none)))

  unfoldable pub recover :
      RunCall → Tables → String → ProviderRunObservation → String → Answer ResumableRunHandle
  unfolding recoverable append_handle merge_usage
  recover call t id o worker = attempt_first outside t (recoverable t id o) (λ x.
      attempt_first outside t
        (from_leases (recover_orphans iso_le t.leases (at_time o.observed_at)))
        (λ swept. resumed call (record t { leases = swept.1 }) id x.0 x.1 o worker))
