-- ===== src/LongRun/Stranded.antt =====
-- A run that is being cancelled when its lease has expired.
use job_slayer.Base.{
  ℕ, String, ◌≡◌, refl, sym, ap, subst, ◌∙◌, not, Option, some, ◌==◌, Bool-cases, Option-cases, inl,
  inr, ok, err, Result-cases, >>=-eq-ok, require-eq-ok, ok-injective,
}
use job_slayer.Time.{Datetime}
use job_slayer.LongRun.{
  Stamp, LongRunStatus, cancelling, LongRunUsage, ProviderRunReference, ProviderRunObservation,
  ResumableRunHandle, EventType,
}
use job_slayer.LongRun.Usage.{
  ExecutionError, not_admitted, not_running, not_live, wrong_provider_status, not_retryable,
  changed_projection, Manifest, merge_usage, is_underway,
}
use job_slayer.LongRun.Service.{
  Tables, RunCall, Surroundings, Answer, time_of, at_time, is_live_status, required, release_lease,
  finishable, finish, cancellable, request_run_cancel, authorize_retry,
}
use job_slayer.LongRun.Start.{CheckpointFields, checkpointable, checkpoint, recoverable, recover}
use job_slayer.Leases.{LeaseStatus, WorkerLease, LeaseError, is_valid}
use job_slayer.Leases.Table.{LeaseDb, find, decode, load_for_update}
use job_slayer.Leases.Store.{release}

-- The release of an expired lease raises.
release_expired :
    (db : LeaseDb) (id : String) (version : ℕ) (t : Stamp) (l : WorkerLease)
    → find id db.leases ≡ some l
    → l.status ≡ LeaseStatus.expired
    → (e : LeaseError) × (release db id version (at_time t) ≡ err e)
unfolding release load_for_update decode
release_expired db id version t l found over = elim (Bool-cases (is_valid l)) [
  | inr invalid ↦ (LeaseError.invalid_persistence, rw (found, invalid) refl)
  | inl valid ↦ elim (Bool-cases (l.version == version)) [
    | inr stale ↦ (LeaseError.changed, rw (found, valid, stale) refl)
    | inl same ↦ (LeaseError.not_open, rw (found, valid, same, over) refl)
  ]
]

module _ (outside : Surroundings) (t : Tables) (id : String) where
  -- The run is being cancelled, and the lease that it names has expired.
  pub record IsStranded (h : ResumableRunHandle) (l : WorkerLease) : Type 0 where
    pub lease_id : String
    pub read : required outside t id ≡ ok h
    pub being_cancelled : h.status ≡ cancelling
    pub names : h.worker_lease_id ≡ some lease_id
    pub kept : find lease_id t.leases.leases ≡ some l
    pub over : l.status ≡ LeaseStatus.expired

  abbrev pub Raises : Answer ResumableRunHandle → Type 0
  Raises a = (e : ExecutionError) × (a ≡ (err e, t))

  module _ (h : ResumableRunHandle) (l : WorkerLease) (stranded : IsStranded h l) where
    open stranded use {lease_id, read, being_cancelled, names, kept, over}

    release_lease-stranded :
        (at : Stamp) → (e : ExecutionError) × (release_lease t.leases h at ≡ err e)
    release_lease-stranded at = elim (Option-cases h.worker_lease_version) [
      | inl unversioned ↦ (job_slayer.LongRun.Usage.no_lease, rw (names, unversioned) refl)
      | inr (v, versioned) ↦
          let (e, raised) = release_expired t.leases lease_id v at l kept over in
          (job_slayer.LongRun.Usage.lease_rejected e, rw (names, versioned, raised) refl)
    ]

    finishable-handle :
        (o : ProviderRunObservation) (x : ResumableRunHandle × (LongRunUsage × LongRunUsage))
        → finishable outside t id o ≡ ok x
        → h ≡ x.0
    unfolding finishable
    finishable-handle o x f =
        let (h', got, f₁) = >>=-eq-ok (required outside t id) _ f in
        let (_, f₂) = require-eq-ok (is_live_status h'.status) not_live _ f₁ in
        let (_, f₃) = require-eq-ok (not (is_underway o.status)) wrong_provider_status _ f₂ in
        let (u, _, f₄) = >>=-eq-ok (merge_usage outside.to_ms outside.artifacts h' o) _ f₃ in
        ok-injective (sym read ∙ got)
        ∙ ap (λ (k : ResumableRunHandle × (LongRunUsage × LongRunUsage)). k.0) (ok-injective f₄)

    finish_stranded :
        (call : RunCall) (o : ProviderRunObservation) → Raises (finish outside call t id o)
    unfolding finish
    finish_stranded call o = elim (Result-cases (finishable outside t id o)) [
      | inr (e, failed) ↦ (e, rw failed refl)
      | inl (x, f) ↦
          let same = finishable-handle o x f in
          let (e, raised) = release_lease-stranded o.observed_at in
          let raised_x : release_lease t.leases x.0 o.observed_at ≡ err e =
            subst (λ (k : ResumableRunHandle). release_lease t.leases k o.observed_at ≡ err e) same
              raised in
          (e, rw (f, raised_x) refl)
    ]

    request_run_cancel_stranded :
        (call : RunCall) (reason : String) (now : Option Datetime)
        → Raises (request_run_cancel outside call t id reason now)
    unfolding request_run_cancel cancellable
    request_run_cancel_stranded call reason now = elim (Result-cases (time_of call now)) [
      | inr (e, naive) ↦ (e, rw (read, naive) refl)
      | inl (at, timed) ↦ (not_running, rw (read, timed, being_cancelled) refl)
    ]

    checkpoint_stranded :
        (call : RunCall) (c : CheckpointFields) (registered : Option Manifest)
        (now : Option Datetime)
        → Raises (checkpoint outside call t id c registered now)
    unfolding checkpoint checkpointable
    checkpoint_stranded call c registered now = elim (Result-cases (time_of call now)) [
      | inr (e, naive) ↦ (e, rw (read, naive) refl)
      | inl (at, timed) ↦ (not_running, rw (read, timed, being_cancelled) refl)
    ]

    recover_stranded :
        (call : RunCall) (o : ProviderRunObservation) (worker : String)
        → Raises (recover outside call t id o worker)
    unfolding recover recoverable
    recover_stranded call o worker = (not_running, rw (read, being_cancelled) refl)

    authorize_retry_stranded :
        (call : RunCall) (reason : String) (now : Option Datetime)
        → Raises (authorize_retry outside call t id reason now)
    unfolding authorize_retry
    authorize_retry_stranded call reason now = elim (Result-cases (time_of call now)) [
      | inr (e, naive) ↦ (e, rw (read, naive) refl)
      | inl (at, timed) ↦ (not_retryable, rw (read, timed, being_cancelled) refl)
    ]

    -- Of a run that is being cancelled and whose lease has expired, `finish`, `request_cancel`,
    -- `checkpoint`, `recover` and `authorize_retry` raise, whatever they are given, and write
    -- neither an event nor a lease.
    pub stranded-Raises :
        ((call : RunCall) (o : ProviderRunObservation) → Raises (finish outside call t id o))
        × ((call : RunCall) (reason : String) (now : Option Datetime)
            → Raises (request_run_cancel outside call t id reason now))
        × ((call : RunCall) (c : CheckpointFields) (registered : Option Manifest)
              (now : Option Datetime)
            → Raises (checkpoint outside call t id c registered now))
        × ((call : RunCall) (o : ProviderRunObservation) (worker : String)
            → Raises (recover outside call t id o worker))
        × ((call : RunCall) (reason : String) (now : Option Datetime)
            → Raises (authorize_retry outside call t id reason now))
    stranded-Raises = (
      finish_stranded, request_run_cancel_stranded, checkpoint_stranded, recover_stranded,
      authorize_retry_stranded,
    )
