-- ===== src/Leases/Methods.antt =====
-- What each writing method does when it returns: the change that it makes, and from which row.
use job_slayer.Base.{
  ℕ, ◌+◌, ◌≤◌, ◌<◌, String, ◌≡◌, refl, sym, ap, ◌∙◌, true, some, arith, eq_refl, ok, require,
  >>=-eq-ok, ok-injective, ltb, subst,
}
use job_slayer.Leases.{
  cancel_requested, released, WorkerLease, is_open, is_active, is_valid, when_of, add_seconds,
  min_before, not_active, past_expiry, not_open,
}
use job_slayer.Leases.Table.{
  EventType, LeaseDb, heartbeat_sent, cancel_recorded, release_recorded, find, replace, last_event,
  load_for_update, update,
}
use job_slayer.Leases.Store.{CallTime, heartbeat, request_cancel, release, require_duration}
use job_slayer.Leases.Rows.{load_for_update-ok, find-id, update-ok}
use job_slayer.Leases.Life.{Changes}

-- The row before, and the change.
pub record Updates (db db' : LeaseDb) (id : String) (expected : ℕ) (old new : WorkerLease)
    : Type 0 where
  pub found : find id db.leases ≡ some old
  pub version : old.version ≡ expected
  pub valid : is_valid old ≡ true
  pub changes : Changes db db' old new

pub updated-Updates :
    (db db' : LeaseDb) (id : String) (expected : ℕ) (old new : WorkerLease) (kind : EventType)
    → load_for_update db id expected ≡ ok old
    → update db new expected kind ≡ ok db'
    → new.lease_id ≡ old.lease_id
    → new.run_id ≡ old.run_id
    → new.version ≡ old.version + 1
    → (is_open new.status ≡ true → is_open old.status ≡ true)
    → Updates db db' id expected old new
unfolding last_event
updated-Updates db db' id expected old new kind load up same run next opens =
    let (found, version, valid) = load_for_update-ok db id expected old load in
    let (rows, log) = update-ok db db' new expected kind up in
    let named : old.lease_id ≡ id = find-id id db.leases old found in
    record {
      found = found;
      version = version;
      valid = valid;
      changes = record {
        was = subst (λ k. find k db.leases ≡ some old) (sym (same ∙ named)) found;
        same_id = same;
        same_run = run;
        next_version = next;
        not_reopened = opens;
        rows = rows ∙ ap (λ k. replace new k db.leases) (sym version);
        log = rw log (ground (arith, eq_refl new.lease_id));
        other_log = λ i other. rw log (ground (arith, other));
      };
    }

-- What a heartbeat establishes.
pub record Renews (db db' : LeaseDb) (id : String) (expected seconds : ℕ) (time : CallTime)
    (new : WorkerLease) : Type 0 where
  pub old : WorkerLease
  pub updates : Updates db db' id expected old new
  pub was_active : is_active old.status ≡ true
  pub still_active : is_active new.status ≡ true
  pub stamped : when_of time.now time.clock ≡ ok new.last_heartbeat_at
  pub in_time : new.last_heartbeat_at.instant < old.expires_at.instant
  pub renewed : new.expires_at ≡ add_seconds new.last_heartbeat_at seconds
  pub bounded : (1 ≤ seconds) × (seconds ≤ 3600)
  pub same_worker : new.worker_id ≡ old.worker_id
  pub same_start : new.acquired_at ≡ old.acquired_at

-- A heartbeat that returns found an active lease at the expected version, whose expiry is after
-- the time of the call. It stores that time as the last heartbeat, moves the expiry to the given
-- duration, of one second to an hour, after that time, and keeps the worker, the run and the start.
pub heartbeat-Renews :
    (db db' : LeaseDb) (id : String) (expected seconds : ℕ) (time : CallTime) (new : WorkerLease)
    → heartbeat db id expected seconds time ≡ ok (new, db')
    → Renews db db' id expected seconds time new
unfolding heartbeat
heartbeat-Renews db db' id expected seconds time new h =
    let (when, timed, h₁) = >>=-eq-ok (when_of time.now time.clock) _ h in
    let (_, duration, h₂) = >>=-eq-ok (require_duration seconds) _ h₁ in
    let (old, load, h₃) = >>=-eq-ok (load_for_update db id expected) _ h₂ in
    let (_, was_active, h₄) = >>=-eq-ok (require (is_active old.status) not_active) _ h₃ in
    let (_, in_time, h₅) =
      >>=-eq-ok (require (ltb when.instant old.expires_at.instant) past_expiry) _ h₄ in
    let updated = record old {
      version = old.version + 1;
      last_heartbeat_at = when;
      expires_at = add_seconds when seconds;
    } in
    let (after, up, h₆) = >>=-eq-ok (update db updated expected heartbeat_sent) _ h₅ in
    subst (λ (p : WorkerLease × LeaseDb). Renews db p.1 id expected seconds time p.0)
      (ok-injective h₆)
      (record {
        old = old;
        updates =
            updated-Updates db after id expected old updated heartbeat_sent load up refl refl refl
              (λ o. o);
        was_active = ground arith;
        still_active = ground arith;
        stamped = timed;
        in_time = ground arith;
        renewed = refl;
        bounded = ground arith;
        same_worker = refl;
        same_start = refl;
      })

pub record Cancels (db db' : LeaseDb) (id : String) (expected : ℕ) (time : CallTime)
    (new : WorkerLease) : Type 0 where
  pub old : WorkerLease
  pub updates : Updates db db' id expected old new
  pub was_active : is_active old.status ≡ true
  pub cancelled : new.status ≡ cancel_requested
  pub stamped : when_of time.now time.clock ≡ ok new.last_heartbeat_at
  pub in_time : new.last_heartbeat_at.instant < old.expires_at.instant
  pub same_expiry : new.expires_at ≡ old.expires_at
  pub same_worker : new.worker_id ≡ old.worker_id
  pub same_start : new.acquired_at ≡ old.acquired_at

-- A cancellation that returns found an active lease at the expected version, whose expiry is after
-- the time of the call. It stores that time as the last heartbeat, marks the lease as to be
-- cancelled, and keeps its expiry, worker, run and start.
pub request_cancel-Cancels :
    (db db' : LeaseDb) (id : String) (expected : ℕ) (time : CallTime) (new : WorkerLease)
    → request_cancel db id expected time ≡ ok (new, db')
    → Cancels db db' id expected time new
unfolding request_cancel
request_cancel-Cancels db db' id expected time new h =
    let (when, timed, h₁) = >>=-eq-ok (when_of time.now time.clock) _ h in
    let (old, load, h₂) = >>=-eq-ok (load_for_update db id expected) _ h₁ in
    let (_, was_active, h₃) = >>=-eq-ok (require (is_active old.status) not_active) _ h₂ in
    let (_, in_time, h₄) =
      >>=-eq-ok (require (ltb when.instant old.expires_at.instant) past_expiry) _ h₃ in
    let updated = record old {
      status = cancel_requested;
      version = old.version + 1;
      last_heartbeat_at = when;
    } in
    let (after, up, h₅) = >>=-eq-ok (update db updated expected cancel_recorded) _ h₄ in
    subst (λ (p : WorkerLease × LeaseDb). Cancels db p.1 id expected time p.0) (ok-injective h₅)
      (record {
        old = old;
        updates =
            updated-Updates db after id expected old updated cancel_recorded load up refl refl refl
              (λ o. ground arith);
        was_active = ground arith;
        cancelled = refl;
        stamped = timed;
        in_time = ground arith;
        same_expiry = refl;
        same_worker = refl;
        same_start = refl;
      })

pub record Releases (db db' : LeaseDb) (id : String) (expected : ℕ) (new : WorkerLease)
    : Type 0 where
  pub old : WorkerLease
  pub updates : Updates db db' id expected old new
  pub was_open : is_open old.status ≡ true
  pub is_released : new.status ≡ released
  pub before_expiry : new.last_heartbeat_at.instant < new.expires_at.instant

-- A release that returns found an open lease at the expected version and made it released; the time
-- stored as its last heartbeat is before the expiry.
pub release-Releases :
    (db db' : LeaseDb) (id : String) (expected : ℕ) (time : CallTime) (new : WorkerLease)
    → release db id expected time ≡ ok (new, db')
    → Releases db db' id expected new
unfolding release is_valid
release-Releases db db' id expected time new h =
    let (when, timed, h₁) = >>=-eq-ok (when_of time.now time.clock) _ h in
    let (old, load, h₂) = >>=-eq-ok (load_for_update db id expected) _ h₁ in
    let (_, was_open, h₃) = >>=-eq-ok (require (is_open old.status) not_open) _ h₂ in
    let updated = record old {
      status = released;
      version = old.version + 1;
      last_heartbeat_at = min_before when old.expires_at;
    } in
    let (after, up, h₄) = >>=-eq-ok (update db updated expected release_recorded) _ h₃ in
    let valid = (load_for_update-ok db id expected old load).2 in
    subst (λ (p : WorkerLease × LeaseDb). Releases db p.1 id expected p.0) (ok-injective h₄)
      (record {
        old = old;
        updates =
            updated-Updates db after id expected old updated release_recorded load up refl refl refl
              (λ o. cc);
        was_open = ground arith;
        is_released = refl;
        before_expiry = ground (arith, valid);
      })
