-- ===== src/Leases/Store.antt =====
-- `SqliteWorkerLeaseStore`. Each method that writes runs in one transaction, which an exception
-- rolls back: a method returns the new database beside its result, or the error alone.
use job_slayer.Base.{
  ℕ, ◌+◌, String, Bool, not, ◌&&◌, ◌||◌, ◌∷◌, Option, ltb, Result, ok, require, ◌>>◌, ◌>>=◌,
}
use job_slayer.Leases.{
  Stamp, Datetime, add_seconds, min_before, active, cancel_requested, released, is_open, is_active,
  WorkerLease, is_valid, LeaseError, bad_duration, invalid_lease, already_live, not_active,
  past_expiry, not_open, when_of,
}
use job_slayer.Leases.Table.{
  acquired, heartbeat_sent, cancel_recorded, release_recorded, LeaseDb, find, has_event, has_open,
  is_present, update, load_for_update,
}

-- The time of a call: its argument `now`, and the clock.
pub record CallTime : Type 0 where
  pub now : Option Datetime
  pub clock : Stamp

abbrev pub require_duration : ℕ → Result LeaseError (Unit {0})
require_duration seconds = require (not (ltb seconds 1 || ltb 3600 seconds)) bad_duration

abbrev pub new_lease : String → String → String → ℕ → Stamp → WorkerLease
new_lease id worker run seconds when = record {
  lease_id = id;
  worker_id = worker;
  run_id = run;
  status = active;
  version = 1;
  acquired_at = when;
  last_heartbeat_at = when;
  expires_at = add_seconds when seconds;
}

-- The three constraints that the insertion of a lease and of its first event can violate.
abbrev pub is_insertable : LeaseDb → WorkerLease → Bool
is_insertable db l =
    not (is_present (find l.lease_id db.leases))
    && not (has_open l.run_id db.leases)
    && not (has_event l.lease_id l.version db.events)

-- `id` is the new identifier that `uuid4` gives.
unfoldable pub acquire :
    LeaseDb → String → String → String → ℕ → CallTime → Result LeaseError (WorkerLease × LeaseDb)
unfolding when_of
acquire db id worker run seconds time = do
  when ← when_of time.now time.clock
  require_duration seconds
  let lease = new_lease id worker run seconds when
  require (is_valid lease) invalid_lease
  require (is_insertable db lease) already_live
  ok (
    lease,
    record {
      leases = lease ∷ db.leases;
      events = record { event_type = acquired; lease = lease } ∷ db.events;
    },
  )

unfoldable pub heartbeat :
    LeaseDb → String → ℕ → ℕ → CallTime → Result LeaseError (WorkerLease × LeaseDb)
unfolding when_of
heartbeat db id expected seconds time = do
  when ← when_of time.now time.clock
  require_duration seconds
  current ← load_for_update db id expected
  require (is_active current.status) not_active
  require (ltb when.instant current.expires_at.instant) past_expiry
  let updated = record current {
    version = current.version + 1;
    last_heartbeat_at = when;
    expires_at = add_seconds when seconds;
  }
  db' ← update db updated expected heartbeat_sent
  ok (updated, db')

unfoldable pub request_cancel :
    LeaseDb → String → ℕ → CallTime → Result LeaseError (WorkerLease × LeaseDb)
unfolding when_of
request_cancel db id expected time = do
  when ← when_of time.now time.clock
  current ← load_for_update db id expected
  require (is_active current.status) not_active
  require (ltb when.instant current.expires_at.instant) past_expiry
  let updated = record current {
    status = cancel_requested;
    version = current.version + 1;
    last_heartbeat_at = when;
  }
  db' ← update db updated expected cancel_recorded
  ok (updated, db')

unfoldable pub release : LeaseDb → String → ℕ → CallTime → Result LeaseError (WorkerLease × LeaseDb)
unfolding when_of
release db id expected time = do
  when ← when_of time.now time.clock
  current ← load_for_update db id expected
  require (is_open current.status) not_open
  let updated = record current {
    status = released;
    version = current.version + 1;
    last_heartbeat_at = min_before when current.expires_at;
  }
  db' ← update db updated expected release_recorded
  ok (updated, db')
