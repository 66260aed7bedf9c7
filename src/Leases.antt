-- ===== src/Leases.antt =====
-- workers/__init__.py and adapters/sqlite_workers.py: the leases that workers hold on runs, kept in
-- a table with an event log. A row holds its lease: the columns repeat fields of the stored JSON.
pub mod Table
pub mod Store
pub mod Reading
pub mod Rows
pub mod Life
pub mod Methods
pub mod Acquire
pub mod Recovery
pub mod Reload
mod Tests
pub use job_slayer.Time.{Stamp, Datetime, naive, aware, add_seconds}
use job_slayer.Base.{
  ℕ, ◌+◌, ◌*◌, ◌-◌, String, Bool, true, false, ◌&&◌, Option, none, some, ltb, leb, is_identifier,
  Result, ok, err,
}

-- `min(a, b - timedelta(microseconds=1))`
abbrev pub min_before : Stamp → Stamp → Stamp
min_before a b = elim (ltb (b.instant - 1) a.instant) [
  | true ↦ record b { instant = b.instant - 1 }
  | false ↦ a
]

pub data LeaseStatus : Type 0 where
  active cancel_requested released expired : LeaseStatus

-- `status in {ACTIVE, CANCEL_REQUESTED}`
abbrev pub is_open : LeaseStatus → Bool
is_open active = true
is_open cancel_requested = true
is_open _ = false

abbrev pub is_active : LeaseStatus → Bool
is_active active = true
is_active _ = false

pub record WorkerLease : Type 0 where
  pub lease_id : String
  pub worker_id : String
  pub run_id : String
  pub status : LeaseStatus
  pub version : ℕ
  pub acquired_at : Stamp
  pub last_heartbeat_at : Stamp
  pub expires_at : Stamp

-- The validator `validate_times`, and the patterns of the fields.
unfoldable pub is_valid : WorkerLease → Bool
is_valid l =
    is_identifier l.lease_id
    && is_identifier l.worker_id
    && is_identifier l.run_id
    && leb 1 l.version
    && leb l.acquired_at.instant l.last_heartbeat_at.instant
    && ltb l.last_heartbeat_at.instant l.expires_at.instant

-- `WorkerLease.is_live`
unfoldable pub is_live : WorkerLease → Stamp → Bool
is_live l when = is_open l.status && ltb when.instant l.expires_at.instant

pub data LeaseError : Type 0 where
  naive_time bad_duration invalid_lease already_live missing changed : LeaseError
  invalid_persistence not_active past_expiry not_open integrity not_contiguous : LeaseError

-- `_when`: the given time, or the clock's.
unfoldable pub when_of : Option Datetime → Stamp → Result LeaseError Stamp
when_of none clock = ok clock
when_of (some (aware t)) clock = ok t
when_of (some (naive t)) clock = err naive_time
