-- ===== src/Leases/Table.antt =====
-- The two tables: `worker_leases`, and `worker_lease_events` with the newest row first.
use job_slayer.Base.{
  ℕ, ◌+◌, String, Bool, true, false, ◌&&◌, ◌||◌, List, [], ◌∷◌, Option, none, some, ◌==◌,
  if◌then◌else◌, str_eq, Result, ok, err, require, ◌>>◌, ◌>>=◌,
}
use job_slayer.Leases.{
  WorkerLease, is_open, is_valid, LeaseError, missing, changed, invalid_persistence, integrity,
}

pub data EventType : Type 0 where
  acquired heartbeat_sent cancel_recorded release_recorded expiry_recorded : EventType

pub record LeaseEvent : Type 0 where
  pub event_type : EventType
  pub lease : WorkerLease

pub record LeaseDb : Type 0 where
  pub leases : List WorkerLease
  pub events : List LeaseEvent

-- `SELECT lease_json FROM worker_leases WHERE lease_id = ?`
unfoldable pub find : String → List WorkerLease → Option WorkerLease
find id [] = none
find id (l ∷ ls) = if str_eq l.lease_id id then some l else find id ls

-- The rows that `UPDATE worker_leases ... WHERE lease_id = ? AND version = ?` reaches.
abbrev pub is_row : String → ℕ → WorkerLease → Bool
is_row id version l = str_eq l.lease_id id && l.version == version

unfoldable pub row_count : String → ℕ → List WorkerLease → ℕ
row_count id version [] = 0
row_count id version (l ∷ ls) = (if is_row id version l then 1 else 0) + row_count id version ls

unfoldable pub replace : WorkerLease → ℕ → List WorkerLease → List WorkerLease
replace new version [] = []
replace new version (l ∷ ls) =
    (if is_row new.lease_id version l then new else l) ∷ replace new version ls

unfoldable pub last_event : String → List LeaseEvent → Option WorkerLease
last_event id [] = none
last_event id (e ∷ es) = if str_eq e.lease.lease_id id then some e.lease else last_event id es

-- `UNIQUE (lease_id, version)` of the events.
unfoldable pub has_event : String → ℕ → List LeaseEvent → Bool
has_event id version [] = false
has_event id version (e ∷ es) = is_row id version e.lease || has_event id version es

-- The partial index `one_live_lease_per_run`.
unfoldable pub has_open : String → List WorkerLease → Bool
has_open run [] = false
has_open run (l ∷ ls) = (str_eq l.run_id run && is_open l.status) || has_open run ls

abbrev pub is_present : Option WorkerLease → Bool
is_present none = false
is_present (some l) = true

-- `_decode`
unfoldable pub decode : WorkerLease → Result LeaseError WorkerLease
decode l = if is_valid l then ok l else err invalid_persistence

-- `_append_event`
unfoldable pub append_event : LeaseDb → WorkerLease → EventType → Result LeaseError LeaseDb
append_event db l kind =
    if has_event l.lease_id l.version db.events
    then err integrity
    else ok (record db { events = record { event_type = kind; lease = l } ∷ db.events })

-- `_update`
unfoldable pub update : LeaseDb → WorkerLease → ℕ → EventType → Result LeaseError LeaseDb
unfolding append_event row_count replace
update db l expected kind = do
  require (row_count l.lease_id expected db.leases == 1) changed
  append_event (record db { leases = replace l expected db.leases }) l kind

-- `_load_for_update`
abbrev pub loaded : Option WorkerLease → ℕ → Result LeaseError WorkerLease
loaded none expected = err missing
loaded (some row) expected = do
  current ← decode row
  require (current.version == expected) changed
  ok current

unfoldable pub load_for_update : LeaseDb → String → ℕ → Result LeaseError WorkerLease
unfolding find decode
load_for_update db id expected = loaded (find id db.leases) expected
