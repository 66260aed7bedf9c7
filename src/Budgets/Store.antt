-- ===== src/Budgets/Store.antt =====
-- `SqliteBudgetStore`. An exception inside a transaction rolls it back; `authorize_attempt` and
-- `charge` commit first and raise a denial afterwards, so a method returns its answer and the
-- database that it leaves.
use job_slayer.Base.{
  ℕ, ◌+◌, String, Bool, false, not, ◌&&◌, ◌||◌, List, [], ◌∷◌, Option, none, some, ltb, ◌==◌,
  if◌then◌else◌, str_eq, Result, ok, err, require, ◌>>◌, ◌>>=◌,
}
use job_slayer.Time.{Stamp, Datetime, naive, aware}
use job_slayer.Budgets.{
  active, exhausted, is_active, ExecutionBudget, BudgetSnapshot, is_valid_snapshot, Denial,
  attempts_exhausted, first_repair, repairs_exhausted, BudgetError, naive_time, already_reserved,
  missing, changed, invalid_persistence, not_active, integrity, invalid_snapshot, budget_exceeded,
}

pub data EventType : Type 0 where
  reserved attempt_denied repair_started attempt_started : EventType
  limit_exceeded usage_charged budget_released : EventType

pub record BudgetEvent : Type 0 where
  pub event_type : EventType
  pub snapshot : BudgetSnapshot

pub record BudgetDb : Type 0 where
  pub reservations : List BudgetSnapshot
  pub events : List BudgetEvent

-- The time of a call: its argument `now`, and the clock.
pub record CallTime : Type 0 where
  pub now : Option Datetime
  pub clock : Stamp

-- `_when`
abbrev pub when_of : CallTime → Result BudgetError Stamp
when_of time = read time.now
  where
    read : Option Datetime → Result BudgetError Stamp
    read none = ok time.clock
    read (some (aware t)) = ok t
    read (some (naive t)) = err naive_time

unfoldable pub find : String → List BudgetSnapshot → Option BudgetSnapshot
find id [] = none
find id (s ∷ ss) = if str_eq s.reservation_id id then some s else find id ss

-- The rows that `WHERE reservation_id = ? AND version = ?` reaches.
abbrev pub is_row : String → ℕ → BudgetSnapshot → Bool
is_row id version s = str_eq s.reservation_id id && s.version == version

unfoldable pub row_count : String → ℕ → List BudgetSnapshot → ℕ
row_count id version [] = 0
row_count id version (s ∷ ss) = (if is_row id version s then 1 else 0) + row_count id version ss

unfoldable pub replace : BudgetSnapshot → ℕ → List BudgetSnapshot → List BudgetSnapshot
replace new version [] = []
replace new version (s ∷ ss) =
    (if is_row new.reservation_id version s then new else s) ∷ replace new version ss

unfoldable pub has_event : String → ℕ → List BudgetEvent → Bool
has_event id version [] = false
has_event id version (e ∷ es) = is_row id version e.snapshot || has_event id version es

-- `_decode`
unfoldable pub decode : BudgetSnapshot → Result BudgetError BudgetSnapshot
decode s = if is_valid_snapshot s then ok s else err invalid_persistence

-- `_append_event`, with `UNIQUE (reservation_id, version)`
unfoldable pub append_event : BudgetDb → BudgetSnapshot → EventType → Result BudgetError BudgetDb
append_event db s kind =
    if has_event s.reservation_id s.version db.events
    then err integrity
    else ok (record db { events = record { event_type = kind; snapshot = s } ∷ db.events })

-- `_update`
unfoldable pub update : BudgetDb → BudgetSnapshot → ℕ → EventType → Result BudgetError BudgetDb
unfolding append_event
update db s expected kind = do
  require (row_count s.reservation_id expected db.reservations == 1) changed
  append_event (record db { reservations = replace s expected db.reservations }) s kind

-- `_load`
abbrev pub loaded : Option BudgetSnapshot → ℕ → Result BudgetError BudgetSnapshot
loaded none expected = err missing
loaded (some row) expected = do s ← decode row; require (s.version == expected) changed; ok s

unfoldable pub load : BudgetDb → String → ℕ → Result BudgetError BudgetSnapshot
load db id expected = loaded (find id db.reservations) expected

-- `_require_active`
abbrev pub require_active : BudgetSnapshot → Result BudgetError (Unit {0})
require_active s = require (is_active s.status) not_active

-- `PRIMARY KEY` and `UNIQUE` of the table.
unfoldable pub is_taken : BudgetSnapshot → List BudgetSnapshot → Bool
is_taken new [] = false
is_taken new (s ∷ ss) =
    str_eq s.reservation_id new.reservation_id
    || str_eq s.budget.budget_id new.budget.budget_id
    || str_eq s.budget.run_id new.budget.run_id
    || is_taken new ss

abbrev pub new_snapshot : String → ExecutionBudget → Stamp → BudgetSnapshot
new_snapshot id budget when = record {
  reservation_id = id;
  budget = budget;
  version = 1;
  status = active;
  spent_input_tokens = 0;
  spent_output_tokens = 0;
  spent_cost_microusd = 0;
  spent_duration_ms = 0;
  attempts_started = 0;
  repairs_started = 0;
  reserved_at = when;
  updated_at = when;
}

-- `id` is the new identifier that `uuid4` gives.
unfoldable pub reserve :
    BudgetDb → String → ExecutionBudget → CallTime → Result BudgetError (BudgetSnapshot × BudgetDb)
unfolding append_event
reserve db id budget time = do
  when ← when_of time
  let snapshot = new_snapshot id budget when
  require (is_valid_snapshot snapshot) invalid_snapshot
  require (not (is_taken snapshot db.reservations || has_event id 1 db.events)) already_reserved
  db' ← append_event (record db { reservations = snapshot ∷ db.reservations }) snapshot reserved
  ok (snapshot, db')

-- The first test of `authorize_attempt` that denies the attempt.
unfoldable pub attempt_denial : BudgetSnapshot → Bool → Option Denial
attempt_denial current repair =
    if ltb current.budget.maximum_attempts (current.attempts_started + 1)
    then some attempts_exhausted
    else if repair && current.attempts_started == 0
    then some first_repair
    else if repair && ltb current.budget.maximum_repairs (current.repairs_started + 1)
    then some repairs_exhausted
    else none

unfoldable pub attempted : BudgetSnapshot → Bool → Stamp → BudgetSnapshot
unfolding attempt_denial
attempted current repair when = record current {
  version = current.version + 1;
  status = elim (attempt_denial current repair) [ some d ↦ exhausted | none ↦ active ];
  attempts_started = current.attempts_started + 1;
  repairs_started = current.repairs_started + (if repair then 1 else 0);
  updated_at = when;
}

abbrev pub attempt_event : Option Denial → Bool → EventType
attempt_event (some d) repair = attempt_denied
attempt_event none repair = if repair then repair_started else attempt_started

-- What a transaction has committed: the denial, the snapshot and the database.
abbrev pub Committed : Type 0
Committed = Option Denial × BudgetSnapshot × BudgetDb

abbrev pub verdict : Option Denial → BudgetSnapshot → Result BudgetError BudgetSnapshot
verdict none s = ok s
verdict (some d) s = err (budget_exceeded d s)

abbrev pub settle :
    BudgetDb → Result BudgetError Committed → Result BudgetError BudgetSnapshot × BudgetDb
settle db (err e) = (err e, db)
settle db (ok (denial, s, db')) = (verdict denial s, db')

unfoldable pub attempt_transaction :
    BudgetDb → String → ℕ → Bool → CallTime → Result BudgetError Committed
unfolding load update attempted
attempt_transaction db id expected repair time = do
  when ← when_of time
  current ← load db id expected
  require_active current
  let updated = attempted current repair when
  let denial = attempt_denial current repair
  db' ← update db updated expected (attempt_event denial repair)
  ok (denial, updated, db')

unfoldable pub authorize_attempt :
    BudgetDb → String → ℕ → Bool → CallTime → Result BudgetError BudgetSnapshot × BudgetDb
authorize_attempt db id expected repair time =
    settle db (attempt_transaction db id expected repair time)
