-- ===== src/Budgets/Charge.antt =====
-- `charge`, `release`, `get` and `events` of `SqliteBudgetStore`.
use job_slayer.Base.{
  ℕ, suc, ◌+◌, String, Bool, true, not, ◌&&◌, ◌||◌, List, [], ◌∷◌, Option, none, some, ltb, leb,
  ◌==◌, if◌then◌else◌, str_eq, Result, ok, require, ◌>>◌, ◌>>=◌, sort_by,
}
use job_slayer.Time.{Stamp}
use job_slayer.Budgets.{
  ℤ, is_negative, amount, active, exhausted, released, BudgetSnapshot, Denial, limits_exceeded,
  BudgetError, negative_delta, not_contiguous,
}
use job_slayer.Budgets.Store.{
  EventType, limit_exceeded, usage_charged, budget_released, BudgetEvent, BudgetDb, CallTime,
  when_of, find, decode, load, update, require_active, Committed, settle,
}

pub record Deltas : Type 0 where
  pub input_tokens : ℤ
  pub output_tokens : ℤ
  pub cost_microusd : ℤ
  pub duration_ms : ℤ

abbrev pub has_negative : Deltas → Bool
has_negative d =
    is_negative d.input_tokens
    || is_negative d.output_tokens
    || is_negative d.cost_microusd
    || is_negative d.duration_ms

-- `totals`
unfoldable pub with_totals : BudgetSnapshot → Deltas → BudgetSnapshot
with_totals s d = record s {
  spent_input_tokens = s.spent_input_tokens + amount d.input_tokens;
  spent_output_tokens = s.spent_output_tokens + amount d.output_tokens;
  spent_cost_microusd = s.spent_cost_microusd + amount d.cost_microusd;
  spent_duration_ms = s.spent_duration_ms + amount d.duration_ms;
}

-- `limits` and `exceeded`, of the snapshot with the totals.
unfoldable pub charge_denial : BudgetSnapshot → Option Denial
charge_denial s =
    let input = ltb s.budget.maximum_input_tokens s.spent_input_tokens in
    let output = ltb s.budget.maximum_output_tokens s.spent_output_tokens in
    let cost = ltb s.budget.maximum_cost_microusd s.spent_cost_microusd in
    let duration = ltb s.budget.maximum_duration_ms s.spent_duration_ms in
    if input || output || cost || duration
    then some (limits_exceeded input output cost duration)
    else none

unfoldable pub charged : BudgetSnapshot → Deltas → Stamp → BudgetSnapshot
unfolding with_totals charge_denial
charged current deltas when =
    let totals = with_totals current deltas in
    record totals {
      version = current.version + 1;
      status = elim (charge_denial totals) [ some d ↦ exhausted | none ↦ active ];
      updated_at = when;
    }

abbrev pub charge_event : Option Denial → EventType
charge_event (some d) = limit_exceeded
charge_event none = usage_charged

unfoldable pub charge_transaction :
    BudgetDb → String → ℕ → Deltas → CallTime → Result BudgetError Committed
unfolding load update charged
charge_transaction db id expected deltas time = do
  require (not (has_negative deltas)) negative_delta
  when ← when_of time
  current ← load db id expected
  require_active current
  let denial = charge_denial (with_totals current deltas)
  let updated = charged current deltas when
  db' ← update db updated expected (charge_event denial)
  ok (denial, updated, db')

unfoldable pub charge :
    BudgetDb → String → ℕ → Deltas → CallTime → Result BudgetError BudgetSnapshot × BudgetDb
charge db id expected deltas time = settle db (charge_transaction db id expected deltas time)

abbrev pub closed : BudgetSnapshot → Stamp → BudgetSnapshot
closed current when = record current {
  version = current.version + 1;
  status = released;
  updated_at = when;
}

unfoldable pub release_transaction : BudgetDb → String → ℕ → CallTime → Result BudgetError Committed
unfolding load update
release_transaction db id expected time = do
  when ← when_of time
  current ← load db id expected
  require_active current
  db' ← update db (closed current when) expected budget_released
  ok (none, closed current when, db')

unfoldable pub release :
    BudgetDb → String → ℕ → CallTime → Result BudgetError BudgetSnapshot × BudgetDb
release db id expected time = settle db (release_transaction db id expected time)

abbrev pub decoded : Option BudgetSnapshot → Result BudgetError (Option BudgetSnapshot)
decoded none = ok none
decoded (some row) = do s ← decode row; ok (some s)

unfoldable pub get : BudgetDb → String → Result BudgetError (Option BudgetSnapshot)
get db id = decoded (find id db.reservations)

abbrev pub events_of : String → List BudgetEvent → List BudgetSnapshot
events_of id [] = []
events_of id (e ∷ es) =
    let rest = events_of id es in
    if str_eq e.snapshot.reservation_id id then e.snapshot ∷ rest else rest

abbrev pub decode_all : List BudgetSnapshot → Result BudgetError (List BudgetSnapshot)
decode_all [] = ok []
decode_all (row ∷ rows) = do s ← decode row; ss ← decode_all rows; ok (s ∷ ss)

-- The versions are `1, 2, ..., len(snapshots)`.
abbrev pub is_numbered : ℕ → List BudgetSnapshot → Bool
is_numbered n [] = true
is_numbered n (s ∷ ss) = s.version == n && is_numbered (suc n) ss

unfoldable pub events : BudgetDb → String → Result BudgetError (List BudgetSnapshot)
events db id = do
  snapshots ← decode_all (sort_by (λ a b. leb a.version b.version) (events_of id db.events))
  require (is_numbered 1 snapshots) not_contiguous
  ok snapshots
