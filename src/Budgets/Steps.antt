-- ===== src/Budgets/Steps.antt =====
-- The calls that change a reservation, and what one of them commits.
use job_slayer.Base.{
  ℕ, String, ◌≡◌, refl, sym, ◌∙◌, subst, Bool, true, false, not, ◌&&◌, List, [], ◌∷◌, Option, none,
  some, ◌==◌, if◌then◌else◌, str_eq, eq_iff, arith, Result, ok, require, >>=-eq-ok, ok-injective,
  Bool-cases, inl, inr,
}
use job_slayer.Time.{Stamp}
use job_slayer.Budgets.{
  BudgetSnapshot, is_active, Denial, BudgetError, negative_delta, is_valid_snapshot,
}
use job_slayer.Budgets.Store.{
  EventType, BudgetDb, CallTime, when_of, find, replace, decode, update, loaded, load,
  require_active, attempt_denial, attempted, attempt_event, Committed, settle, attempt_transaction,
  authorize_attempt, budget_released,
}
use job_slayer.Budgets.Charge.{
  Deltas, has_negative, with_totals, charge_denial, charged, charge_event, charge_transaction,
  charge, closed, release_transaction, release,
}

pub data Call : Type 0 where
  attempting : String → ℕ → Bool → CallTime → Call
  charging : String → ℕ → Deltas → CallTime → Call
  releasing : String → ℕ → CallTime → Call

abbrev pub target : Call → String
target (attempting id expected repair time) = id
target (charging id expected deltas time) = id
target (releasing id expected time) = id

abbrev pub expected_version : Call → ℕ
expected_version (attempting id expected repair time) = expected
expected_version (charging id expected deltas time) = expected
expected_version (releasing id expected time) = expected

unfoldable pub step : BudgetDb → Call → Result BudgetError BudgetSnapshot × BudgetDb
step db (attempting id expected repair time) = authorize_attempt db id expected repair time
step db (charging id expected deltas time) = charge db id expected deltas time
step db (releasing id expected time) = release db id expected time

abbrev pub transaction : BudgetDb → Call → Result BudgetError Committed
transaction db (attempting id expected repair time) = attempt_transaction db id expected repair time
transaction db (charging id expected deltas time) = charge_transaction db id expected deltas time
transaction db (releasing id expected time) = release_transaction db id expected time

pub step-settle : (db : BudgetDb) (call : Call) → step db call ≡ settle db (transaction db call)
unfolding step authorize_attempt charge release
step-settle db (attempting id expected repair time) = refl
step-settle db (charging id expected deltas time) = refl
step-settle db (releasing id expected time) = refl

-- The row that a call writes, from the row that it read.
abbrev pub Writes : Call → BudgetSnapshot → Option Denial → BudgetSnapshot → Type 0
Writes (attempting id expected repair time) current denial new =
    (when : Stamp) × (denial ≡ attempt_denial current repair)
    × (new ≡ attempted current repair when)
Writes (charging id expected deltas time) current denial new =
    (when : Stamp) × (denial ≡ charge_denial (with_totals current deltas))
    × (new ≡ charged current deltas when)
Writes (releasing id expected time) current denial new =
    (when : Stamp) × (denial ≡ none) × (new ≡ closed current when)

-- A committed transaction found an active row at the expected version, and put the new row in
-- its place.
pub record Commits (db : BudgetDb) (call : Call) (c : Committed) : Type 0 where
  pub current : BudgetSnapshot
  pub found : find (target call) db.reservations ≡ some current
  pub at_version : current.version ≡ expected_version call
  pub was_active : is_active current.status ≡ true
  pub writes : Writes call current c.0 c.1
  pub after :
      (i : String)
      → find i c.2.reservations
        ≡ (if str_eq (target call) i then some c.1 else find i db.reservations)

abbrev replaced : BudgetSnapshot → ℕ → String → Option BudgetSnapshot → Option BudgetSnapshot
replaced new v i none = none
replaced new v i (some s) =
    if str_eq new.reservation_id i && s.version == v then some new else some s

find-replace :
    (i : String) (new : BudgetSnapshot) (v : ℕ) (ss : List BudgetSnapshot)
    → find i (replace new v ss) ≡ replaced new v i (find i ss)
unfolding find replace
find-replace i new v [] = refl
find-replace i new v (s ∷ ss) = ground (
  arith,
  find-replace i new v ss,
  eq_iff s.reservation_id new.reservation_id,
  eq_iff s.reservation_id i,
  eq_iff new.reservation_id i,
)

find-id :
    (id : String) (ss : List BudgetSnapshot) (s : BudgetSnapshot)
    → find id ss ≡ some s
    → s.reservation_id ≡ id
unfolding find
find-id id [] s h = cc
find-id id (x ∷ ss) s h = ground (arith, find-id id ss s, eq_iff x.reservation_id id)

update-rows :
    (db db' : BudgetDb) (new : BudgetSnapshot) (v : ℕ) (kind : EventType)
    → update db new v kind ≡ ok db'
    → db'.reservations ≡ replace new v db.reservations
unfolding update
update-rows db db' new v kind h = ground arith

replaced_other :
    (new : BudgetSnapshot) (v : ℕ) (i : String) (o : Option BudgetSnapshot)
    → str_eq new.reservation_id i ≡ false
    → replaced new v i o ≡ (if str_eq new.reservation_id i then some new else o)
replaced_other new v i none h = ground arith
replaced_other new v i (some s) h = ground arith

find-update :
    (db db' : BudgetDb) (current new : BudgetSnapshot) (id : String) (v : ℕ) (kind : EventType)
    → update db new v kind ≡ ok db'
    → find id db.reservations ≡ some current
    → current.version ≡ v
    → new.reservation_id ≡ current.reservation_id
    → (i : String)
    → find i db'.reservations ≡ (if str_eq id i then some new else find i db.reservations)
find-update db db' current new id v kind up found version same i =
    let named : new.reservation_id ≡ id = same ∙ find-id id db.reservations current found in
    subst (λ k. find i db'.reservations ≡ (if str_eq k i then some new else find i db.reservations))
      named
      (rw (update-rows db db' new v kind up, find-replace i new v db.reservations)
        (elim (Bool-cases (str_eq new.reservation_id i)) [
          | inl here ↦
              let row : find i db.reservations ≡ some current =
                subst (λ k. find k db.reservations ≡ some current)
                  (sym named ∙ (eq_iff new.reservation_id i).0 here) found in
              rw (row, here) (ground arith)
          | inr other ↦ replaced_other new v i (find i db.reservations) other
        ]))

pub loaded-ok :
    (o : Option BudgetSnapshot) (v : ℕ) (s : BudgetSnapshot)
    → loaded o v ≡ ok s
    → (o ≡ some s) × (s.version ≡ v) × (is_valid_snapshot s ≡ true)
unfolding decode
loaded-ok none v s h = cc
loaded-ok (some row) v s h = (ground arith, ground arith, ground arith)

load-ok :
    (db : BudgetDb) (id : String) (v : ℕ) (s : BudgetSnapshot)
    → load db id v ≡ ok s
    → (find id db.reservations ≡ some s) × (s.version ≡ v)
unfolding load
load-ok db id v s h = let l = loaded-ok (find id db.reservations) v s h in (l.0, l.1)

committed :
    (db : BudgetDb) (call : Call) (current : BudgetSnapshot) (denial : Option Denial)
    (new : BudgetSnapshot) (kind : EventType) (c : Committed) (db' : BudgetDb)
    → load db (target call) (expected_version call) ≡ ok current
    → is_active current.status ≡ true
    → update db new (expected_version call) kind ≡ ok db'
    → new.reservation_id ≡ current.reservation_id
    → Writes call current denial new
    → ◌≡◌ {A = Result BudgetError Committed} (ok (denial, new, db')) (ok c)
    → Commits db call c
committed db call current denial new kind c db' load was up same writes h =
    let (found, version) = load-ok db (target call) (expected_version call) current load in
    subst (λ (p : Committed). Commits db call p) (ok-injective h)
      (record {
        current = current;
        found = found;
        at_version = version;
        was_active = was;
        writes = writes;
        after =
            find-update db db' current new (target call) (expected_version call) kind up found
              version same;
      })

require_active-ok :
    (s : BudgetSnapshot) (u : Unit {0}) → require_active s ≡ ok u → is_active s.status ≡ true
require_active-ok s u h = ground arith

pub transaction-Commits :
    (db : BudgetDb) (call : Call) (c : Committed) → transaction db call ≡ ok c → Commits db call c
unfolding attempt_transaction charge_transaction release_transaction attempted charged with_totals
transaction-Commits db (attempting id expected repair time) c h =
    let (when, timed, h₁) = >>=-eq-ok (when_of time) _ h in
    let (current, load, h₂) = >>=-eq-ok (load db id expected) _ h₁ in
    let (u, was, h₃) = >>=-eq-ok (require_active current) _ h₂ in
    let new = attempted current repair when in
    let denial = attempt_denial current repair in
    let (db', up, h₄) = >>=-eq-ok (update db new expected (attempt_event denial repair)) _ h₃ in
    committed db (attempting id expected repair time) current denial new
      (attempt_event denial repair) c db' load (require_active-ok current u was) up refl
      (when, refl, refl) h₄
transaction-Commits db (charging id expected deltas time) c h =
    let (_, positive, h₀) = >>=-eq-ok (require (not (has_negative deltas)) negative_delta) _ h in
    let (when, timed, h₁) = >>=-eq-ok (when_of time) _ h₀ in
    let (current, load, h₂) = >>=-eq-ok (load db id expected) _ h₁ in
    let (u, was, h₃) = >>=-eq-ok (require_active current) _ h₂ in
    let new = charged current deltas when in
    let denial = charge_denial (with_totals current deltas) in
    let (db', up, h₄) = >>=-eq-ok (update db new expected (charge_event denial)) _ h₃ in
    committed db (charging id expected deltas time) current denial new (charge_event denial) c db'
      load (require_active-ok current u was) up refl (when, refl, refl) h₄
transaction-Commits db (releasing id expected time) c h =
    let (when, timed, h₁) = >>=-eq-ok (when_of time) _ h in
    let (current, load, h₂) = >>=-eq-ok (load db id expected) _ h₁ in
    let (u, was, h₃) = >>=-eq-ok (require_active current) _ h₂ in
    let new = closed current when in
    let (db', up, h₄) = >>=-eq-ok (update db new expected budget_released) _ h₃ in
    committed db (releasing id expected time) current none new budget_released c db' load
      (require_active-ok current u was) up refl (when, refl, refl) h₄
