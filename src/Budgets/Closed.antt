-- ===== src/Budgets/Closed.antt =====
-- A reservation that is no longer active, under every method of the store, `reserve` included.
use job_slayer.Base.{
  String, ◌≡◌, sym, ◌∙◌, subst, true, false, List, [], ◌∷◌, some, str_eq, eq_iff, arith, Result, ok,
  err, Result-cases, Bool-cases, inl, inr,
}
use job_slayer.Budgets.{BudgetSnapshot, ExecutionBudget, is_active, BudgetError}
use job_slayer.Budgets.Store.{BudgetDb, CallTime, find, reserve, is_taken}
use job_slayer.Budgets.Steps.{Call, target, step}
use job_slayer.Budgets.Runs.{step-cases}
use job_slayer.Budgets.Reserved.{reserve-Reserves}

-- A call of any method of `BudgetStore`, with the new identifier that `reserve` draws.
pub data Operation : Type 0 where
  reserving : String → ExecutionBudget → CallTime → Operation
  stepping : Call → Operation

-- The database after a reservation, which a raise leaves as it was.
abbrev pub reserved_in : BudgetDb → Result BudgetError (BudgetSnapshot × BudgetDb) → BudgetDb
reserved_in db (ok (s, db')) = db'
reserved_in db (err e) = db

unfoldable pub operate : BudgetDb → Operation → BudgetDb
operate db (reserving id budget time) = reserved_in db (reserve db id budget time)
operate db (stepping call) = (step db call).1

-- The database after a sequence of calls.
abbrev pub run : BudgetDb → List Operation → BudgetDb
run db [] = db
run db (operation ∷ operations) = run (operate db operation) operations

step_closed :
    (db : BudgetDb) (id : String) (s : BudgetSnapshot) (call : Call)
    → find id db.reservations ≡ some s
    → is_active s.status ≡ false
    → find id (step db call).1.reservations ≡ some s
step_closed db id s call found over = elim (step-cases db call) [
  | inl (e, failed) ↦ rw failed found
  | inr (c, commits, done) ↦ elim (Bool-cases (str_eq (target call) id)) [
    | inr other ↦ rw done (commits.after id ∙ rw other found)
    | inl here ↦
        let row : find id db.reservations ≡ some commits.current =
          subst (λ k. find k db.reservations ≡ some commits.current)
            ((eq_iff (target call) id).0 here) commits.found in
        let same : s ≡ commits.current = cc in
        let was = commits.was_active in
        let bad : true ≡ false = sym was ∙ subst (λ k. is_active k.status ≡ false) same over in cc
  ]
]

-- A row that can be inserted has another identifier than the rows of the table.
not_taken-other :
    (id : String) (new s : BudgetSnapshot) (ss : List BudgetSnapshot)
    → is_taken new ss ≡ false
    → find id ss ≡ some s
    → str_eq new.reservation_id id ≡ false
unfolding is_taken find
not_taken-other id new s [] free found = absurd (cc)
not_taken-other id new s (x ∷ ss) free found = ground (
  arith,
  not_taken-other id new s ss,
  eq_iff x.reservation_id new.reservation_id,
  eq_iff x.reservation_id id,
  eq_iff new.reservation_id id,
)

reserve-find_other :
    (db : BudgetDb) (new_id id : String) (budget : ExecutionBudget) (time : CallTime)
    (s : BudgetSnapshot)
    → find id db.reservations ≡ some s
    → find id (reserved_in db (reserve db new_id budget time)).reservations ≡ some s
unfolding find
reserve-find_other db new_id id budget time s found =
    elim (Result-cases (reserve db new_id budget time)) [
      | inr (e, failed) ↦ rw failed found
      | inl ((new, db'), done) ↦
          let r = reserve-Reserves db db' new_id budget time new done in
          let other = not_taken-other id new s db.reservations r.was_free found in
          rw (done, r.rows, other) found
    ]

-- An exhausted or released reservation never changes again, whatever methods of the store are
-- called, on this and on other reservations, new ones included.
pub run-closed :
    (operations : List Operation) (db : BudgetDb) (id : String) (s : BudgetSnapshot)
    → find id db.reservations ≡ some s
    → is_active s.status ≡ false
    → find id (run db operations).reservations ≡ some s
unfolding operate
run-closed [] db id s found over = found
run-closed (reserving new_id budget time ∷ operations) db id s found over =
    run-closed operations (operate db (reserving new_id budget time)) id s
      (reserve-find_other db new_id id budget time s found) over
run-closed (stepping call ∷ operations) db id s found over =
    run-closed operations (step db call).1 id s (step_closed db id s call found over) over
