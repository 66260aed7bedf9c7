-- ===== src/Budgets/Runs.antt =====
-- Sequences of calls on the reservations: what is granted of a budget in the end.
use job_slayer.Base.{
  ℕ, ◌+◌, ◌-◌, ◌≤◌, String, ◌≡◌, refl, ap, ◌∙◌, subst, true, false, List, [], ◌∷◌, Option, none,
  some, if◌then◌else◌, str_eq, eq_iff, arith, Result, ok, err, Bool-cases, inl, inr, ◌⊎◌,
  Result-cases,
}
use job_slayer.Budgets.{BudgetSnapshot, ExecutionBudget, is_active, Denial, BudgetError, amount}
use job_slayer.Budgets.Store.{BudgetDb, find, attempt_denial, attempted, Committed, verdict, settle}
use job_slayer.Budgets.Charge.{Deltas, with_totals, charge_denial, charged}
use job_slayer.Budgets.Steps.{
  Call, attempting, charging, releasing, target, step, transaction, step-settle, Writes, Commits,
  transaction-Commits,
}

-- A step leaves the database as it was and raises, or commits.
pub step-cases :
    (db : BudgetDb) (call : Call)
    → ((e : BudgetError) × (step db call ≡ (err e, db)))
      ⊎ ((c : Committed) × Commits db call c × (step db call ≡ (verdict c.0 c.1, c.2)))
step-cases db call = elim (Result-cases (transaction db call)) [
  | inl (c, done) ↦
      inr (c, transaction-Commits db call c done, step-settle db call ∙ ap (settle db) done)
  | inr (e, failed) ↦ inl (e, step-settle db call ∙ ap (settle db) failed)
]

abbrev pub grants : String → Call → Result BudgetError BudgetSnapshot → ℕ
grants id (attempting t expected repair time) (ok s) = if str_eq t id then 1 else 0
grants id (attempting t expected repair time) (err e) = 0
grants id (charging t expected deltas time) answer = 0
grants id (releasing t expected time) answer = 0

-- How many attempts the calls are granted on a reservation.
abbrev pub granted : String → BudgetDb → List Call → ℕ
granted id db [] = 0
granted id db (call ∷ calls) = grants id call (step db call).0 + granted id (step db call).1 calls

pub data Dimension : Type 0 where
  input output cost duration : Dimension

abbrev pub maximum : Dimension → ExecutionBudget → ℕ
maximum input b = b.maximum_input_tokens
maximum output b = b.maximum_output_tokens
maximum cost b = b.maximum_cost_microusd
maximum duration b = b.maximum_duration_ms

abbrev pub spent : Dimension → BudgetSnapshot → ℕ
spent input s = s.spent_input_tokens
spent output s = s.spent_output_tokens
spent cost s = s.spent_cost_microusd
spent duration s = s.spent_duration_ms

abbrev pub delta : Dimension → Deltas → ℕ
delta input d = amount d.input_tokens
delta output d = amount d.output_tokens
delta cost d = amount d.cost_microusd
delta duration d = amount d.duration_ms

abbrev pub accepts : Dimension → String → Call → Result BudgetError BudgetSnapshot → ℕ
accepts dim id (charging t expected deltas time) (ok s) =
    if str_eq t id then delta dim deltas else 0
accepts dim id (charging t expected deltas time) (err e) = 0
accepts dim id (attempting t expected repair time) answer = 0
accepts dim id (releasing t expected time) answer = 0

-- How much usage the calls charge to a reservation without being refused.
abbrev pub accepted : Dimension → String → BudgetDb → List Call → ℕ
accepted dim id db [] = 0
accepted dim id db (call ∷ calls) =
    accepts dim id call (step db call).0 + accepted dim id (step db call).1 calls

-- What a row leaves of its budget.
abbrev pub attempts_left : Option BudgetSnapshot → ℕ
attempts_left none = 0
attempts_left (some s) =
    if is_active s.status then s.budget.maximum_attempts - s.attempts_started else 0

abbrev pub amount_left : Dimension → Option BudgetSnapshot → ℕ
amount_left dim none = 0
amount_left dim (some s) = if is_active s.status then maximum dim s.budget - spent dim s else 0

-- A quantity that a call takes from what a row leaves.
module _ (id : String) (taken : Call → Result BudgetError BudgetSnapshot → ℕ)
    (left : Option BudgetSnapshot → ℕ)
    (elsewhere : (call : Call) (answer : Result BudgetError BudgetSnapshot)
      → str_eq (target call) id ≡ false
      → taken call answer ≡ 0)
    (refused : (call : Call) (e : BudgetError) → taken call (err e) ≡ 0)
    (written : (call : Call) (current new : BudgetSnapshot) (denial : Option Denial)
      → Writes call current denial new
      → is_active current.status ≡ true
      → taken call (verdict denial new) + left (some new) ≤ left (some current)) where
  commit-bound :
      (db : BudgetDb) (call : Call) (c : Committed)
      → Commits db call c
      → taken call (verdict c.0 c.1) + left (find id c.2.reservations)
        ≤ left (find id db.reservations)
  commit-bound db call c commits = elim (Bool-cases (str_eq (target call) id)) [
    | inl here ↦
        let row : find id db.reservations ≡ some commits.current =
          subst (λ k. find k db.reservations ≡ some commits.current)
            ((eq_iff (target call) id).0 here) commits.found in
        rw (commits.after id, here, row)
          (written call commits.current c.1 c.0 commits.writes commits.was_active)
    | inr other ↦ rw (commits.after id, other, elsewhere call (verdict c.0 c.1) other) (omega arith)
  ]

  step-bound :
      (db : BudgetDb) (call : Call)
      → taken call (step db call).0 + left (find id (step db call).1.reservations)
        ≤ left (find id db.reservations)
  step-bound db call = elim (step-cases db call) [
    | inl (e, failed) ↦ rw (failed, refused call e) (omega arith)
    | inr (c, commits, done) ↦ rw done (commit-bound db call c commits)
  ]

attempt_written :
    (id : String) (call : Call) (current new : BudgetSnapshot) (denial : Option Denial)
    → Writes call current denial new
    → is_active current.status ≡ true
    → grants id call (verdict denial new) + attempts_left (some new) ≤ attempts_left (some current)
unfolding attempted attempt_denial charged with_totals
attempt_written id (attempting t expected repair time) current new denial (when, d, n) was =
    rw (d, n) (ground (arith, was))
attempt_written id (charging t expected deltas time) current new denial (when, d, n) was =
    rw n (ground (arith, was))
attempt_written id (releasing t expected time) current new denial (when, d, n) was =
    rw n (ground (arith, was))

grants-elsewhere :
    (id : String) (call : Call) (answer : Result BudgetError BudgetSnapshot)
    → str_eq (target call) id ≡ false
    → grants id call answer ≡ 0
grants-elsewhere id (attempting t expected repair time) (ok s) h = ground (arith, h)
grants-elsewhere id (attempting t expected repair time) (err e) h = refl
grants-elsewhere id (charging t expected deltas time) answer h = refl
grants-elsewhere id (releasing t expected time) answer h = refl

grants-err : (id : String) (call : Call) (e : BudgetError) → grants id call (err e) ≡ 0
grants-err id (attempting t expected repair time) e = refl
grants-err id (charging t expected deltas time) e = refl
grants-err id (releasing t expected time) e = refl

pub granted_bound :
    (id : String) (calls : List Call) (db : BudgetDb)
    → granted id db calls ≤ attempts_left (find id db.reservations)
granted_bound id [] db = omega arith
granted_bound id (call ∷ calls) db = omega (
  arith,
  step-bound id (grants id) attempts_left (grants-elsewhere id) (grants-err id) (attempt_written id)
      db call,
  granted_bound id calls (step db call).1,
)

delta_written :
    (dim : Dimension) (id : String) (call : Call) (current new : BudgetSnapshot)
    (denial : Option Denial)
    → Writes call current denial new
    → is_active current.status ≡ true
    → accepts dim id call (verdict denial new) + amount_left dim (some new)
      ≤ amount_left dim (some current)
unfolding attempted charged with_totals charge_denial
delta_written dim id (attempting t expected repair time) current new denial (when, d, n) was =
    rw n (elim dim [
      | input ↦ ground (arith, was)
      | output ↦ ground (arith, was)
      | cost ↦ ground (arith, was)
      | duration ↦ ground (arith, was)
    ])
delta_written dim id (charging t expected deltas time) current new denial (when, d, n) was =
    rw (d, n)
      (elim dim [
        | input ↦ ground (arith, was)
        | output ↦ ground (arith, was)
        | cost ↦ ground (arith, was)
        | duration ↦ ground (arith, was)
      ])
delta_written dim id (releasing t expected time) current new denial (when, d, n) was =
    rw n (omega arith)

accepts-elsewhere :
    (dim : Dimension) (id : String) (call : Call) (answer : Result BudgetError BudgetSnapshot)
    → str_eq (target call) id ≡ false
    → accepts dim id call answer ≡ 0
accepts-elsewhere dim id (attempting t expected repair time) answer h = refl
accepts-elsewhere dim id (charging t expected deltas time) (ok s) h = ground (arith, h)
accepts-elsewhere dim id (charging t expected deltas time) (err e) h = refl
accepts-elsewhere dim id (releasing t expected time) answer h = refl

accepts-err :
    (dim : Dimension) (id : String) (call : Call) (e : BudgetError)
    → accepts dim id call (err e) ≡ 0
accepts-err dim id (attempting t expected repair time) e = refl
accepts-err dim id (charging t expected deltas time) e = refl
accepts-err dim id (releasing t expected time) e = refl

pub accepted_bound :
    (dim : Dimension) (id : String) (calls : List Call) (db : BudgetDb)
    → accepted dim id db calls ≤ amount_left dim (find id db.reservations)
accepted_bound dim id [] db = omega arith
accepted_bound dim id (call ∷ calls) db = omega (
  arith,
  step-bound id (accepts dim id) (amount_left dim) (accepts-elsewhere dim id) (accepts-err dim id)
      (delta_written dim id) db call,
  accepted_bound dim id calls (step db call).1,
)
