-- ===== src/Budgets/Tests.antt =====
-- The budget theorems at concrete reservations.
use job_slayer.Base.{
  ℕ, ◌≡◌, refl, false, List, [], ◌∷◌, some, Result, ok, err, ◌≤◌, ◌*◌, is_identifier,
}
use job_slayer.Time.{aware}
use job_slayer.Budgets.{
  pos, ExecutionBudget, BudgetSnapshot, BudgetError, is_valid_budget, is_valid_snapshot,
}
use job_slayer.Budgets.Store.{
  BudgetDb, CallTime, find, row_count, replace, has_event, decode, append_event, update, load,
  is_taken, new_snapshot, reserve, attempt_denial, attempted, attempt_transaction,
  authorize_attempt,
}
use job_slayer.Budgets.Charge.{with_totals, charge_denial, charged, charge_transaction, charge}
use job_slayer.Budgets.Steps.{Call, attempting, charging, releasing, step}
use job_slayer.Budgets.Runs.{granted, accepted, cost}
use job_slayer.Budgets.Reserved.{reserve-granted, reserve-accepted, step-one_winner}
use job_slayer.Budgets.Closed.{Operation, reserving, stepping, operate, run, run-closed}

abbrev calling : ℕ → CallTime
calling n = record {
  now = some (aware (record { instant = n * 1000000; offset = 0 }));
  clock = record { instant = 0; offset = 0 };
}

abbrev small : ExecutionBudget
small = record {
  budget_id = "budget-1";
  task_id = "task-1";
  run_id = "run-1";
  maximum_input_tokens = 1000;
  maximum_output_tokens = 500;
  maximum_cost_microusd = 40;
  maximum_duration_ms = 60000;
  maximum_attempts = 2;
  maximum_repairs = 1;
}

abbrev no_budgets : BudgetDb
no_budgets = record { reservations = []; events = [] }

abbrev of_answer : Result BudgetError (BudgetSnapshot × BudgetDb) → BudgetSnapshot × BudgetDb
of_answer (ok p) = p
of_answer (err e) = (new_snapshot "none" small (record { instant = 0; offset = 0 }), no_budgets)

abbrev opened : BudgetSnapshot × BudgetDb
unfolding reserve is_valid_snapshot is_valid_budget is_identifier is_taken has_event append_event
opened = of_answer (reserve no_budgets "reservation-1" small (calling 10))

was_reserved : reserve no_budgets "reservation-1" small (calling 10) ≡ ok (opened.0, opened.1)
unfolding reserve is_valid_snapshot is_valid_budget is_identifier is_taken has_event append_event
was_reserved = refl

abbrev attempt : ℕ → Call
attempt version = attempting "reservation-1" version false (calling 20)

abbrev spend : ℕ → ℕ → Call
spend version amount =
    charging "reservation-1" version
      (record {
        input_tokens = pos 1;
        output_tokens = pos 0;
        cost_microusd = pos amount;
        duration_ms = pos 5;
      })
      (calling 30)

abbrev calls : List Call
calls = attempt 1 ∷ spend 2 30 ∷ attempt 3 ∷ spend 4 30 ∷ attempt 5 ∷ []

reserve-granted_example : granted "reservation-1" opened.1 calls ≤ 2
reserve-granted_example =
    reserve-granted no_budgets opened.1 "reservation-1" small (calling 10) opened.0 was_reserved
      calls

reserve-accepted_example : accepted cost "reservation-1" opened.1 calls ≤ 40
reserve-accepted_example =
    reserve-accepted no_budgets opened.1 "reservation-1" small (calling 10) opened.0 was_reserved
      calls cost

-- Two attempts and one charge are granted; the second charge exceeds the cost.
two_granted : granted "reservation-1" opened.1 calls ≡ 2
unfolding opened step authorize_attempt attempt_transaction charge charge_transaction load update
    find decode replace row_count has_event append_event attempted attempt_denial charged
    with_totals charge_denial is_valid_snapshot is_valid_budget is_identifier
two_granted = refl

abbrev after_overage : BudgetDb
unfolding opened operate step authorize_attempt attempt_transaction charge charge_transaction load
    update find decode replace row_count has_event append_event attempted attempt_denial charged
    with_totals charge_denial is_valid_snapshot is_valid_budget is_identifier
after_overage = run opened.1 (stepping (spend 1 41) ∷ [])

abbrev first_row : List BudgetSnapshot → BudgetSnapshot
first_row [] = opened.0
first_row (s ∷ ss) = s

abbrev overspent : BudgetSnapshot
unfolding after_overage
overspent = first_row after_overage.reservations

overspent-found : find "reservation-1" after_overage.reservations ≡ some overspent
unfolding find after_overage overspent
overspent-found = refl

-- Another budget for the same run, an attempt, and a release.
abbrev late_operations : List Operation
late_operations =
    reserving "reservation-2" (record small { budget_id = "budget-2" }) (calling 35)
    ∷ stepping (attempt 2)
    ∷ stepping (releasing "reservation-1" 2 (calling 40))
    ∷ []

run-closed_example :
    find "reservation-1" (run after_overage late_operations).reservations ≡ some overspent
unfolding overspent
run-closed_example =
    run-closed late_operations after_overage "reservation-1" overspent overspent-found refl

abbrev started : Result BudgetError BudgetSnapshot × BudgetDb
unfolding opened step authorize_attempt attempt_transaction load update find decode replace
    row_count has_event append_event attempted attempt_denial is_valid_snapshot is_valid_budget
    is_identifier
started = step opened.1 (attempt 1)

abbrev started_row : BudgetSnapshot
unfolding started
started_row = first_row started.1.reservations

was_started : step opened.1 (attempt 1) ≡ (ok started_row, started.1)
unfolding opened started started_row step authorize_attempt attempt_transaction load update find
    decode replace row_count has_event append_event attempted attempt_denial is_valid_snapshot
    is_valid_budget is_identifier
was_started = refl

step-one_winner_example : (e : BudgetError) × (step started.1 (spend 1 5) ≡ (err e, started.1))
step-one_winner_example =
    step-one_winner opened.1 started.1 (attempt 1) (spend 1 5) started_row was_started refl refl
