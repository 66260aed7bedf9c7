-- ===== src/Budgets.antt =====
-- governance/__init__.py and adapters/sqlite_budgets.py: the budget of a run, reserved before the
-- run, and what attempts and charges spend of it. A row holds its snapshot: the columns repeat
-- fields of the stored JSON.
pub mod Store
pub mod Charge
pub mod Steps
pub mod Runs
pub mod Reserved
pub mod Closed
mod Tests
use job_slayer.Base.{
  ℕ, ◌+◌, String, Bool, true, false, ◌&&◌, Option, none, some, ltb, leb, is_empty, codes,
  is_identifier, Result, ok, err, not,
}
use job_slayer.Time.{Stamp}

-- A Python integer.
pub data ℤ : Type 0 where
  pos : ℕ → ℤ
  negsuc : ℕ → ℤ

abbrev pub is_negative : ℤ → Bool
is_negative (pos n) = false
is_negative (negsuc n) = true

-- An integer that is not negative.
abbrev pub amount : ℤ → ℕ
amount (pos n) = n
amount (negsuc n) = 0

pub data BudgetStatus : Type 0 where
  active exhausted released : BudgetStatus

abbrev pub is_active : BudgetStatus → Bool
is_active active = true
is_active _ = false

pub record ExecutionBudget : Type 0 where
  pub budget_id : String
  pub task_id : String
  pub run_id : String
  pub maximum_input_tokens : ℕ
  pub maximum_output_tokens : ℕ
  pub maximum_cost_microusd : ℕ
  pub maximum_duration_ms : ℕ
  pub maximum_attempts : ℕ
  pub maximum_repairs : ℕ

-- The patterns and bounds of the fields, and `validate_attempts`.
unfoldable pub is_valid_budget : ExecutionBudget → Bool
is_valid_budget b =
    is_identifier b.budget_id
    && not (is_empty (codes b.task_id))
    && not (is_empty (codes b.run_id))
    && leb 1 b.maximum_duration_ms
    && leb 1 b.maximum_attempts
    && leb b.maximum_attempts 100
    && leb b.maximum_repairs 99
    && ltb b.maximum_repairs b.maximum_attempts

pub record BudgetSnapshot : Type 0 where
  pub reservation_id : String
  pub budget : ExecutionBudget
  pub version : ℕ
  pub status : BudgetStatus
  pub spent_input_tokens : ℕ
  pub spent_output_tokens : ℕ
  pub spent_cost_microusd : ℕ
  pub spent_duration_ms : ℕ
  pub attempts_started : ℕ
  pub repairs_started : ℕ
  pub reserved_at : Stamp
  pub updated_at : Stamp

-- The fields and the validator `validate_snapshot`.
unfoldable pub is_valid_snapshot : BudgetSnapshot → Bool
unfolding is_valid_budget
is_valid_snapshot s =
    is_identifier s.reservation_id
    && is_valid_budget s.budget
    && leb 1 s.version
    && leb s.reserved_at.instant s.updated_at.instant
    && leb s.repairs_started s.attempts_started

-- The message of a denial: why an attempt is denied, or which limits a charge exceeds.
pub data Denial : Type 0 where
  attempts_exhausted first_repair repairs_exhausted : Denial
  limits_exceeded : Bool → Bool → Bool → Bool → Denial

pub data BudgetError : Type 0 where
  naive_time negative_delta already_reserved missing changed : BudgetError
  invalid_persistence not_active integrity not_contiguous invalid_snapshot : BudgetError
  budget_exceeded : Denial → BudgetSnapshot → BudgetError
