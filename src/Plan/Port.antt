-- ===== src/Plan/Port.antt =====
-- The protocols `TaskPlanStore` and `PlanningAgent` of orchestration/__init__.py, as the service
-- uses them: a state, an environment for what the operating system decides, and laws.
use job_slayer.Base.{
  ℕ, suc, String, ◌≡◌, false, List, [], ◌∷◌, ◌++◌, Option, str_eq, Result, ok, err, ◌⊎◌,
}
use job_slayer.Plan.{TaskPlanNode, TaskPlanEdge}
use job_slayer.Plan.Snapshot.{TaskPlanMessage, TaskPlanProposalDraft}
use job_slayer.Plan.Record.{Entry, TaskPlanRevisionRecord, JournalError}

-- Record `n`, `n + 1`, ... of one plan.
abbrev pub IsNumbered : String → ℕ → List TaskPlanRevisionRecord → Type 0
IsNumbered plan_id n [] = Unit {0}
IsNumbered plan_id n (r ∷ rs) =
    (r.sequence ≡ n)
    × (r.snapshot.revision ≡ n)
    × (r.snapshot.plan_id ≡ plan_id)
    × IsNumbered plan_id (suc n) rs

pub record TaskPlanStore (S Env : Type 0) : Type 0 where
  pub list_plan_ids : S → Result JournalError (List String)
  pub history : S → String → Result JournalError (List TaskPlanRevisionRecord)
  pub append : Env → S → Entry → Result JournalError TaskPlanRevisionRecord × S
  -- One complete history.
  pub history_numbered :
      (s : S) (plan_id : String) (rs : List TaskPlanRevisionRecord)
      → history s plan_id ≡ ok rs
      → IsNumbered plan_id 1 rs
  -- A returned record is the caller's entry, and is now the last of its plan's history.
  pub append_binds :
      (env : Env) (s : S) (e : Entry) (r : TaskPlanRevisionRecord)
      → (append env s e).0 ≡ ok r
      → r.entry ≡ e
  pub append_extends :
      (env : Env) (s : S) (e : Entry) (r : TaskPlanRevisionRecord)
      (rs : List TaskPlanRevisionRecord)
      → (append env s e).0 ≡ ok r
      → history s e.snapshot.plan_id ≡ ok rs
      → history (append env s e).1 e.snapshot.plan_id ≡ ok (rs ++ r ∷ [])
  -- An append that raises has published the whole record of the entry, or nothing.
  pub append_fails :
      (env : Env) (s : S) (e : Entry) (f : JournalError) (rs : List TaskPlanRevisionRecord)
      → (append env s e).0 ≡ err f
      → history s e.snapshot.plan_id ≡ ok rs
      → (history (append env s e).1 e.snapshot.plan_id ≡ ok rs)
        ⊎ ((r : TaskPlanRevisionRecord) × (r.entry ≡ e)
            × (history (append env s e).1 e.snapshot.plan_id ≡ ok (rs ++ r ∷ [])))
  -- No append touches the history of another plan.
  pub append_others :
      (env : Env) (s : S) (e : Entry) (other : String) (rs : List TaskPlanRevisionRecord)
      → str_eq e.snapshot.plan_id other ≡ false
      → history s other ≡ ok rs
      → history (append env s e).1 other ≡ ok rs

-- The arguments of `propose`.
pub record PlanningRequest : Type 0 where
  pub plan_id : String
  pub task_description : String
  pub based_on_revision : ℕ
  pub nodes : List TaskPlanNode
  pub edges : List TaskPlanEdge
  pub conversation : List TaskPlanMessage
  pub user_message : String
  pub selected_node_id : Option String

-- An agent returns untrusted graph content, or fails.
pub record PlanningAgent : Type 0 where
  pub adapter_id : String
  pub propose : PlanningRequest → Option TaskPlanProposalDraft
