-- ===== src/Workflow/Journal/Port.antt =====
-- The protocol `AuditJournal` of workflow/journal.py, as the kernel uses it: a state, an
-- environment for what the operating system decides (the clock, failures of the disk), and laws.
use job_slayer.Base.{String, ◌≡◌, false, List, [], ◌∷◌, ◌++◌, str_eq, Result, ok, err, ◌⊎◌}
use job_slayer.Workflow.Journal.{Draft, TransitionRecord, AuditError}

pub record AuditJournal (S Env : Type 0) : Type 0 where
  pub records_for : S → String → Result AuditError (List TransitionRecord)
  pub append_transition : Env → S → Draft → Result AuditError TransitionRecord × S
  -- A returned record is the caller's draft, and is now the last of its task's history.
  pub append_binds :
      (env : Env) (s : S) (d : Draft) (r : TransitionRecord)
      → (append_transition env s d).0 ≡ ok r
      → r.draft ≡ d
  pub append_extends :
      (env : Env) (s : S) (d : Draft) (r : TransitionRecord) (rs : List TransitionRecord)
      → (append_transition env s d).0 ≡ ok r
      → records_for s d.task_id ≡ ok rs
      → records_for (append_transition env s d).1 d.task_id ≡ ok (rs ++ r ∷ [])
  -- An append that raises has published the whole record of the draft, or nothing.
  pub append_fails :
      (env : Env) (s : S) (d : Draft) (e : AuditError) (rs : List TransitionRecord)
      → (append_transition env s d).0 ≡ err e
      → records_for s d.task_id ≡ ok rs
      → (records_for (append_transition env s d).1 d.task_id ≡ ok rs)
        ⊎ ((r : TransitionRecord) × (r.draft ≡ d)
            × (records_for (append_transition env s d).1 d.task_id ≡ ok (rs ++ r ∷ [])))
  -- No append, failing or not, touches the history of another task.
  pub append_others :
      (env : Env) (s : S) (d : Draft) (other : String) (rs : List TransitionRecord)
      → str_eq d.task_id other ≡ false
      → records_for s other ≡ ok rs
      → records_for (append_transition env s d).1 other ≡ ok rs
