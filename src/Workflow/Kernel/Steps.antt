-- ===== src/Workflow/Kernel/Steps.antt =====
-- One command of the kernel over any audit journal: what it records, and what it leaves alone.
use job_slayer.Base.{
  String, ◌≡◌, refl, sym, ap, subst, ◌∙◌, true, false, List, [], ◌∷◌, ◌++◌, arith, Result, ok, err,
  get_last?-snoc, str_eq,
}
use job_slayer.Workflow.State.{TaskState, is_among, terminal_states}
use job_slayer.Workflow.Journal.{Draft, TransitionRecord, AuditError, last_state}
use job_slayer.Workflow.Journal.Port.{AuditJournal}
use job_slayer.Workflow.Kernel.{
  Command, KernelError, illegal_transition, check, draft_of, current_state, transition,
  append_checked, transition_from,
}
use job_slayer.Workflow.Kernel.Check.{IsJustified, check-IsJustified}

last_state-snoc :
    (rs : List TransitionRecord) (r : TransitionRecord) → last_state (rs ++ r ∷ []) ≡ r.to_state
last_state-snoc rs r = rw (get_last?-snoc rs r, last_state)

-- A command in a terminal state is refused, whoever gives it and whatever its evidence.
check_terminal :
    (c : Command) (from : TaskState)
    → is_among from terminal_states ≡ true
    → check c from ≡ err illegal_transition
unfolding check
check_terminal c TaskState.completed h = refl
check_terminal c TaskState.cancelled h = refl
check_terminal c TaskState.gate_approved h = refl
check_terminal c TaskState.deliverable_accepted h = refl
check_terminal c _ h = cc

-- The record of an accepted command: it carries the command's target and actor, it starts from the
-- present state, and its evidence justifies it.
pub record IsRecordOf (c : Command) (from : TaskState) (r : TransitionRecord) : Type 0 where
  pub task : r.task_id ≡ c.task_id
  pub source : r.from_state ≡ from
  pub target : r.to_state ≡ c.to_state
  pub actor : r.actor_type ≡ c.actor_type
  pub justified : IsJustified c from r.evidence_ids

module _ {S Env : Type 0} (journal : AuditJournal S Env) where
  open journal use {records_for, append_transition, append_binds, append_extends, append_others}

  pub transition-eq :
      (env : Env) (s : S) (c : Command) (rs : List TransitionRecord)
      → records_for s c.task_id ≡ ok rs
      → transition journal env s c
        ≡ append_checked journal env s c (last_state rs) (check c (last_state rs))
  unfolding transition
  transition-eq env s c rs h = rw h

  checked-ok :
      (env : Env) (s : S) (c : Command) (rs : List TransitionRecord)
      (checked : Result KernelError (List String)) (r : TransitionRecord)
      → check c (last_state rs) ≡ checked
      → records_for s c.task_id ≡ ok rs
      → (append_checked journal env s c (last_state rs) checked).0 ≡ ok r
      → IsRecordOf c (last_state rs) r
        × (records_for (append_checked journal env s c (last_state rs) checked).1 c.task_id
            ≡ ok (rs ++ r ∷ []))
  checked-ok env s c rs (err e) r allowed read h = cc
  checked-ok env s c rs (ok ev) r allowed read h =
      let d : Draft = draft_of c (last_state rs) ev in
      let appended : (append_transition env s d).0 ≡ ok r = ground arith in
      let binds = append_binds env s d r appended in
      (
        record {
          task = ap (λ (p : Draft). p.task_id) binds;
          source = ap (λ (p : Draft). p.from_state) binds;
          target = ap (λ (p : Draft). p.to_state) binds;
          actor = ap (λ (p : Draft). p.actor_type) binds;
          justified =
              subst (IsJustified c (last_state rs)) (sym (ap (λ (p : Draft). p.evidence_ids) binds))
                (check-IsJustified c (last_state rs) ev allowed);
        },
        append_extends env s d r rs appended read,
      )

  -- A command that returns a record was justified in the task's present state, its record is now
  -- the last of the task's history, and the task stands in the target state.
  pub transition-IsRecordOf :
      (env : Env) (s : S) (c : Command) (rs : List TransitionRecord) (r : TransitionRecord)
      → records_for s c.task_id ≡ ok rs
      → (transition journal env s c).0 ≡ ok r
      → IsRecordOf c (last_state rs) r
        × (records_for (transition journal env s c).1 c.task_id ≡ ok (rs ++ r ∷ []))
        × (current_state journal (transition journal env s c).1 c.task_id ≡ ok c.to_state)
  unfolding current_state
  transition-IsRecordOf env s c rs r read h =
      let same = transition-eq env s c rs read in
      let (recorded, extended) =
        checked-ok env s c rs (check c (last_state rs)) r refl read (rw same at h) in
      let now : records_for (transition journal env s c).1 c.task_id ≡ ok (rs ++ r ∷ []) =
        rw same extended in
      (recorded, now, rw now (ap ok (last_state-snoc rs r ∙ recorded.target)))

  -- A command that the checks refuse raises their exception and changes nothing.
  pub transition_refused :
      (env : Env) (s : S) (c : Command) (rs : List TransitionRecord) (e : KernelError)
      → records_for s c.task_id ≡ ok rs
      → check c (last_state rs) ≡ err e
      → transition journal env s c ≡ (err e, s)
  transition_refused env s c rs e read h = transition-eq env s c rs read ∙ rw h

  -- A task that has ended stays as it is: every command on it raises and changes nothing.
  pub transition_terminal :
      (env : Env) (s : S) (c : Command) (rs : List TransitionRecord)
      → records_for s c.task_id ≡ ok rs
      → is_among (last_state rs) terminal_states ≡ true
      → transition journal env s c ≡ (err illegal_transition, s)
  transition_terminal env s c rs read ended =
      transition_refused env s c rs illegal_transition read (check_terminal c (last_state rs) ended)

  checked_others :
      (env : Env) (s : S) (c : Command) (from : TaskState) (other : String)
      (rs : List TransitionRecord)
      → str_eq c.task_id other ≡ false
      → records_for s other ≡ ok rs
      → (checked : Result KernelError (List String))
      → records_for (append_checked journal env s c from checked).1 other ≡ ok rs
  checked_others env s c from other rs ne read (err e) = read
  checked_others env s c from other rs ne read (ok ev) =
      append_others env s (draft_of c from ev) other rs ne read

  -- No command, accepted or not, changes the history of another task.
  pub transition_others :
      (env : Env) (s : S) (c : Command) (other : String) (rs : List TransitionRecord)
      → str_eq c.task_id other ≡ false
      → records_for s other ≡ ok rs
      → records_for (transition journal env s c).1 other ≡ ok rs
  unfolding transition
  transition_others env s c other rs ne read = from_state (current_state journal s c.task_id)
    where
      from_state :
          (state : Result AuditError TaskState)
          → records_for (transition_from journal env s c state).1 other ≡ ok rs
      from_state (err e) = read
      from_state (ok from) = checked_others env s c from other rs ne read (check c from)
