-- ===== src/Workflow/Kernel/Reach.antt =====
-- The journals that kernel commands lead to, through successes, refusals and failures of the disk.
use job_slayer.Base.{
  String, ◌≡◌, refl, sym, subst, ◌∙◌, ap, true, List, [], ◌∷◌, ◌++◌, Result, ok, err, Result-cases,
  Bool-cases, inl, inr, ok-injective, str_eq, eq_iff, any,
}
use mathlib.Core.Path.{subst₂, subst₃}
use job_slayer.Workflow.Kernel.Gates.{needs_decision}
use job_slayer.Workflow.State.{is_allowed, draft, verifying, reviewing, completed}
use job_slayer.Workflow.Journal.{Draft, TransitionRecord, last_state}
use job_slayer.Workflow.Journal.Port.{AuditJournal}
use job_slayer.Workflow.Kernel.{
  Command, may_decide, KernelError, check, draft_of, transition, append_checked,
}
use job_slayer.Workflow.Kernel.Check.{check-IsJustified}
use job_slayer.Workflow.Kernel.Steps.{transition_others, transition-eq}
use job_slayer.Workflow.Kernel.Path.{
  IsGoverned, IsGoverned-snoc, last_state-eq, visits, is_sign_off, completed_signed_off,
}

drafted-IsGoverned :
    (c : Command) (rs : List TransitionRecord) (ev : List String) (r : TransitionRecord)
    → check c (last_state rs) ≡ ok ev
    → r.draft ≡ draft_of c (last_state rs) ev
    → IsGoverned draft rs
    → IsGoverned draft (rs ++ r ∷ [])
drafted-IsGoverned c rs ev r accepted binds g =
    let justified = check-IsJustified c (last_state rs) ev accepted in
    let target : c.to_state ≡ r.to_state = sym (ap (λ (d : Draft). d.to_state) binds) in
    let actor : c.actor_type ≡ r.actor_type = sym (ap (λ (d : Draft). d.actor_type) binds) in
    IsGoverned-snoc draft rs r g (
      ap (λ (d : Draft). d.from_state) binds ∙ last_state-eq rs,
      subst₂ (λ a b. is_allowed a b ≡ true) (last_state-eq rs) target justified.allowed,
      subst₃ (λ a b p. needs_decision a b ≡ true → may_decide p ≡ true) (last_state-eq rs) target
          actor justified.decided,
      tt,
    )

module _ {S Env : Type 0} (journal : AuditJournal S Env) where
  open journal use {records_for, append_transition, append_binds, append_extends, append_fails}

  -- The journal holds a governed history of the task.
  abbrev pub HoldsGoverned : S → String → Type 0
  HoldsGoverned s task_id =
      (rs : List TransitionRecord) × (records_for s task_id ≡ ok rs) × IsGoverned draft rs

  appended-IsGoverned :
      (env : Env) (s : S) (c : Command) (rs : List TransitionRecord)
      (checked : Result KernelError (List String))
      → check c (last_state rs) ≡ checked
      → records_for s c.task_id ≡ ok rs
      → IsGoverned draft rs
      → HoldsGoverned (append_checked journal env s c (last_state rs) checked).1 c.task_id
  appended-IsGoverned env s c rs (err e) accepted read g = (rs, read, g)
  appended-IsGoverned env s c rs (ok ev) accepted read g =
      let d : Draft = draft_of c (last_state rs) ev in
      elim (Result-cases (append_transition env s d).0) [
        | inl (r, done) ↦ (
          rs ++ r ∷ [],
          append_extends env s d r rs done read,
          drafted-IsGoverned c rs ev r accepted (append_binds env s d r done) g,
        )
        | inr (e, failed) ↦ elim (append_fails env s d e rs failed read) [
          | inl same ↦ (rs, same, g)
          | inr (r, binds, published) ↦
              (rs ++ r ∷ [], published, drafted-IsGoverned c rs ev r accepted binds g)
        ]
      ]

  -- A command, on this task or another and whatever comes of it, keeps the task's history governed:
  -- each record starts where the one before it ended, by a transition of the table, and a decision has
  -- been made by a human or a policy.
  pub transition-HoldsGoverned :
      (env : Env) (s : S) (c : Command) (task_id : String)
      → HoldsGoverned s task_id
      → HoldsGoverned (transition journal env s c).1 task_id
  transition-HoldsGoverned env s c task_id (rs, read, g) =
      elim (Bool-cases (str_eq c.task_id task_id)) [
        | inr other ↦ (rs, transition_others journal env s c task_id rs other read, g)
        | inl same ↦
            let task : c.task_id ≡ task_id = (eq_iff c.task_id task_id).0 same in
            let read' : records_for s c.task_id ≡ ok rs = rw task read in
            subst (HoldsGoverned (transition journal env s c).1) task (
              rw (transition-eq journal env s c rs read')
                (appended-IsGoverned env s c rs (check c (last_state rs)) refl read' g))
      ]

  -- The journals that commands lead to, from one without records.
  pub data Reachable : S → Type 0 where
    empty : (s : S) → ((t : String) → records_for s t ≡ ok []) → Reachable s
    after :
        (s : S) (env : Env) (c : Command) → Reachable s → Reachable (transition journal env s c).1

  pub Reachable-HoldsGoverned : {s : S} → Reachable s → (t : String) → HoldsGoverned s t
  Reachable-HoldsGoverned (empty s none_yet) t = ([], none_yet t, tt)
  Reachable-HoldsGoverned (after s env c r) t =
      transition-HoldsGoverned env s c t (Reachable-HoldsGoverned r t)

  -- In every reachable journal, a completed task was verified, reviewed, and signed off into
  -- integration by a human or a policy, whatever commands were given and whatever failed.
  pub Reachable-completed :
      {s : S} (t : String) (rs : List TransitionRecord)
      → Reachable s
      → records_for s t ≡ ok rs
      → last_state rs ≡ completed
      → (visits verifying rs ≡ true) × (visits reviewing rs ≡ true) × (any is_sign_off rs ≡ true)
  Reachable-completed t rs reach read ended =
      let (qs, held, g) = Reachable-HoldsGoverned reach t in
      let same : qs ≡ rs = ok-injective (sym held ∙ read) in
      completed_signed_off rs (subst (IsGoverned draft) same g) ended
