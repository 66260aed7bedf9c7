-- ===== src/Workflow/Kernel/Check.antt =====
-- `check`, the whole of the kernel's decision on a command.
use job_slayer.Base.{
  String, ◌≡◌, refl, true, false, not, ◌&&◌, List, [], ◌∷◌, arith, ok, require, >>=-eq-ok, is_empty,
  eq_refl,
}
use job_slayer.Workflow.State.{
  TaskState, is_among, is_state, is_allowed, verifying, repairing, integrating, completed,
  deliverable_accepted, gate_approved, implementing,
}
use job_slayer.Workflow.Kernel.{
  Command, may_decide, is_agent, reported_states, authorize, report_gate, completion_gate,
  repair_gate, enforce_verification, check, illegal_transition, gate_closed, no_review_evidence,
  no_decision_evidence,
}
use job_slayer.Workflow.Kernel.Gates.{
  needs_decision, authorize_iff, IsReported, IsIntegrated, IsFailing, Keeps, report_gate-ok,
  completion_gate-ok, repair_gate-ok,
}

IsReported-mono : (c : Command) (a b : List String) → Keeps a b → IsReported c a → IsReported c b
IsReported-mono c a b keeps (r, given, task, passes, cited) =
    (r, given, task, passes, keeps r.report_id cited)

IsIntegrated-mono :
    (c : Command) (a b : List String) → Keeps a b → IsIntegrated c a → IsIntegrated c b
IsIntegrated-mono c a b keeps (i, r, given, report, task, patch, cited) =
    (i, r, given, report, task, patch, keeps i.integration_id cited)

not-empty-Keeps : (a b : List String) → Keeps a b → is_empty a ≡ false → is_empty b ≡ false
not-empty-Keeps [] b keeps h = cc
not-empty-Keeps (x ∷ a) [] keeps h = cc (keeps x (ground (arith, eq_refl x)))
not-empty-Keeps (x ∷ a) (y ∷ b) keeps h = refl

-- What an accepted command has shown, in the words of the workflow's rules.
pub record IsJustified (c : Command) (from : TaskState) (evidence : List String) : Type 0 where
  pub allowed : is_allowed from c.to_state ≡ true
  pub decided : needs_decision from c.to_state ≡ true → may_decide c.actor_type ≡ true
  pub not_agent : is_state c.to_state implementing ≡ true → is_agent c.actor_type ≡ false
  pub reported : is_among c.to_state reported_states ≡ true → IsReported c evidence
  pub integrated :
      is_state c.to_state completed ≡ true
      → (is_state from integrating ≡ true) × IsIntegrated c evidence
  pub repaired :
      (is_state from verifying && is_state c.to_state repairing) ≡ true → IsFailing c evidence
  pub reviewed : is_state c.to_state deliverable_accepted ≡ true → is_empty c.evidence_ids ≡ false
  pub approved : is_state c.to_state gate_approved ≡ true → is_empty evidence ≡ false
  pub kept : Keeps c.evidence_ids evidence

enforce-parts :
    (c : Command) (from : TaskState) (ev : List String)
    → enforce_verification c from ≡ ok ev
    → (is_state c.to_state deliverable_accepted ≡ true → is_empty c.evidence_ids ≡ false)
      × ((a : List String) × (b : List String) × (report_gate c ≡ ok a)
          × (is_state c.to_state gate_approved ≡ true → is_empty a ≡ false)
          × (completion_gate c from a ≡ ok b)
          × (repair_gate c from b ≡ ok ev))
unfolding enforce_verification
enforce-parts c from ev h =
    let (u, reviewed, h₁) =
      >>=-eq-ok
        (require (not (is_state c.to_state deliverable_accepted && is_empty c.evidence_ids))
          (gate_closed no_review_evidence))
        _ h in
    let (a, reported, h₂) = >>=-eq-ok (report_gate c) _ h₁ in
    let (v, approved, h₃) =
      >>=-eq-ok
        (require (not (is_state c.to_state gate_approved && is_empty a))
          (gate_closed no_decision_evidence))
        _ h₂ in
    let (b, completed_by, repaired) = >>=-eq-ok (completion_gate c from a) _ h₃ in
    (
      (λ accepted. ground arith),
      (a, b, reported, (λ accepted. ground arith), completed_by, repaired),
    )

-- Every accepted command is justified: its transition is in the table, its actor has the authority,
-- and the evidence to be recorded holds what its target state asks for.
pub check-IsJustified :
    (c : Command) (from : TaskState) (ev : List String)
    → check c from ≡ ok ev
    → IsJustified c from ev
unfolding check
check-IsJustified c from ev h =
    let (u, allowed, h₁) =
      >>=-eq-ok (require (is_allowed from c.to_state) illegal_transition) _ h in
    let (v, authorized, h₂) = >>=-eq-ok (authorize c.actor_type from c.to_state) _ h₁ in
    let authority = (authorize_iff c from).0 authorized in
    let (reviewed, (a, b, reported, approved, integrated, repaired)) = enforce-parts c from ev h₂ in
    let (report_found, keeps_a) = report_gate-ok c a reported in
    let (integration_found, keeps_b) = completion_gate-ok c from a b integrated in
    let (failing_found, keeps_ev) = repair_gate-ok c from b ev repaired in
    let keeps : Keeps a ev = λ x k. keeps_ev x (keeps_b x k) in
    record {
      allowed = ground arith;
      decided = authority.0;
      not_agent = authority.1;
      reported = λ r. IsReported-mono c a ev keeps (report_found r);
      integrated = λ r.
          let (source, found) = integration_found r in
          (source, IsIntegrated-mono c b ev keeps_ev found);
      repaired = failing_found;
      reviewed = reviewed;
      approved = λ r. not-empty-Keeps a ev keeps (approved r);
      kept = λ x k. keeps x (keeps_a x k);
    }
