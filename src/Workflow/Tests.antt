-- ===== src/Workflow/Tests.antt =====
-- The workflow theorems on one task that is completed, in a staged journal. Every record gets the
-- same digest, which the theorems do not exclude.
use job_slayer.Base.{
  ℕ, String, ◌≡◌, refl, true, false, [], ◌∷◌, none, some, ok, err, ◌↔◌, ◌⊎◌, is_sha256, from_keys,
  any, Bool-cases, str_eq, inl, inr,
}
use job_slayer.Workflow.State.{
  TaskState, draft, planned, implementing, verifying, reviewing, merge_review, integrating,
  completed, ActorType, agent, human, system, allowed_transitions, is_state,
}
use job_slayer.Workflow.Report.{
  passed, VerificationReport, SourceIntegrationResult, validate_report, passes_gate,
}
use job_slayer.Workflow.Journal.{
  Draft, Payload, TransitionRecord, is_valid_record, build_transition_record, verify_from,
  verify_transition_sequence,
}
use job_slayer.Workflow.Journal.Chain.{verify-build}
use job_slayer.Workflow.Journal.Tamper.{Collision, last_hash-determines}
use job_slayer.Workflow.Journal.Staged.{
  StagedJournal, open_journal, records_for, append_transition, staged_journal,
}
use job_slayer.Workflow.Kernel.{
  Command, illegal_transition, may_decide, is_agent, authorize, report_gate, completion_gate,
  repair_gate, enforce_verification, check, current_state, transition,
}
use job_slayer.Workflow.Journal.Port.{AuditJournal}
use job_slayer.Workflow.Kernel.Gates.{needs_decision, authorize_iff}
use job_slayer.Workflow.Kernel.Check.{IsJustified, check-IsJustified}
use job_slayer.Workflow.Kernel.Steps.{
  IsRecordOf, transition-IsRecordOf, transition_terminal, transition_others,
}
use job_slayer.Workflow.Kernel.Path.{visits, is_sign_off}
use job_slayer.Workflow.Kernel.Reach.{
  HoldsGoverned, transition-HoldsGoverned, Reachable, empty, after, Reachable-completed,
}

abbrev fixed_digest : Payload → String
fixed_digest p = "0123456789abcdef0123456789abcdef0123456789abcdef0123456789abcdef"

abbrev report : VerificationReport
report = record {
  report_id = "report-1";
  task_id = "task-1";
  source_patch_sha256 = some "patch-1";
  checks = record { check_id = "unit"; status = passed; required = true } ∷ [];
  required_checks_passed = true;
  regressions_detected = false;
  unresolved_risks = [];
}

abbrev integration : SourceIntegrationResult
integration = record {
  integration_id = "integration-1";
  task_id = "task-1";
  base_commit = "aaaaaaa";
  commit = "bbbbbbb";
  target_previous_commit = "aaaaaaa";
  target_commit = "bbbbbbb";
  source_patch_sha256 = "patch-1";
  approved_by = "olga";
}

abbrev command : TaskState → ActorType → Command
command to actor = record {
  task_id = "task-1";
  to_state = to;
  actor_type = actor;
  actor_id = "olga";
  reason = "next";
  verification_report = some report;
  integration_result = some integration;
  evidence_ids = [];
}

abbrev journal : AuditJournal StagedJournal ℕ
journal = staged_journal fixed_digest

abbrev at_draft : StagedJournal
unfolding open_journal
at_draft = open_journal "task-1" []

abbrev at_planned : StagedJournal
unfolding open_journal records_for append_transition build_transition_record is_valid_record
    is_sha256 from_keys allowed_transitions passes_gate authorize report_gate completion_gate
    repair_gate enforce_verification check current_state transition at_draft
at_planned = (transition journal 1 at_draft (command planned agent)).1

abbrev at_implementing : StagedJournal
unfolding open_journal records_for append_transition build_transition_record is_valid_record
    is_sha256 from_keys allowed_transitions passes_gate authorize report_gate completion_gate
    repair_gate enforce_verification check current_state transition at_planned
at_implementing = (transition journal 2 at_planned (command implementing human)).1

abbrev at_verifying : StagedJournal
unfolding open_journal records_for append_transition build_transition_record is_valid_record
    is_sha256 from_keys allowed_transitions passes_gate authorize report_gate completion_gate
    repair_gate enforce_verification check current_state transition at_implementing
at_verifying = (transition journal 3 at_implementing (command verifying agent)).1

abbrev at_reviewing : StagedJournal
unfolding open_journal records_for append_transition build_transition_record is_valid_record
    is_sha256 from_keys allowed_transitions passes_gate authorize report_gate completion_gate
    repair_gate enforce_verification check current_state transition at_verifying
at_reviewing = (transition journal 4 at_verifying (command reviewing system)).1

abbrev at_merge_review : StagedJournal
unfolding open_journal records_for append_transition build_transition_record is_valid_record
    is_sha256 from_keys allowed_transitions passes_gate authorize report_gate completion_gate
    repair_gate enforce_verification check current_state transition at_reviewing
at_merge_review = (transition journal 5 at_reviewing (command merge_review agent)).1

abbrev at_integrating : StagedJournal
unfolding open_journal records_for append_transition build_transition_record is_valid_record
    is_sha256 from_keys allowed_transitions passes_gate authorize report_gate completion_gate
    repair_gate enforce_verification check current_state transition at_merge_review
at_integrating = (transition journal 6 at_merge_review (command integrating human)).1

abbrev at_completed : StagedJournal
unfolding open_journal records_for append_transition build_transition_record is_valid_record
    is_sha256 from_keys allowed_transitions passes_gate authorize report_gate completion_gate
    repair_gate enforce_verification check current_state transition at_integrating
at_completed = (transition journal 7 at_integrating (command completed human)).1

no_records : (t : String) → records_for at_draft t ≡ ok []
unfolding records_for at_draft
no_records t = elim (Bool-cases (str_eq t "task-1")) [ inl h ↦ rw h refl | inr h ↦ rw h refl ]

completed-Reachable : Reachable journal at_completed
unfolding at_draft at_planned at_implementing at_verifying at_reviewing at_merge_review
    at_integrating at_completed records_for
completed-Reachable = after at_integrating 7 (command completed human) (
    after at_merge_review 6 (command integrating human) (
      after at_reviewing 5 (command merge_review agent) (
        after at_verifying 4 (command reviewing system) (
          after at_implementing 3 (command verifying agent) (
            after at_planned 2 (command implementing human)
              (after at_draft 1 (command planned agent) (empty at_draft no_records)))))))

completed_read : records_for at_completed "task-1" ≡ ok at_completed.records
unfolding records_for at_completed
completed_read = refl

Reachable-completed_example :
    (visits verifying at_completed.records ≡ true)
    × (visits reviewing at_completed.records ≡ true)
    × (any is_sign_off at_completed.records ≡ true)
unfolding at_completed
Reachable-completed_example =
    Reachable-completed journal "task-1" at_completed.records completed-Reachable completed_read
      refl

abbrev some_record : TransitionRecord
some_record = record {
  payload = record {
    schema_version = "1.0";
    sequence = 1;
    draft = record {
      task_id = "task-1";
      from_state = draft;
      to_state = planned;
      actor_type = agent;
      actor_id = "olga";
      reason = "next";
      evidence_ids = [];
    };
    occurred_at = 1;
    previous_hash = none;
  };
  record_hash = fixed_digest (record {
    schema_version = "1.0";
    sequence = 1;
    draft = record {
      task_id = "task-1";
      from_state = draft;
      to_state = planned;
      actor_type = agent;
      actor_id = "olga";
      reason = "next";
      evidence_ids = [];
    };
    occurred_at = 1;
    previous_hash = none;
  });
}

-- The first record of the task.
abbrev first_draft : Draft
first_draft = some_record.draft

was_planned : (transition journal 1 at_draft (command planned agent)).0 ≡ ok some_record
unfolding records_for append_transition build_transition_record is_valid_record is_sha256 from_keys
    allowed_transitions passes_gate authorize report_gate completion_gate repair_gate
    enforce_verification check current_state transition at_draft
was_planned = refl

draft_read : records_for at_draft "task-1" ≡ ok []
unfolding records_for at_draft
draft_read = refl

transition-IsRecordOf_example :
    IsRecordOf (command planned agent) draft some_record
    × (records_for (transition journal 1 at_draft (command planned agent)).1 "task-1"
        ≡ ok (some_record ∷ []))
    × (current_state journal (transition journal 1 at_draft (command planned agent)).1 "task-1"
        ≡ ok planned)
transition-IsRecordOf_example =
    transition-IsRecordOf journal 1 at_draft (command planned agent) [] some_record draft_read
      was_planned

was_checked : check (command completed human) integrating ≡ ok ("report-1" ∷ "integration-1" ∷ [])
unfolding records_for append_transition build_transition_record is_valid_record is_sha256 from_keys
    allowed_transitions passes_gate authorize report_gate completion_gate repair_gate
    enforce_verification check current_state transition
was_checked = refl

check-IsJustified_example :
    IsJustified (command completed human) integrating ("report-1" ∷ "integration-1" ∷ [])
check-IsJustified_example =
    check-IsJustified (command completed human) integrating ("report-1" ∷ "integration-1" ∷ [])
      was_checked

authorize_iff_example : (authorize agent merge_review integrating ≡ ok tt) ↔ (
    (needs_decision merge_review integrating ≡ true → may_decide agent ≡ true)
    × (is_state integrating implementing ≡ true → is_agent agent ≡ false))
authorize_iff_example = authorize_iff (command integrating agent) merge_review

transition_terminal_example :
    transition journal 8 at_completed (command implementing human)
    ≡ (err illegal_transition, at_completed)
unfolding at_completed
transition_terminal_example =
    transition_terminal journal 8 at_completed (command implementing human) at_completed.records
      completed_read refl

abbrev other_command : Command
other_command = record (command planned agent) { task_id = "task-2" }

transition_others_example :
    records_for (transition journal 8 at_completed other_command).1 "task-1"
    ≡ ok at_completed.records
transition_others_example =
    transition_others journal 8 at_completed other_command "task-1" at_completed.records refl
      completed_read

transition-HoldsGoverned_example :
    HoldsGoverned journal (transition journal 1 at_draft (command planned agent)).1 "task-1"
transition-HoldsGoverned_example =
    transition-HoldsGoverned journal 1 at_draft (command planned agent) "task-1"
      ([], draft_read, tt)

first_verifies : verify_transition_sequence fixed_digest (some_record ∷ []) ≡ ok tt
unfolding verify_transition_sequence verify_from
first_verifies = refl

-- Another record with the same hash, since this digest is constant.
abbrev other_record : TransitionRecord
other_record = record some_record { payload = record some_record.payload { occurred_at = 2 } }

other_verifies : verify_transition_sequence fixed_digest (other_record ∷ []) ≡ ok tt
unfolding verify_transition_sequence verify_from
other_verifies = refl

last_hash-determines_example :
    ((some_record ∷ []) ≡ (other_record ∷ []))
    ⊎ Collision fixed_digest (some_record ∷ []) (other_record ∷ [])
last_hash-determines_example =
    last_hash-determines fixed_digest (some_record ∷ []) (other_record ∷ []) first_verifies
      other_verifies refl

first_built : build_transition_record fixed_digest [] first_draft 1 ≡ ok some_record
unfolding records_for append_transition build_transition_record is_valid_record is_sha256 from_keys
    allowed_transitions passes_gate authorize report_gate completion_gate repair_gate
    enforce_verification check current_state transition
first_built = refl

verify-build_example : verify_transition_sequence fixed_digest (some_record ∷ []) ≡ ok tt
verify-build_example =
    verify-build fixed_digest [] first_draft 1 some_record
      (unfold verify_transition_sequence in unfold verify_from in refl) first_built

report_valid : validate_report report ≡ ok report
unfolding validate_report
report_valid = refl

report_passes : passes_gate report ≡ true
unfolding passes_gate
report_passes = refl
