-- ===== src/Workflow/Kernel.antt =====
-- workflow/kernel.py: `WorkflowKernel` over any audit journal.
pub mod Gates
pub mod Check
pub mod Steps
pub mod Path
pub mod Reach
use job_slayer.Base.{
  String, ◌≡◌, Bool, true, false, not, ◌&&◌, ◌||◌, List, [], ◌∷◌, ◌++◌, Option, none, some, str_eq,
  if◌then◌else◌, is_empty, from_keys, Result, ok, err, require, ◌>>◌, ◌>>=◌,
}
use job_slayer.Workflow.State.{
  TaskState, plan_review, implementing, verifying, repairing, reviewing, merge_review, integrating,
  completed, gate_approved, deliverable_accepted, ActorType, agent, human, policy, is_state,
  is_among, is_allowed, terminal_states, allowed_transitions,
}
use job_slayer.Workflow.Report.{VerificationReport, SourceIntegrationResult, passes_gate}
use job_slayer.Workflow.Journal.{Draft, TransitionRecord, AuditError, last_state}
use job_slayer.Workflow.Journal.Port.{AuditJournal}

pub data Authority : Type 0 where
  leaving_review ending_task agent_entry : Authority

pub data Gate : Type 0 where
  no_review_evidence no_report other_task_report failing_report no_decision_evidence : Gate
  not_integrating no_integration other_task_integration patch_mismatch no_failing_report : Gate

-- The exceptions of a command. `assertion_failed` is the `assert` on the report.
pub data KernelError : Type 0 where
  illegal_transition assertion_failed : KernelError
  unauthorized : Authority → KernelError
  gate_closed : Gate → KernelError
  journal_failed : AuditError → KernelError

pub record Command : Type 0 where
  pub task_id : String
  pub to_state : TaskState
  pub actor_type : ActorType
  pub actor_id : String
  pub reason : String
  pub verification_report : Option VerificationReport
  pub integration_result : Option SourceIntegrationResult
  pub evidence_ids : List String

-- `actor_type in {HUMAN, POLICY}`
abbrev pub may_decide : ActorType → Bool
may_decide human = true
may_decide policy = true
may_decide _ = false

abbrev pub is_agent : ActorType → Bool
is_agent agent = true
is_agent _ = false

abbrev pub review_states : List TaskState
review_states = plan_review ∷ merge_review ∷ []

abbrev pub reported_states : List TaskState
reported_states = reviewing ∷ integrating ∷ completed ∷ deliverable_accepted ∷ []

unfoldable pub authorize : ActorType → TaskState → TaskState → Result KernelError (Unit {0})
authorize actor from to = do
  require (not (is_among from review_states && not (may_decide actor)))
      (unauthorized leaving_review)
  require (not (is_among to terminal_states && not (may_decide actor))) (unauthorized ending_task)
  require (not (is_state to implementing && is_agent actor)) (unauthorized agent_entry)

-- `tuple(dict.fromkeys((*evidence_ids, extra)))`
abbrev pub with_evidence : List String → String → List String
with_evidence evidence extra = from_keys (evidence ++ extra ∷ [])

abbrev pub passing_report : Command → Option VerificationReport → Result KernelError (List String)
passing_report c none = err (gate_closed no_report)
passing_report c (some r) = do
  require (str_eq r.task_id c.task_id) (gate_closed other_task_report)
  require (passes_gate r) (gate_closed failing_report)
  ok (with_evidence c.evidence_ids r.report_id)

-- The block for a target state that needs a passing report of the same task.
unfoldable pub report_gate : Command → Result KernelError (List String)
report_gate c =
    if is_among c.to_state reported_states
    then passing_report c c.verification_report
    else ok c.evidence_ids

-- `report.source_patch_sha256` is present and is the patch of the integration.
abbrev pub is_same_patch : Option String → String → Bool
is_same_patch none patch = false
is_same_patch (some p) patch = str_eq p patch

abbrev pub matching_integration :
    Command
    → List String
    → Option SourceIntegrationResult
    → Option VerificationReport
    → Result KernelError (List String)
matching_integration c evidence none report = err (gate_closed no_integration)
matching_integration c evidence (some i) none = do
  require (str_eq i.task_id c.task_id) (gate_closed other_task_integration)
  err assertion_failed
matching_integration c evidence (some i) (some r) = do
  require (str_eq i.task_id c.task_id) (gate_closed other_task_integration)
  require (is_same_patch r.source_patch_sha256 i.source_patch_sha256) (gate_closed patch_mismatch)
  ok (with_evidence evidence i.integration_id)

-- The block for COMPLETED.
unfoldable pub completion_gate :
    Command → TaskState → List String → Result KernelError (List String)
completion_gate c from evidence =
    if is_state c.to_state completed
    then (do
      require (is_state from integrating) (gate_closed not_integrating)
      matching_integration c evidence c.integration_result c.verification_report)
    else ok evidence

abbrev pub repair_report :
    Command → List String → Option VerificationReport → Result KernelError (List String)
repair_report c evidence none = err (gate_closed no_failing_report)
repair_report c evidence (some r) = do
  require (not (passes_gate r)) (gate_closed no_failing_report)
  require (str_eq r.task_id c.task_id) (gate_closed other_task_report)
  ok (with_evidence evidence r.report_id)

-- The block for VERIFYING -> REPAIRING, which needs a failing report.
unfoldable pub repair_gate : Command → TaskState → List String → Result KernelError (List String)
repair_gate c from evidence =
    if is_state from verifying && is_state c.to_state repairing
    then repair_report c evidence c.verification_report
    else ok evidence

unfoldable pub enforce_verification : Command → TaskState → Result KernelError (List String)
unfolding report_gate completion_gate repair_gate
enforce_verification c from = do
  require (not (is_state c.to_state deliverable_accepted && is_empty c.evidence_ids))
      (gate_closed no_review_evidence)
  reported ← report_gate c
  require (not (is_state c.to_state gate_approved && is_empty reported))
      (gate_closed no_decision_evidence)
  integrated ← completion_gate c from reported
  repair_gate c from integrated

-- All checks of a command in a state: the evidence to record, or the exception.
unfoldable pub check : Command → TaskState → Result KernelError (List String)
unfolding authorize enforce_verification allowed_transitions
check c from = do
  require (is_allowed from c.to_state) illegal_transition
  authorize c.actor_type from c.to_state
  enforce_verification c from

abbrev pub draft_of : Command → TaskState → List String → Draft
draft_of c from evidence = record {
  task_id = c.task_id;
  from_state = from;
  to_state = c.to_state;
  actor_type = c.actor_type;
  actor_id = c.actor_id;
  reason = c.reason;
  evidence_ids = evidence;
}

abbrev pub journalled : Result AuditError TransitionRecord → Result KernelError TransitionRecord
journalled (ok r) = ok r
journalled (err e) = err (journal_failed e)

module _ {S Env : Type 0} (journal : AuditJournal S Env) where
  open journal use {records_for, append_transition}

  unfoldable pub current_state : S → String → Result AuditError TaskState
  current_state s task_id = do rs ← records_for s task_id; ok (last_state rs)

  abbrev pub append_checked :
      Env
      → S
      → Command
      → TaskState
      → Result KernelError (List String)
      → Result KernelError TransitionRecord × S
  append_checked env s c from (ok evidence) =
      let (r, s') = append_transition env s (draft_of c from evidence) in (journalled r, s')
  append_checked env s c from (err e) = (err e, s)

  abbrev pub transition_from :
      Env → S → Command → Result AuditError TaskState → Result KernelError TransitionRecord × S
  transition_from env s c (ok from) = append_checked env s c from (check c from)
  transition_from env s c (err e) = (err (journal_failed e), s)

  unfoldable pub transition : Env → S → Command → Result KernelError TransitionRecord × S
  unfolding current_state
  transition env s c = transition_from env s c (current_state s c.task_id)
