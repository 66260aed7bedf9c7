-- ===== src/Workflow/Kernel/Gates.antt =====
-- The authority and the evidence that the checks of a command ask for, apart from the journal.
use job_slayer.Base.{
  String, ◌≡◌, refl, ap, Bool, true, false, not, ◌||◌, ◌&&◌, List, [], ◌∷◌, ◌++◌, Option, none,
  some, arith, str_eq, eq_iff, contains, contains-append, contains-from_keys, eq_refl, ok, require,
  ◌>>◌, >>=-eq-ok, Bool-cases, inl, inr, ◌↔◌,
}
use job_slayer.Workflow.State.{
  TaskState, is_among, is_state, terminal_states, verifying, repairing, integrating, completed,
  implementing,
}
use job_slayer.Workflow.Report.{VerificationReport, SourceIntegrationResult, passes_gate}
use job_slayer.Workflow.Kernel.{
  Command, KernelError, may_decide, is_agent, review_states, reported_states, authorize,
  with_evidence, report_gate, completion_gate, repair_gate, is_same_patch, passing_report,
  matching_integration, repair_report, gate_closed, not_integrating,
}

contains-with_evidence :
    (x : String) (ev : List String) (extra : String)
    → contains x (with_evidence ev extra) ≡ (contains x ev || str_eq extra x)
contains-with_evidence x ev extra =
    ground (arith, contains-from_keys x (ev ++ extra ∷ []), contains-append x ev (extra ∷ []))

-- The commands whose actor must be a human or a policy: those that leave a review or end a task.
abbrev pub needs_decision : TaskState → TaskState → Bool
needs_decision from to = is_among from review_states || is_among to terminal_states

three_guards_iff :
    (leaves ends decides enters agent : Bool) (e f g : KernelError)
    → (do
      require (not (leaves && not decides)) e
      require (not (ends && not decides)) f
      require (not (enters && agent)) g)
        ≡ ok tt
      ↔ ((leaves || ends ≡ true → decides ≡ true) × (enters ≡ true → agent ≡ false))
three_guards_iff leaves ends decides enters agent e f g = (
  (λ h. (λ n. ground arith, λ i. ground arith)),
  λ h. guards leaves ends decides enters agent h.0 h.1,
)
  where
    guards :
        (leaves ends decides enters agent : Bool)
        → (leaves || ends ≡ true → decides ≡ true)
        → (enters ≡ true → agent ≡ false)
        → (do
          require (not (leaves && not decides)) e
          require (not (ends && not decides)) f
          require (not (enters && agent)) g)
          ≡ ok tt
    guards leaves ends decides enters agent h k = grind arith

-- Authorization is granted exactly when a decision is made by a human or a policy, and no agent
-- enters the implementation.
pub authorize_iff :
    (c : Command) (from : TaskState)
    → (authorize c.actor_type from c.to_state ≡ ok tt) ↔ (
        (needs_decision from c.to_state ≡ true → may_decide c.actor_type ≡ true)
        × (is_state c.to_state implementing ≡ true → is_agent c.actor_type ≡ false))
unfolding authorize
authorize_iff c from =
    three_guards_iff (is_among from review_states) (is_among c.to_state terminal_states)
      (may_decide c.actor_type) (is_state c.to_state implementing) (is_agent c.actor_type) _ _ _

-- The evidence for a target state: a passing report of the same task, cited by the record.
abbrev pub IsReported : Command → List String → Type 0
IsReported c evidence =
    (r : VerificationReport) × (c.verification_report ≡ some r)
    × (r.task_id ≡ c.task_id)
    × (passes_gate r ≡ true)
    × (contains r.report_id evidence ≡ true)

-- The evidence for completion: an integration of the same task and of the reported patch.
abbrev pub IsIntegrated : Command → List String → Type 0
IsIntegrated c evidence =
    (i : SourceIntegrationResult) × (r : VerificationReport) × (c.integration_result ≡ some i)
    × (c.verification_report ≡ some r)
    × (i.task_id ≡ c.task_id)
    × (r.source_patch_sha256 ≡ some i.source_patch_sha256)
    × (contains i.integration_id evidence ≡ true)

-- The evidence for a repair: a report of the same task that fails.
abbrev pub IsFailing : Command → List String → Type 0
IsFailing c evidence =
    (r : VerificationReport) × (c.verification_report ≡ some r)
    × (r.task_id ≡ c.task_id)
    × (passes_gate r ≡ false)
    × (contains r.report_id evidence ≡ true)

abbrev pub Keeps : List String → List String → Type 0
Keeps before after = (x : String) → contains x before ≡ true → contains x after ≡ true

with_evidence-Keeps : (ev : List String) (extra : String) → Keeps ev (with_evidence ev extra)
with_evidence-Keeps ev extra x h = ground (arith, contains-with_evidence x ev extra)

contains-extra :
    (ev : List String) (extra : String) → contains extra (with_evidence ev extra) ≡ true
contains-extra ev extra = ground (arith, contains-with_evidence extra ev extra, eq_refl extra)

passing_report-ok :
    (c : Command) (o : Option VerificationReport) (ev : List String)
    → c.verification_report ≡ o
    → passing_report c o ≡ ok ev
    → IsReported c ev × Keeps c.evidence_ids ev
passing_report-ok c none ev e h = cc
passing_report-ok c (some r) ev e h =
    let same : with_evidence c.evidence_ids r.report_id ≡ ev = ground arith in
    (
      (
        r,
        e,
        (eq_iff r.task_id c.task_id).0 (ground arith),
        ground arith,
        rw (← same) (contains-extra c.evidence_ids r.report_id),
      ),
      rw (← same) (with_evidence-Keeps c.evidence_ids r.report_id),
    )

pub report_gate-ok :
    (c : Command) (ev : List String)
    → report_gate c ≡ ok ev
    → (is_among c.to_state reported_states ≡ true → IsReported c ev) × Keeps c.evidence_ids ev
unfolding report_gate
report_gate-ok c ev h = elim (Bool-cases (is_among c.to_state reported_states)) [
  | inr other ↦ (λ reported. cc, λ x kept. ground arith)
  | inl reported ↦
      let found = passing_report-ok c c.verification_report ev refl (rw reported at h) in
      (λ _. found.0, found.1)
]

is_same_patch-eq : (o : Option String) (p : String) → is_same_patch o p ≡ true → o ≡ some p
is_same_patch-eq none p h = cc
is_same_patch-eq (some q) p h = ap some ((eq_iff q p).0 h)

matching_integration-ok :
    (c : Command) (before : List String) (i : Option SourceIntegrationResult)
    (o : Option VerificationReport) (ev : List String)
    → c.integration_result ≡ i
    → c.verification_report ≡ o
    → matching_integration c before i o ≡ ok ev
    → IsIntegrated c ev × Keeps before ev
matching_integration-ok c before none o ev ei eo h = cc
matching_integration-ok c before (some i) none ev ei eo h = absurd (ground arith)
matching_integration-ok c before (some i) (some r) ev ei eo h =
    let same : with_evidence before i.integration_id ≡ ev = ground arith in
    (
      (
        i,
        r,
        ei,
        eo,
        (eq_iff i.task_id c.task_id).0 (ground arith),
        is_same_patch-eq r.source_patch_sha256 i.source_patch_sha256 (ground arith),
        rw (← same) (contains-extra before i.integration_id),
      ),
      rw (← same) (with_evidence-Keeps before i.integration_id),
    )

pub completion_gate-ok :
    (c : Command) (from : TaskState) (before ev : List String)
    → completion_gate c from before ≡ ok ev
    → (is_state c.to_state completed ≡ true
        → (is_state from integrating ≡ true) × IsIntegrated c ev)
      × Keeps before ev
unfolding completion_gate
completion_gate-ok c from before ev h = elim (Bool-cases (is_state c.to_state completed)) [
  | inr other ↦ (λ done. cc, λ x kept. ground arith)
  | inl done ↦
      let (u, source, matched) =
        >>=-eq-ok (require (is_state from integrating) (gate_closed not_integrating)) _
          (rw done at h) in
      let found =
        matching_integration-ok c before c.integration_result c.verification_report ev refl refl
          matched in
      (λ _. (ground arith, found.0), found.1)
]

repair_report-ok :
    (c : Command) (before : List String) (o : Option VerificationReport) (ev : List String)
    → c.verification_report ≡ o
    → repair_report c before o ≡ ok ev
    → IsFailing c ev × Keeps before ev
repair_report-ok c before none ev e h = cc
repair_report-ok c before (some r) ev e h =
    let same : with_evidence before r.report_id ≡ ev = ground arith in
    (
      (
        r,
        e,
        (eq_iff r.task_id c.task_id).0 (ground arith),
        ground arith,
        rw (← same) (contains-extra before r.report_id),
      ),
      rw (← same) (with_evidence-Keeps before r.report_id),
    )

pub repair_gate-ok :
    (c : Command) (from : TaskState) (before ev : List String)
    → repair_gate c from before ≡ ok ev
    → (is_state from verifying && is_state c.to_state repairing ≡ true → IsFailing c ev)
      × Keeps before ev
unfolding repair_gate
repair_gate-ok c from before ev h =
    elim (Bool-cases (is_state from verifying && is_state c.to_state repairing)) [
      | inr other ↦ (λ repair. cc, λ x kept. ground arith)
      | inl repair ↦
          let found = repair_report-ok c before c.verification_report ev refl (rw repair at h) in
          (λ _. found.0, found.1)
    ]
