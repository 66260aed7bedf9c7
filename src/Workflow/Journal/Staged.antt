-- ===== src/Workflow/Journal/Staged.antt =====
-- persistence/transactional_journal.py: a journal of one task that stages records in memory until
-- the transaction that owns it commits.
use job_slayer.Base.{
  ℕ, zero, suc, ◌+◌, String, ◌≡◌, refl, false, not, List, [], ◌∷◌, ◌++◌, arith, ◌==◌, if◌then◌else◌,
  str_eq, length, eq_iff, Result, ok, err, ap, ◌∙◌, inl, ◌⊎◌,
}
use job_slayer.Workflow.State.{is_state, is_state_refl}
use job_slayer.Workflow.Journal.{
  Draft, Payload, TransitionRecord, AuditError, wrong_task, not_next, wrong_source, chain_failed,
  last_state, build_transition_record, verify_transition_sequence,
}
use job_slayer.Workflow.Journal.Chain.{verify-build, build-IsLinked}
use job_slayer.Workflow.Journal.Port.{AuditJournal}

pub record StagedJournal : Type 0 where
  pub task_id : String
  pub records : List TransitionRecord
  pub initial_count : ℕ

abbrev pub drop : ℕ → List TransitionRecord → List TransitionRecord
drop zero rs = rs
drop (suc n) [] = []
drop (suc n) (r ∷ rs) = drop n rs

-- `TransactionalAuditJournal(task_id, records)`
unfoldable pub open_journal : String → List TransitionRecord → StagedJournal
open_journal task_id records = record {
  task_id = task_id;
  records = records;
  initial_count = length records;
}

unfoldable pub records_for : StagedJournal → String → Result AuditError (List TransitionRecord)
records_for j task_id = if not (str_eq task_id j.task_id) then ok [] else ok j.records

abbrev pub push : StagedJournal → TransitionRecord → StagedJournal
push j r = record j { records = j.records ++ r ∷ [] }

abbrev pub staged_with :
    StagedJournal
    → Result AuditError TransitionRecord
    → Result AuditError TransitionRecord × StagedJournal
staged_with j (ok r) = (ok r, push j r)
staged_with j (err e) = (err e, j)

unfoldable pub staged : StagedJournal → List TransitionRecord
staged j = drop j.initial_count j.records

abbrev stage_verified :
    StagedJournal
    → TransitionRecord
    → Result AuditError (Unit {0})
    → Result AuditError (Unit {0}) × StagedJournal
stage_verified j r (ok _) = (ok tt, push j r)
stage_verified j r (err _) = (err chain_failed, j)

module _ (digest : Payload → String) where
  unfoldable pub append_transition :
      ℕ → StagedJournal → Draft → Result AuditError TransitionRecord × StagedJournal
  append_transition now j d =
      if not (str_eq d.task_id j.task_id)
      then (err wrong_task, j)
      else staged_with j (build_transition_record digest j.records d now)

  unfoldable pub stage_record :
      StagedJournal → TransitionRecord → Result AuditError (Unit {0}) × StagedJournal
  stage_record j r =
      if not (str_eq r.task_id j.task_id)
      then (err wrong_task, j)
      else if not (r.sequence == length j.records + 1)
      then (err not_next, j)
      else if not (is_state r.from_state (last_state j.records))
      then (err wrong_source, j)
      else stage_verified j r (verify_transition_sequence digest (j.records ++ r ∷ []))

  pub append_binds :
      (now : ℕ) (j : StagedJournal) (d : Draft) (r : TransitionRecord)
      → (append_transition now j d).0 ≡ ok r
      → r.draft ≡ d
  unfolding append_transition build_transition_record
  append_binds now j d r h = ground arith

  pub append_extends :
      (now : ℕ) (j : StagedJournal) (d : Draft) (r : TransitionRecord) (rs : List TransitionRecord)
      → (append_transition now j d).0 ≡ ok r
      → records_for j d.task_id ≡ ok rs
      → records_for (append_transition now j d).1 d.task_id ≡ ok (rs ++ r ∷ [])
  unfolding append_transition records_for
  append_extends now j d r rs h e = ground arith

  pub append_fails :
      (now : ℕ) (j : StagedJournal) (d : Draft) (e : AuditError) (rs : List TransitionRecord)
      → (append_transition now j d).0 ≡ err e
      → records_for j d.task_id ≡ ok rs
      → (records_for (append_transition now j d).1 d.task_id ≡ ok rs)
        ⊎ ((r : TransitionRecord) × (r.draft ≡ d)
            × (records_for (append_transition now j d).1 d.task_id ≡ ok (rs ++ r ∷ [])))
  unfolding append_transition records_for
  append_fails now j d e rs h read = inl (ground arith)

  pub append_others :
      (now : ℕ) (j : StagedJournal) (d : Draft) (other : String) (rs : List TransitionRecord)
      → str_eq d.task_id other ≡ false
      → records_for j other ≡ ok rs
      → records_for (append_transition now j d).1 other ≡ ok rs
  unfolding append_transition records_for
  append_others now j d other rs ne e =
      ground (arith, eq_iff d.task_id j.task_id, eq_iff other j.task_id, eq_iff d.task_id other)

  abbrev pub staged_journal : AuditJournal StagedJournal ℕ
  staged_journal = record {
    records_for = records_for;
    append_transition = append_transition;
    append_binds = append_binds;
    append_extends = append_extends;
    append_fails = append_fails;
    append_others = append_others;
  }

  -- A record that the journal itself would build, for a draft that leaves the present state, is
  -- accepted when it is staged as an exact record.
  pub stage_record-build :
      (j : StagedJournal) (d : Draft) (now : ℕ) (r : TransitionRecord)
      → verify_transition_sequence digest j.records ≡ ok tt
      → d.task_id ≡ j.task_id
      → d.from_state ≡ last_state j.records
      → build_transition_record digest j.records d now ≡ ok r
      → stage_record j r ≡ (ok tt, push j r)
  unfolding stage_record
  stage_record-build j d now r verified task source built =
      let (linked, same) = build-IsLinked digest j.records d now r built in
      ground (
        arith,
        linked.numbered,
        (eq_iff r.task_id j.task_id).1 (ap (λ (p : Draft). p.task_id) same ∙ task),
        ap (λ s. is_state s (last_state j.records))
            (ap (λ (p : Draft). p.from_state) same ∙ source),
        is_state_refl (last_state j.records),
        verify-build digest j.records d now r verified built,
      )

drop-append : (xs ys : List TransitionRecord) → drop (length xs) (xs ++ ys) ≡ ys
drop-append [] ys = refl
drop-append (x ∷ xs) ys = drop-append xs ys

-- What is staged is exactly what was pushed since the journal was opened on the stored history.
pub staged-pushed :
    (task_id : String) (stored pushed : List TransitionRecord)
    → staged (record (open_journal task_id stored) { records = stored ++ pushed }) ≡ pushed
unfolding staged open_journal
staged-pushed task_id stored pushed = drop-append stored pushed
