-- ===== src/Workflow/Journal/Jsonl/Protocol.antt =====
-- The file journal as an implementation of the protocol that the kernel uses.
use job_slayer.Base.{
  ℕ, String, ◌≡◌, refl, false, List, [], ◌∷◌, ◌++◌, arith, if◌then◌else◌, str_eq, eq_refl, Result,
  ok, err, ap, ◌∙◌, >>=-eq-ok, ok-injective, ◌⊎◌, inl, inr,
}
use job_slayer.Workflow.Journal.{Draft, Payload, TransitionRecord, AuditError}
use job_slayer.Workflow.Journal.Chain.{build-IsLinked}
use job_slayer.Workflow.Journal.Port.{AuditJournal}
use job_slayer.Workflow.Journal.Jsonl.{
  Codec, JournalFile, Fault, no_fault, sync_fault, published, next_record, for_task, read_all,
  records_for, append_transition,
}
use job_slayer.Workflow.Journal.Jsonl.Laws.{IsClean, unchanged, extended, append-IsAtomic}

-- A file that ends in a newline.
pub record CleanFile {Text : Type 0} (codec : Codec Text) : Type 0 where
  pub file : JournalFile Text
  pub clean : IsClean codec file

for_task-snoc :
    (t : String) (rs : List TransitionRecord) (r : TransitionRecord)
    → for_task t (rs ++ r ∷ [])
      ≡ (if str_eq r.task_id t then for_task t rs ++ r ∷ [] else for_task t rs)
for_task-snoc t [] r = ground arith
for_task-snoc t (q ∷ rs) r = ground (arith, for_task-snoc t rs r)

module _ {Text : Type 0} (codec : Codec Text) (digest : Payload → String) where
  published-IsClean :
      (fault : Fault) (f : JournalFile Text)
      → IsClean codec f
      → (r : Result AuditError TransitionRecord)
      → IsClean codec (published codec digest fault f r).1
  published-IsClean no_fault f clean (ok r) = refl
  published-IsClean sync_fault f clean (ok r) = refl
  published-IsClean _ f clean (ok r) = clean
  published-IsClean fault f clean (err e) = clean

  published-ok :
      (fault : Fault) (f : JournalFile Text) (built : Result AuditError TransitionRecord)
      (r : TransitionRecord)
      → (published codec digest fault f built).0 ≡ ok r
      → built ≡ ok r
  published-ok no_fault f (ok r) t h = h
  published-ok _ f (ok r) t h = cc
  published-ok fault f (err e) t h = cc

  records_for-read :
      (f : JournalFile Text) (t : String) (rs : List TransitionRecord)
      → records_for codec digest f t ≡ ok rs
      → (all : List TransitionRecord) × (read_all codec digest f ≡ ok all) × (for_task t all ≡ rs)
  unfolding records_for
  records_for-read f t rs h =
      let (all, read, e) = >>=-eq-ok (read_all codec digest f) _ h in (all, read, ok-injective e)

  records_for_of_read :
      (f : JournalFile Text) (t : String) (all : List TransitionRecord)
      → read_all codec digest f ≡ ok all
      → records_for codec digest f t ≡ ok (for_task t all)
  unfolding records_for
  records_for_of_read f t all h = rw h

  pub append-IsClean :
      (env : Fault × ℕ) (f : JournalFile Text) (d : Draft)
      → IsClean codec f
      → IsClean codec (append_transition codec digest env f d).1
  unfolding append_transition
  append-IsClean (fault, now) f d clean =
      published-IsClean fault f clean (next_record codec digest f d now)

  unfoldable pub append_file :
      Fault × ℕ → CleanFile codec → Draft → Result AuditError TransitionRecord × CleanFile codec
  append_file env s d = (
    (append_transition codec digest env s.file d).0,
    record {
      file = (append_transition codec digest env s.file d).1;
      clean = append-IsClean env s.file d s.clean;
    },
  )

  pub append_binds :
      (env : Fault × ℕ) (f : JournalFile Text) (d : Draft) (r : TransitionRecord)
      → (append_transition codec digest env f d).0 ≡ ok r
      → r.draft ≡ d
  unfolding append_transition
  append_binds (fault, now) f d r h =
      let (all, read, built) =
        >>=-eq-ok (read_all codec digest f) _
          (published-ok fault f (next_record codec digest f d now) r h) in
      (build-IsLinked digest all d now r built).1

  pub append_extends :
      (env : Fault × ℕ) (s : CleanFile codec) (d : Draft) (r : TransitionRecord)
      (rs : List TransitionRecord)
      → (append_file env s d).0 ≡ ok r
      → records_for codec digest s.file d.task_id ≡ ok rs
      → records_for codec digest (append_file env s d).1.file d.task_id ≡ ok (rs ++ r ∷ [])
  unfolding append_file
  append_extends (fault, now) s d r rs h read =
      let (all, whole, e) = records_for-read s.file d.task_id rs read in
      elim (append-IsAtomic codec digest fault now s.file d all s.clean whole) [
        | unchanged same not_ok ↦ absurd (not_ok r h)
        | extended t built next clean only ↦
            records_for_of_read (append_transition codec digest (fault, now) s.file d).1 d.task_id
              (all ++ t ∷ []) next
            ∙ ground (
              arith,
              for_task-snoc d.task_id all t,
              e,
              only r h,
              eq_refl d.task_id,
              ap (λ (p : Draft). str_eq p.task_id d.task_id)
                  (build-IsLinked digest all d now t built).1,
            )
      ]

  pub append_fails :
      (env : Fault × ℕ) (s : CleanFile codec) (d : Draft) (e : AuditError)
      (rs : List TransitionRecord)
      → (append_file env s d).0 ≡ err e
      → records_for codec digest s.file d.task_id ≡ ok rs
      → (records_for codec digest (append_file env s d).1.file d.task_id ≡ ok rs)
        ⊎ ((r : TransitionRecord) × (r.draft ≡ d)
            × (records_for codec digest (append_file env s d).1.file d.task_id ≡ ok (rs ++ r ∷ [])))
  unfolding append_file
  append_fails (fault, now) s d e rs h read =
      let (all, whole, same_records) = records_for-read s.file d.task_id rs read in
      elim (append-IsAtomic codec digest fault now s.file d all s.clean whole) [
        | unchanged same not_ok ↦ inl (rw same read)
        | extended t built next clean only ↦
            let binds = (build-IsLinked digest all d now t built).1 in
            inr (
              t,
              binds,
              records_for_of_read (append_transition codec digest (fault, now) s.file d).1 d.task_id
                    (all ++ t ∷ []) next
                  ∙ ground (
                    arith,
                    for_task-snoc d.task_id all t,
                    same_records,
                    eq_refl d.task_id,
                    ap (λ (p : Draft). str_eq p.task_id d.task_id) binds,
                  ),
            )
      ]

  pub append_others :
      (env : Fault × ℕ) (s : CleanFile codec) (d : Draft) (other : String)
      (rs : List TransitionRecord)
      → str_eq d.task_id other ≡ false
      → records_for codec digest s.file other ≡ ok rs
      → records_for codec digest (append_file env s d).1.file other ≡ ok rs
  unfolding append_file
  append_others (fault, now) s d other rs ne read =
      let (all, whole, e) = records_for-read s.file other rs read in
      elim (append-IsAtomic codec digest fault now s.file d all s.clean whole) [
        | unchanged same not_ok ↦ rw same read
        | extended t built next clean only ↦
            records_for_of_read (append_transition codec digest (fault, now) s.file d).1 other
              (all ++ t ∷ []) next
            ∙ ground (
              arith,
              for_task-snoc other all t,
              e,
              ap (λ (p : Draft). str_eq p.task_id other)
                  (build-IsLinked digest all d now t built).1,
            )
      ]

  -- The interface, filled: the kernel's theorems hold of a journal in a file.
  unfoldable pub file_journal : AuditJournal (CleanFile codec) (Fault × ℕ)
  unfolding append_file
  file_journal = record {
    records_for = λ s t. records_for codec digest s.file t;
    append_transition = append_file;
    append_binds = λ env s d r h. append_binds env s.file d r h;
    append_extends = append_extends;
    append_fails = append_fails;
    append_others = append_others;
  }
