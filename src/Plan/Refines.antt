-- ===== src/Plan/Refines.antt =====
-- The local store as an implementation of an append-only log of entries for each plan.
use job_slayer.Base.{
  ℕ, suc, ◌+◌, String, ◌≡◌, refl, sym, ap, subst, ◌∙◌, Bool, true, false, ◌&&◌, List, [], ◌∷◌, ◌++◌,
  Option, none, some, arith, length, ◌==◌, eq_iff, if◌then◌else◌, Bool-cases, inl, inr, Result, ok,
  err,
}
use job_slayer.Time.{Datetime}
use job_slayer.Workflow.Journal.Jsonl.{no_fault}
use job_slayer.Plan.Record.{
  Entry, RevisionPayload, TaskPlanRevisionRecord, JournalError, revision_conflict, invalid_revision,
  is_valid_revision, final_hash, continues, build_task_plan_revision_record, verify_links_from,
}
use job_slayer.Plan.Local.{
  PlanCodec, Directory, published_plan, plan_history, next_revision, append_revision, lines_of,
}
use job_slayer.Plan.LocalLaws.{verify_links-cons}
use job_slayer.Plan.LocalStore.{
  read_file-IsFile, read_plan-read_file, next_revision-IsBuilt, history_with_line,
}
use job_slayer.Plan.LocalPort.{own_links}

-- A plan's history without sequence numbers, times and hashes.
abbrev pub entries : List TaskPlanRevisionRecord → List Entry
entries [] = []
entries (r ∷ rs) = r.entry ∷ entries rs

-- The append of the log: the next revision is added, anything else is left out.
abbrev pub log_append : Bool → List Entry → Entry → List Entry
log_append sound log e =
    if e.snapshot.revision == length log + 1 && sound then log ++ e ∷ [] else log

abbrev pub is_answer : {E A : Type 0} → Result E A → Bool
is_answer (ok a) = true
is_answer (err e) = false

-- The fields of the record that an append makes.
abbrev pub payload_of : List TaskPlanRevisionRecord → Entry → String → Datetime → RevisionPayload
payload_of rs e record_id now = record {
  record_id = record_id;
  plan_id = e.snapshot.plan_id;
  sequence = e.snapshot.revision;
  entry = e;
  occurred_at = now;
  previous_hash = final_hash rs;
}

length-entries : (rs : List TaskPlanRevisionRecord) → length (entries rs) ≡ length rs
length-entries [] = refl
length-entries (r ∷ rs) = ap suc (length-entries rs)

entries-snoc :
    (rs : List TaskPlanRevisionRecord) (r : TaskPlanRevisionRecord)
    → entries (rs ++ r ∷ []) ≡ entries rs ++ r.entry ∷ []
entries-snoc [] r = refl
entries-snoc (q ∷ rs) r = ap (λ k. q.entry ∷ k) (entries-snoc rs r)

links_continue :
    (n : ℕ) (plan_id : String) (previous : Option String) (rs : List TaskPlanRevisionRecord)
    → verify_links_from n (some plan_id) previous rs ≡ ok tt
    → continues rs plan_id ≡ true
links_continue n plan_id previous [] h = refl
links_continue n plan_id previous (r ∷ []) h =
    let (here, _) = verify_links-cons n (some plan_id) previous r [] h in here.of_plan
links_continue n plan_id previous (r ∷ x ∷ rs) h =
    let (here, rest) = verify_links-cons n (some plan_id) previous r (x ∷ rs) h in
    links_continue (suc n) plan_id (some r.record_hash) (x ∷ rs) (
      subst (λ k. verify_links_from (suc n) (some k) (some r.record_hash) (x ∷ rs) ≡ ok tt)
        ((eq_iff r.plan_id plan_id).0 here.of_plan) rest)

module _ {Text Raw : Type 0} {digest : RevisionPayload → String} (is_alnum : ℕ → Bool)
    (codec : PlanCodec Text Raw digest) where
  -- What is read after an append, and whether it returned.
  abbrev pub Refines :
      Bool
      → List TaskPlanRevisionRecord
      → Entry
      → Result JournalError TaskPlanRevisionRecord × Directory Text
      → Type 0
  Refines sound rs e (answer, d) =
      (is_answer answer ≡ (e.snapshot.revision == length rs + 1 && sound))
      × ((rs' : List TaskPlanRevisionRecord) × (plan_history is_alnum codec d e.snapshot.plan_id
            ≡ ok rs')
          × (entries rs' ≡ log_append sound (entries rs) e))

  follows_on :
      (d : Directory Text) (e : Entry) (rs : List TaskPlanRevisionRecord)
      → plan_history is_alnum codec d e.snapshot.plan_id ≡ ok rs
      → continues rs e.snapshot.plan_id ≡ true
  follows_on d e rs read =
      let (_, whole) = read_plan-read_file is_alnum codec no_fault d e.snapshot.plan_id rs read in
      let f =
        read_file-IsFile is_alnum codec e.snapshot.plan_id
          (lines_of codec (d.lines e.snapshot.plan_id)) rs whole in
      links_continue 1 e.snapshot.plan_id none rs (own_links e.snapshot.plan_id rs f.links f.own)

  refused-Refines :
      (sound : Bool) (rs : List TaskPlanRevisionRecord) (e : Entry) (f : JournalError)
      (d : Directory Text)
      → (e.snapshot.revision == length rs + 1 && sound) ≡ false
      → plan_history is_alnum codec d e.snapshot.plan_id ≡ ok rs
      → Refines sound rs e (err f, d)
  refused-Refines sound rs e f d no_next read =
      (sym no_next, (rs, read, rw (length-entries rs, no_next) refl))

  -- An append that meets no failure of the disk does what the append of the log does: when the entry
  -- is the next revision and its record is valid it returns, and the entries that are read afterwards
  -- are those of before and the new one; otherwise it raises, and the entries are those of before.
  pub append_revision-Refines :
      (record_id : String) (now : Datetime) (d : Directory Text) (e : Entry)
      (rs : List TaskPlanRevisionRecord)
      → plan_history is_alnum codec d e.snapshot.plan_id ≡ ok rs
      → Refines
          (is_valid_revision (payload_of rs e record_id now))
          rs
          e
          (append_revision is_alnum codec (no_fault, record_id, now) d e)
  unfolding append_revision
  append_revision-Refines record_id now d e rs read =
      let p = payload_of rs e record_id now in
      let sound = is_valid_revision p in
      let follows = follows_on d e rs read in
      let answered = λ (m : Result JournalError TaskPlanRevisionRecord).
        Refines sound rs e (published_plan codec no_fault d m) in
      elim (Bool-cases (e.snapshot.revision == length rs + 1)) [
        | inr wrong ↦
            let made : next_revision is_alnum codec no_fault d e record_id now
                ≡ err revision_conflict =
              unfold build_task_plan_revision_record in rw (read, wrong) refl in
            subst answered (sym made)
              (refused-Refines sound rs e revision_conflict d (ground (arith, wrong)) read)
        | inl next ↦ elim (Bool-cases (is_valid_revision p)) [
          | inr unsound ↦
              let made : next_revision is_alnum codec no_fault d e record_id now
                  ≡ err invalid_revision =
                unfold build_task_plan_revision_record in rw (read, next, follows, unsound) refl in
              subst answered (sym made)
                (refused-Refines sound rs e invalid_revision d (rw (next, unsound) refl) read)
          | inl valid ↦
              let r : TaskPlanRevisionRecord = record { payload = p; record_hash = digest p } in
              let made : next_revision is_alnum codec no_fault d e record_id now ≡ ok r =
                unfold build_task_plan_revision_record in rw (read, next, follows, valid) refl in
              subst answered (sym made) (
                rw (next, valid) refl,
                (
                  rs ++ r ∷ [],
                  history_with_line is_alnum codec d e r rs
                      (next_revision-IsBuilt is_alnum codec no_fault record_id now d e r rs made
                        read)
                      read,
                  entries-snoc rs r ∙ rw (length-entries rs, next, valid) refl,
                ),
              )
        ]
      ]
