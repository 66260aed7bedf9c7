-- ===== src/Plan/LocalPort.antt =====
-- The local store as a `TaskPlanStore`: its laws, and what its files hold after any calls.
use job_slayer.Base.{
  ℕ, String, ◌≡◌, refl, sym, ap, subst, ◌∙◌, ◌⊎◌, Bool, true, false, List, [], ◌∷◌, ◌++◌, none,
  some, str_eq, eq_iff, Bool-cases, inl, inr, Result, ok, err, >>=-eq-ok, ok-injective,
}
use job_slayer.Time.{Datetime}
use job_slayer.Workflow.Journal.Jsonl.{
  Fault, no_fault, read_fault, stage_fault, write_fault, replace_fault, sync_fault,
}
use job_slayer.Plan.Record.{
  Entry, RevisionPayload, TaskPlanRevisionRecord, JournalError, verify_links_from,
}
use job_slayer.Plan.Port.{IsNumbered, TaskPlanStore}
use job_slayer.Plan.Local.{
  PlanCodec, Directory, is_file_of, with_line, published_plan, read_plan, plan_history,
  list_plan_ids, next_revision, append_revision, lines_of,
}
use job_slayer.Plan.LocalLaws.{
  verify_links-cons, verify_links_of_link, links-IsNumbered, read_lines-valid,
}
use job_slayer.Plan.LocalStore.{
  IsBuilt, build-IsBuilt, read_file-IsFile, read_plan-read_file, next_revision-IsBuilt,
  history_with_line,
}

pub own_links :
    (plan_id : String) (rs : List TaskPlanRevisionRecord)
    → verify_links_from 1 none none rs ≡ ok tt
    → is_file_of plan_id rs ≡ true
    → verify_links_from 1 (some plan_id) none rs ≡ ok tt
own_links plan_id [] links own = unfold verify_links_from in refl
own_links plan_id (r ∷ rs) links own =
    let (here, rest) = verify_links-cons 1 none none r rs links in
    verify_links_of_link 1 (some plan_id) none r rs
      (record { numbered = here.numbered; of_plan = own; linked = here.linked }) rest

module _ {Text Raw : Type 0} {digest : RevisionPayload → String} (is_alnum : ℕ → Bool)
    (codec : PlanCodec Text Raw digest) where
  pub history-IsNumbered :
      (d : Directory Text) (plan_id : String) (rs : List TaskPlanRevisionRecord)
      → plan_history is_alnum codec d plan_id ≡ ok rs
      → IsNumbered plan_id 1 rs
  history-IsNumbered d plan_id rs h =
      let (_, read) = read_plan-read_file is_alnum codec no_fault d plan_id rs h in
      let f = read_file-IsFile is_alnum codec plan_id (lines_of codec (d.lines plan_id)) rs read in
      links-IsNumbered plan_id 1 none rs (own_links plan_id rs f.links f.own)
        (read_lines-valid codec _ rs f.parsed)

  published-ok :
      (fault : Fault) (d : Directory Text) (made : Result JournalError TaskPlanRevisionRecord)
      (r : TaskPlanRevisionRecord)
      → (published_plan codec fault d made).0 ≡ ok r
      → (made ≡ ok r)
        × ((published_plan codec fault d made).1 ≡ with_line codec d r.plan_id (codec.render r))
  published-ok fault d (err e) r h = absurd (cc)
  published-ok no_fault d (ok q) r h = (
    h,
    ap (λ (k : TaskPlanRevisionRecord). with_line codec d k.plan_id (codec.render k))
        (ok-injective h),
  )
  published-ok read_fault d (ok q) r h = (
    h,
    ap (λ (k : TaskPlanRevisionRecord). with_line codec d k.plan_id (codec.render k))
        (ok-injective h),
  )
  published-ok _ d (ok q) r h = absurd (cc)

  abbrev pub Env : Type 0
  Env = Fault × String × Datetime

  pub append-entry :
      (env : Env) (d : Directory Text) (e : Entry) (r : TaskPlanRevisionRecord)
      → (append_revision is_alnum codec env d e).0 ≡ ok r
      → r.entry ≡ e
  unfolding append_revision
  append-entry (fault, record_id, now) d e r h =
      let (made, _) =
        published-ok fault d (next_revision is_alnum codec fault d e record_id now) r h in
      let (rs, _, built) = >>=-eq-ok (read_plan is_alnum codec fault d e.snapshot.plan_id) _ made in
      let b = build-IsBuilt digest rs e record_id now r built in b.entered

  pub append-history :
      (env : Env) (d : Directory Text) (e : Entry) (r : TaskPlanRevisionRecord)
      (rs : List TaskPlanRevisionRecord)
      → (append_revision is_alnum codec env d e).0 ≡ ok r
      → plan_history is_alnum codec d e.snapshot.plan_id ≡ ok rs
      → plan_history is_alnum codec (append_revision is_alnum codec env d e).1 e.snapshot.plan_id
        ≡ ok (rs ++ r ∷ [])
  unfolding append_revision
  append-history (fault, record_id, now) d e r rs h read =
      let (made, stored) =
        published-ok fault d (next_revision is_alnum codec fault d e record_id now) r h in
      subst (λ k. plan_history is_alnum codec k e.snapshot.plan_id ≡ ok (rs ++ r ∷ [])) (sym stored)
        (history_with_line is_alnum codec d e r rs
          (next_revision-IsBuilt is_alnum codec fault record_id now d e r rs made read) read)

  abbrev pub IsAtomic :
      Directory Text → Entry → List TaskPlanRevisionRecord → Directory Text → Type 0
  IsAtomic d e rs d' =
      (plan_history is_alnum codec d' e.snapshot.plan_id ≡ ok rs)
      ⊎ ((r : TaskPlanRevisionRecord) × (r.entry ≡ e)
          × (plan_history is_alnum codec d' e.snapshot.plan_id ≡ ok (rs ++ r ∷ [])))

  published-IsAtomic :
      (fault : Fault) (d : Directory Text) (e : Entry) (rs : List TaskPlanRevisionRecord)
      (made : Result JournalError TaskPlanRevisionRecord)
      → ((r : TaskPlanRevisionRecord) → made ≡ ok r → IsBuilt digest rs e r)
      → plan_history is_alnum codec d e.snapshot.plan_id ≡ ok rs
      → IsAtomic d e rs (published_plan codec fault d made).1
  published-IsAtomic fault d e rs (err f) built read = inl read
  published-IsAtomic no_fault d e rs (ok r) built read =
      let b = built r refl in inr (r, b.entered, history_with_line is_alnum codec d e r rs b read)
  published-IsAtomic read_fault d e rs (ok r) built read =
      let b = built r refl in inr (r, b.entered, history_with_line is_alnum codec d e r rs b read)
  published-IsAtomic sync_fault d e rs (ok r) built read =
      let b = built r refl in inr (r, b.entered, history_with_line is_alnum codec d e r rs b read)
  published-IsAtomic stage_fault d e rs (ok r) built read = inl read
  published-IsAtomic write_fault d e rs (ok r) built read = inl read
  published-IsAtomic replace_fault d e rs (ok r) built read = inl read

  pub append-IsAtomic_plan :
      (env : Env) (d : Directory Text) (e : Entry) (rs : List TaskPlanRevisionRecord)
      → plan_history is_alnum codec d e.snapshot.plan_id ≡ ok rs
      → IsAtomic d e rs (append_revision is_alnum codec env d e).1
  unfolding append_revision
  append-IsAtomic_plan (fault, record_id, now) d e rs read =
      published-IsAtomic fault d e rs (next_revision is_alnum codec fault d e record_id now)
        (λ r made. next_revision-IsBuilt is_alnum codec fault record_id now d e r rs made read) read

  other_line :
      (d : Directory Text) (r : TaskPlanRevisionRecord) (other : String)
      (rs : List TaskPlanRevisionRecord)
      → str_eq other r.plan_id ≡ false
      → plan_history is_alnum codec d other ≡ ok rs
      → plan_history is_alnum codec (with_line codec d r.plan_id (codec.render r)) other ≡ ok rs
  unfolding read_plan
  other_line d r other rs ne read = rw ne read

  published_others :
      (fault : Fault) (d : Directory Text) (other : String) (rs : List TaskPlanRevisionRecord)
      (made : Result JournalError TaskPlanRevisionRecord)
      → ((r : TaskPlanRevisionRecord) → made ≡ ok r → str_eq other r.plan_id ≡ false)
      → plan_history is_alnum codec d other ≡ ok rs
      → plan_history is_alnum codec (published_plan codec fault d made).1 other ≡ ok rs
  published_others fault d other rs (err f) apart read = read
  published_others no_fault d other rs (ok r) apart read =
      other_line d r other rs (apart r refl) read
  published_others read_fault d other rs (ok r) apart read =
      other_line d r other rs (apart r refl) read
  published_others sync_fault d other rs (ok r) apart read =
      other_line d r other rs (apart r refl) read
  published_others _ d other rs (ok r) apart read = read

  made_named :
      (fault : Fault) (record_id : String) (now : Datetime) (d : Directory Text) (e : Entry)
      (r : TaskPlanRevisionRecord)
      → next_revision is_alnum codec fault d e record_id now ≡ ok r
      → r.plan_id ≡ e.snapshot.plan_id
  made_named fault record_id now d e r made =
      let (rs, _, built) = >>=-eq-ok (read_plan is_alnum codec fault d e.snapshot.plan_id) _ made in
      let b = build-IsBuilt digest rs e record_id now r built in b.named

  apart_names : (a b c : String) → str_eq a b ≡ false → c ≡ a → str_eq b c ≡ false
  apart_names a b c ne same = elim (Bool-cases (str_eq b c)) [
    | inr other ↦ other
    | inl equal ↦
        let too : str_eq a b ≡ true = (eq_iff a b).1 (sym same ∙ sym ((eq_iff b c).0 equal)) in
        absurd (cc)
  ]

  pub append-others :
      (env : Env) (d : Directory Text) (e : Entry) (other : String)
      (rs : List TaskPlanRevisionRecord)
      → str_eq e.snapshot.plan_id other ≡ false
      → plan_history is_alnum codec d other ≡ ok rs
      → plan_history is_alnum codec (append_revision is_alnum codec env d e).1 other ≡ ok rs
  unfolding append_revision
  append-others (fault, record_id, now) d e other rs ne read =
      published_others fault d other rs (next_revision is_alnum codec fault d e record_id now)
        (λ r made.
          apart_names e.snapshot.plan_id other r.plan_id ne
            (made_named fault record_id now d e r made))
        read

  abbrev pub local_plans : TaskPlanStore (Directory Text) Env
  local_plans = record {
    list_plan_ids = list_plan_ids is_alnum codec;
    history = plan_history is_alnum codec;
    append = append_revision is_alnum codec;
    history_numbered = history-IsNumbered;
    append_binds = append-entry;
    append_extends = append-history;
    append_fails = λ env d e f rs failed read. append-IsAtomic_plan env d e rs read;
    append_others = append-others;
  }
