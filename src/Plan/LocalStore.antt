-- ===== src/Plan/LocalStore.antt =====
-- The local store fills the port of the service.
use job_slayer.Base.{
  ℕ, ◌+◌, String, ◌≡◌, refl, sym, subst, ◌∙◌, Bool, true, List, [], ◌∷◌, ◌++◌, Option, none, some,
  arith, length, get_last?, ◌==◌, str_eq, eq_iff, eq_refl, ok, err, >>=-eq-ok, require-eq-ok,
  ok-injective,
}
use job_slayer.Time.{Datetime}
use job_slayer.Workflow.Journal.Jsonl.{
  Fault, no_fault, read_fault, stage_fault, write_fault, replace_fault, sync_fault,
}
use job_slayer.Plan.Record.{
  Entry, RevisionPayload, TaskPlanRevisionRecord, wrong_file, invalid_path, read_failed,
  revision_conflict, changed_plan, invalid_revision, is_valid_revision, is_of_plan, is_linked_to,
  final_hash, continues, build_task_plan_revision_record, verify_links_from,
}
use job_slayer.Plan.Local.{
  PlanCodec, Directory, is_plan_path, is_file_of, read_lines, read_file, lines_of, with_line,
  read_plan, plan_history, next_revision,
}
use job_slayer.Plan.LocalLaws.{
  verify_links-snoc, last_plan, last_record_hash, last_record_hash-final, continues-last_plan,
  read_render, read_lines-snoc,
}

-- A record that was built from a history.
pub record IsBuilt (digest : RevisionPayload → String) (rs : List TaskPlanRevisionRecord)
    (e : Entry) (r : TaskPlanRevisionRecord) : Type 0 where
  pub entered : r.entry ≡ e
  pub numbered : r.sequence ≡ 1 + length rs
  pub continued : continues rs r.plan_id ≡ true
  pub linked : r.previous_hash ≡ final_hash rs
  pub valid : is_valid_revision r.payload ≡ true
  pub hashed : digest r.payload ≡ r.record_hash
  pub named : r.plan_id ≡ e.snapshot.plan_id

module _ (digest : RevisionPayload → String) where
  pub build-IsBuilt :
      (rs : List TaskPlanRevisionRecord) (e : Entry) (record_id : String) (now : Datetime)
      (r : TaskPlanRevisionRecord)
      → build_task_plan_revision_record digest rs e record_id now ≡ ok r
      → IsBuilt digest rs e r
  unfolding build_task_plan_revision_record
  build-IsBuilt rs e record_id now r h =
      let payload : RevisionPayload = record {
        record_id = record_id;
        plan_id = e.snapshot.plan_id;
        sequence = e.snapshot.revision;
        entry = e;
        occurred_at = now;
        previous_hash = final_hash rs;
      } in
      let (numbered, h₁) =
        require-eq-ok (e.snapshot.revision == length rs + 1) revision_conflict _ h in
      let (continued, h₂) = require-eq-ok (continues rs e.snapshot.plan_id) changed_plan _ h₁ in
      let (valid, h₃) = require-eq-ok (is_valid_revision payload) invalid_revision _ h₂ in
      subst (IsBuilt digest rs e) (ok-injective h₃) (record {
        entered = refl;
        numbered = ground arith;
        continued = continued;
        linked = refl;
        valid = valid;
        hashed = refl;
        named = refl;
      })

linked_refl : (a : Option String) → is_linked_to a a ≡ true
linked_refl none = refl
linked_refl (some h) = eq_refl h

module _ {Text Raw : Type 0} {digest : RevisionPayload → String} (is_alnum : ℕ → Bool)
    (codec : PlanCodec Text Raw digest) where
  linked_after : (rs : List TaskPlanRevisionRecord) → last_record_hash none rs ≡ final_hash rs
  linked_after [] = refl
  linked_after (q ∷ rs) = last_record_hash-final q rs

  same_plan :
      (o : Option TaskPlanRevisionRecord) (id : String)
      → (elim o [ none ↦ true | some r ↦ str_eq r.plan_id id ]) ≡ true
      → (elim o [ none ↦ true | some r ↦ str_eq id r.plan_id ]) ≡ true
  same_plan none id h = refl
  same_plan (some r) id h = (eq_iff id r.plan_id).1 (sym ((eq_iff r.plan_id id).0 h))

  of_plan_after :
      (rs : List TaskPlanRevisionRecord) (id : String)
      → continues rs id ≡ true
      → is_of_plan (last_plan none rs) id ≡ true
  of_plan_after [] id h = refl
  of_plan_after (q ∷ rs) id h = continues-last_plan q rs id ∙ same_plan (get_last? (q ∷ rs)) id h

  file_of_snoc :
      (plan_id : String) (rs : List TaskPlanRevisionRecord) (r : TaskPlanRevisionRecord)
      → is_file_of plan_id rs ≡ true
      → r.plan_id ≡ plan_id
      → is_file_of plan_id (rs ++ r ∷ []) ≡ true
  file_of_snoc plan_id [] r own named = (eq_iff r.plan_id plan_id).1 named
  file_of_snoc plan_id (q ∷ rs) r own named = own

  -- What reading a file has established.
  pub record IsFile (plan_id : String) (lines : List Text) (rs : List TaskPlanRevisionRecord)
      : Type 0 where
    pub parsed : read_lines codec lines ≡ ok rs
    pub links : verify_links_from 1 none none rs ≡ ok tt
    pub own : is_file_of plan_id rs ≡ true

  pub read_file-IsFile :
      (plan_id : String) (lines : List Text) (rs : List TaskPlanRevisionRecord)
      → read_file codec plan_id lines ≡ ok rs
      → IsFile plan_id lines rs
  read_file-IsFile plan_id lines rs h =
      let (rs', parsed, h₁) = >>=-eq-ok (read_lines codec lines) _ h in
      let (_, links, h₂) = >>=-eq-ok (verify_links_from 1 none none rs') _ h₁ in
      let (own, h₃) = require-eq-ok (is_file_of plan_id rs') wrong_file _ h₂ in
      subst (IsFile plan_id lines) (ok-injective h₃)
        (record { parsed = parsed; links = links; own = own })

  -- A file that reads as `rs` reads as `rs` and one record more, once that is written.
  file_extends :
      (plan_id : String) (lines : List Text) (rs : List TaskPlanRevisionRecord) (e : Entry)
      (r : TaskPlanRevisionRecord)
      → read_file codec plan_id lines ≡ ok rs
      → IsBuilt digest rs e r
      → r.plan_id ≡ plan_id
      → read_file codec plan_id (lines ++ codec.render r ∷ []) ≡ ok (rs ++ r ∷ [])
  file_extends plan_id lines rs e r h built named =
      let f = read_file-IsFile plan_id lines rs h in
      let linked : is_linked_to r.previous_hash (last_record_hash none rs) ≡ true =
        subst (λ k. is_linked_to k (last_record_hash none rs) ≡ true)
          (linked_after rs ∙ sym built.linked) (linked_refl (last_record_hash none rs)) in
      let links = verify_links-snoc 1 none none rs r f.links (record {
        numbered = built.numbered;
        of_plan = of_plan_after rs r.plan_id built.continued;
        linked = linked;
      }) in
      rw
        (
          read_lines-snoc codec lines rs (codec.render r) r f.parsed
              (read_render codec r built.valid built.hashed),
          links,
          file_of_snoc plan_id rs r f.own named,
        )
        refl

  no_lines :
      (fault : Fault) (lines : Option (List Text)) (plan_id : String)
      (rs : List TaskPlanRevisionRecord)
      → (elim lines [
        | none ↦ ok []
        | some ls ↦ elim fault [ read_fault ↦ err read_failed | _ ↦ read_file codec plan_id ls ]
      ])
        ≡ ok rs
      → read_file codec plan_id (lines_of codec lines) ≡ ok rs
  unfolding verify_links_from
  no_lines fault none plan_id rs h = h
  no_lines no_fault (some ls) plan_id rs h = h
  no_lines read_fault (some ls) plan_id rs h = absurd (cc)
  no_lines stage_fault (some ls) plan_id rs h = h
  no_lines write_fault (some ls) plan_id rs h = h
  no_lines replace_fault (some ls) plan_id rs h = h
  no_lines sync_fault (some ls) plan_id rs h = h

  pub read_plan-read_file :
      (fault : Fault) (d : Directory Text) (plan_id : String) (rs : List TaskPlanRevisionRecord)
      → read_plan is_alnum codec fault d plan_id ≡ ok rs
      → (is_plan_path is_alnum plan_id ≡ true)
        × (read_file codec plan_id (lines_of codec (d.lines plan_id)) ≡ ok rs)
  unfolding read_plan
  read_plan-read_file fault d plan_id rs h =
      let (path, h₁) = require-eq-ok (is_plan_path is_alnum plan_id) invalid_path _ h in
      (path, no_lines fault (d.lines plan_id) plan_id rs h₁)

  -- What `append` builds, on a plan whose history reads as `rs`.
  pub next_revision-IsBuilt :
      (fault : Fault) (record_id : String) (now : Datetime) (d : Directory Text) (e : Entry)
      (r : TaskPlanRevisionRecord) (rs : List TaskPlanRevisionRecord)
      → next_revision is_alnum codec fault d e record_id now ≡ ok r
      → plan_history is_alnum codec d e.snapshot.plan_id ≡ ok rs
      → IsBuilt digest rs e r
  next_revision-IsBuilt fault record_id now d e r rs made read =
      let (rs', read', h) =
        >>=-eq-ok (read_plan is_alnum codec fault d e.snapshot.plan_id) _ made in
      let (_, here) = read_plan-read_file no_fault d e.snapshot.plan_id rs read in
      let (_, there) = read_plan-read_file fault d e.snapshot.plan_id rs' read' in
      build-IsBuilt digest rs e record_id now r (
        subst (λ k. build_task_plan_revision_record digest k e record_id now ≡ ok r)
          (ok-injective (sym there ∙ here)) h)

  pub history_with_line :
      (d : Directory Text) (e : Entry) (r : TaskPlanRevisionRecord)
      (rs : List TaskPlanRevisionRecord)
      → IsBuilt digest rs e r
      → plan_history is_alnum codec d e.snapshot.plan_id ≡ ok rs
      → plan_history is_alnum codec
          (with_line codec d r.plan_id (codec.render r))
          e.snapshot.plan_id
        ≡ ok (rs ++ r ∷ [])
  unfolding read_plan
  history_with_line d e r rs built read =
      let (path, here) = read_plan-read_file no_fault d e.snapshot.plan_id rs read in
      let same : str_eq e.snapshot.plan_id r.plan_id ≡ true =
        (eq_iff e.snapshot.plan_id r.plan_id).1 (sym built.named) in
      rw (path, same)
        (subst
          (λ k.
            read_file codec e.snapshot.plan_id (lines_of codec (d.lines k) ++ codec.render r ∷ [])
            ≡ ok (rs ++ r ∷ []))
          (sym built.named)
          (file_extends e.snapshot.plan_id (lines_of codec (d.lines e.snapshot.plan_id)) rs e r here
            built built.named))
