-- ===== src/Plan/Record.antt =====
-- `TaskPlanRevisionRecord` of orchestration/__init__.py, and the building and the verification of a
-- plan's history in adapters/local_orchestration.py. `digest` stands for SHA-256 over the canonical
-- JSON of all fields but `record_hash`.
use job_slayer.Base.{
  ℕ, suc, ◌+◌, String, Bool, true, false, ◌&&◌, List, [], ◌∷◌, Option, none, some, leb, ◌==◌,
  length, get_last?, is_sha256, str_eq, Result, ok, require, ◌>>◌,
}
use job_slayer.Time.{Datetime}
use job_slayer.Workflow.State.{ActorType}
use job_slayer.Plan.{is_sized, optional}
use job_slayer.Plan.Snapshot.{TaskPlanSnapshot, is_name, is_aware, is_valid_plan}

-- What the caller of `append` supplies.
pub record Entry : Type 0 where
  pub snapshot : TaskPlanSnapshot
  pub actor_type : ActorType
  pub actor_id : String
  pub operation : String

-- The fields of a record that its digest covers.
pub record RevisionPayload : Type 0 where
  pub record_id : String
  pub plan_id : String
  pub sequence : ℕ
  pub entry : Entry
  pub open entry use *
  pub occurred_at : Datetime
  pub previous_hash : Option String

pub record TaskPlanRevisionRecord : Type 0 where
  pub payload : RevisionPayload
  pub open payload use *
  pub record_hash : String

pub data JournalError : Type 0 where
  revision_conflict changed_plan invalid_revision : JournalError
  wrong_sequence mixed_plans broken_link wrong_hash : JournalError
  blank_entry malformed_entry wrong_file invalid_path : JournalError
  read_failed stage_failed publish_failed : JournalError

-- The constraints on the fields, and `validate_record_binding`, on data.
unfoldable pub is_valid_revision : RevisionPayload → Bool
is_valid_revision p =
    is_name 128 p.record_id
    && is_name 128 p.plan_id
    && leb 1 p.sequence
    && is_valid_plan p.snapshot
    && is_sized 1 160 p.actor_id
    && is_sized 1 200 p.operation
    && optional is_sha256 p.previous_hash
    && str_eq p.plan_id p.snapshot.plan_id
    && p.sequence == p.snapshot.revision
    && is_aware p.occurred_at

-- `history[-1].record_hash if history else None`
abbrev pub final_hash : List TaskPlanRevisionRecord → Option String
final_hash rs = elim (get_last? rs) [ none ↦ none | some r ↦ some r.record_hash ]

-- Whether the last record of the history, if there is one, is of this plan.
abbrev pub continues : List TaskPlanRevisionRecord → String → Bool
continues rs plan_id = elim (get_last? rs) [ none ↦ true | some r ↦ str_eq r.plan_id plan_id ]

abbrev pub is_linked_to : Option String → Option String → Bool
is_linked_to none none = true
is_linked_to (some a) (some b) = str_eq a b
is_linked_to _ _ = false

abbrev pub is_of_plan : Option String → String → Bool
is_of_plan none plan_id = true
is_of_plan (some expected) plan_id = str_eq plan_id expected

module _ (digest : RevisionPayload → String) where
  unfoldable pub build_task_plan_revision_record :
      List TaskPlanRevisionRecord
      → Entry
      → String
      → Datetime
      → Result JournalError TaskPlanRevisionRecord
  build_task_plan_revision_record history entry record_id occurred_at =
      let payload : RevisionPayload = record {
        record_id = record_id;
        plan_id = entry.snapshot.plan_id;
        sequence = entry.snapshot.revision;
        entry = entry;
        occurred_at = occurred_at;
        previous_hash = final_hash history;
      } in
      do
        require (entry.snapshot.revision == length history + 1) revision_conflict
        require (continues history entry.snapshot.plan_id) changed_plan
        require (is_valid_revision payload) invalid_revision
        ok (record { payload = payload; record_hash = digest payload })

  -- The loop of `verify_task_plan_revision_history`, at one position.
  unfoldable pub verify_revisions_from :
      ℕ
      → Option String
      → Option String
      → List TaskPlanRevisionRecord
      → Result JournalError (Unit {0})
  verify_revisions_from sequence plan_id previous [] = ok tt
  verify_revisions_from sequence plan_id previous (r ∷ rs) =
      let rest = verify_revisions_from (suc sequence) (some r.plan_id) (some r.record_hash) rs in
      do
        require (r.sequence == sequence) wrong_sequence
        require (is_of_plan plan_id r.plan_id) mixed_plans
        require (is_linked_to r.previous_hash previous) broken_link
        require (str_eq (digest r.payload) r.record_hash) wrong_hash
        rest

  unfoldable pub verify_task_plan_revision_history :
      List TaskPlanRevisionRecord → Result JournalError (Unit {0})
  unfolding verify_revisions_from
  verify_task_plan_revision_history history = verify_revisions_from 1 none none history

-- The loop of `_verify_revision_links`, at one position.
unfoldable pub verify_links_from :
    ℕ → Option String → Option String → List TaskPlanRevisionRecord → Result JournalError (Unit {0})
verify_links_from sequence plan_id previous [] = ok tt
verify_links_from sequence plan_id previous (r ∷ rs) =
    let rest = verify_links_from (suc sequence) (some r.plan_id) (some r.record_hash) rs in
    do
      require (r.sequence == sequence) wrong_sequence
      require (is_of_plan plan_id r.plan_id) mixed_plans
      require (is_linked_to r.previous_hash previous) broken_link
      rest
