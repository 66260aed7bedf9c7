-- ===== src/Plan/Local.antt =====
-- `LocalTaskPlanStore` of adapters/local_orchestration.py: one file for each plan, a record in each
-- line. `PlanCodec` stands for JSON, pydantic and SHA-256 on the text of a line; a file is its
-- terminated lines; a `Fault` names where the operating system fails in an append; `is_alnum` is the
-- test `isalnum` of a character.
use Prim.Native.Nat.{Ordering}
use Prim.Native.String.{compare}
use job_slayer.Base.{
  ℕ, String, ◌≡◌, Bool, true, false, not, ◌&&◌, ◌||◌, List, [], ◌∷◌, ◌++◌, Option, none, some, all,
  any, ◌==◌, codes, contains, insert_by, is_empty, is_sha256, str_eq, if◌then◌else◌, Result, ok,
  err, require, ◌>>=◌, ◌>>◌,
}
use job_slayer.Time.{Datetime}
use job_slayer.Workflow.Journal.Jsonl.{
  Fault, no_fault, read_fault, stage_fault, write_fault, replace_fault, sync_fault,
}
use job_slayer.Plan.Record.{
  Entry, RevisionPayload, TaskPlanRevisionRecord, JournalError, wrong_hash, blank_entry,
  malformed_entry, wrong_file, invalid_path, read_failed, stage_failed, publish_failed,
  is_valid_revision, build_task_plan_revision_record, verify_links_from,
}

pub record PlanCodec (Text Raw : Type 0) (digest : RevisionPayload → String) : Type 0 where
  pub is_blank_line : Text → Bool
  -- `json.loads`, of an object.
  pub load : Text → Option Raw
  -- `raw_record.get("record_hash")`, when it is a text, and `_record_hash` of the other fields.
  pub supplied_hash : Raw → Option String
  pub hash_without : Raw → String
  pub validate : Raw → Option TaskPlanRevisionRecord
  -- `model_dump`, and its `_canonical_json`.
  pub dump : TaskPlanRevisionRecord → Raw
  pub render : TaskPlanRevisionRecord → Text
  pub render_not_blank : (r : TaskPlanRevisionRecord) → is_blank_line (render r) ≡ false
  pub load-render : (r : TaskPlanRevisionRecord) → load (render r) ≡ some (dump r)
  pub supplied_hash-dump :
      (r : TaskPlanRevisionRecord) → supplied_hash (dump r) ≡ some r.record_hash
  pub hash_without-dump : (r : TaskPlanRevisionRecord) → hash_without (dump r) ≡ digest r.payload
  pub validate-dump :
      (r : TaskPlanRevisionRecord)
      → is_valid_revision r.payload ≡ true
      → is_sha256 r.record_hash ≡ true
      → validate (dump r) ≡ some r
  pub validate_sound :
      (raw : Raw) (r : TaskPlanRevisionRecord)
      → validate raw ≡ some r
      → is_valid_revision r.payload ≡ true
  pub digest_is_sha256 : (p : RevisionPayload) → is_sha256 (digest p) ≡ true

-- The directory of the store: the names of its files in order, and the lines of each.
pub record Directory (Text : Type 0) : Type 0 where
  pub names : List String
  pub lines : String → Option (List Text)

abbrev text_le : String → String → Bool
text_le a b = elim (compare a b) [ Ordering.gt ↦ false | _ ↦ true ]

-- The code points that `_path` takes after the first one.
abbrev is_path_part : (ℕ → Bool) → ℕ → Bool
is_path_part is_alnum c = is_alnum c || c == b'.' || c == b'_' || c == b'-'

abbrev starts_with : (ℕ → Bool) → List ℕ → Bool
starts_with test [] = false
starts_with test (c ∷ cs) = test c

-- Whether `_path` accepts an identifier.
unfoldable pub is_plan_path : (ℕ → Bool) → String → Bool
is_plan_path is_alnum id =
    not (str_eq id "")
    && not (str_eq id "." || str_eq id "..")
    && not (any (λ c. c == b'/') (codes id))
    && not (any (λ c. c == b'\\') (codes id))
    && starts_with is_alnum (codes id)
    && all (is_path_part is_alnum) (codes id)

-- `records and records[0].plan_id != plan_id`
abbrev pub is_file_of : String → List TaskPlanRevisionRecord → Bool
is_file_of plan_id [] = true
is_file_of plan_id (r ∷ rs) = str_eq r.plan_id plan_id

abbrev pub is_supplied : Option String → String → Bool
is_supplied none hash = false
is_supplied (some supplied) hash = str_eq hash supplied

module _ {Text Raw : Type 0} {digest : RevisionPayload → String}
    (codec : PlanCodec Text Raw digest) where
  open codec use {is_blank_line, load, supplied_hash, hash_without, validate, render}

  abbrev pub read_raw : Raw → Result JournalError TaskPlanRevisionRecord
  read_raw raw = do
    require (is_supplied (supplied_hash raw) (hash_without raw)) wrong_hash
    elim (validate raw) [ none ↦ err malformed_entry | some r ↦ ok r ]

  abbrev pub read_line : Text → Result JournalError TaskPlanRevisionRecord
  read_line line = do
    require (not (is_blank_line line)) blank_entry
    elim (load line) [ none ↦ err malformed_entry | some raw ↦ read_raw raw ]

  abbrev pub read_lines : List Text → Result JournalError (List TaskPlanRevisionRecord)
  read_lines [] = ok []
  read_lines (line ∷ lines) = do r ← read_line line; rs ← read_lines lines; ok (r ∷ rs)

  -- The lines of an existing file, read and linked.
  abbrev pub read_file : String → List Text → Result JournalError (List TaskPlanRevisionRecord)
  read_file plan_id lines = do
    rs ← read_lines lines
    verify_links_from 1 none none rs
    require (is_file_of plan_id rs) wrong_file
    ok rs

  abbrev pub lines_of : Option (List Text) → List Text
  lines_of none = []
  lines_of (some lines) = lines

  -- `os.replace` of a file by its content and one line more.
  abbrev pub with_line : Directory Text → String → Text → Directory Text
  with_line d plan_id line = record {
    names = if contains plan_id d.names then d.names else insert_by text_le plan_id d.names;
    lines = λ id.
        if str_eq id plan_id then some (lines_of (d.lines plan_id) ++ line ∷ []) else d.lines id;
  }

  abbrev pub publish_line :
      Fault
      → Directory Text
      → TaskPlanRevisionRecord
      → Result JournalError TaskPlanRevisionRecord × Directory Text
  publish_line no_fault d r = (ok r, with_line d r.plan_id (render r))
  publish_line read_fault d r = (ok r, with_line d r.plan_id (render r))
  publish_line stage_fault d r = (err stage_failed, d)
  publish_line write_fault d r = (err publish_failed, d)
  publish_line replace_fault d r = (err publish_failed, d)
  publish_line sync_fault d r = (err publish_failed, with_line d r.plan_id (render r))

  abbrev pub published_plan :
      Fault
      → Directory Text
      → Result JournalError TaskPlanRevisionRecord
      → Result JournalError TaskPlanRevisionRecord × Directory Text
  published_plan fault d (ok r) = publish_line fault d r
  published_plan fault d (err e) = (err e, d)

module _ {Text Raw : Type 0} {digest : RevisionPayload → String} (is_alnum : ℕ → Bool)
    (codec : PlanCodec Text Raw digest) where
  -- `history`, when reading a file that exists fails with `read_fault`.
  unfoldable pub read_plan :
      Fault → Directory Text → String → Result JournalError (List TaskPlanRevisionRecord)
  unfolding is_plan_path
  read_plan fault d plan_id = do
    require (is_plan_path is_alnum plan_id) invalid_path
    elim (d.lines plan_id) [
      | none ↦ ok []
      | some lines ↦ elim fault [ read_fault ↦ err read_failed | _ ↦ read_file codec plan_id lines ]
    ]

  abbrev pub plan_history :
      Directory Text → String → Result JournalError (List TaskPlanRevisionRecord)
  plan_history = read_plan no_fault

  plan_ids : Directory Text → List String → Result JournalError (List String)
  unfolding read_plan
  plan_ids d [] = ok []
  plan_ids d (id ∷ ids) = do
    rs ← plan_history d id
    rest ← plan_ids d ids
    ok (if is_empty rs then rest else id ∷ rest)

  unfoldable pub list_plan_ids : Directory Text → Result JournalError (List String)
  unfolding plan_ids
  list_plan_ids d = plan_ids d d.names

  -- `append`, up to its publication.
  abbrev pub next_revision :
      Fault
      → Directory Text
      → Entry
      → String
      → Datetime
      → Result JournalError TaskPlanRevisionRecord
  next_revision fault d e record_id now = do
    rs ← read_plan fault d e.snapshot.plan_id
    build_task_plan_revision_record digest rs e record_id now

  unfoldable pub append_revision :
      Fault × String × Datetime
      → Directory Text
      → Entry
      → Result JournalError TaskPlanRevisionRecord × Directory Text
  unfolding read_plan
  append_revision (fault, record_id, now) d e =
      published_plan codec fault d (next_revision fault d e record_id now)
