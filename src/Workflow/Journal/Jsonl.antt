-- ===== src/Workflow/Journal/Jsonl.antt =====
-- `JsonlAuditJournal` of workflow/journal.py: one file that holds a record in each line. An append
-- reads and verifies the whole file, writes the next generation beside it and renames it into
-- place. `Codec` stands for texts, JSON and the record model's validation, `Fault` for the place where the
-- operating system fails.
pub mod Laws
pub mod Protocol
mod Tests
use job_slayer.Base.{
  ℕ, String, ◌≡◌, Bool, true, false, List, [], ◌∷◌, ◌++◌, Option, none, some, if◌then◌else◌, str_eq,
  Result, ok, err, ◌>>=◌, ◌>>◌,
}
use job_slayer.Workflow.Journal.{
  Draft, Payload, TransitionRecord, AuditError, blank_line, malformed_line, unreadable, unstaged,
  unpublished, build_transition_record, verify_transition_sequence,
}

-- Texts with their concatenation, `line.strip()`, `json.loads` with `model_validate`, and
-- `_canonical_json` of one record.
pub record Codec (Text : Type 0) : Type 0 where
  pub empty : Text
  pub join : Text → Text → Text
  pub is_empty_text : Text → Bool
  pub is_blank : Text → Bool
  pub parse : Text → Option TransitionRecord
  pub render : TransitionRecord → Text
  pub join-empty : (t : Text) → join empty t ≡ t
  pub is_empty_text-empty : is_empty_text empty ≡ true
  pub render_not_blank : (r : TransitionRecord) → is_blank (render r) ≡ false
  pub parse-render : (r : TransitionRecord) → parse (render r) ≡ some r

-- The content of a file: its terminated lines, and the text after the last newline.
pub record Content (Text : Type 0) : Type 0 where
  pub lines : List Text
  pub tail : Text

-- The journal's file, which is `none` until the first append.
abbrev pub JournalFile : Type 0 → Type 0
JournalFile Text = Option (Content Text)

module _ {Text : Type 0} (codec : Codec Text) where
  open codec use {empty, join, is_empty_text}

  abbrev pub text_lines : Content Text → List Text
  text_lines c = if is_empty_text c.tail then c.lines else c.lines ++ c.tail ∷ []

  -- `previous_content` followed by one encoded record and a newline.
  abbrev pub add_line : Content Text → Text → Content Text
  add_line c line = record { lines = c.lines ++ join c.tail line ∷ []; tail = empty }

  abbrev pub content : JournalFile Text → Content Text
  content none = record { lines = []; tail = empty }
  content (some c) = c

pub data Fault : Type 0 where
  no_fault read_fault stage_fault write_fault replace_fault sync_fault : Fault

module _ {Text : Type 0} (codec : Codec Text) where
  abbrev pub publish :
      Fault
      → JournalFile Text
      → Text
      → TransitionRecord
      → Result AuditError TransitionRecord × JournalFile Text
  publish no_fault f line r = (ok r, some (add_line codec (content codec f) line))
  publish read_fault f line r = (err unreadable, f)
  publish stage_fault f line r = (err unstaged, f)
  publish write_fault f line r = (err unpublished, f)
  publish replace_fault f line r = (err unpublished, f)
  publish sync_fault f line r = (err unpublished, some (add_line codec (content codec f) line))

abbrev pub for_task : String → List TransitionRecord → List TransitionRecord
for_task task_id [] = []
for_task task_id (r ∷ rs) =
    let rest = for_task task_id rs in if str_eq r.task_id task_id then r ∷ rest else rest

module _ {Text : Type 0} (codec : Codec Text) where
  open codec use {is_blank, parse, render}

  abbrev pub parse_line : Text → Result AuditError TransitionRecord
  parse_line line =
      if is_blank line
      then err blank_line
      else elim (parse line) [ none ↦ err malformed_line | some r ↦ ok r ]

  abbrev pub parse_lines : List Text → Result AuditError (List TransitionRecord)
  parse_lines [] = ok []
  parse_lines (line ∷ lines) = do r ← parse_line line; rs ← parse_lines lines; ok (r ∷ rs)

module _ {Text : Type 0} (codec : Codec Text) (digest : Payload → String) where
  unfoldable pub read_all : JournalFile Text → Result AuditError (List TransitionRecord)
  read_all none = ok []
  read_all (some c) = do
    rs ← parse_lines codec (text_lines codec c)
    verify_transition_sequence digest rs
    ok rs

  unfoldable pub records_for : JournalFile Text → String → Result AuditError (List TransitionRecord)
  records_for f task_id = do rs ← read_all f; ok (for_task task_id rs)

  abbrev pub next_record : JournalFile Text → Draft → ℕ → Result AuditError TransitionRecord
  next_record f d now = do rs ← read_all f; build_transition_record digest rs d now

  abbrev pub published :
      Fault
      → JournalFile Text
      → Result AuditError TransitionRecord
      → Result AuditError TransitionRecord × JournalFile Text
  published fault f (ok r) = publish codec fault f (codec.render r) r
  published fault f (err e) = (err e, f)

  unfoldable pub append_transition :
      Fault × ℕ → JournalFile Text → Draft → Result AuditError TransitionRecord × JournalFile Text
  append_transition (fault, now) f d = published fault f (next_record f d now)
