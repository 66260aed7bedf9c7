-- ===== src/Workflow/Journal/Jsonl/Tests.antt =====
-- An append to a file without records, whose last step fails. A text is the list of the records
-- that it encodes.
use job_slayer.Base.{String, ◌≡◌, refl, List, [], ◌∷◌, ◌++◌, Option, none, some, is_empty, ok}
use job_slayer.Workflow.State.{draft, planned, agent}
use job_slayer.Workflow.Journal.{Draft, Payload, TransitionRecord, build_transition_record}
use job_slayer.Workflow.Journal.Jsonl.{Codec, sync_fault, read_all, append_transition}
use job_slayer.Workflow.Journal.Jsonl.Laws.{IsAtomic, append-IsAtomic}

abbrev only : List TransitionRecord → Option TransitionRecord
only (r ∷ []) = some r
only _ = none

abbrev as_records : Codec (List TransitionRecord)
as_records = record {
  empty = [];
  join = λ a b. a ++ b;
  is_empty_text = λ t. is_empty t;
  is_blank = λ t. is_empty t;
  parse = only;
  render = λ r. r ∷ [];
  join-empty = λ t. refl;
  is_empty_text-empty = refl;
  render_not_blank = λ r. refl;
  parse-render = λ r. refl;
}

abbrev fixed_digest : Payload → String
fixed_digest p = "0123456789abcdef0123456789abcdef0123456789abcdef0123456789abcdef"

abbrev first_draft : Draft
first_draft = record {
  task_id = "task-1";
  from_state = draft;
  to_state = planned;
  actor_type = agent;
  actor_id = "olga";
  reason = "next";
  evidence_ids = [];
}

no_file_read : read_all as_records fixed_digest none ≡ ok []
unfolding read_all
no_file_read = refl

append-IsAtomic_example :
    IsAtomic as_records fixed_digest none []
      (build_transition_record fixed_digest [] first_draft 1)
      (append_transition as_records fixed_digest (sync_fault, 1) none first_draft)
append-IsAtomic_example =
    append-IsAtomic as_records fixed_digest sync_fault 1 none first_draft [] refl no_file_read
