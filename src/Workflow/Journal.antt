-- ===== src/Workflow/Journal.antt =====
-- workflow/journal.py: the records of a hash-linked journal, how the next one is built, and the
-- check of a whole sequence. `digest` stands for SHA-256 over the canonical JSON of all fields but
-- `record_hash`, and a time is a number of microseconds.
pub mod Chain
pub mod Tamper
pub mod Port
pub mod Staged
pub mod Jsonl
use job_slayer.Base.{
  ℕ, zero, suc, ◌+◌, String, ◌≡◌, Bool, true, false, not, ◌&&◌, List, [], ◌∷◌, Option, none, some,
  ◌==◌, if◌then◌else◌, str_eq, length, get_last?, is_sha256, Result, ok, err, require, ◌>>◌, ◌>>=◌,
  String-discrete,
}
use native.Mathlib.Decide.{ℕ_discrete}
use job_slayer.Workflow.State.{TaskState, ActorType, TaskState-discrete, ActorType-discrete}

-- What the caller of `append_transition` supplies.
pub record Draft : Type 0 where
  pub task_id : String
  pub from_state : TaskState
  pub to_state : TaskState
  pub actor_type : ActorType
  pub actor_id : String
  pub reason : String
  pub evidence_ids : List String

-- The fields of a record that its digest covers.
pub record Payload : Type 0 where
  pub schema_version : String
  pub sequence : ℕ
  pub draft : Draft
  pub open draft use *
  pub occurred_at : ℕ
  pub previous_hash : Option String

pub record TransitionRecord : Type 0 where
  pub payload : Payload
  pub open payload use *
  pub record_hash : String

pub Payload-discrete : Discrete Payload
Payload-discrete = hlevel (ℕ_discrete, String-discrete, TaskState-discrete, ActorType-discrete)

pub data AuditError : Type 0 where
  unexpected_sequence broken_previous_hash hash_mismatch : AuditError
  invalid_record wrong_task not_next wrong_source chain_failed : AuditError
  blank_line malformed_line unreadable unstaged unpublished : AuditError

abbrev pub same_hash : Option String → Option String → Bool
same_hash none none = true
same_hash (some a) (some b) = str_eq a b
same_hash _ _ = false

-- `records[-1].record_hash if records else None`, after a prefix that ends in `before`.
abbrev pub last_hash : Option String → List TransitionRecord → Option String
last_hash before [] = before
last_hash before (r ∷ rs) = last_hash (some r.record_hash) rs

-- `records[-1].to_state if records else DRAFT`
abbrev pub last_state : List TransitionRecord → TaskState
last_state rs = elim (get_last? rs) [ none ↦ TaskState.draft | some r ↦ r.to_state ]

abbrev is_hash : Option String → Bool
is_hash none = true
is_hash (some h) = is_sha256 h

-- `TransitionRecord.model_validate`: the constraints on the fields.
unfoldable pub is_valid_record : Payload → Bool
is_valid_record p =
    not (str_eq p.task_id "")
    && not (str_eq p.actor_id "")
    && not (str_eq p.reason "")
    && is_hash p.previous_hash

module _ (digest : Payload → String) where
  unfoldable pub build_transition_record :
      List TransitionRecord → Draft → ℕ → Result AuditError TransitionRecord
  build_transition_record records draft occurred_at =
      let payload : Payload = record {
        schema_version = "1.0";
        sequence = length records + 1;
        draft = draft;
        occurred_at = occurred_at;
        previous_hash = last_hash none records;
      } in
      do
        require (is_valid_record payload) invalid_record
        ok (record { payload = payload; record_hash = digest payload })

  -- The loop of `verify_transition_sequence`, at one position with the hash before it.
  unfoldable pub verify_from :
      ℕ → Option String → List TransitionRecord → Result AuditError (Unit {0})
  verify_from sequence previous [] = ok tt
  verify_from sequence previous (r ∷ rs) =
      if not (r.sequence == sequence)
      then err unexpected_sequence
      else if not (same_hash r.previous_hash previous)
      then err broken_previous_hash
      else if not (str_eq (digest r.payload) r.record_hash)
      then err hash_mismatch
      else verify_from (suc sequence) (some r.record_hash) rs

  unfoldable pub verify_transition_sequence : List TransitionRecord → Result AuditError (Unit {0})
  unfolding verify_from
  verify_transition_sequence records = verify_from 1 none records
