-- ===== src/LongRun/Store.antt =====
-- long_running/__init__.py, the events, and `SqliteLongRunStore` of adapters/sqlite_long_runs.py.
-- The JSON of a row is the model that it holds, and a write is one transaction. `digest` stands for
-- SHA-256 over the canonical JSON of an event without its hash.
use job_slayer.Base.{
  ℕ, suc, ◌+◌, String, Bool, true, false, not, ◌&&◌, ◌||◌, List, [], ◌∷◌, ◌++◌, Option, none, some,
  leb, ◌==◌, get_last?, is_identifier, is_sha256, str_eq, if◌then◌else◌, Result, ok, err, require,
  ◌>>=◌, ◌>>◌,
}
use job_slayer.LongRun.{
  Stamp, LongRunStatus, admitted, completed, failed, cancelled, lost, ResumableRunHandle,
  LongRunUsage, EventType, run_admitted, retry_authorized, checkpointed, is_given, is_valid_handle,
}
use job_slayer.LongRun.Same.{same_policy, same_handle}

-- A value of the dictionary `details`.
pub data Detail : Type 0 where
  text : String → String → Detail
  number : String → ℕ → Detail
  flag : String → Bool → Detail
  texts : String → List String → Detail
  nothing : String → Detail

-- The fields of an event that its digest covers.
pub record EventPayload : Type 0 where
  pub event_id : String
  pub run_id : String
  pub sequence : ℕ
  pub event_type : EventType
  pub handle : ResumableRunHandle
  pub details : List Detail
  pub created_at : Stamp
  pub previous_hash : Option String

pub record LongRunEvent : Type 0 where
  pub payload : EventPayload
  pub open payload use *
  pub record_hash : String

pub record ProgressCheckpoint : Type 0 where
  pub checkpoint_id : String
  pub run_id : String
  pub sequence : ℕ
  pub attempt_number : ℕ
  pub event_cursor : ℕ
  pub stage : String
  pub summary : String
  pub referenced_artifact_ids : List String
  pub workspace_state_sha256 : Option String
  pub continuation_artifact_id : Option String
  pub checkpoint_artifact_id : String
  pub checkpoint_sha256 : String
  pub usage : LongRunUsage
  pub created_at : Stamp

-- The three tables, newest rows first.
pub record LongRunDb : Type 0 where
  pub runs : List ResumableRunHandle
  pub events : List LongRunEvent
  pub checkpoints : List ProgressCheckpoint

pub data LongRunError : Type 0 where
  first_event stale missing_run terminal_run changed_identity incomplete_prefix broken_chain
        wrong_digest :
      LongRunError
  unbound_checkpoint invalid_row already_exists unfaithful_projection wrong_order : LongRunError

abbrev pub is_terminal : LongRunStatus → Bool
is_terminal completed = true
is_terminal failed = true
is_terminal cancelled = true
is_terminal lost = true
is_terminal _ = false

abbrev pub is_retry : EventType → Bool
is_retry retry_authorized = true
is_retry _ = false

abbrev is_checkpoint : EventType → Bool
is_checkpoint checkpointed = true
is_checkpoint _ = false

abbrev pub admits : EventType → LongRunStatus → Bool
admits run_admitted admitted = true
admits _ _ = false

-- `SELECT handle_json FROM long_runs WHERE run_id = ?`
unfoldable pub find_run : String → List ResumableRunHandle → Option ResumableRunHandle
find_run id [] = none
find_run id (h ∷ hs) = let rest = find_run id hs in if str_eq h.run_id id then some h else rest

unfoldable pub replace_run :
    String → ℕ → ResumableRunHandle → List ResumableRunHandle → List ResumableRunHandle
replace_run id version new [] = []
replace_run id version new (h ∷ hs) =
    let rest = replace_run id version new hs in
    (if str_eq h.run_id id && h.version == version then new else h) ∷ rest

-- The events of a run, oldest first.
unfoldable pub events_of : String → List LongRunEvent → List LongRunEvent
events_of id [] = []
events_of id (e ∷ es) =
    let rest = events_of id es in if str_eq e.run_id id then rest ++ e ∷ [] else rest

abbrev pub event_at : ℕ → List LongRunEvent → Option LongRunEvent
event_at n [] = none
event_at n (e ∷ es) = let rest = event_at n es in if e.sequence == n then some e else rest

abbrev pub is_link : Option String → Option String → Bool
is_link none none = true
is_link (some a) (some b) = str_eq a b
is_link _ _ = false

-- `_validate_checkpoint`
abbrev pub binds_checkpoint : LongRunEvent → Option ProgressCheckpoint → Bool
binds_checkpoint e none = not (is_checkpoint e.event_type)
binds_checkpoint e (some c) =
    is_checkpoint e.event_type
    && str_eq c.run_id e.run_id
    && c.sequence == e.handle.checkpoint_count
    && c.attempt_number == e.handle.attempt_number
    && c.event_cursor == e.handle.event_cursor

abbrev has_checkpoint : String → ℕ → List ProgressCheckpoint → Bool
has_checkpoint id n [] = false
has_checkpoint id n (c ∷ cs) = (str_eq c.run_id id && c.sequence == n) || has_checkpoint id n cs

-- The primary keys of the rows that an append inserts.
abbrev pub is_new_row : LongRunDb → LongRunEvent → Option ProgressCheckpoint → Bool
is_new_row db e checkpoint =
    not (is_given (event_at e.sequence (events_of e.run_id db.events))) && elim checkpoint [
      | none ↦ true
      | some c ↦ not (has_checkpoint c.run_id c.sequence db.checkpoints)
    ]

-- `_decode_handle` of a row, which tests the model.
abbrev pub decoded : ResumableRunHandle → Result LongRunError ResumableRunHandle
decoded h = do require (is_valid_handle h) invalid_row; ok h

abbrev pub keeps_identity : ResumableRunHandle → ResumableRunHandle → Bool
keeps_identity new old =
    str_eq new.run_id old.run_id
    && str_eq new.task_id old.task_id
    && same_policy new.policy old.policy
    && new.created_at.instant == old.created_at.instant

abbrev with_checkpoint :
    Option ProgressCheckpoint → List ProgressCheckpoint → List ProgressCheckpoint
with_checkpoint none cs = cs
with_checkpoint (some c) cs = c ∷ cs

abbrev is_hash : Option String → Bool
is_hash none = true
is_hash (some h) = is_sha256 h

-- `_decode_event` of a row: the patterns of the fields, and `validate_binding` with the handle's
-- own validators.
abbrev pub is_valid_event : LongRunEvent → Bool
is_valid_event e =
    is_identifier e.event_id
    && is_identifier e.run_id
    && leb 1 e.sequence
    && is_hash e.previous_hash
    && is_sha256 e.record_hash
    && is_valid_handle e.handle
    && str_eq e.handle.run_id e.run_id
    && e.handle.version == e.sequence

abbrev pub found_event : Option LongRunEvent → Result LongRunError LongRunEvent
found_event none = err incomplete_prefix
found_event (some p) = ok p

-- The rows that an append leaves.
abbrev pub written : LongRunDb → LongRunEvent → ℕ → Option ProgressCheckpoint → LongRunDb
written db e version checkpoint = record {
  runs = replace_run e.run_id version e.handle db.runs;
  events = e ∷ db.events;
  checkpoints = with_checkpoint checkpoint db.checkpoints;
}

module _ (digest : EventPayload → String) where
  -- `build_long_run_event`, which does not test the handle again.
  abbrev pub build_long_run_event :
      ResumableRunHandle → EventType → Option String → List Detail → Stamp → String → LongRunEvent
  build_long_run_event h kind previous details at id =
      let payload : EventPayload = record {
        event_id = id;
        run_id = h.run_id;
        sequence = h.version;
        event_type = kind;
        handle = h;
        details = details;
        created_at = at;
        previous_hash = previous;
      } in
      record { payload = payload; record_hash = digest payload }

  abbrev is_hashed : LongRunEvent → Bool
  is_hashed e = str_eq e.record_hash (digest e.payload)

  unfoldable pub create_run :
      LongRunDb → LongRunEvent → Result LongRunError (ResumableRunHandle × LongRunDb)
  unfolding find_run
  create_run db e = do
    require
        (e.sequence == 1 && not (is_given e.previous_hash) && admits e.event_type e.handle.status)
        first_event
    require (is_hashed e) wrong_digest
    require (not (is_given (find_run e.run_id db.runs))) already_exists
    ok (
      e.handle,
      record { runs = e.handle ∷ db.runs; events = e ∷ db.events; checkpoints = db.checkpoints },
    )

  -- The transaction of `append`, on the row of the run.
  abbrev pub appended :
      LongRunDb
      → LongRunEvent
      → ℕ
      → Option ProgressCheckpoint
      → ResumableRunHandle
      → Result LongRunError (ResumableRunHandle × LongRunDb)
  appended db e version checkpoint row = do
    current ← decoded row
    require (current.version == version) stale
    require (not (is_terminal current.status) || is_retry e.event_type) terminal_run
    require (keeps_identity e.handle current) changed_identity
    previous ← found_event (event_at version (events_of e.run_id db.events))
    require (is_valid_event previous) invalid_row
    require (is_link e.previous_hash (some previous.record_hash)) broken_chain
    require (binds_checkpoint e checkpoint) unbound_checkpoint
    require (is_new_row db e checkpoint) already_exists
    ok (e.handle, written db e version checkpoint)

  unfoldable pub append_event :
      LongRunDb
      → LongRunEvent
      → ℕ
      → Option ProgressCheckpoint
      → Result LongRunError (ResumableRunHandle × LongRunDb)
  unfolding find_run events_of replace_run
  append_event db e version checkpoint = do
    require (leb 1 version && e.sequence == version + 1) stale
    require (is_hashed e) wrong_digest
    elim (find_run e.run_id db.runs) [
      | none ↦ err missing_run
      | some row ↦ appended db e version checkpoint row
    ]

  -- The loop of `history`.
  unfoldable pub verify_events :
      String → ℕ → Option String → List LongRunEvent → Result LongRunError (Unit {0})
  verify_events id n previous [] = ok tt
  verify_events id n previous (e ∷ es) =
      let rest = verify_events id (suc n) (some e.record_hash) es in
      do
        require (is_valid_event e) invalid_row
        require (str_eq e.run_id id && e.sequence == n) wrong_order
        require (is_link e.previous_hash previous) broken_chain
        require (is_hashed e) wrong_digest
        rest

  unfoldable pub run_history : LongRunDb → String → Result LongRunError (List LongRunEvent)
  unfolding verify_events events_of
  run_history db id = let es = events_of id db.events in do verify_events id 1 none es; ok es

  abbrev is_projected_as : ResumableRunHandle → Option LongRunEvent → Bool
  is_projected_as h none = false
  is_projected_as h (some e) = same_handle e.handle h

  unfoldable pub get_run : LongRunDb → String → Result LongRunError (Option ResumableRunHandle)
  unfolding find_run run_history
  get_run db id = elim (find_run id db.runs) [
    | none ↦ ok none
    | some row ↦ do
      projection ← decoded row
      es ← run_history db id
      require (is_projected_as projection (get_last? es)) unfaithful_projection
      ok (some projection)
  ]
