-- ===== src/LongRun/Tests.antt =====
-- A run that is admitted and bound to a provider, and that is completed, or cancelled too late.
use job_slayer.Base.{
  ◌==◌, if◌then◌else◌, ℕ, ◌+◌, ◌*◌, String, ◌≡◌, refl, true, List, [], ◌∷◌, Option, none, some, leb,
  Result, ok, err, is_identifier, is_sha256,
}
use job_slayer.Time.{Datetime, aware}
use job_slayer.LongRun.{
  Stamp, LongRunningExecutionPolicy, subscription, hard, soft, task_elapsed, attempt_elapsed,
  tools_counted, LongRunUsage, no_usage, value_for, ProviderRunReference, ProviderRunObservation,
  ResumableRunHandle, ProviderRunStatus, run_completed, is_valid_limit, is_valid_policy,
  is_valid_handle, completed,
}
use job_slayer.LongRun.Store.{
  EventPayload, find_run, replace_run, events_of, create_run, append_event, verify_events,
  run_history, get_run,
}
use job_slayer.LongRun.Same.{same_handle}
use job_slayer.LongRun.Usage.{Manifest, check_artifacts, merge_usage, exceeded}
use job_slayer.LongRun.Service.{
  Tables, RunCall, Surroundings, required, append_handle, finishable, finish, cancellable,
  request_run_cancel, authorize_retry,
}
use job_slayer.LongRun.Start.{CheckpointFields, admit, bindable, bind_provider, checkpoint, recover}
use job_slayer.LongRun.Stranded.{IsStranded, Raises, stranded-Raises}
use job_slayer.LongRun.Finished.{merge_usage-counts, IsSoundCompletion, finish-IsSoundCompletion}
use job_slayer.Leases.{WorkerLease, LeaseStatus, is_valid, is_live, when_of}
use job_slayer.Leases.Table.{
  LeaseDb, find, row_count, replace, last_event, has_event, has_open, decode,
  append_event as append_lease_event, update, load_for_update,
}
use job_slayer.Leases.Store.{acquire, heartbeat, request_cancel, release}
use job_slayer.Leases.Reading.{expire_rows, recover_orphans}

abbrev at : ℕ → Stamp
at seconds = record { instant = seconds * 1000000; offset = 0 }

abbrev known : String → Option Manifest
known id =
    some (record {
      artifact_id = id;
      task_id = "task-1";
      run_id = "run-1";
      sha256 = "";
      intact = true;
    })

-- A digest that tells the first event of a run from the others.
abbrev hash_of : EventPayload → String
hash_of p =
    if p.sequence == 1
    then "0123456789abcdef0123456789abcdef0123456789abcdef0123456789abcdef"
    else "fedcba9876543210fedcba9876543210fedcba9876543210fedcba9876543210"

abbrev outside : Surroundings
outside = record {
  digest = hash_of;
  iso_le = λ a b. leb a.instant b.instant;
  to_ms = λ n. n;
  artifacts = known;
}

abbrev call : String → ℕ → RunCall
call event seconds = record {
  clock = at seconds;
  event_id = event;
  start_key = "key-1";
  lease_id = "lease-1";
}

abbrev policy : LongRunningExecutionPolicy
policy = record {
  policy_id = "policy-1";
  billing_mode = subscription;
  limits =
      record { dimension = task_elapsed; enforcement = hard; maximum = some 900000000 }
      ∷ record { dimension = attempt_elapsed; enforcement = hard; maximum = some 600000000 }
      ∷ record { dimension = tools_counted; enforcement = soft; maximum = some 40 }
      ∷ [];
  max_attempts = 2;
  lease_seconds = 60;
  checkpoint_interval_ms = 1000;
  progress_warning_after_ms = 1000;
}

abbrev reference : ProviderRunReference
reference = record {
  provider_adapter = "adapter";
  external_run_id = "external-1";
  provider_start_key = "key-1";
  start_evidence_artifact_id = "artifact-1";
  provider_session_id = none;
  continuation_artifact_id = none;
  started_at = at 1;
}

abbrev report : ProviderRunStatus → ℕ → ProviderRunObservation
report status seconds = record {
  provider_adapter = "adapter";
  external_run_id = "external-1";
  status = status;
  event_cursor = 7;
  usage = record no_usage { model_active_ms = 500; tool_calls = 12 };
  raw_event_artifact_ids = "artifact-2" ∷ [];
  observed_at = at seconds;
}

abbrev empty_tables : Tables
empty_tables = record {
  runs = record { runs = []; events = []; checkpoints = [] };
  leases = record { leases = []; events = [] };
}

abbrev admitted_tables : Tables
admitted_tables = (admit outside (call "event-1" 0) empty_tables "run-1" "task-1" policy none).1

abbrev bound_tables : Tables
bound_tables =
    (bind_provider outside (call "event-2" 2) admitted_tables "run-1" reference "worker-1" none).1

abbrev cancelled_tables : Tables
cancelled_tables =
    (request_run_cancel outside (call "event-3" 20) bound_tables "run-1" "stop" none).1

-- The recovery of another run expires all leases that are past their time.
abbrev swept : Result job_slayer.Leases.LeaseError (List WorkerLease × LeaseDb) → Tables
swept (ok (ls, db)) = record cancelled_tables { leases = db }
swept (err e) = cancelled_tables

abbrev swept_tables : Tables
swept_tables = swept (
    recover_orphans (λ a b. leb a.instant b.instant) cancelled_tables.leases
      (record { now = some (aware (at 100)); clock = at 100 }))

record Scenario : Type 0 where
  live : ResumableRunHandle
  live_read : required outside bound_tables "run-1" ≡ ok live
  merged : LongRunUsage × LongRunUsage
  merges : merge_usage (λ n. n) known live (report run_completed 30) ≡ ok merged
  handle : ResumableRunHandle
  lease : WorkerLease
  stranded : IsStranded outside swept_tables "run-1" handle lease
  finished : ResumableRunHandle
  finishes :
      (finish outside (call "event-3" 30) bound_tables "run-1" (report run_completed 30)).0
      ≡ ok finished
  is_completed : finished.status ≡ completed

abbrev scenario : Scenario
unfolding admit bind_provider bindable request_run_cancel cancellable finish finishable
    append_handle required merge_usage check_artifacts exceeded get_run run_history verify_events
    append_event create_run events_of replace_run find_run is_valid_handle is_valid_policy
    is_valid_limit is_valid is_live when_of find row_count replace last_event has_event has_open
    decode append_lease_event update load_for_update acquire heartbeat request_cancel release
    expire_rows recover_orphans is_identifier is_sha256 same_handle
scenario = record {
  live = _;
  live_read = refl;
  merged = _;
  merges = refl;
  handle = _;
  lease = _;
  stranded = record {
    lease_id = "lease-1";
    read = refl;
    being_cancelled = refl;
    names = refl;
    kept = refl;
    over = refl;
  };
  finished = _;
  finishes = refl;
  is_completed = refl;
}

stranded-Raises_example :
    ((c : RunCall) (o : ProviderRunObservation)
      → Raises outside swept_tables "run-1" (finish outside c swept_tables "run-1" o))
    × ((c : RunCall) (reason : String) (now : Option Datetime)
        → Raises outside swept_tables "run-1"
            (request_run_cancel outside c swept_tables "run-1" reason now))
    × ((c : RunCall) (k : CheckpointFields) (registered : Option Manifest) (now : Option Datetime)
        → Raises outside swept_tables "run-1"
            (checkpoint outside c swept_tables "run-1" k registered now))
    × ((c : RunCall) (o : ProviderRunObservation) (worker : String)
        → Raises outside swept_tables "run-1" (recover outside c swept_tables "run-1" o worker))
    × ((c : RunCall) (reason : String) (now : Option Datetime)
        → Raises outside swept_tables "run-1"
            (authorize_retry outside c swept_tables "run-1" reason now))
stranded-Raises_example =
    stranded-Raises outside swept_tables "run-1" scenario.handle scenario.lease scenario.stranded

merge_usage-counts_example :
    (leb (value_for scenario.live.attempt_usage tools_counted) 12 ≡ true)
    × (value_for scenario.merged.0 tools_counted
          + value_for scenario.live.attempt_usage tools_counted
        ≡ value_for scenario.live.usage tools_counted + 12)
merge_usage-counts_example =
    merge_usage-counts (λ n. n) known scenario.live (report run_completed 30) scenario.merged
      tools_counted refl scenario.merges

finish-IsSoundCompletion_example :
    IsSoundCompletion outside (report run_completed 30) scenario.finished
finish-IsSoundCompletion_example =
    finish-IsSoundCompletion outside (call "event-3" 30) bound_tables "run-1"
      (report run_completed 30) scenario.finished scenario.finishes scenario.is_completed
