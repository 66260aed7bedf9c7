-- ===== src/LongRun/Finished.antt =====
-- What `merge_usage` counts, and what a completed run has kept to.
use job_slayer.Base.{
  ℕ, zero, suc, ◌+◌, ◌-◌, String, ◌≡◌, refl, ap, subst, ◌∙◌, true, not, ◌&&◌, ◌||◌, List, [], ◌∷◌,
  Option, none, some, arith, ◌==◌, is_empty, leb, str_eq, Result, ok, err, &&-left, &&-right,
  >>=-eq-ok, require-eq-ok, ok-injective, get_last?, any,
}
use job_slayer.LongRun.{
  Stamp, completed, LongRunBudgetDimension, model_active, tool_active, waiting, input_counted,
  output_counted, cost_counted, tools_counted, task_elapsed, attempt_elapsed, LongRunUsage,
  value_for, is_dimension, hard, ProviderRunStatus, run_completed, run_failed, run_cancelled,
  run_missing, run_queued, run_running, ProviderRunObservation, ResumableRunHandle, EventType,
}
use job_slayer.LongRun.Store.{
  Detail, EventPayload, LongRunDb, LongRunEvent, ProgressCheckpoint, LongRunError, stale,
  wrong_digest, missing_run, terminal_run, changed_identity, broken_chain, invalid_row,
  is_valid_event, unbound_checkpoint, already_exists, append_event, appended, written, found_event,
  event_at, events_of, keeps_identity, is_link, binds_checkpoint, is_new_row, is_terminal, is_retry,
  decoded, find_run, build_long_run_event, run_history,
}
use job_slayer.LongRun.Same.{same_handle}
use job_slayer.LongRun.Usage.{
  ExecutionError, backwards, cursor_backwards, usage_backwards, changed_projection, Artifacts,
  check_artifacts, is_of_run, none_falls, counters, merge_usage, terminal_status, exceeded,
  cumulated,
}
use job_slayer.Leases.{WorkerLease}
use job_slayer.Leases.Table.{LeaseDb}
use job_slayer.LongRun.Service.{
  Answer, attempt_first, with_lease, recorded, Tables, RunCall, Surroundings, from_store,
  last_event, append_handle, finish, finishable, finished_handle, release_lease, hard_of,
}

-- A counter that a provider reports.
abbrev IsCounter : LongRunBudgetDimension → Type 0
IsCounter d = any (is_dimension d) counters ≡ true

regained : (t r p : ℕ) → leb p r ≡ true → t + (r - p) + p ≡ t + r
regained t r p h = ground arith

-- The dimension at a position of the list does not fall.
abbrev HoldsAt : ℕ → List LongRunBudgetDimension → LongRunUsage → LongRunUsage → Type 0
HoldsAt n [] new old = Unit {0}
HoldsAt zero (d ∷ ds) new old = leb (value_for old d) (value_for new d) ≡ true
HoldsAt (suc n) (d ∷ ds) new old = HoldsAt n ds new old

none_falls-HoldsAt :
    (n : ℕ) (ds : List LongRunBudgetDimension) (new old : LongRunUsage)
    → none_falls ds new old ≡ true
    → HoldsAt n ds new old
none_falls-HoldsAt n [] new old h = tt
none_falls-HoldsAt zero (d ∷ ds) new old h =
    &&-left (leb (value_for old d) (value_for new d)) (none_falls ds new old) h
none_falls-HoldsAt (suc n) (d ∷ ds) new old h =
    none_falls-HoldsAt n ds new old
      (&&-right (leb (value_for old d) (value_for new d)) (none_falls ds new old) h)

none_falls-leb :
    (d : LongRunBudgetDimension) (new old : LongRunUsage)
    → IsCounter d
    → none_falls counters new old ≡ true
    → leb (value_for old d) (value_for new d) ≡ true
none_falls-leb model_active new old c h = none_falls-HoldsAt 0 counters new old h
none_falls-leb tool_active new old c h = none_falls-HoldsAt 1 counters new old h
none_falls-leb waiting new old c h = none_falls-HoldsAt 2 counters new old h
none_falls-leb input_counted new old c h = none_falls-HoldsAt 3 counters new old h
none_falls-leb output_counted new old c h = none_falls-HoldsAt 4 counters new old h
none_falls-leb cost_counted new old c h = none_falls-HoldsAt 5 counters new old h
none_falls-leb tools_counted new old c h = none_falls-HoldsAt 6 counters new old h
none_falls-leb task_elapsed new old c h = absurd cc
none_falls-leb attempt_elapsed new old c h = absurd cc

cumulated-counter :
    (d : LongRunBudgetDimension) (total prior reported : LongRunUsage) (elapsed attempt_ms : ℕ)
    → IsCounter d
    → leb (value_for prior d) (value_for reported d) ≡ true
    → value_for (cumulated total prior reported elapsed attempt_ms) d + value_for prior d
      ≡ value_for total d + value_for reported d
cumulated-counter model_active total prior reported e a c h =
    regained total.model_active_ms reported.model_active_ms prior.model_active_ms h
cumulated-counter tool_active total prior reported e a c h =
    regained total.tool_active_ms reported.tool_active_ms prior.tool_active_ms h
cumulated-counter waiting total prior reported e a c h =
    regained total.wait_ms reported.wait_ms prior.wait_ms h
cumulated-counter input_counted total prior reported e a c h =
    regained total.input_tokens reported.input_tokens prior.input_tokens h
cumulated-counter output_counted total prior reported e a c h =
    regained total.output_tokens reported.output_tokens prior.output_tokens h
cumulated-counter cost_counted total prior reported e a c h =
    regained total.cost_microusd reported.cost_microusd prior.cost_microusd h
cumulated-counter tools_counted total prior reported e a c h =
    regained total.tool_calls reported.tool_calls prior.tool_calls h
cumulated-counter task_elapsed total prior reported e a c h = absurd cc
cumulated-counter attempt_elapsed total prior reported e a c h = absurd cc

-- After a merge that succeeds, a counter of the run is what it was and what the provider's own
-- counter has grown by since the attempt's last observation, which is not less than nothing.
pub merge_usage-counts :
    (to_ms : ℕ → ℕ) (artifacts : Artifacts) (h : ResumableRunHandle) (o : ProviderRunObservation)
    (u : LongRunUsage × LongRunUsage) (d : LongRunBudgetDimension)
    → IsCounter d
    → merge_usage to_ms artifacts h o ≡ ok u
    → (leb (value_for h.attempt_usage d) (value_for o.usage d) ≡ true)
      × (value_for u.0 d + value_for h.attempt_usage d ≡ value_for h.usage d + value_for o.usage d)
unfolding merge_usage
merge_usage-counts to_ms artifacts h o u d counter merged =
    let (r, _, m₁) = >>=-eq-ok (is_of_run h.provider_run o) _ merged in
    let (_, _, m₂) = >>=-eq-ok (check_artifacts artifacts h o.raw_event_artifact_ids) _ m₁ in
    let (_, m₃) = require-eq-ok (leb h.updated_at.instant o.observed_at.instant) backwards _ m₂ in
    let (_, m₄) = require-eq-ok (leb h.event_cursor o.event_cursor) cursor_backwards _ m₃ in
    let (kept, m₅) =
      require-eq-ok (none_falls counters o.usage h.attempt_usage) usage_backwards _ m₄ in
    let grown = none_falls-leb d o.usage h.attempt_usage counter kept in
    let same = ap (λ (k : LongRunUsage × LongRunUsage). k.0) (ok-injective m₅) in
    (
      grown,
      subst
          (λ (k : LongRunUsage).
            value_for k d + value_for h.attempt_usage d ≡ value_for h.usage d + value_for o.usage d)
          same (cumulated-counter d h.usage h.attempt_usage o.usage _ _ counter grown),
    )

-- What a call returns is the handle of the event that it writes.
append_event-handle :
    (digest : EventPayload → String) (db : LongRunDb) (e : LongRunEvent) (version : ℕ)
    (c : Option ProgressCheckpoint) (x : ResumableRunHandle × LongRunDb)
    → append_event digest db e version c ≡ ok x
    → e.handle ≡ x.0
unfolding append_event
append_event-handle digest db e version c x returned =
    let (_, r₁) = require-eq-ok (leb 1 version && e.sequence == version + 1) stale _ returned in
    let (_, r₂) = require-eq-ok (str_eq e.record_hash (digest e.payload)) wrong_digest _ r₁ in
    on_row (find_run e.run_id db.runs) r₂
  where
    on_row :
        (row : Option ResumableRunHandle)
        → elim row [ none ↦ err missing_run | some r ↦ appended digest db e version c r ] ≡ ok x
        → e.handle ≡ x.0
    on_row none f = absurd cc
    on_row (some row) f =
        let (current, _, f₁) = >>=-eq-ok (decoded row) _ f in
        let (_, f₂) = require-eq-ok (current.version == version) stale _ f₁ in
        let (_, f₃) =
          require-eq-ok (not (is_terminal current.status) || is_retry e.event_type) terminal_run _
            f₂ in
        let (_, f₄) = require-eq-ok (keeps_identity e.handle current) changed_identity _ f₃ in
        let (previous, _, f₅) =
          >>=-eq-ok (found_event (event_at version (events_of e.run_id db.events))) _ f₄ in
        let (_, g) = require-eq-ok (is_valid_event previous) invalid_row _ f₅ in
        let (_, f₆) =
          require-eq-ok (is_link e.previous_hash (some previous.record_hash)) broken_chain _ g in
        let (_, f₇) = require-eq-ok (binds_checkpoint e c) unbound_checkpoint _ f₆ in
        let (_, f₈) = require-eq-ok (is_new_row db e c) already_exists _ f₇ in
        let same : (e.handle, written db e version c) ≡ x = ok-injective f₈ in
        ap (λ (k : ResumableRunHandle × LongRunDb). k.0) same

append_handle-updated :
    (outside : Surroundings) (call : RunCall) (db : LongRunDb)
    (current updated : ResumableRunHandle) (kind : EventType) (details : List Detail) (at : Stamp)
    (c : Option ProgressCheckpoint) (x : ResumableRunHandle × LongRunDb)
    → append_handle outside call db current updated kind details at c ≡ ok x
    → updated ≡ x.0
unfolding append_handle
append_handle-updated outside call db current updated kind details at c x returned =
    let (es, _, r₁) =
      >>=-eq-ok (from_store (run_history outside.digest db current.run_id)) _ returned in
    let (last, _, r₂) = >>=-eq-ok (last_event (get_last? es)) _ r₁ in
    let (_, r₃) = require-eq-ok (same_handle last.handle current) changed_projection _ r₂ in
    append_event-handle outside.digest db
      (build_long_run_event outside.digest updated kind (some last.record_hash) details at
        call.event_id)
      current.version c x
      (stored
        (append_event outside.digest db
          (build_long_run_event outside.digest updated kind (some last.record_hash) details at
            call.event_id)
          current.version c)
        x r₃)
  where
    stored :
        (r : Result LongRunError (ResumableRunHandle × LongRunDb))
        (y : ResumableRunHandle × LongRunDb)
        → from_store r ≡ ok y
        → r ≡ ok y
    stored (ok z) y h = ap ok (ok-injective h)
    stored (err e) y h = absurd cc

module _ (outside : Surroundings) where
  attempt_first-ok :
      {A : Type 0} (t : Tables) (r : Result ExecutionError A) (next : A → Answer ResumableRunHandle)
      (h : ResumableRunHandle)
      → (attempt_first outside t r next).0 ≡ ok h
      → (a : A) × (r ≡ ok a) × ((next a).0 ≡ ok h)
  attempt_first-ok t (ok a) next h returned = (a, refl, returned)
  attempt_first-ok t (err e) next h returned = absurd cc

  with_lease-ok :
      (t : Tables) (r : Result ExecutionError (WorkerLease × LeaseDb))
      (next : WorkerLease → Tables → Answer ResumableRunHandle) (h : ResumableRunHandle)
      → (with_lease outside t r next).0 ≡ ok h
      → (l : WorkerLease) × (t' : Tables) × ((next l t').0 ≡ ok h)
  with_lease-ok t (ok (l, db)) next h returned = (l, record t { leases = db }, returned)
  with_lease-ok t (err e) next h returned = absurd cc

  recorded-ok :
      (t : Tables) (r : Result ExecutionError (ResumableRunHandle × LongRunDb))
      (h : ResumableRunHandle)
      → (recorded outside t r).0 ≡ ok h
      → (db : LongRunDb) × (r ≡ ok (h, db))
  recorded-ok t (ok (h', db)) h returned =
      (db, ap (λ (k : ResumableRunHandle). ok (k, db)) (ok-injective returned))
  recorded-ok t (err e) h returned = absurd cc

  -- A run that `finish` has returned as completed.
  pub record IsSoundCompletion (o : ProviderRunObservation) (h : ResumableRunHandle) : Type 0 where
    pub reported : o.status ≡ run_completed
    pub within : exceeded hard h.policy.limits h.usage h.attempt_usage ≡ []

  terminal_status-completed :
      (s : ProviderRunStatus) (over : List LongRunBudgetDimension)
      → terminal_status s (not (is_empty over)) ≡ completed
      → (s ≡ run_completed) × (over ≡ [])
  terminal_status-completed run_completed [] h = (refl, refl)
  terminal_status-completed run_completed (d ∷ ds) h = absurd cc
  terminal_status-completed run_queued over h = absurd cc
  terminal_status-completed run_running over h = absurd cc
  terminal_status-completed run_failed over h = absurd cc
  terminal_status-completed run_cancelled over h = absurd cc
  terminal_status-completed run_missing over h = absurd cc

  -- When `finish` returns a completed run, the provider has reported that it is completed, and the
  -- usage that is kept with the run exceeds no hard limit of its policy.
  pub finish-IsSoundCompletion :
      (call : RunCall) (t : Tables) (id : String) (o : ProviderRunObservation)
      (h : ResumableRunHandle)
      → (finish outside call t id o).0 ≡ ok h
      → h.status ≡ completed
      → IsSoundCompletion o h
  unfolding finish
  finish-IsSoundCompletion call t id o h returned done =
      let ((before, u), _, r₁) = attempt_first-ok t (finishable outside t id o) _ h returned in
      let (lease, t', r₂) = with_lease-ok t (release_lease t.leases before o.observed_at) _ h r₁ in
      let (db, r₃) = recorded-ok t' _ h r₂ in
      let same =
        append_handle-updated outside call t'.runs before (finished_handle outside before o u lease)
          _ _ _ none (h, db) r₃ in
      let (reported, within) =
        terminal_status-completed o.status (hard_of outside before u)
          (ap (λ (k : ResumableRunHandle). k.status) same ∙ done) in
      record {
        reported = reported;
        within =
            subst
              (λ (k : ResumableRunHandle).
                exceeded hard k.policy.limits k.usage k.attempt_usage ≡ [])
              same within;
      }
