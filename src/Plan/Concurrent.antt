-- ===== src/Plan/Concurrent.antt =====
-- Requests that were made for the same revision of a plan, one after the other or interleaved.
use job_slayer.Base.{
  ℕ, ◌+◌, String, ◌≡◌, refl, sym, ap, subst, ◌∙◌, true, false, List, [], ◌∷◌, ◌++◌, Option, none,
  some, arith, length, length-append, get_last?, get_last?-snoc, ◌==◌, Result, ok, err, inl, inr,
  ◌≢◌,
}
use job_slayer.Plan.Record.{Entry, TaskPlanRevisionRecord, JournalError}
use job_slayer.Plan.Port.{TaskPlanStore, PlanningAgent}
use job_slayer.Plan.Changes.{
  OrchestrationError, stale_revision, not_found, journal_failed, Call, Change,
}
use job_slayer.Plan.Service.{
  Request, is_allowed, latest_of, history, get, expected, entry_of, commit, from_journal, requested,
  perform,
}
use job_slayer.Plan.Lineage.{IsNumbered-last, from_journal-eq-ok}
use job_slayer.Plan.Reached.{requested-IsNext}

module _ {S Env : Type 0} (store : TaskPlanStore S Env) where
  latest_of-ok :
      (rs : List TaskPlanRevisionRecord) (r : TaskPlanRevisionRecord)
      → get_last? rs ≡ some r
      → latest_of rs ≡ ok r
  latest_of-ok rs r last =
      ap (λ (o : Option TaskPlanRevisionRecord). elim o [ none ↦ err not_found | some q ↦ ok q ])
        last

  get-ok :
      (s : S) (plan_id : String) (rs : List TaskPlanRevisionRecord) (r : TaskPlanRevisionRecord)
      → store.history s plan_id ≡ ok rs
      → get_last? rs ≡ some r
      → get store s plan_id ≡ ok r
  unfolding get history
  get-ok s plan_id [] r read last = absurd (cc)
  get-ok s plan_id (q ∷ rs) r read last = rw read (latest_of-ok (q ∷ rs) r last)

  expected_stale :
      (s : S) (plan_id : String) (n : ℕ) (rs : List TaskPlanRevisionRecord)
      (r : TaskPlanRevisionRecord)
      → store.history s plan_id ≡ ok rs
      → get_last? rs ≡ some r
      → (r.sequence == n) ≡ false
      → expected store s plan_id n ≡ err stale_revision
  unfolding expected
  expected_stale s plan_id n rs r read last other = rw (get-ok s plan_id rs r read last, other) refl

  -- The last record of a history has the revision that follows those before it.
  entry_revision :
      (s : S) (plan_id : String) (rs : List TaskPlanRevisionRecord) (r : TaskPlanRevisionRecord)
      (e : Entry)
      → store.history s plan_id ≡ ok (rs ++ r ∷ [])
      → r.entry ≡ e
      → e.snapshot.revision ≡ length rs + 1
  entry_revision s plan_id rs r e read binds =
      let (counted, revision, _) =
        IsNumbered-last plan_id 1 (rs ++ r ∷ []) r (store.history_numbered s plan_id _ read)
          (get_last?-snoc rs r) in
      omega (
        arith,
        counted,
        revision,
        length-append rs (r ∷ []),
        ap (λ (k : Entry). k.snapshot.revision) binds,
      )

  module _ (agent : PlanningAgent) (actor_id : String) where
    -- A request for a revision that is not the latest raises and changes nothing.
    pub perform_stale :
        (env : Env) (call : Call) (s : S) (plan_id : String) (n : ℕ) (request : Request)
        (rs : List TaskPlanRevisionRecord) (r : TaskPlanRevisionRecord)
        → store.history s plan_id ≡ ok rs
        → get_last? rs ≡ some r
        → (r.sequence == n) ≡ false
        → is_allowed request ≡ true
        → perform store agent actor_id env call s plan_id n request ≡ (err stale_revision, s)
    unfolding perform
    perform_stale env call s plan_id n request rs r read last other allowed =
        rw (allowed, expected_stale s plan_id n rs r read last other) refl

    -- A request that returns has appended the next revision.
    pub record Appends (s s' : S) (plan_id : String) (n : ℕ) (r : TaskPlanRevisionRecord)
        : Type 0 where
      pub before : List TaskPlanRevisionRecord
      pub read : store.history s plan_id ≡ ok before
      pub extended : store.history s' plan_id ≡ ok (before ++ r ∷ [])
      pub numbered : r.sequence ≡ n + 1
      pub counted : length before ≡ n

    committed-Appends :
        (env : Env) (call : Call) (s : S) (plan_id : String) (n : ℕ) (request : Request)
        (r : TaskPlanRevisionRecord) (c : Change)
        → requested store agent actor_id call s plan_id n request ≡ c
        → (commit store agent actor_id env s c).0 ≡ ok r
        → Appends s (commit store agent actor_id env s c).1 plan_id n r
    committed-Appends env call s plan_id n request r (err e) made h = absurd (cc)
    committed-Appends env call s plan_id n request r (ok (next, o)) made h =
        let e = entry_of actor_id (next, o) in
        let (last, seen, follows) =
          requested-IsNext store agent actor_id call s plan_id n request next o made in
        let (counted, _, named) =
          IsNumbered-last plan_id 1 seen.records last
            (store.history_numbered s plan_id seen.records seen.read) seen.last in
        let here : next.plan_id ≡ plan_id = follows.same_plan ∙ named in
        let appended : (store.append env s e).0 ≡ ok r =
          from_journal-eq-ok store s plan_id (store.append env s e).0 r h in
        let extended =
          store.append_extends env s e r seen.records appended
            (subst (λ k. store.history s k ≡ ok seen.records) (sym here) seen.read) in
        let now : store.history (store.append env s e).1 plan_id ≡ ok (seen.records ++ r ∷ []) =
          subst (λ k. store.history (store.append env s e).1 k ≡ ok (seen.records ++ r ∷ [])) here
            extended in
        let (last_counted, _, _) =
          IsNumbered-last plan_id 1 (seen.records ++ r ∷ []) r
            (store.history_numbered _ plan_id _ now) (get_last?-snoc seen.records r) in
        record {
          before = seen.records;
          read = seen.read;
          extended = now;
          numbered =
              omega
                (arith, last_counted, length-append seen.records (r ∷ []), counted, seen.current);
          counted = omega (arith, counted, seen.current);
        }

    pub perform-Appends :
        (env : Env) (call : Call) (s : S) (plan_id : String) (n : ℕ) (request : Request)
        (r : TaskPlanRevisionRecord)
        → (perform store agent actor_id env call s plan_id n request).0 ≡ ok r
        → Appends s (perform store agent actor_id env call s plan_id n request).1 plan_id n r
    unfolding perform
    perform-Appends env call s plan_id n request r h =
        committed-Appends env call s plan_id n request r
          (requested store agent actor_id call s plan_id n request) refl h

    -- An append for a revision that the history of the plan is past raises, and leaves that
    -- history as it was.
    pub record IsRefused (s : S) (plan_id : String)
        (outcome : Result OrchestrationError TaskPlanRevisionRecord × S) : Type 0 where
      pub error : OrchestrationError
      pub raises : outcome.0 ≡ err error
      pub kept : store.history outcome.1 plan_id ≡ store.history s plan_id

    appended-IsRefused :
        (env : Env) (s : S) (e : Entry) (rs : List TaskPlanRevisionRecord)
        → store.history s e.snapshot.plan_id ≡ ok rs
        → e.snapshot.revision ≢ length rs + 1
        → (answer : Result JournalError TaskPlanRevisionRecord) → (store.append env s e).0 ≡ answer
        → IsRefused s e.snapshot.plan_id (from_journal answer, (store.append env s e).1)
    appended-IsRefused env s e rs read past (ok r) done = absurd (
        past (
          entry_revision _ e.snapshot.plan_id rs r e (store.append_extends env s e r rs done read)
            (store.append_binds env s e r done)))
    appended-IsRefused env s e rs read past (err f) done = record {
      error = journal_failed f;
      raises = refl;
      kept = elim (store.append_fails env s e f rs done read) [
        | inl same ↦ same ∙ sym read
        | inr (r, binds, extended) ↦
            absurd (past (entry_revision _ e.snapshot.plan_id rs r e extended binds))
      ];
    }

    committed-IsRefused :
        (env : Env) (call : Call) (s late : S) (plan_id : String) (n : ℕ) (request : Request)
        (rs : List TaskPlanRevisionRecord) (c : Change)
        → requested store agent actor_id call s plan_id n request ≡ c
        → store.history late plan_id ≡ ok rs
        → length rs ≡ n + 1
        → IsRefused late plan_id (commit store agent actor_id env late c)
    committed-IsRefused env call s late plan_id n request rs (err e) made read counted = record {
      error = e;
      raises = refl;
      kept = refl;
    }
    committed-IsRefused env call s late plan_id n request rs (ok (next, o)) made read counted =
        let e = entry_of actor_id (next, o) in
        let (last, seen, follows) =
          requested-IsNext store agent actor_id call s plan_id n request next o made in
        let (_, revision, named) =
          IsNumbered-last plan_id 1 seen.records last
            (store.history_numbered s plan_id seen.records seen.read) seen.last in
        let here : next.plan_id ≡ plan_id = follows.same_plan ∙ named in
        let past : next.revision ≢ length rs + 1 =
          λ h. omega (arith, h, follows.next_revision, revision, seen.current, counted) in
        subst (λ k. IsRefused late k (commit store agent actor_id env late (ok (next, o)))) here
          (appended-IsRefused env late e rs
            (subst (λ k. store.history late k ≡ ok rs) (sym here) read) past
            (store.append env late e).0 refl)

    -- Let a request for a revision of a plan have returned. A second request for that revision,
    -- which is not a split with a relation that a split does not have, raises
    -- StaleTaskPlanRevisionError and changes nothing when it begins after the first has returned.
    -- When it has read the plan and made its change before the first one's append, and appends
    -- after it, it raises, and the history of the plan is as the first has left it.
    pub perform-one_winner :
        (env env' : Env) (call call' : Call) (s : S) (plan_id : String) (n : ℕ)
        (request request' : Request) (r : TaskPlanRevisionRecord)
        → (perform store agent actor_id env call s plan_id n request).0 ≡ ok r
        → is_allowed request' ≡ true
        → let s' = (perform store agent actor_id env call s plan_id n request).1 in
          (perform store agent actor_id env' call' s' plan_id n request' ≡ (err stale_revision, s'))
          × IsRefused s' plan_id (
              commit store agent actor_id env' s'
                (requested store agent actor_id call' s plan_id n request'))
    perform-one_winner env env' call call' s plan_id n request request' r h allowed =
        let a = perform-Appends env call s plan_id n request r h in
        (
          perform_stale env' call' _ plan_id n request' (a.before ++ r ∷ []) r a.extended
              (get_last?-snoc a.before r) (ground (arith, a.numbered)) allowed,
          committed-IsRefused env' call' s _ plan_id n request' (a.before ++ r ∷ [])
              (requested store agent actor_id call' s plan_id n request') refl a.extended
              (omega (arith, length-append a.before (r ∷ []), a.counted)),
        )
