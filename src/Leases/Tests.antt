-- ===== src/Leases/Tests.antt =====
-- The lease theorems at concrete tables.
use job_slayer.Base.{
  ℕ, ◌≡◌, refl, Bool, List, [], ◌∷◌, some, Result, ok, err, arith, ◌*◌, leb, is_identifier,
}
use job_slayer.Time.{Stamp, aware}
use job_slayer.Leases.{WorkerLease, is_valid, LeaseError, invalid_persistence}
use job_slayer.Leases.Table.{
  LeaseDb, acquired, find, row_count, replace, last_event, has_event, has_open, decode,
  append_event, update, load_for_update,
}
use job_slayer.Leases.Store.{CallTime, acquire, heartbeat, request_cancel, release, new_lease}
use job_slayer.Leases.Reading.{expire_rows, recover_orphans, as_expired}
use job_slayer.Leases.Life.{IsConsistent}
use job_slayer.Leases.Methods.{
  Renews, heartbeat-Renews, Cancels, request_cancel-Cancels, Releases, release-Releases,
}
use job_slayer.Leases.Acquire.{
  Acquires, acquire-Acquires, acquire-IsConsistent, heartbeat-IsConsistent,
}
use job_slayer.Leases.Recovery.{Recovers, recover_orphans-Recovers}
use job_slayer.Leases.Reload.{heartbeat-reload}

abbrev at : ℕ → Stamp
at n = record { instant = n * 1000000; offset = 0 }

abbrev calling : ℕ → CallTime
calling n = record { now = some (aware (at n)); clock = at 0 }

abbrev no_leases : LeaseDb
no_leases = record { leases = []; events = [] }

-- A lease of a minute, acquired at second 100.
abbrev first_lease : WorkerLease
first_lease = new_lease "lease-1" "worker-a" "run-1" 60 (at 100)

abbrev one_lease : LeaseDb
one_lease = record {
  leases = first_lease ∷ [];
  events = record { event_type = acquired; lease = first_lease } ∷ [];
}

abbrev of_answer : Result LeaseError (WorkerLease × LeaseDb) → WorkerLease × LeaseDb
of_answer (ok p) = p
of_answer (err e) = (first_lease, no_leases)

no_leases-IsConsistent : IsConsistent no_leases
unfolding find last_event
no_leases-IsConsistent = record {
  one_row = λ i. omega arith;
  one_open = λ r. omega arith;
  mirrored = λ i. refl;
}

first_acquired :
    acquire no_leases "lease-1" "worker-a" "run-1" 60 (calling 100) ≡ ok (first_lease, one_lease)
unfolding acquire is_valid is_identifier find has_open has_event
first_acquired = refl

acquire-Acquires_example : Acquires no_leases one_lease "run-1" 60 first_lease
acquire-Acquires_example =
    acquire-Acquires no_leases one_lease "lease-1" "worker-a" "run-1" 60 (calling 100) first_lease
      first_acquired

acquire-IsConsistent_example : IsConsistent one_lease
acquire-IsConsistent_example =
    acquire-IsConsistent no_leases one_lease "lease-1" "worker-a" "run-1" 60 (calling 100)
      first_lease first_acquired no_leases-IsConsistent

one_lease-IsConsistent : IsConsistent one_lease
one_lease-IsConsistent =
    acquire-IsConsistent no_leases one_lease "lease-1" "worker-a" "run-1" 60 (calling 100)
      first_lease first_acquired no_leases-IsConsistent

abbrev renewed : WorkerLease × LeaseDb
unfolding heartbeat load_for_update update find decode is_valid is_identifier row_count replace
    append_event has_event
renewed = of_answer (heartbeat one_lease "lease-1" 1 30 (calling 130))

was_renewed : heartbeat one_lease "lease-1" 1 30 (calling 130) ≡ ok (renewed.0, renewed.1)
unfolding heartbeat load_for_update update find decode is_valid is_identifier row_count replace
    append_event has_event
was_renewed = refl

heartbeat-Renews_example : Renews one_lease renewed.1 "lease-1" 1 30 (calling 130) renewed.0
heartbeat-Renews_example =
    heartbeat-Renews one_lease renewed.1 "lease-1" 1 30 (calling 130) renewed.0 was_renewed

heartbeat-IsConsistent_example : IsConsistent renewed.1
heartbeat-IsConsistent_example =
    heartbeat-IsConsistent one_lease renewed.1 "lease-1" 1 30 (calling 130) renewed.0 was_renewed
      one_lease-IsConsistent

-- A heartbeat whose `now` is before the acquisition.
abbrev renewed_early : WorkerLease × LeaseDb
unfolding heartbeat load_for_update update find decode is_valid is_identifier row_count replace
    append_event has_event
renewed_early = of_answer (heartbeat one_lease "lease-1" 1 30 (calling 90))

was_renewed_early :
    heartbeat one_lease "lease-1" 1 30 (calling 90) ≡ ok (renewed_early.0, renewed_early.1)
unfolding heartbeat load_for_update update find decode is_valid is_identifier row_count replace
    append_event has_event
was_renewed_early = refl

heartbeat-reload_example : load_for_update renewed_early.1 "lease-1" 2 ≡ err invalid_persistence
unfolding renewed_early
heartbeat-reload_example =
    heartbeat-reload one_lease renewed_early.1 "lease-1" 1 30 (calling 90) renewed_early.0
      was_renewed_early

abbrev cancelling : WorkerLease × LeaseDb
unfolding request_cancel load_for_update update find decode is_valid is_identifier row_count replace
    append_event has_event
cancelling = of_answer (request_cancel one_lease "lease-1" 1 (calling 130))

was_cancelled : request_cancel one_lease "lease-1" 1 (calling 130) ≡ ok (cancelling.0, cancelling.1)
unfolding request_cancel load_for_update update find decode is_valid is_identifier row_count replace
    append_event has_event
was_cancelled = refl

request_cancel-Cancels_example :
    Cancels one_lease cancelling.1 "lease-1" 1 (calling 130) cancelling.0
request_cancel-Cancels_example =
    request_cancel-Cancels one_lease cancelling.1 "lease-1" 1 (calling 130) cancelling.0
      was_cancelled

abbrev released_late : WorkerLease × LeaseDb
unfolding release load_for_update update find decode is_valid is_identifier row_count replace
    append_event has_event
released_late = of_answer (release one_lease "lease-1" 1 (calling 500))

was_released : release one_lease "lease-1" 1 (calling 500) ≡ ok (released_late.0, released_late.1)
unfolding release load_for_update update find decode is_valid is_identifier row_count replace
    append_event has_event
was_released = refl

release-Releases_example : Releases one_lease released_late.1 "lease-1" 1 released_late.0
release-Releases_example =
    release-Releases one_lease released_late.1 "lease-1" 1 (calling 500) released_late.0
      was_released

abbrev by_instant : Stamp → Stamp → Bool
by_instant a b = leb a.instant b.instant

abbrev swept_db : Result LeaseError (List WorkerLease × LeaseDb) → LeaseDb
swept_db (ok p) = p.1
swept_db (err e) = no_leases

abbrev recovered_db : LeaseDb
unfolding recover_orphans expire_rows update decode is_valid is_identifier row_count replace
    append_event has_event
recovered_db = swept_db (recover_orphans by_instant one_lease (calling 160))

was_recovered :
    recover_orphans by_instant one_lease (calling 160)
    ≡ ok (as_expired first_lease ∷ [], recovered_db)
unfolding recover_orphans expire_rows update decode is_valid is_identifier row_count replace
    append_event has_event
was_recovered = refl

recover_orphans-Recovers_example : Recovers by_instant (at 160) one_lease recovered_db
recover_orphans-Recovers_example =
    recover_orphans-Recovers by_instant one_lease recovered_db (at 160) (at 0)
      (as_expired first_lease ∷ []) one_lease-IsConsistent was_recovered
