-- ===== src/Leases/Reload.antt =====
-- When a renewed lease can be read again.
use job_slayer.Base.{
  ℕ, ◌+◌, ◌≤◌, String, ◌≡◌, refl, ap, ◌∙◌, Bool, true, some, arith, if◌then◌else◌, eq_refl, ok, err,
  leb, ltb,
}
use job_slayer.Leases.{Stamp, WorkerLease, is_valid, invalid_persistence, add_seconds}
use job_slayer.Leases.Table.{LeaseDb, find, loaded, decode, load_for_update}
use job_slayer.Leases.Store.{CallTime, heartbeat}
use job_slayer.Leases.Rows.{find-id}
use job_slayer.Leases.Life.{find-Changes}
use job_slayer.Leases.Methods.{heartbeat-Renews}

-- Whether the last heartbeat is at or after the acquisition.
abbrev pub is_forward : WorkerLease → Bool
is_forward l = leb l.acquired_at.instant l.last_heartbeat_at.instant

later-than :
    (t : Stamp) (seconds : ℕ) → 1 ≤ seconds → ltb t.instant (add_seconds t seconds).instant ≡ true
later-than t seconds h = ground arith

renewed-is_valid :
    (old new : WorkerLease) (seconds : ℕ)
    → is_valid old ≡ true
    → new.lease_id ≡ old.lease_id
    → new.worker_id ≡ old.worker_id
    → new.run_id ≡ old.run_id
    → new.version ≡ old.version + 1
    → new.expires_at ≡ add_seconds new.last_heartbeat_at seconds
    → 1 ≤ seconds
    → is_valid new ≡ is_forward new
unfolding is_valid
renewed-is_valid old new seconds valid id worker run version expires long =
    rw (id, worker, run, version, expires)
      (ground (arith, valid, later-than new.last_heartbeat_at seconds long))

loaded-some :
    (l : WorkerLease) (v : ℕ)
    → l.version ≡ v
    → loaded (some l) v ≡ (if is_valid l then ok l else err invalid_persistence)
unfolding decode
loaded-some l v h = ground (arith, h)

-- The lease that a successful heartbeat has stored loads for an update at its new version when the
-- heartbeat is not before the acquisition; otherwise that load fails as invalid persistence.
pub heartbeat-reload :
    (db db' : LeaseDb) (id : String) (expected seconds : ℕ) (time : CallTime) (new : WorkerLease)
    → heartbeat db id expected seconds time ≡ ok (new, db')
    → load_for_update db' id (expected + 1) ≡ (
        if leb new.acquired_at.instant new.last_heartbeat_at.instant
        then ok new
        else err invalid_persistence)
unfolding load_for_update
heartbeat-reload db db' id expected seconds time new h =
    let r = heartbeat-Renews db db' id expected seconds time new h in
    let u = r.updates in
    let c = u.changes in
    let named : new.lease_id ≡ id = c.same_id ∙ find-id id db.leases r.old u.found in
    let there : find id db'.leases ≡ some new = find-Changes c id ∙ rw (named, eq_refl id) refl in
    let next : new.version ≡ expected + 1 = c.next_version ∙ ap (λ k. k + 1) u.version in
    let valid =
      renewed-is_valid r.old new seconds u.valid c.same_id r.same_worker c.same_run c.next_version
        r.renewed r.bounded.0 in
    ap (λ o. loaded o (expected + 1)) there
    ∙ loaded-some new (expected + 1) next
    ∙ ap (λ b. if b then ok new else err invalid_persistence) valid
