-- ===== src/Leases/Acquire.antt =====
-- What `acquire` establishes, and the consistency of the table under each writing method.
use job_slayer.Base.{
  ℕ, String, ◌≡◌, refl, sym, ◌∙◌, true, false, List, [], ◌∷◌, Option, none, some, arith, str_eq,
  eq_iff, ok, require, >>=-eq-ok, ok-injective, Bool-cases, inl, inr, subst,
}
use job_slayer.Leases.{
  active, WorkerLease, is_valid, when_of, add_seconds, invalid_lease, already_live,
}
use job_slayer.Leases.Table.{LeaseDb, find, last_event, has_open, is_present, acquired}
use job_slayer.Leases.Store.{
  CallTime, acquire, heartbeat, request_cancel, release, new_lease, is_insertable, require_duration,
}
use job_slayer.Leases.Rows.{id_count, open_count}
use job_slayer.Leases.Life.{IsConsistent, Changes-IsConsistent}
use job_slayer.Leases.Methods.{heartbeat-Renews, request_cancel-Cancels, release-Releases}

-- What an acquisition establishes.
pub record Acquires (db db' : LeaseDb) (run : String) (seconds : ℕ) (new : WorkerLease)
    : Type 0 where
  pub fresh : find new.lease_id db.leases ≡ none
  pub was_free : has_open run db.leases ≡ false
  pub on_run : new.run_id ≡ run
  pub is_active : new.status ≡ active
  pub first : new.version ≡ 1
  pub lasts : new.expires_at ≡ add_seconds new.acquired_at seconds
  pub valid : is_valid new ≡ true
  pub rows : db'.leases ≡ new ∷ db.leases
  pub log : db'.events ≡ record { event_type = acquired; lease = new } ∷ db.events

is_present-none : (o : Option WorkerLease) → is_present o ≡ false → o ≡ none
is_present-none none h = refl
is_present-none (some l) h = cc

-- A lease is granted only for a run without an open lease; it is active, valid, and lasts as long
-- as it was asked to.
pub acquire-Acquires :
    (db db' : LeaseDb) (id worker run : String) (seconds : ℕ) (time : CallTime) (new : WorkerLease)
    → acquire db id worker run seconds time ≡ ok (new, db')
    → Acquires db db' run seconds new
unfolding acquire
acquire-Acquires db db' id worker run seconds time new h =
    let (when, timed, h₁) = >>=-eq-ok (when_of time.now time.clock) _ h in
    let (_, duration, h₂) = >>=-eq-ok (require_duration seconds) _ h₁ in
    let lease = new_lease id worker run seconds when in
    let (_, valid, h₃) = >>=-eq-ok (require (is_valid lease) invalid_lease) _ h₂ in
    let (_, free, h₄) = >>=-eq-ok (require (is_insertable db lease) already_live) _ h₃ in
    subst (λ (p : WorkerLease × LeaseDb). Acquires db p.1 run seconds p.0) (ok-injective h₄)
      (record {
        fresh = is_present-none (find id db.leases) (ground arith);
        was_free = ground arith;
        on_run = refl;
        is_active = refl;
        first = refl;
        lasts = refl;
        valid = ground arith;
        rows = refl;
        log = refl;
      })

id_count_of_none : (i : String) (ls : List WorkerLease) → find i ls ≡ none → id_count i ls ≡ 0
unfolding find
id_count_of_none i [] h = refl
id_count_of_none i (l ∷ ls) h = ground (arith, id_count_of_none i ls)

open_count_of_free :
    (r : String) (ls : List WorkerLease) → has_open r ls ≡ false → open_count r ls ≡ 0
unfolding has_open
open_count_of_free r [] h = refl
open_count_of_free r (l ∷ ls) h = ground (arith, open_count_of_free r ls)

-- Granting a lease keeps the table consistent.
pub acquire-IsConsistent :
    (db db' : LeaseDb) (id worker run : String) (seconds : ℕ) (time : CallTime) (new : WorkerLease)
    → acquire db id worker run seconds time ≡ ok (new, db')
    → IsConsistent db
    → IsConsistent db'
unfolding last_event find
acquire-IsConsistent db db' id worker run seconds time new h inv =
    let a = acquire-Acquires db db' id worker run seconds time new h in
    record {
      one_row = λ i. rw a.rows (elim (Bool-cases (str_eq new.lease_id i)) [
        | inl same ↦
            let none_yet =
              id_count_of_none i db.leases
                (subst (λ k. find k db.leases ≡ none) ((eq_iff new.lease_id i).0 same) a.fresh) in
            ground (arith, none_yet)
        | inr other ↦ ground (arith, other, inv.one_row i)
      ]);
      one_open = λ r. rw a.rows (elim (Bool-cases (str_eq new.run_id r)) [
        | inl same ↦
            let none_yet = open_count_of_free r db.leases (
              subst (λ k. has_open k db.leases ≡ false)
                (sym a.on_run ∙ (eq_iff new.run_id r).0 same) a.was_free) in
            ground (arith, none_yet)
        | inr other ↦ ground (arith, other, inv.one_open r)
      ]);
      mirrored = λ i. rw (a.rows, a.log) (ground (arith, inv.mirrored i));
    }

-- A heartbeat that returns keeps the table consistent.
pub heartbeat-IsConsistent :
    (db db' : LeaseDb) (id : String) (expected seconds : ℕ) (time : CallTime) (new : WorkerLease)
    → heartbeat db id expected seconds time ≡ ok (new, db')
    → IsConsistent db
    → IsConsistent db'
heartbeat-IsConsistent db db' id expected seconds time new h =
    Changes-IsConsistent (heartbeat-Renews db db' id expected seconds time new h).updates.changes

-- A cancellation that returns keeps the table consistent.
pub request_cancel-IsConsistent :
    (db db' : LeaseDb) (id : String) (expected : ℕ) (time : CallTime) (new : WorkerLease)
    → request_cancel db id expected time ≡ ok (new, db')
    → IsConsistent db
    → IsConsistent db'
request_cancel-IsConsistent db db' id expected time new h =
    Changes-IsConsistent (request_cancel-Cancels db db' id expected time new h).updates.changes

-- A release that returns keeps the table consistent.
pub release-IsConsistent :
    (db db' : LeaseDb) (id : String) (expected : ℕ) (time : CallTime) (new : WorkerLease)
    → release db id expected time ≡ ok (new, db')
    → IsConsistent db
    → IsConsistent db'
release-IsConsistent db db' id expected time new h =
    Changes-IsConsistent (release-Releases db db' id expected time new h).updates.changes
