-- ===== src/Leases/Life.antt =====
-- What holds of the lease table between two calls, and the change of one row.
use native.Mathlib.Nat.{le_trans}
use job_slayer.Base.{
  ◌+◌, ◌≤◌, String, ◌≡◌, ap, true, false, some, arith, if◌then◌else◌, str_eq, eq_iff, Bool-cases,
  inl, inr, subst,
}
use job_slayer.Leases.{WorkerLease, is_open}
use job_slayer.Leases.Table.{LeaseDb, find, replace, last_event}
use job_slayer.Leases.Rows.{
  id_count, open_count, id_count-replace, find-replace, replaced_other, open_count-replace,
}

-- Identifiers are unique, a run has at most one open lease, and the newest event of each lease
-- is its row.
pub record IsConsistent (db : LeaseDb) : Type 0 where
  pub one_row : (i : String) → id_count i db.leases ≤ 1
  pub one_open : (run : String) → open_count run db.leases ≤ 1
  pub mirrored : (i : String) → last_event i db.events ≡ find i db.leases

-- One row becomes `new`, which keeps its identifier and its run, has the next version, and is open
-- only if the row was.
pub record Changes (db db' : LeaseDb) (old new : WorkerLease) : Type 0 where
  pub was : find new.lease_id db.leases ≡ some old
  pub same_id : new.lease_id ≡ old.lease_id
  pub same_run : new.run_id ≡ old.run_id
  pub next_version : new.version ≡ old.version + 1
  pub not_reopened : is_open new.status ≡ true → is_open old.status ≡ true
  pub rows : db'.leases ≡ replace new old.version db.leases
  pub log : last_event new.lease_id db'.events ≡ some new
  pub other_log :
      (i : String)
      → str_eq new.lease_id i ≡ false
      → last_event i db'.events ≡ last_event i db.events

-- After a change the table differs in the row of `new` alone.
pub find-Changes :
    {db db' : LeaseDb} {old new : WorkerLease}
    → Changes db db' old new
    → (i : String)
    → find i db'.leases ≡ (if str_eq new.lease_id i then some new else find i db.leases)
find-Changes {db} {db'} {old} {new} change i =
    rw (change.rows, find-replace i new old.version db.leases)
      (elim (Bool-cases (str_eq new.lease_id i)) [
        | inl same ↦
            let here : find i db.leases ≡ some old =
              subst (λ k. find k db.leases ≡ some old) ((eq_iff new.lease_id i).0 same)
                change.was in
            rw (here, same) (ground arith)
        | inr other ↦ replaced_other new old.version i (find i db.leases) other
      ])

pub Changes-IsConsistent :
    {db db' : LeaseDb} {old new : WorkerLease}
    → Changes db db' old new
    → IsConsistent db
    → IsConsistent db'
Changes-IsConsistent {db} {db'} {old} {new} change h = record {
  one_row = λ i. rw change.rows (rw (id_count-replace i new old.version db.leases) (h.one_row i));
  one_open = λ r. rw change.rows (
      le_trans
        (open_count-replace r new old old.version db.leases change.was (h.one_row new.lease_id)
          change.same_run change.not_reopened)
        (h.one_open r));
  mirrored = λ i. elim (Bool-cases (str_eq new.lease_id i)) [
    | inl same ↦ ground (
      arith,
      same,
      find-Changes change i,
      change.log,
      ap (λ k. last_event k db'.events) ((eq_iff new.lease_id i).0 same),
    )
    | inr other ↦
        ground (arith, other, find-Changes change i, change.other_log i other, h.mirrored i)
  ];
}
