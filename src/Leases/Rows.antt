-- ===== src/Leases/Rows.antt =====
-- Lemmas on the rows of the lease table: what an update does to lookups and counts.
use job_slayer.Base.{
  ℕ, ◌+◌, ◌≤◌, String, ◌≡◌, refl, ap, true, false, ◌&&◌, List, [], ◌∷◌, Option, none, some, arith,
  ◌==◌, if◌then◌else◌, str_eq, eq_iff, ok, Bool-cases, inl, inr,
}
use job_slayer.Leases.{WorkerLease, is_open, is_valid}
use job_slayer.Leases.Table.{
  EventType, LeaseDb, find, replace, decode, loaded, load_for_update, update,
}

-- How many rows have an identifier, and how many rows of a run are open.
abbrev pub id_count : String → List WorkerLease → ℕ
id_count i [] = 0
id_count i (l ∷ ls) = (if str_eq l.lease_id i then 1 else 0) + id_count i ls

abbrev weight : String → WorkerLease → ℕ
weight r l = if str_eq l.run_id r && is_open l.status then 1 else 0

abbrev pub open_count : String → List WorkerLease → ℕ
open_count r [] = 0
open_count r (l ∷ ls) = weight r l + open_count r ls

pub id_count-replace :
    (i : String) (new : WorkerLease) (v : ℕ) (ls : List WorkerLease)
    → id_count i (replace new v ls) ≡ id_count i ls
unfolding replace
id_count-replace i new v [] = refl
id_count-replace i new v (l ∷ ls) = ground (
  arith,
  id_count-replace i new v ls,
  eq_iff l.lease_id new.lease_id,
  eq_iff l.lease_id i,
  eq_iff new.lease_id i,
)

abbrev pub replaced : WorkerLease → ℕ → String → Option WorkerLease → Option WorkerLease
replaced new v i none = none
replaced new v i (some l) = if str_eq new.lease_id i && l.version == v then some new else some l

pub find-replace :
    (i : String) (new : WorkerLease) (v : ℕ) (ls : List WorkerLease)
    → find i (replace new v ls) ≡ replaced new v i (find i ls)
unfolding find replace
find-replace i new v [] = refl
find-replace i new v (l ∷ ls) = ground (
  arith,
  find-replace i new v ls,
  eq_iff l.lease_id new.lease_id,
  eq_iff l.lease_id i,
  eq_iff new.lease_id i,
)

pub replaced_other :
    (new : WorkerLease) (v : ℕ) (i : String) (o : Option WorkerLease)
    → str_eq new.lease_id i ≡ false
    → replaced new v i o ≡ (if str_eq new.lease_id i then some new else o)
replaced_other new v i none h = ground arith
replaced_other new v i (some l) h = ground arith

find-none : (i : String) (ls : List WorkerLease) → id_count i ls ≡ 0 → find i ls ≡ none
unfolding find
find-none i [] h = refl
find-none i (l ∷ ls) h = ground (arith, find-none i ls)

replace_absent :
    (new : WorkerLease) (v : ℕ) (ls : List WorkerLease)
    → id_count new.lease_id ls ≡ 0
    → replace new v ls ≡ ls
unfolding replace
replace_absent new v [] h = refl
replace_absent new v (l ∷ ls) h = ground (arith, replace_absent new v ls)

weight-le :
    (r : String) (new old : WorkerLease)
    → new.run_id ≡ old.run_id
    → (is_open new.status ≡ true → is_open old.status ≡ true)
    → weight r new ≤ weight r old
weight-le r new old run opens = elim (Bool-cases (is_open new.status)) [
  | inl open_now ↦ ground (arith, opens open_now, ap (λ t. str_eq t r) run)
  | inr closed ↦ ground (arith, closed)
]

-- Updating the only row of an identifier, within its run and without reopening it, adds no open row.
pub open_count-replace :
    (r : String) (new old : WorkerLease) (v : ℕ) (ls : List WorkerLease)
    → find new.lease_id ls ≡ some old
    → id_count new.lease_id ls ≤ 1
    → new.run_id ≡ old.run_id
    → (is_open new.status ≡ true → is_open old.status ≡ true)
    → open_count r (replace new v ls) ≤ open_count r ls
unfolding find replace
open_count-replace r new old v [] found one run opens = cc
open_count-replace r new old v (l ∷ ls) found one run opens =
    elim (Bool-cases (str_eq l.lease_id new.lease_id)) [
      | inl here ↦
          let rest : replace new v ls ≡ ls = replace_absent new v ls (ground arith) in
          let same : l ≡ old = ground arith in
          ground (arith, rest, same, weight-le r new l (cc) (λ o. rw same (opens o)))
      | inr other ↦ ground (arith, open_count-replace r new old v ls)
    ]

loaded-ok :
    (o : Option WorkerLease) (v : ℕ) (l : WorkerLease)
    → loaded o v ≡ ok l
    → (o ≡ some l) × (l.version ≡ v) × (is_valid l ≡ true)
unfolding decode
loaded-ok none v l h = cc
loaded-ok (some row) v l h = (ground arith, ground arith, ground arith)

-- A row is loaded for an update only when it is there, is well formed, and has the version that
-- the caller expects.
pub load_for_update-ok :
    (db : LeaseDb) (id : String) (v : ℕ) (l : WorkerLease)
    → load_for_update db id v ≡ ok l
    → (find id db.leases ≡ some l) × (l.version ≡ v) × (is_valid l ≡ true)
unfolding load_for_update
load_for_update-ok db id v l h = loaded-ok (find id db.leases) v l h

pub find-id :
    (id : String) (ls : List WorkerLease) (l : WorkerLease) → find id ls ≡ some l → l.lease_id ≡ id
unfolding find
find-id id [] l h = cc
find-id id (x ∷ ls) l h = ground (arith, find-id id ls l, eq_iff x.lease_id id)

pub update-ok :
    (db db' : LeaseDb) (new : WorkerLease) (v : ℕ) (kind : EventType)
    → update db new v kind ≡ ok db'
    → (db'.leases ≡ replace new v db.leases)
      × (db'.events ≡ record { event_type = kind; lease = new } ∷ db.events)
unfolding update
update-ok db db' new v kind h = (ground arith, ground arith)
