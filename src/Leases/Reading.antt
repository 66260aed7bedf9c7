-- ===== src/Leases/Reading.antt =====
-- `recover_orphans`, `get` and `events` of `SqliteWorkerLeaseStore`. `iso_le` stands for the SQL
-- test `expires_at <= ?`, which compares the ISO texts of two times.
use Prim.Native.Nat.{Ordering}
use Prim.Native.String.{compare}
use job_slayer.Base.{
  ℕ, suc, ◌+◌, String, Bool, true, false, ◌&&◌, List, [], ◌∷◌, Option, none, some, leb, ◌==◌,
  if◌then◌else◌, str_eq, Result, ok, require, ◌>>◌, ◌>>=◌, sort_by,
}
use job_slayer.Leases.{Stamp, expired, is_open, WorkerLease, LeaseError, not_contiguous, when_of}
use job_slayer.Leases.Table.{expiry_recorded, LeaseDb, LeaseEvent, find, decode, update}
use job_slayer.Leases.Store.{CallTime}

abbrev pub is_text_le : String → String → Bool
is_text_le a b = elim (compare a b) [ Ordering.gt ↦ false | _ ↦ true ]

abbrev pub is_orphan : (Stamp → Stamp → Bool) → Stamp → WorkerLease → Bool
is_orphan iso_le when l = is_open l.status && iso_le l.expires_at when

abbrev pub orphans : (Stamp → Stamp → Bool) → Stamp → List WorkerLease → List WorkerLease
orphans iso_le when [] = []
orphans iso_le when (l ∷ ls) =
    let rest = orphans iso_le when ls in if is_orphan iso_le when l then l ∷ rest else rest

abbrev pub as_expired : WorkerLease → WorkerLease
as_expired l = record l { status = expired; version = l.version + 1 }

-- The loop over the selected rows.
unfoldable pub expire_rows :
    LeaseDb → List WorkerLease → Result LeaseError (List WorkerLease × LeaseDb)
expire_rows db [] = ok ([], db)
expire_rows db (row ∷ rows) = do
  current ← decode row
  db' ← update db (as_expired current) current.version expiry_recorded
  rest ← expire_rows db' rows
  ok (as_expired current ∷ rest.0, rest.1)

unfoldable pub recover_orphans :
    (Stamp → Stamp → Bool) → LeaseDb → CallTime → Result LeaseError (List WorkerLease × LeaseDb)
unfolding when_of expire_rows
recover_orphans iso_le db time = do
  when ← when_of time.now time.clock
  expire_rows db (sort_by (λ a b. is_text_le a.lease_id b.lease_id) (orphans iso_le when db.leases))

abbrev pub decoded : Option WorkerLease → Result LeaseError (Option WorkerLease)
decoded none = ok none
decoded (some row) = do l ← decode row; ok (some l)

unfoldable pub get : LeaseDb → String → Result LeaseError (Option WorkerLease)
get db id = decoded (find id db.leases)

abbrev pub events_of : String → List LeaseEvent → List WorkerLease
events_of id [] = []
events_of id (e ∷ es) =
    let rest = events_of id es in if str_eq e.lease.lease_id id then e.lease ∷ rest else rest

abbrev pub decode_all : List WorkerLease → Result LeaseError (List WorkerLease)
decode_all [] = ok []
decode_all (row ∷ rows) = do l ← decode row; ls ← decode_all rows; ok (l ∷ ls)

-- The versions are `1, 2, ..., len(records)`.
abbrev pub is_numbered : ℕ → List WorkerLease → Bool
is_numbered n [] = true
is_numbered n (l ∷ ls) = l.version == n && is_numbered (suc n) ls

unfoldable pub events : LeaseDb → String → Result LeaseError (List WorkerLease)
events db id = do
  records ← decode_all (sort_by (λ a b. leb a.version b.version) (events_of id db.events))
  require (is_numbered 1 records) not_contiguous
  ok records
