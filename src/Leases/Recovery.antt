-- ===== src/Leases/Recovery.antt =====
-- `recover_orphans`: the rows that it selects, and what its loop leaves of them.
use native.Mathlib.Nat.{le_trans}
use job_slayer.Base.{
  ◌≤◌, String, ◌≡◌, refl, sym, ap, ◌∙◌, Bool, List, [], ◌∷◌, Option, none, some, arith,
  if◌then◌else◌, str_eq, eq_iff, eq_refl, ok, >>=-eq-ok, ok-injective, Bool-cases, inl, inr, subst,
  insert_by, sort_by,
}
use job_slayer.Leases.{Stamp, aware, WorkerLease}
use job_slayer.Leases.Table.{LeaseDb, find, decode, update, expiry_recorded, last_event}
use job_slayer.Leases.Reading.{
  is_orphan, orphans, as_expired, expire_rows, recover_orphans, is_text_le,
}
use job_slayer.Leases.Rows.{id_count, update-ok}
use job_slayer.Leases.Life.{IsConsistent, Changes, find-Changes, Changes-IsConsistent}

-- No two rows have one identifier.
abbrev Distinct : List WorkerLease → Type 0
Distinct ls = (i : String) → id_count i ls ≤ 1

find_of_count : (i : String) (ls : List WorkerLease) → id_count i ls ≡ 0 → find i ls ≡ none
unfolding find
find_of_count i [] h = refl
find_of_count i (l ∷ ls) h = ground (arith, find_of_count i ls)

Distinct-tail : (l : WorkerLease) (ls : List WorkerLease) → Distinct (l ∷ ls) → Distinct ls
Distinct-tail l ls h i = omega (arith, h i)

head_only :
    (l : WorkerLease) (ls : List WorkerLease) → Distinct (l ∷ ls) → id_count l.lease_id ls ≡ 0
head_only l ls h = ground (arith, h l.lease_id, eq_refl l.lease_id)

module _ (le : WorkerLease → WorkerLease → Bool) where
  id_count-insert_by :
      (i : String) (a : WorkerLease) (ls : List WorkerLease)
      → id_count i (insert_by le a ls) ≡ id_count i (a ∷ ls)
  id_count-insert_by i a [] = refl
  id_count-insert_by i a (l ∷ ls) = ground (arith, id_count-insert_by i a ls)

  find-insert_by :
      (i : String) (a : WorkerLease) (ls : List WorkerLease)
      → id_count a.lease_id ls ≡ 0
      → find i (insert_by le a ls) ≡ find i (a ∷ ls)
  unfolding find
  find-insert_by i a [] h = refl
  find-insert_by i a (l ∷ ls) h = ground (
    arith,
    find-insert_by i a ls,
    eq_iff l.lease_id a.lease_id,
    eq_iff l.lease_id i,
    eq_iff a.lease_id i,
  )

  id_count-sort_by :
      (i : String) (ls : List WorkerLease) → id_count i (sort_by le ls) ≡ id_count i ls
  id_count-sort_by i [] = refl
  id_count-sort_by i (l ∷ ls) =
      id_count-insert_by i l (sort_by le ls) ∙ omega (arith, id_count-sort_by i ls)

  find-sort_by :
      (i : String) (ls : List WorkerLease) → Distinct ls → find i (sort_by le ls) ≡ find i ls
  unfolding find
  find-sort_by i [] h = refl
  find-sort_by i (l ∷ ls) h =
      find-insert_by i l (sort_by le ls) (id_count-sort_by l.lease_id ls ∙ head_only l ls h)
      ∙ ground (arith, find-sort_by i ls (Distinct-tail l ls h))

module _ (iso_le : Stamp → Stamp → Bool) (when : Stamp) where
  abbrev pub if_orphan : Option WorkerLease → Option WorkerLease
  if_orphan none = none
  if_orphan (some l) = if is_orphan iso_le when l then some l else none

  id_count-orphans :
      (i : String) (ls : List WorkerLease) → id_count i (orphans iso_le when ls) ≤ id_count i ls
  id_count-orphans i [] = omega arith
  id_count-orphans i (l ∷ ls) = ground (arith, id_count-orphans i ls)

  find-orphans :
      (i : String) (ls : List WorkerLease)
      → Distinct ls
      → find i (orphans iso_le when ls) ≡ if_orphan (find i ls)
  unfolding find
  find-orphans i [] h = refl
  find-orphans i (l ∷ ls) h = elim (Bool-cases (str_eq l.lease_id i)) [
    | inr other ↦ ground (arith, other, find-orphans i ls (Distinct-tail l ls h))
    | inl same ↦
        let none_left : find i (orphans iso_le when ls) ≡ none =
          find_of_count i (orphans iso_le when ls) (
            omega (
              arith,
              id_count-orphans i ls,
              subst (λ k. id_count k ls ≡ 0) ((eq_iff l.lease_id i).0 same) (head_only l ls h),
            )) in
        ground (arith, same, none_left)
  ]

-- What the loop leaves at an identifier, from the selected row and the row before.
abbrev swept : Option WorkerLease → Option WorkerLease → Option WorkerLease
swept none row = row
swept (some l) row = some (as_expired l)

-- The rows still to be expired stand in the table as they were read.
abbrev IsSelected : List WorkerLease → LeaseDb → Type 0
IsSelected rows db =
    (i : String) (l : WorkerLease) → find i rows ≡ some l → find i db.leases ≡ some l

expired-Changes :
    (db db' : LeaseDb) (l : WorkerLease)
    → find l.lease_id db.leases ≡ some l
    → update db (as_expired l) l.version expiry_recorded ≡ ok db'
    → Changes db db' l (as_expired l)
unfolding last_event
expired-Changes db db' l found up =
    let (rows, log) = update-ok db db' (as_expired l) l.version expiry_recorded up in
    record {
      was = found;
      same_id = refl;
      same_run = refl;
      next_version = refl;
      not_reopened = λ o. cc;
      rows = rows;
      log = rw log (ground (arith, eq_refl l.lease_id));
      other_log = λ i other. rw log (ground (arith, other));
    }

decode-ok : (row l : WorkerLease) → decode row ≡ ok l → l ≡ row
unfolding decode
decode-ok row l h = ground arith

IsSelected-tail :
    (db db' : LeaseDb) (l : WorkerLease) (ls : List WorkerLease)
    → Distinct (l ∷ ls)
    → IsSelected (l ∷ ls) db
    → Changes db db' l (as_expired l)
    → IsSelected ls db'
unfolding find
IsSelected-tail db db' l ls distinct selected change i x found =
    let absent = find_of_count l.lease_id ls (head_only l ls distinct) in
    elim (Bool-cases (str_eq l.lease_id i)) [
      | inl same ↦
          let here : find i ls ≡ none =
            subst (λ k. find k ls ≡ none) ((eq_iff l.lease_id i).0 same) absent in
          ground (arith, here)
      | inr other ↦
          let before : find i (l ∷ ls) ≡ some x = ground (arith, other) in
          find-Changes change i ∙ ground (arith, other, selected i x before)
    ]

swept-step :
    (db db' : LeaseDb) (l : WorkerLease) (ls : List WorkerLease)
    → Distinct (l ∷ ls)
    → Changes db db' l (as_expired l)
    → (i : String)
    → swept (find i ls) (find i db'.leases) ≡ swept (find i (l ∷ ls)) (find i db.leases)
unfolding find
swept-step db db' l ls distinct change i =
    let absent = find_of_count l.lease_id ls (head_only l ls distinct) in
    elim (Bool-cases (str_eq l.lease_id i)) [
      | inl same ↦
          let here : find i ls ≡ none =
            subst (λ k. find k ls ≡ none) ((eq_iff l.lease_id i).0 same) absent in
          rw (here, find-Changes change i, same) refl
      | inr other ↦ rw (find-Changes change i, other) refl
    ]

abbrev Swept : LeaseDb → List WorkerLease → LeaseDb → Type 0
Swept db rows db' =
    IsConsistent db' × ((i : String) → find i db'.leases ≡ swept (find i rows) (find i db.leases))

-- The loop keeps the table consistent and expires the rows that it was given, and these alone.
expire_rows-Swept :
    (rows : List WorkerLease) (db db' : LeaseDb) (out : List WorkerLease)
    → Distinct rows
    → IsSelected rows db
    → IsConsistent db
    → expire_rows db rows ≡ ok (out, db')
    → Swept db rows db'
unfolding expire_rows find
expire_rows-Swept [] db db' out distinct selected inv h =
    subst (λ (p : List WorkerLease × LeaseDb). Swept db [] p.1) (ok-injective h) (inv, λ i. refl)
expire_rows-Swept (row ∷ rows) db db' out distinct selected inv h =
    let (l, decoded, h₁) = >>=-eq-ok (decode row) _ h in
    let (mid, up, h₂) = >>=-eq-ok (update db (as_expired l) l.version expiry_recorded) _ h₁ in
    let (rest, swept_rest, h₃) = >>=-eq-ok (expire_rows mid rows) _ h₂ in
    let same : l ≡ row = decode-ok row l decoded in
    let change : Changes db mid row (as_expired row) =
      expired-Changes db mid row (selected row.lease_id row (ground (arith, eq_refl row.lease_id)))
        (subst (λ k. update db (as_expired k) k.version expiry_recorded ≡ ok mid) same up) in
    let tail =
      expire_rows-Swept rows mid rest.1 rest.0 (Distinct-tail row rows distinct)
        (IsSelected-tail db mid row rows distinct selected change) (Changes-IsConsistent change inv)
        swept_rest in
    subst (λ (p : List WorkerLease × LeaseDb). Swept db (row ∷ rows) p.1) (ok-injective h₃)
      (tail.0, λ i. tail.1 i ∙ swept-step db mid row rows distinct change i)

-- A row after the recovery, from the row before.
abbrev pub recovered : (Stamp → Stamp → Bool) → Stamp → Option WorkerLease → Option WorkerLease
recovered iso_le when none = none
recovered iso_le when (some l) = some (if is_orphan iso_le when l then as_expired l else l)

swept-recovered :
    (iso_le : Stamp → Stamp → Bool) (when : Stamp) (o : Option WorkerLease)
    → swept (if_orphan iso_le when o) o ≡ recovered iso_le when o
swept-recovered iso_le when none = refl
swept-recovered iso_le when (some l) = ground arith

if_orphan-some :
    (iso_le : Stamp → Stamp → Bool) (when : Stamp) (o : Option WorkerLease) (l : WorkerLease)
    → if_orphan iso_le when o ≡ some l
    → o ≡ some l
if_orphan-some iso_le when none l h = cc
if_orphan-some iso_le when (some x) l h = ground arith

-- What a recovery at the time `when` does.
pub record Recovers (iso_le : Stamp → Stamp → Bool) (when : Stamp) (db db' : LeaseDb) : Type 0 where
  pub consistent : IsConsistent db'
  pub rows : (i : String) → find i db'.leases ≡ recovered iso_le when (find i db.leases)

-- A recovery at a given time that returns, on a consistent table, expires each open lease whose
-- expiry `iso_le` puts at or before that time, leaves every other lease as it was, and keeps the
-- table consistent.
pub recover_orphans-Recovers :
    (iso_le : Stamp → Stamp → Bool) (db db' : LeaseDb) (now clock : Stamp) (out : List WorkerLease)
    → IsConsistent db
    → recover_orphans iso_le db (record { now = some (aware now); clock = clock }) ≡ ok (out, db')
    → Recovers iso_le now db db'
unfolding recover_orphans
recover_orphans-Recovers iso_le db db' now clock out inv h =
    let le : WorkerLease → WorkerLease → Bool = λ a b. is_text_le a.lease_id b.lease_id in
    let found = orphans iso_le now db.leases in
    let distinct : Distinct found =
      λ i. le_trans (id_count-orphans iso_le now i db.leases) (inv.one_row i) in
    let sorted_distinct : Distinct (sort_by le found) =
      λ i. subst (λ k. k ≤ 1) (sym (id_count-sort_by le i found)) (distinct i) in
    let lookup : (i : String)
        → find i (sort_by le found) ≡ if_orphan iso_le now (find i db.leases) =
      λ i. find-sort_by le i found distinct ∙ find-orphans iso_le now i db.leases inv.one_row in
    let swept_all =
      expire_rows-Swept (sort_by le found) db db' out sorted_distinct
        (λ i l selected. if_orphan-some iso_le now (find i db.leases) l (sym (lookup i) ∙ selected))
        inv h in
    record {
      consistent = swept_all.0;
      rows = λ i.
          swept_all.1 i
          ∙ ap (λ o. swept o (find i db.leases)) (lookup i)
          ∙ swept-recovered iso_le now (find i db.leases);
    }
