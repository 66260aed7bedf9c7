-- ===== src/Plan/Lineage.antt =====
-- Histories of plans as the service makes them: every revision follows from the one before.
use job_slayer.Base.{
  ℕ, suc, ◌+◌, String, ◌≡◌, sym, ap, subst, ◌∙◌, true, false, not, List, [], ◌∷◌, ◌++◌, none, some,
  arith, length, get_last?, ◌==◌, is_empty, Result, ok, err, >>=-eq-ok, require-eq-ok, ok-injective,
  Option-cases, inl, inr,
}
use job_slayer.Plan.Snapshot.{TaskPlanSnapshot, TaskPlanStatus, is_consistent_snapshot}
use job_slayer.Plan.Record.{TaskPlanRevisionRecord, JournalError}
use job_slayer.Plan.Port.{IsNumbered, TaskPlanStore, PlanningAgent}
use job_slayer.Plan.Changes.{stale_revision, not_found, Call}
use job_slayer.Plan.Edits.{split_arguments}
use job_slayer.Plan.Service.{
  Request, to_discuss, to_set_target, to_pin_target, to_apply, to_reject, to_create_node,
  to_update_node, to_delete_node, to_split_node, to_create_edge, to_update_edge, to_delete_edge,
  to_derive, to_archive, to_finalize, change, from_journal, latest_of, history, get, expected,
}
use job_slayer.Plan.Next.{
  IsNext, set_execution_target-IsNext, pin_execution_target_source-IsNext, apply_proposal-IsNext,
  reject_proposal-IsNext, set_archived-IsNext,
}
use job_slayer.Plan.Edited.{
  discuss-IsNext, create_node-IsNext, update_node-IsNext, delete_node-IsNext, create_edge-IsNext,
  update_edge-IsNext, delete_edge-IsNext, derive_from_revision-IsNext,
}
use job_slayer.Plan.Final.{finalize-IsNext}

-- The first revision: a draft without a graph.
pub record IsFirst (s : TaskPlanSnapshot) : Type 0 where
  pub first_revision : s.revision ≡ 1
  pub no_nodes : s.nodes ≡ []
  pub no_edges : s.edges ≡ []
  pub drafted : s.status ≡ TaskPlanStatus.draft
  pub never_finalized : s.latest_finalized_revision ≡ none
  pub active : s.is_archived ≡ false
  pub consistent : is_consistent_snapshot s ≡ true

abbrev pub Continues : TaskPlanSnapshot → List TaskPlanRevisionRecord → Type 0
Continues p [] = Unit {0}
Continues p (r ∷ rs) = IsNext p r.snapshot × Continues r.snapshot rs

-- The history of a plan, from its creation.
abbrev pub IsLineage : List TaskPlanRevisionRecord → Type 0
IsLineage [] = Unit {0}
IsLineage (r ∷ rs) = IsFirst r.snapshot × Continues r.snapshot rs

some-injective : {a b : TaskPlanRevisionRecord} → some a ≡ some b → a ≡ b
some-injective h = cc

Continues-snoc :
    (p : TaskPlanSnapshot) (q : TaskPlanRevisionRecord) (rs : List TaskPlanRevisionRecord)
    (last r : TaskPlanRevisionRecord)
    → Continues q.snapshot rs
    → get_last? (q ∷ rs) ≡ some last
    → IsNext last.snapshot r.snapshot
    → Continues q.snapshot (rs ++ r ∷ [])
Continues-snoc p q [] last r c e next = (
  subst (λ (k : TaskPlanRevisionRecord). IsNext k.snapshot r.snapshot) (sym (some-injective e))
      next,
  tt,
)
Continues-snoc p q (x ∷ rs) last r c e next = (c.0, Continues-snoc p x rs last r c.1 e next)

pub IsLineage-snoc :
    (rs : List TaskPlanRevisionRecord) (last r : TaskPlanRevisionRecord)
    → IsLineage rs
    → get_last? rs ≡ some last
    → IsNext last.snapshot r.snapshot
    → IsLineage (rs ++ r ∷ [])
IsLineage-snoc [] last r l e next = absurd (cc)
IsLineage-snoc (q ∷ rs) last r l e next = (l.0, Continues-snoc q.snapshot q rs last r l.1 e next)

-- The last record of a numbered history has its length.
pub IsNumbered-last :
    (plan_id : String) (n : ℕ) (rs : List TaskPlanRevisionRecord) (last : TaskPlanRevisionRecord)
    → IsNumbered plan_id n rs
    → get_last? rs ≡ some last
    → (last.sequence + 1 ≡ n + length rs)
      × (last.snapshot.revision ≡ last.sequence)
      × (last.snapshot.plan_id ≡ plan_id)
IsNumbered-last plan_id n [] last h e = absurd (cc)
IsNumbered-last plan_id n (r ∷ []) last h e =
    subst
      (λ (k : TaskPlanRevisionRecord).
        (k.sequence + 1 ≡ n + 1)
        × (k.snapshot.revision ≡ k.sequence)
        × (k.snapshot.plan_id ≡ plan_id))
      (some-injective e) (omega (arith, h.0), h.1 ∙ sym h.0, h.2)
IsNumbered-last plan_id n (r ∷ x ∷ rs) last h e =
    let (counted, bound, named) = IsNumbered-last plan_id (suc n) (x ∷ rs) last h.3 e in
    (omega (arith, counted), bound, named)

module _ (agent : PlanningAgent) (actor_id : String) where
  pub change-IsNext :
      (call : Call) (rs : List TaskPlanRevisionRecord) (latest s : TaskPlanSnapshot) (o : String)
      (request : Request)
      → change agent actor_id call rs latest request ≡ ok (s, o)
      → IsNext latest s
  unfolding change
  change-IsNext call rs p s o (to_discuss content selected) h =
      discuss-IsNext p s o agent call content selected h
  change-IsNext call rs p s o (to_set_target target digest) h =
      set_execution_target-IsNext p s o call target digest h
  change-IsNext call rs p s o (to_pin_target digest) h =
      pin_execution_target_source-IsNext p s o call digest h
  change-IsNext call rs p s o (to_apply id) h = apply_proposal-IsNext p s o call id h
  change-IsNext call rs p s o (to_reject id) h = reject_proposal-IsNext p s o call id h
  change-IsNext call rs p s o (to_create_node a) h = create_node-IsNext p s o call a h
  change-IsNext call rs p s o (to_update_node id u) h = update_node-IsNext p s o call id u h
  change-IsNext call rs p s o (to_delete_node id) h = delete_node-IsNext p s o call id h
  change-IsNext call rs p s o (to_split_node source title description relation) h =
      create_node-IsNext p s o call (split_arguments source title description relation) h
  change-IsNext call rs p s o (to_create_edge a) h = create_edge-IsNext p s o call a h
  change-IsNext call rs p s o (to_update_edge id relation label) h =
      update_edge-IsNext p s o call id relation label h
  change-IsNext call rs p s o (to_delete_edge id) h = delete_edge-IsNext p s o call id h
  change-IsNext call rs p s o (to_derive n) h = derive_from_revision-IsNext p s o call rs n h
  change-IsNext call rs p s o (to_archive wanted) h =
      set_archived-IsNext p s o actor_id call wanted h
  change-IsNext call rs p s o to_finalize h = finalize-IsNext actor_id call p s o h

-- What `_expected` has read.
pub record IsRead {S Env : Type 0} (store : TaskPlanStore S Env) (s : S) (plan_id : String)
    (revision : ℕ) (r : TaskPlanRevisionRecord) : Type 0 where
  pub records : List TaskPlanRevisionRecord
  pub read : store.history s plan_id ≡ ok records
  pub last : get_last? records ≡ some r
  pub current : r.sequence ≡ revision

module _ {S Env : Type 0} (store : TaskPlanStore S Env) (s : S) (plan_id : String) where
  pub from_journal-eq-ok :
      {A : Type 0} (x : Result JournalError A) (a : A) → from_journal x ≡ ok a → x ≡ ok a
  from_journal-eq-ok (ok b) a h = ap ok (ok-injective h)
  from_journal-eq-ok (err e) a h = cc

  latest_of-eq-ok :
      (rs : List TaskPlanRevisionRecord) (r : TaskPlanRevisionRecord)
      → latest_of rs ≡ ok r
      → get_last? rs ≡ some r
  latest_of-eq-ok rs r h = elim (Option-cases (get_last? rs)) [
    | inl nothing ↦ ground arith
    | inr (q, found) ↦ ground (arith, found)
  ]

  pub expected-IsRead :
      (revision : ℕ) (r : TaskPlanRevisionRecord)
      → expected store s plan_id revision ≡ ok r
      → IsRead store s plan_id revision r
  unfolding expected get history
  expected-IsRead revision r h =
      let (r₁, found, h₁) = >>=-eq-ok (get store s plan_id) _ h in
      let (rs, read, h₂) = >>=-eq-ok (history store s plan_id) _ found in
      let (rs₁, read₁, h₃) = >>=-eq-ok (from_journal (store.history s plan_id)) _ read in
      let (_, h₄) = require-eq-ok (not (is_empty rs₁)) not_found _ h₃ in
      let (current, h₅) = require-eq-ok (r₁.sequence == revision) stale_revision _ h₁ in
      let same = ok-injective h₅ in
      record {
        records = rs;
        read = from_journal-eq-ok _ rs₁ read₁ ∙ ap ok (ok-injective h₄);
        last = latest_of-eq-ok rs r₁ h₂ ∙ ap some same;
        current = subst (λ (k : TaskPlanRevisionRecord). k.sequence ≡ revision) same (ground arith);
      }
