-- ===== src/Plan/Rules.antt =====
-- Rules that the reached plans obey: the archive, concurrent requests, the latest finalization.
use job_slayer.Base.{
  ℕ, String, ◌≡◌, refl, sym, ap, subst, ◌∙◌, Bool, true, false, not, List, [], ◌∷◌, none, some,
  arith, get_last?, Bool-cases, inl, inr, ok, err, Result-cases, ok-injective,
}
use job_slayer.Plan.Snapshot.{TaskPlanSnapshot}
use job_slayer.Plan.Record.{TaskPlanRevisionRecord}
use job_slayer.Plan.Port.{TaskPlanStore, PlanningAgent}
use job_slayer.Plan.Changes.{
  OrchestrationError, invalid_value, refused, archived, proposal_mismatch, Call, Change,
  require_active_plan, require_editable, discuss, set_execution_target, pin_execution_target_source,
  apply_proposal, reject_proposal, set_archived, finalize,
}
use job_slayer.Plan.Edits.{
  create_node, update_node, delete_node, create_edge, update_edge, delete_edge,
  derive_from_revision,
}
use job_slayer.Plan.Service.{
  Request, to_discuss, to_set_target, to_pin_target, to_apply, to_reject, to_create_node,
  to_update_node, to_delete_node, to_split_node, to_create_edge, to_update_edge, to_delete_edge,
  to_derive, to_archive, to_finalize, is_allowed, history, expected, change, requested, perform,
}
use job_slayer.Plan.Next.{
  IsNext, Follows, finalizing, drafting, Drafts, discussing, applying, editing, archiving,
}
use job_slayer.Plan.Lineage.{Continues, IsLineage, expected-IsRead}
use job_slayer.Plan.Reached.{Reaches, Reaches-HoldsLineage}

-- The only request that an archived plan takes.
abbrev pub is_restore : Request → Bool
is_restore (to_archive wanted) = not wanted
is_restore _ = false

next_unpending :
    (p s : TaskPlanSnapshot) → IsNext p s → s.is_archived ≡ true → s.pending_proposal ≡ none
next_unpending p s next h = by_kind next.follows
  where
    by_draft : Drafts p s → s.pending_proposal ≡ none
    by_draft (discussing on still graph) = absurd (cc)
    by_draft (applying q was now still graph) = now
    by_draft (editing on was still now) = now
    by_draft (archiving was now toggled graph) = now

    by_kind : Follows p s → s.pending_proposal ≡ none
    by_kind (finalizing status f) = f.nothing_pending
    by_kind (drafting status kept d) = by_draft d

Continues-unpending :
    (p : TaskPlanSnapshot) (r : TaskPlanRevisionRecord) (rs : List TaskPlanRevisionRecord)
    (last : TaskPlanRevisionRecord)
    → IsNext p r.snapshot
    → Continues r.snapshot rs
    → get_last? (r ∷ rs) ≡ some last
    → last.snapshot.is_archived ≡ true
    → last.snapshot.pending_proposal ≡ none
Continues-unpending p r [] last next c e h =
    let same : r ≡ last = cc in
    subst (λ (k : TaskPlanRevisionRecord). k.snapshot.pending_proposal ≡ none) same
      (next_unpending p r.snapshot next
        (subst (λ (k : TaskPlanRevisionRecord). k.snapshot.is_archived ≡ true) (sym same) h))
Continues-unpending p r (x ∷ rs) last next c e h =
    Continues-unpending r.snapshot x rs last c.0 c.1 e h

-- An archived plan has no pending proposal.
lineage_unpending :
    (rs : List TaskPlanRevisionRecord) (last : TaskPlanRevisionRecord)
    → IsLineage rs
    → get_last? rs ≡ some last
    → last.snapshot.is_archived ≡ true
    → last.snapshot.pending_proposal ≡ none
lineage_unpending [] last l e h = absurd (cc)
lineage_unpending (r ∷ []) last l e h =
    let same : r ≡ last = cc in
    absurd (
      ground
        (arith, l.0.active, h, ap (λ (k : TaskPlanRevisionRecord). k.snapshot.is_archived) same))
lineage_unpending (r ∷ x ∷ rs) last l e h = Continues-unpending r.snapshot x rs last l.1.0 l.1.1 e h

module _ (agent : PlanningAgent) (actor_id : String) (call : Call)
    (rs : List TaskPlanRevisionRecord) (latest : TaskPlanSnapshot) where
  abbrev IsRefused : Change → Type 0
  IsRefused c = (e : OrchestrationError) × (c ≡ err e)

  change_archived :
      (request : Request)
      → latest.is_archived ≡ true
      → latest.pending_proposal ≡ none
      → is_restore request ≡ false
      → IsRefused (change agent actor_id call rs latest request)
  unfolding change discuss set_execution_target pin_execution_target_source apply_proposal
      reject_proposal set_archived finalize create_node update_node delete_node create_edge
      update_edge delete_edge derive_from_revision require_active_plan require_editable
  change_archived (to_discuss content selected) on free h = (archived, rw on refl)
  change_archived (to_set_target target digest) on free h = (archived, rw on refl)
  change_archived (to_pin_target digest) on free h = (archived, rw on refl)
  change_archived (to_apply id) on free h = (proposal_mismatch, rw free refl)
  change_archived (to_reject id) on free h = (archived, rw on refl)
  change_archived (to_create_node a) on free h = (archived, rw on refl)
  change_archived (to_update_node id u) on free h = (archived, rw on refl)
  change_archived (to_delete_node id) on free h = (archived, rw on refl)
  change_archived (to_split_node source title description relation) on free h =
      (archived, rw on refl)
  change_archived (to_create_edge a) on free h = (archived, rw on refl)
  change_archived (to_update_edge id relation label) on free h = (archived, rw on refl)
  change_archived (to_delete_edge id) on free h = (archived, rw on refl)
  change_archived (to_derive n) on free h = (archived, rw on refl)
  change_archived (to_archive true) on free h = (refused, rw (on, free) refl)
  change_archived (to_archive false) on free h = absurd (cc)
  change_archived to_finalize on free h = (archived, rw on refl)

module _ {S Env : Type 0} (store : TaskPlanStore S Env) (agent : PlanningAgent)
    (actor_id : String) where
  requested_archived :
      (call : Call) (s : S) (plan_id : String) (n : ℕ) (request : Request)
      (rs : List TaskPlanRevisionRecord) (r : TaskPlanRevisionRecord)
      → store.history s plan_id ≡ ok rs
      → get_last? rs ≡ some r
      → IsLineage rs
      → r.snapshot.is_archived ≡ true
      → is_restore request ≡ false
      → (e : OrchestrationError) × (requested store agent actor_id call s plan_id n request ≡ err e)
  requested_archived call s plan_id n request rs r read last lineage on h =
      elim (Bool-cases (is_allowed request)) [
        | inr never ↦ (invalid_value, rw never refl)
        | inl allowed ↦ elim (Result-cases (expected store s plan_id n)) [
          | inr (e, failed) ↦ (e, rw (allowed, failed) refl)
          | inl (r', found) ↦ elim (Result-cases (history store s plan_id)) [
            | inr (e, failed) ↦ (e, rw (allowed, found, failed) refl)
            | inl (all, listed) ↦
                let seen = expected-IsRead store s plan_id n r' found in
                let same_rs : rs ≡ seen.records = ok-injective (sym read ∙ seen.read) in
                let same : some r ≡ some r' = sym last ∙ ap get_last? same_rs ∙ seen.last in
                let same_r : r ≡ r' = cc in
                let (e, refusal) =
                  change_archived agent actor_id call all r'.snapshot request
                    (subst (λ (k : TaskPlanRevisionRecord). k.snapshot.is_archived ≡ true) same_r
                      on)
                    (subst (λ (k : TaskPlanRevisionRecord). k.snapshot.pending_proposal ≡ none)
                      same_r (lineage_unpending rs r lineage last on))
                    h in
                (e, rw (allowed, found, listed, refusal) refl)
          ]
        ]
      ]

  -- An archived plan is read-only: whatever calls were made before, every request but its
  -- restoration raises and changes nothing.
  pub perform_archived :
      {s₀ s : S} (plan_id : String) (rs : List TaskPlanRevisionRecord) (r : TaskPlanRevisionRecord)
      → store.history s₀ plan_id ≡ ok []
      → Reaches store agent actor_id s₀ s
      → store.history s plan_id ≡ ok rs
      → get_last? rs ≡ some r
      → r.snapshot.is_archived ≡ true
      → (env : Env) (call : Call) (n : ℕ) (request : Request) → is_restore request ≡ false
      → (e : OrchestrationError) × (perform store agent actor_id env call s plan_id n request
          ≡ (err e, s))
  unfolding perform
  perform_archived {s₀} {s} plan_id rs r new reached read last on env call n request h =
      let (all, listed, lineage) = Reaches-HoldsLineage store agent actor_id plan_id new reached in
      let same : all ≡ rs = ok-injective (sym listed ∙ read) in
      let (e, refusal) =
        requested_archived call s plan_id n request rs r read last (subst IsLineage same lineage) on
          h in
      (e, rw refusal refl)
