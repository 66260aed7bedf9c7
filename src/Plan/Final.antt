-- ===== src/Plan/Final.antt =====
-- The finalization of a plan: when it is accepted, and what it makes.
use job_slayer.Base.{
  String, ◌≡◌, refl, sym, subst, ◌∙◌, ◌↔◌, Bool, true, false, not, ◌&&◌, arith, any, is_empty,
  Result, ok, require, ◌>>=◌, ◌>>◌, require-eq-ok, ok-injective,
}
use job_slayer.Plan.{is_sized}
use job_slayer.Plan.Snapshot.{
  TaskPlanSnapshot, finalized, is_none, is_aware, precedes, is_graph, has_fields, has_times,
  has_finalization, is_consistent_snapshot,
}
use job_slayer.Plan.Assess.{is_blocker, assess_task_plan}
use job_slayer.Plan.Readiness.{is_finalizable, assess_task_plan-ready}
use job_slayer.Plan.Changes.{
  OrchestrationError, archived, proposal_pending, refused, incomplete, invalid_value, Call,
  require_active_plan, final_snapshot, finalize,
}
use job_slayer.Plan.Next.{IsNext, finalizing, active, none_pending, validated-eq-ok}

pub conjuncts :
    (a b c d e f : Bool)
    → (a && b && c && d && e && f) ≡ true
    → (a ≡ true) × (b ≡ true) × (c ≡ true) × (d ≡ true) × (e ≡ true) × (f ≡ true)
conjuncts a b c d e f h =
    (ground arith, ground arith, ground arith, ground arith, ground arith, ground arith)

module _ (actor_id : String) (call : Call) (latest : TaskPlanSnapshot) where
  blockers : not (any is_blocker (assess_task_plan latest).issues) ≡ is_finalizable latest
  unfolding assess_task_plan
  blockers = assess_task_plan-ready latest

  -- The guards of `finalize` in turn, and the snapshot that passes them.
  accepted :
      (c : TaskPlanSnapshot × String)
      → finalize actor_id call latest ≡ ok c
      → (is_finalizable latest ≡ true)
        × (latest.is_archived ≡ false)
        × (is_none latest.pending_proposal ≡ true)
        × (is_consistent_snapshot (final_snapshot actor_id call latest) ≡ true)
        × (c ≡ (final_snapshot actor_id call latest, "plan.finalized_by_user"))
  unfolding finalize
  accepted c h =
      let (on, h₁) = active latest _ h in
      let (free, h₂) = require-eq-ok (is_none latest.pending_proposal) proposal_pending _ h₁ in
      let (_, h₃) = require-eq-ok (not (is_empty latest.nodes)) refused _ h₂ in
      let (clear, h₄) =
        require-eq-ok (not (any is_blocker (assess_task_plan latest).issues)) incomplete _ h₃ in
      let (_, h₅) = require-eq-ok (is_aware call.now) invalid_value _ h₄ in
      let (consistent, h₆) =
        validated-eq-ok is_consistent_snapshot (final_snapshot actor_id call latest) _ h₅ in
      (sym blockers ∙ clear, on, free, consistent, sym (ok-injective h₆))

  pub finalize-IsNext :
      (s : TaskPlanSnapshot) (o : String)
      → finalize actor_id call latest ≡ ok (s, o)
      → IsNext latest s
  finalize-IsNext s o h =
      let (ready, on, free, consistent, e) = accepted (s, o) h in
      let made : IsNext latest (final_snapshot actor_id call latest) = record {
        same_plan = refl;
        next_revision = refl;
        consistent = consistent;
        follows = finalizing refl (record {
          ready = ready;
          graph = (refl, refl);
          nothing_pending = none_pending latest.pending_proposal free;
          active = on;
          marked = refl;
        });
      } in
      subst (λ (c : TaskPlanSnapshot × String). IsNext latest c.0) (sym e) made

  abbrev final : TaskPlanSnapshot
  final = final_snapshot actor_id call latest

  final_fields : has_fields latest ≡ true → is_sized 0 160 actor_id ≡ true → has_fields final ≡ true
  final_fields h named = ground arith

  final_times :
      has_times latest ≡ true
      → is_aware call.now ≡ true
      → precedes call.now latest.created_at ≡ false
      → has_times final ≡ true
  final_times h known later = ground arith

  final_mark :
      is_finalizable latest ≡ true
      → is_aware call.now ≡ true
      → has_finalization finalized final ≡ true
  final_mark h known = ground arith

  final_consistent :
      is_consistent_snapshot latest ≡ true
      → is_finalizable latest ≡ true
      → is_aware call.now ≡ true
      → precedes call.now latest.created_at ≡ false
      → is_sized 0 160 actor_id ≡ true
      → is_consistent_snapshot final ≡ true
  unfolding is_consistent_snapshot
  final_consistent consistent ready known later named =
      let (fields, times, graph, _, _, archive) =
        conjuncts (has_fields latest) (has_times latest) (is_graph latest.nodes latest.edges) _ _ _
          consistent in
      rw
        (
          final_fields fields named,
          final_times times known later,
          graph,
          final_mark ready known,
          archive,
        )
        (ground arith)

  granted :
      (a f n b k c : Bool) (made : TaskPlanSnapshot × String)
      → a ≡ true
      → f ≡ true
      → n ≡ true
      → b ≡ true
      → k ≡ true
      → c ≡ true
      → ◌≡◌ {A = Result OrchestrationError (TaskPlanSnapshot × String)}
          (do
            require a archived
            require f proposal_pending
            require n refused
            require b incomplete
            require k invalid_value
            s ← (do require c invalid_value; ok made.0)
            ok (s, made.1))
          (ok made)
  granted a f n b k c made h₁ h₂ h₃ h₄ h₅ h₆ = rw (h₁, h₂, h₃, h₄, h₅, h₆) refl

  -- By a named actor, at a time with a timezone that is not before the plan's creation, a plan is
  -- finalized exactly when it is active, has no pending proposal, has a node, and each of its
  -- validation nodes has a verification requirement; the revision that this makes is the latest
  -- snapshot, finalized.
  pub finalize_iff :
      is_consistent_snapshot latest ≡ true
      → is_aware call.now ≡ true
      → precedes call.now latest.created_at ≡ false
      → is_sized 0 160 actor_id ≡ true
      → (finalize actor_id call latest
          ≡ ok (final_snapshot actor_id call latest, "plan.finalized_by_user"))
        ↔ (is_finalizable latest ≡ true)
  unfolding finalize require_active_plan
  finalize_iff consistent known later named = (
    (λ h. (accepted (final, "plan.finalized_by_user") h).0),
    (λ ready.
        granted (not latest.is_archived) (is_none latest.pending_proposal)
          (not (is_empty latest.nodes)) (not (any is_blocker (assess_task_plan latest).issues))
          (is_aware call.now) (is_consistent_snapshot final) (final, "plan.finalized_by_user")
          (ground arith) (ground arith) (ground arith) (blockers ∙ ready) known
          (final_consistent consistent ready known later named)),
  )
