-- ===== src/Plan/Next.antt =====
-- How the snapshot that an operation makes follows from the latest one.
use job_slayer.Base.{
  ◌+◌, String, ◌≡◌, refl, ap, subst, Bool, true, false, not, ◌&&◌, Option, none, some, arith,
  is_sha256, strip, str_eq, if◌then◌else◌, Result, ok, require, ◌>>=◌, ◌>>◌, >>=-eq-ok,
  require-eq-ok, ok-injective, Option-cases, inl, inr,
}
use job_slayer.Time.{Datetime}
use job_slayer.Plan.Snapshot.{
  TaskPlanProposal, TaskPlanSnapshot, draft, finalized, is_none, is_aware, is_consistent_snapshot,
}
use job_slayer.Plan.Readiness.{is_finalizable}
use job_slayer.Plan.Changes.{
  OrchestrationError, archived, proposal_pending, invalid_value, refused, Call, validated,
  require_active_plan, advanced, next_snapshot, changed, is_text, pending, set_execution_target,
  pin_execution_target_source, apply_proposal, reject_proposal, set_archived,
}

abbrev pub SameGraph : TaskPlanSnapshot → TaskPlanSnapshot → Type 0
SameGraph p s = (s.nodes ≡ p.nodes) × (s.edges ≡ p.edges)

-- What a new draft may change.
pub data Drafts (p s : TaskPlanSnapshot) : Type 0 where
  -- The graph of an active plan stays: a discussion, a rejection, a choice of target.
  discussing : p.is_archived ≡ false → s.is_archived ≡ false → SameGraph p s → Drafts p s
  -- The graph becomes that of the pending proposal.
  applying :
      (q : TaskPlanProposal)
      → p.pending_proposal ≡ some q
      → s.pending_proposal ≡ none
      → s.is_archived ≡ p.is_archived
      → (s.nodes ≡ q.nodes) × (s.edges ≡ q.edges)
      → Drafts p s
  -- An edit, when the plan is active and nothing is pending.
  editing :
      p.is_archived ≡ false
      → p.pending_proposal ≡ none
      → s.is_archived ≡ false
      → s.pending_proposal ≡ none
      → Drafts p s
  archiving :
      p.pending_proposal ≡ none
      → s.pending_proposal ≡ none
      → s.is_archived ≡ not p.is_archived
      → SameGraph p s
      → Drafts p s

-- What a finalization needs, and what it leaves.
pub record Finalizes (p s : TaskPlanSnapshot) : Type 0 where
  pub ready : is_finalizable p ≡ true
  pub graph : SameGraph p s
  pub nothing_pending : s.pending_proposal ≡ none
  pub active : s.is_archived ≡ false
  pub marked : s.latest_finalized_revision ≡ some s.revision

pub data Follows (p s : TaskPlanSnapshot) : Type 0 where
  finalizing : s.status ≡ finalized → Finalizes p s → Follows p s
  drafting :
      s.status ≡ draft
      → s.latest_finalized_revision ≡ p.latest_finalized_revision
      → Drafts p s
      → Follows p s

pub record IsNext (p s : TaskPlanSnapshot) : Type 0 where
  pub same_plan : s.plan_id ≡ p.plan_id
  pub next_revision : s.revision ≡ p.revision + 1
  pub consistent : is_consistent_snapshot s ≡ true
  pub follows : Follows p s

passed :
    {A B : Type 0} (b : Bool) (a : A) (next : A → Result OrchestrationError B) {final : B}
    → (do a' ← (do require b invalid_value; ok a); next a') ≡ ok final
    → (b ≡ true) × (next a ≡ ok final)
passed true a next chain = (refl, chain)
passed false a next chain = cc

pub validated-eq-ok :
    {A B : Type 0} (test : A → Bool) (a : A) (next : A → Result OrchestrationError B) {final : B}
    → (validated test a >>= next) ≡ ok final
    → (test a ≡ true) × (next a ≡ ok final)
validated-eq-ok test a next chain = passed (test a) a next chain

pub active :
    {A : Type 0} (p : TaskPlanSnapshot) (next : Result OrchestrationError A) {final : A}
    → (require_active_plan p >> next) ≡ ok final
    → (p.is_archived ≡ false) × (next ≡ ok final)
unfolding require_active_plan
active p next h =
    let (passed, rest) = require-eq-ok (not p.is_archived) archived next h in (ground arith, rest)

pub none_pending : (o : Option TaskPlanProposal) → is_none o ≡ true → o ≡ none
none_pending none h = refl
none_pending (some q) h = cc

module _ (latest s : TaskPlanSnapshot) (o : String) where
  pub made :
      (known consistent : Bool) (made_now : TaskPlanSnapshot) (operation : String)
      → ◌≡◌ {A = Result OrchestrationError (TaskPlanSnapshot × String)}
          (do
            s' ← (do require known invalid_value; require consistent invalid_value; ok made_now)
            ok (s', operation))
          (ok (s, o))
      → (consistent ≡ true) × (made_now ≡ s)
  made true true made_now operation h =
      (refl, ap (λ (c : TaskPlanSnapshot × String). c.0) (ok-injective h))
  made true false made_now operation h = cc
  made false consistent made_now operation h = cc

  -- A draft is the updated snapshot, one revision later.
  pub changed-IsNext :
      (t : Datetime) (updated : TaskPlanSnapshot) (operation : String)
      → changed t latest updated operation ≡ ok (s, o)
      → updated.plan_id ≡ latest.plan_id
      → updated.latest_finalized_revision ≡ latest.latest_finalized_revision
      → Drafts latest (advanced t latest updated)
      → IsNext latest s
  unfolding next_snapshot
  changed-IsNext t updated operation h same kept drafts =
      let next = advanced t latest updated in
      let (consistent, e) = made (is_aware t) (is_consistent_snapshot next) next operation h in
      subst (IsNext latest) e (record {
        same_plan = same;
        next_revision = refl;
        consistent = consistent;
        follows = drafting refl kept drafts;
      })

  pub set_execution_target-IsNext :
      (call : Call) (target digest : String)
      → set_execution_target call latest target digest ≡ ok (s, o)
      → IsNext latest s
  unfolding set_execution_target
  set_execution_target-IsNext call target digest h =
      let (on, h₁) = active latest _ h in
      let (free, h₂) = require-eq-ok (is_none latest.pending_proposal) proposal_pending _ h₁ in
      let (_, h₃) = require-eq-ok (not (str_eq (strip target) "")) invalid_value _ h₂ in
      let (_, h₄) = require-eq-ok (is_sha256 (strip digest)) invalid_value _ h₃ in
      let (_, h₅) =
        require-eq-ok
          (not (
            is_text latest.execution_target_id (strip target)
            && is_text latest.execution_target_source_sha256 (strip digest)))
          refused _ h₄ in
      changed-IsNext call.now
        (record latest {
          execution_target_id = some (strip target);
          execution_target_source_sha256 = some (strip digest);
        })
        _ h₅ refl refl (discussing on on (refl, refl))

  pub pin_execution_target_source-IsNext :
      (call : Call) (digest : String)
      → pin_execution_target_source call latest digest ≡ ok (s, o)
      → IsNext latest s
  unfolding pin_execution_target_source
  pin_execution_target_source-IsNext call digest h =
      let (on, h₁) = active latest _ h in
      let (_, h₂) = require-eq-ok (not (is_none latest.execution_target_id)) refused _ h₁ in
      let (_, h₃) = require-eq-ok (is_none latest.execution_target_source_sha256) refused _ h₂ in
      let (_, h₄) = require-eq-ok (is_sha256 (strip digest)) invalid_value _ h₃ in
      changed-IsNext call.now
        (record latest { execution_target_source_sha256 = some (strip digest) }) _ h₄ refl refl
        (discussing on on (refl, refl))

  -- The proposal that a request names is the pending one.
  pending-eq-ok :
      (id : String) (q : TaskPlanProposal)
      → pending latest id ≡ ok q
      → latest.pending_proposal ≡ some q
  pending-eq-ok id q h = elim (Option-cases latest.pending_proposal) [
    | inl nothing ↦ ground arith
    | inr (r, found) ↦ ground (arith, found)
  ]

  pub apply_proposal-IsNext :
      (call : Call) (id : String) → apply_proposal call latest id ≡ ok (s, o) → IsNext latest s
  unfolding apply_proposal
  apply_proposal-IsNext call id h =
      let (q, named, h₁) = >>=-eq-ok (pending latest id) _ h in
      changed-IsNext call.now
        (record latest { nodes = q.nodes; edges = q.edges; pending_proposal = none }) _ h₁ refl refl
        (applying q (pending-eq-ok id q named) refl refl (refl, refl))

  pub reject_proposal-IsNext :
      (call : Call) (id : String) → reject_proposal call latest id ≡ ok (s, o) → IsNext latest s
  unfolding reject_proposal
  reject_proposal-IsNext call id h =
      let (on, h₁) = active latest _ h in
      let (q, named, h₂) = >>=-eq-ok (pending latest id) _ h₁ in
      changed-IsNext call.now (record latest { pending_proposal = none }) _ h₂ refl refl
        (discussing on on (refl, refl))

  toggled : (was wanted : Bool) → (if was then not wanted else wanted) ≡ true → wanted ≡ not was
  toggled true false h = refl
  toggled false true h = refl
  toggled true true h = cc
  toggled false false h = cc

  pub set_archived-IsNext :
      (actor_id : String) (call : Call) (wanted : Bool)
      → set_archived actor_id call latest wanted ≡ ok (s, o)
      → IsNext latest s
  unfolding set_archived
  set_archived-IsNext actor_id call wanted h =
      let (free, h₁) = require-eq-ok (is_none latest.pending_proposal) proposal_pending _ h in
      let (toggle, h₂) =
        require-eq-ok (if latest.is_archived then not wanted else wanted) refused _ h₁ in
      let (_, h₃) = require-eq-ok (is_aware call.now) invalid_value _ h₂ in
      let unpending = none_pending latest.pending_proposal free in
      changed-IsNext call.later
        (record latest {
          is_archived = wanted;
          archived_by = if wanted then some actor_id else none;
          archived_at = if wanted then some call.now else none;
        })
        _ h₃ refl refl
        (archiving unpending unpending (toggled latest.is_archived wanted toggle) (refl, refl))
