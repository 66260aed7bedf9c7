-- ===== src/Plan/Edited.antt =====
-- How the snapshots of a discussion and of an edit follow from the latest one.
use job_slayer.Base.{
  ℕ, String, ◌≡◌, refl, sym, ◌∙◌, Bool, true, false, not, List, [], ◌∷◌, ◌++◌, Option, none, some,
  contains, strip, str_eq, Result, ok, require, ◌>>◌, >>=-eq-ok, require-eq-ok,
}
use job_slayer.Time.{Datetime}
use job_slayer.Plan.{EdgeRelation, is_valid_node, is_valid_edge}
use job_slayer.Plan.Graph.{node_ids, edge_ids}
use job_slayer.Plan.Snapshot.{TaskPlanSnapshot, is_none, is_aware, is_valid_message}
use job_slayer.Plan.Assess.{effective_nodes, effective_edges}
use job_slayer.Plan.Record.{TaskPlanRevisionRecord}
use job_slayer.Plan.Port.{PlanningAgent}
use job_slayer.Plan.Changes.{
  OrchestrationError, archived, proposal_pending, invalid_value, refused, not_found, Call,
  require_active_plan, require_editable, changed, user_message, agent_message, answered,
  proposal_from_draft, discuss,
}
use job_slayer.Plan.Edits.{
  NewNode, NodeUpdate, NewEdge, or_fresh, new_node, has_source, source_edges, updated_node,
  find_plan_node, replace_node, without_node, apart_from, new_edge, find_edge, replace_edge,
  without_edge, find_revision, system_message, create_node, update_node, delete_node, create_edge,
  update_edge, delete_edge, derive_from_revision,
}
use job_slayer.Plan.Next.{
  IsNext, discussing, editing, active, none_pending, validated-eq-ok, changed-IsNext,
}

pub editable :
    {A : Type 0} (p : TaskPlanSnapshot) (next : Result OrchestrationError A) {final : A}
    → (require_editable p >> next) ≡ ok final
    → (p.is_archived ≡ false) × (p.pending_proposal ≡ none) × (next ≡ ok final)
unfolding require_editable require_active_plan
editable p next {final} h = by_guards p.is_archived (is_none p.pending_proposal) refl h
  where
    by_guards :
        (a b : Bool)
        → is_none p.pending_proposal ≡ b
        → ((do require (not a) archived; require b proposal_pending) >> next) ≡ ok final
        → (a ≡ false) × (p.pending_proposal ≡ none) × (next ≡ ok final)
    by_guards false true free h = (refl, none_pending p.pending_proposal free, h)
    by_guards false false free h = cc
    by_guards true b free h = cc

module _ (latest s : TaskPlanSnapshot) (o : String) where
  -- An edit leaves the marks of the archive and the pending proposal alone.
  edited :
      (t : Datetime) (updated : TaskPlanSnapshot) (operation : String)
      → changed t latest updated operation ≡ ok (s, o)
      → latest.is_archived ≡ false
      → latest.pending_proposal ≡ none
      → updated.plan_id ≡ latest.plan_id
      → updated.latest_finalized_revision ≡ latest.latest_finalized_revision
      → updated.is_archived ≡ latest.is_archived
      → updated.pending_proposal ≡ latest.pending_proposal
      → IsNext latest s
  edited t updated operation h on free same kept still left =
      changed-IsNext latest s o t updated operation h same kept
        (editing on free (still ∙ on) (left ∙ free))

  pub create_node-IsNext :
      (call : Call) (a : NewNode) → create_node call latest a ≡ ok (s, o) → IsNext latest s
  unfolding create_node
  create_node-IsNext call a h =
      let id = or_fresh a.node_id call.node_id in
      let (on, free, h₁) = editable latest _ h in
      let (_, h₂) = require-eq-ok (not (contains id (node_ids latest.nodes))) refused _ h₁ in
      let (_, h₃) = require-eq-ok (has_source a.source_node_id latest.nodes) refused _ h₂ in
      let (_, h₄) = validated-eq-ok is_valid_node (new_node id a) _ h₃ in
      let (es, _, h₅) = >>=-eq-ok (source_edges call a (new_node id a)) _ h₄ in
      edited call.now
        (record latest { nodes = latest.nodes ++ new_node id a ∷ []; edges = latest.edges ++ es }) _
        h₅ on free refl refl refl refl

  pub update_node-IsNext :
      (call : Call) (id : String) (u : NodeUpdate)
      → update_node call latest id u ≡ ok (s, o)
      → IsNext latest s
  unfolding update_node
  update_node-IsNext call id u h =
      let (on, free, h₁) = editable latest _ h in
      let (n, _, h₂) = >>=-eq-ok (find_plan_node id latest.nodes) _ h₁ in
      let (_, h₃) = validated-eq-ok is_valid_node (updated_node n u) _ h₂ in
      edited call.now (record latest { nodes = replace_node id (updated_node n u) latest.nodes }) _
        h₃ on free refl refl refl refl

  pub delete_node-IsNext :
      (call : Call) (id : String) → delete_node call latest id ≡ ok (s, o) → IsNext latest s
  unfolding delete_node
  delete_node-IsNext call id h =
      let (on, free, h₁) = editable latest _ h in
      let (_, h₂) = require-eq-ok (contains id (node_ids latest.nodes)) not_found _ h₁ in
      edited call.now
        (record latest { nodes = without_node id latest.nodes; edges = apart_from id latest.edges })
        _ h₂ on free refl refl refl refl

  pub create_edge-IsNext :
      (call : Call) (a : NewEdge) → create_edge call latest a ≡ ok (s, o) → IsNext latest s
  unfolding create_edge
  create_edge-IsNext call a h =
      let id = or_fresh a.edge_id call.edge_id in
      let (on, free, h₁) = editable latest _ h in
      let (_, h₂) = require-eq-ok (not (contains id (edge_ids latest.edges))) refused _ h₁ in
      let (_, h₃) = validated-eq-ok is_valid_edge (new_edge id a) _ h₂ in
      edited call.now (record latest { edges = latest.edges ++ new_edge id a ∷ [] }) _ h₃ on free
        refl refl refl refl

  pub update_edge-IsNext :
      (call : Call) (id : String) (relation : EdgeRelation) (label : Option String)
      → update_edge call latest id relation label ≡ ok (s, o)
      → IsNext latest s
  unfolding update_edge
  update_edge-IsNext call id relation label h =
      let (on, free, h₁) = editable latest _ h in
      let (e, _, h₂) = >>=-eq-ok (find_edge id latest.edges) _ h₁ in
      edited call.now
        (record latest {
          edges = replace_edge id (record e { relation = relation; label = label }) latest.edges;
        })
        _ h₂ on free refl refl refl refl

  pub delete_edge-IsNext :
      (call : Call) (id : String) → delete_edge call latest id ≡ ok (s, o) → IsNext latest s
  unfolding delete_edge
  delete_edge-IsNext call id h =
      let (on, free, h₁) = editable latest _ h in
      let (_, h₂) = require-eq-ok (contains id (edge_ids latest.edges)) not_found _ h₁ in
      edited call.now (record latest { edges = without_edge id latest.edges }) _ h₂ on free refl
        refl refl refl

  pub derive_from_revision-IsNext :
      (call : Call) (rs : List TaskPlanRevisionRecord) (n : ℕ)
      → derive_from_revision call rs latest n ≡ ok (s, o)
      → IsNext latest s
  unfolding derive_from_revision
  derive_from_revision-IsNext call rs n h =
      let (on, free, h₁) = editable latest _ h in
      let (source, _, h₂) = >>=-eq-ok (find_revision n rs) _ h₁ in
      let (_, h₃) = require-eq-ok (is_aware call.now) invalid_value _ h₂ in
      let (_, h₄) = validated-eq-ok is_valid_message (system_message call n) _ h₃ in
      edited call.later
        (record latest {
          task_description = source.task_description;
          nodes = source.nodes;
          edges = source.edges;
          conversation = latest.conversation ++ system_message call n ∷ [];
          pending_proposal = none;
        })
        _ h₄ on free refl refl refl (sym free)

  pub discuss-IsNext :
      (agent : PlanningAgent) (call : Call) (content : String) (selected : Option String)
      → discuss agent call latest content selected ≡ ok (s, o)
      → IsNext latest s
  unfolding discuss
  discuss-IsNext agent call content selected h =
      let question = user_message call (strip content) in
      let (on, h₁) = active latest _ h in
      let (_, h₂) = require-eq-ok (not (str_eq (strip content) "")) invalid_value _ h₁ in
      let (_, h₃) = require-eq-ok (is_aware call.now) invalid_value _ h₂ in
      let (_, h₄) = validated-eq-ok is_valid_message question _ h₃ in
      let (d, _, h₅) =
        >>=-eq-ok
          (answered (
            agent.propose (record {
              plan_id = latest.plan_id;
              task_description = latest.task_description;
              based_on_revision = latest.revision;
              nodes = effective_nodes latest;
              edges = effective_edges latest;
              conversation = latest.conversation ++ question ∷ [];
              user_message = strip content;
              selected_node_id = selected;
            })))
          _ h₄ in
      let (q, _, h₆) = >>=-eq-ok (proposal_from_draft agent call d latest.revision) _ h₅ in
      let (_, h₇) = validated-eq-ok is_valid_message (agent_message call q) _ h₆ in
      changed-IsNext latest s o call.later
        (record latest {
          conversation = latest.conversation ++ question ∷ [] ++ agent_message call q ∷ [];
          pending_proposal = some q;
        })
        _ h₇ refl refl (discussing on on (refl, refl))
