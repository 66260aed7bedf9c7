-- ===== src/Plan/Roundtrip.antt =====
-- The deletion of a node that was just created gives the graph back.
use Prim.Native.String.{◌++◌ as join}
use job_slayer.Base.{
  String, ◌≡◌, refl, sym, ap, subst, Bool, true, false, not, List, [], ◌∷◌, ◌++◌, Option, none,
  some, arith, all, contains, str_eq, eq_iff, eq_refl, ok, Result-cases, inl, inr, Bool-cases,
  require, ◌>>=◌, ◌>>◌, >>=-eq-ok, require-eq-ok, ok-injective,
}
use job_slayer.Time.{Datetime}
use job_slayer.Plan.{TaskPlanNode, TaskPlanEdge, is_valid_node, is_valid_edge}
use job_slayer.Plan.Acyclic.{validate_task_plan_graph_iff}
use job_slayer.Plan.Graph.{validate_task_plan_graph, node_ids, is_known_edge}
use job_slayer.Plan.Snapshot.{
  TaskPlanSnapshot, is_none, is_aware, precedes, is_graph, has_fields, has_times, has_latest,
  is_consistent_snapshot,
}
use job_slayer.Plan.Changes.{
  Call, Change, refused, archived, proposal_pending, not_found, invalid_value, advanced,
  next_snapshot, require_editable, require_active_plan,
}
use job_slayer.Plan.Edits.{
  NewNode, or_fresh, new_node, has_source, source_edges, without_node, apart_from, create_node,
  delete_node,
}
use job_slayer.Plan.Final.{conjuncts}
use job_slayer.Plan.Next.{validated-eq-ok, made}
use job_slayer.Plan.Edited.{editable}

without_node-snoc :
    (id : String) (n : TaskPlanNode) (ns : List TaskPlanNode)
    → contains id (node_ids ns) ≡ false
    → n.node_id ≡ id
    → without_node id (ns ++ n ∷ []) ≡ ns
without_node-snoc id n [] h e = ground (arith, e, eq_refl id)
without_node-snoc id n (m ∷ ns) h e = ground (arith, without_node-snoc id n ns, e)

other_node :
    (x id : String) (ids : List String)
    → contains x ids ≡ true
    → contains id ids ≡ false
    → str_eq x id ≡ false
other_node x id ids inside outside = elim (Bool-cases (str_eq x id)) [
  | inr other ↦ other
  | inl same ↦
      let too : contains id ids ≡ true =
        subst (λ k. contains k ids ≡ true) ((eq_iff x id).0 same) inside in
      absurd (cc)
]

-- A node that no edge touches.
apart_from-append :
    (id : String) (es new : List TaskPlanEdge) (ids : List String)
    → all (is_known_edge ids) es ≡ true
    → contains id ids ≡ false
    → apart_from id new ≡ []
    → apart_from id (es ++ new) ≡ es
apart_from-append id [] new ids known unknown none_left = none_left
apart_from-append id (e ∷ es) new ids known unknown none_left =
    let source : contains e.source_node_id ids ≡ true = ground (arith, known) in
    let target : contains e.target_node_id ids ≡ true = ground (arith, known) in
    let rest : all (is_known_edge ids) es ≡ true = ground (arith, known) in
    rw
      (
        other_node e.source_node_id id ids source unknown,
        other_node e.target_node_id id ids target unknown,
      )
      (ap (λ k. e ∷ k) (apart_from-append id es new ids rest unknown none_left))

node_ids-snoc :
    (n : TaskPlanNode) (ns : List TaskPlanNode)
    → contains n.node_id (node_ids (ns ++ n ∷ [])) ≡ true
node_ids-snoc n [] = ground (arith, eq_refl n.node_id)
node_ids-snoc n (m ∷ ns) = ground (arith, node_ids-snoc n ns)

-- The edge that comes with a new node ends in it.
apart_from-source_edges :
    (call : Call) (a : NewNode) (n : TaskPlanNode) (es : List TaskPlanEdge) (source : Option String)
    → source_edges call (record a { source_node_id = source }) n ≡ ok es
    → apart_from n.node_id es ≡ []
apart_from-source_edges call a n es none h =
    subst (λ k. apart_from n.node_id k ≡ []) (ok-injective h) refl
apart_from-source_edges call a n es (some x) h =
    let e : TaskPlanEdge = record {
      edge_id = call.edge_id;
      source_node_id = x;
      target_node_id = n.node_id;
      relation = a.relation;
      label = none;
    } in
    let (_, made) = validated-eq-ok is_valid_edge e _ h in
    subst (λ k. apart_from n.node_id k ≡ []) (ok-injective made) (ground (arith, eq_refl n.node_id))

known_ends :
    (nodes : List TaskPlanNode) (edges : List TaskPlanEdge)
    → is_graph nodes edges ≡ true
    → all (is_known_edge (node_ids nodes)) edges ≡ true
known_ends nodes edges h = elim (Result-cases (validate_task_plan_graph nodes edges)) [
  | inl (u, valid) ↦ let g = (validate_task_plan_graph_iff nodes edges).0 valid in g.known_ends
  | inr (e, invalid) ↦ absurd (ground (arith, invalid))
]

-- The snapshot after a creation and the deletion: a draft two revisions later, with the old graph.
module _ (latest : TaskPlanSnapshot) (first second : Datetime) (nodes : List TaskPlanNode)
    (edges : List TaskPlanEdge) where
  abbrev grown : TaskPlanSnapshot
  grown = advanced first latest (record latest { nodes = nodes; edges = edges })

  abbrev undone : TaskPlanSnapshot
  undone = advanced second grown (record grown { nodes = latest.nodes; edges = latest.edges })

  undone_fields : has_fields latest ≡ true → has_fields undone ≡ true
  undone_fields h = ground arith

  undone_times :
      has_times latest ≡ true
      → is_aware second ≡ true
      → precedes second latest.created_at ≡ false
      → has_times undone ≡ true
  undone_times h known later = ground arith

  undone_latest :
      has_latest latest.revision latest.latest_finalized_revision ≡ true
      → has_latest undone.revision undone.latest_finalized_revision ≡ true
  undone_latest h = ground arith

  undone_consistent :
      is_consistent_snapshot latest ≡ true
      → is_aware second ≡ true
      → precedes second latest.created_at ≡ false
      → is_consistent_snapshot undone ≡ true
  unfolding is_consistent_snapshot
  undone_consistent h known later =
      let (fields, times, graph, last, _, archive) =
        conjuncts (has_fields latest) (has_times latest) (is_graph latest.nodes latest.edges) _ _ _
          h in
      rw (undone_fields fields, undone_times times known later, graph, undone_latest last, archive)
        refl

  abbrev IsUndone : Change → String → Type 0
  IsUndone c id =
      (next : TaskPlanSnapshot) × (c ≡ ok (next, join "node.deleted:" id))
      × (next.nodes ≡ latest.nodes)
      × (next.edges ≡ latest.edges)

graph_of :
    (s : TaskPlanSnapshot) → is_consistent_snapshot s ≡ true → is_graph s.nodes s.edges ≡ true
unfolding is_consistent_snapshot
graph_of s h =
    let (_, _, graph, _, _, _) =
      conjuncts (has_fields s) (has_times s) (is_graph s.nodes s.edges) _ _ _ h in
    graph

deleting :
    (a f b k c : Bool) (next : TaskPlanSnapshot) (operation : String)
    → a ≡ false
    → f ≡ true
    → b ≡ true
    → k ≡ true
    → c ≡ true
    → ◌≡◌ {A = Change}
        (do
          (do require (not a) archived; require f proposal_pending)
          require b not_found
          s ← (do require k invalid_value; (do require c invalid_value; ok next))
          ok (s, operation))
        (ok (next, operation))
deleting a f b k c next operation h₁ h₂ h₃ h₄ h₅ = rw (h₁, h₂, h₃, h₄, h₅) refl

module _ (latest : TaskPlanSnapshot) (call call' : Call) (n : TaskPlanNode)
    (es : List TaskPlanEdge) where
  abbrev created : TaskPlanSnapshot
  created = grown latest call.now call'.now (latest.nodes ++ n ∷ []) (latest.edges ++ es)

  delete_created :
      is_consistent_snapshot latest ≡ true
      → is_aware call'.now ≡ true
      → precedes call'.now latest.created_at ≡ false
      → latest.is_archived ≡ false
      → latest.pending_proposal ≡ none
      → contains n.node_id (node_ids latest.nodes) ≡ false
      → apart_from n.node_id es ≡ []
      → IsUndone latest call.now call'.now latest.nodes latest.edges
          (delete_node call' created n.node_id)
          n.node_id
  unfolding delete_node require_editable require_active_plan next_snapshot
  delete_created h known later on free new apart =
      let nodes_back = without_node-snoc n.node_id n latest.nodes new refl in
      let edges_back =
        apart_from-append n.node_id latest.edges es (node_ids latest.nodes)
          (known_ends latest.nodes latest.edges (graph_of latest h)) new apart in
      let deleted = advanced call'.now created (record created {
        nodes = without_node n.node_id (latest.nodes ++ n ∷ []);
        edges = apart_from n.node_id (latest.edges ++ es);
      }) in
      let consistent : is_consistent_snapshot deleted ≡ true =
        subst
          (λ k.
            is_consistent_snapshot (
              advanced call'.now created
                (record created { nodes = k; edges = apart_from n.node_id (latest.edges ++ es) }))
            ≡ true)
          (sym nodes_back)
          (subst
            (λ k.
              is_consistent_snapshot
                (advanced call'.now created (record created { nodes = latest.nodes; edges = k }))
              ≡ true)
            (sym edges_back)
            (undone_consistent latest call.now call'.now (latest.nodes ++ n ∷ [])
              (latest.edges ++ es) h known later)) in
      (
        deleted,
        deleting latest.is_archived (is_none latest.pending_proposal)
            (contains n.node_id (node_ids (latest.nodes ++ n ∷ []))) (is_aware call'.now)
            (is_consistent_snapshot deleted) deleted (join "node.deleted:" n.node_id) on
            (rw free refl) (node_ids-snoc n latest.nodes) known consistent,
        nodes_back,
        edges_back,
      )

-- A node that was just created can be deleted, by a call with a timezone that is not before the
-- plan's creation, and the deletion gives back the nodes and the edges of before.
pub create_node-delete_node :
    (latest s : TaskPlanSnapshot) (call call' : Call) (a : NewNode) (o : String)
    → is_consistent_snapshot latest ≡ true
    → create_node call latest a ≡ ok (s, o)
    → is_aware call'.now ≡ true
    → precedes call'.now latest.created_at ≡ false
    → let id = or_fresh a.node_id call.node_id in
      (next : TaskPlanSnapshot) × (delete_node call' s id ≡ ok (next, join "node.deleted:" id))
      × (next.nodes ≡ latest.nodes)
      × (next.edges ≡ latest.edges)
unfolding create_node next_snapshot
create_node-delete_node latest s call call' a o consistent h known later =
    let id = or_fresh a.node_id call.node_id in
    let n = new_node id a in
    let (on, free, h₁) = editable latest _ h in
    let (new, h₂) = require-eq-ok (not (contains id (node_ids latest.nodes))) refused _ h₁ in
    let (_, h₃) = require-eq-ok (has_source a.source_node_id latest.nodes) refused _ h₂ in
    let (_, h₄) = validated-eq-ok is_valid_node n _ h₃ in
    let (es, sourced, h₅) = >>=-eq-ok (source_edges call a n) _ h₄ in
    let next = created latest call call' n es in
    let (_, e) = made latest s o (is_aware call.now) (is_consistent_snapshot next) next _ h₅ in
    subst
      (λ (k : TaskPlanSnapshot).
        (next' : TaskPlanSnapshot) × (delete_node call' k id ≡ ok (next', join "node.deleted:" id))
        × (next'.nodes ≡ latest.nodes)
        × (next'.edges ≡ latest.edges))
      e
      (delete_created latest call call' n es consistent known later on free (ground (arith, new))
        (apart_from-source_edges call a n es a.source_node_id sourced))
