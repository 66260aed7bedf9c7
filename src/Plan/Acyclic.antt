-- ===== src/Plan/Acyclic.antt =====
-- The verdict of the search on a whole plan.
use job_slayer.Base.{
  suc, String, ◌≡◌, refl, ap, subst, ◌≢◌, ◌↔◌, Bool, true, false, List, [], ◌∷◌, all, length,
  contains, is_unique, str_eq, eq_iff, arith, Bool-cases, inl, inr, Result, ok, err, require,
  >>=-eq-ok, ◌>>=◌, ◌>>◌,
}
use job_slayer.Plan.{TaskPlanNode, TaskPlanEdge}
use job_slayer.Plan.Graph.{
  GraphError, duplicate_node, duplicate_edge, unknown_node, out_of_fuel, node_ids, edge_ids,
  is_known_edge, successors, Search, visit, search, validate_task_plan_graph,
}
use job_slayer.Plan.Order.{Walk, one, step, IsAcyclic, IsSorted-acyclic}
use job_slayer.Plan.Visit.{Outcome, visit-IsFine, each-Outcome}

-- What a plan graph promises, apart from any search.
pub record IsPlanGraph (nodes : List TaskPlanNode) (edges : List TaskPlanEdge) : Type 0 where
  pub unique_nodes : is_unique (node_ids nodes) ≡ true
  pub unique_edges : is_unique (edge_ids edges) ≡ true
  pub known_ends : all (is_known_edge (node_ids nodes)) edges ≡ true
  pub acyclic : IsAcyclic edges

length-node_ids : (nodes : List TaskPlanNode) → length (node_ids nodes) ≡ length nodes
length-node_ids [] = refl
length-node_ids (n ∷ ns) = ap suc (length-node_ids ns)

module _ (nodes : List TaskPlanNode) (edges : List TaskPlanEdge) where
  search-Outcome :
      all (is_known_edge (node_ids nodes)) edges ≡ true
      → Outcome edges
          (node_ids nodes)
          (record { visiting = []; visited = [] })
          (node_ids nodes)
          (search nodes edges)
  unfolding search
  search-Outcome ends =
      each-Outcome edges (node_ids nodes) (suc (length nodes)) (visit (suc (length nodes)) edges)
        (visit-IsFine edges (node_ids nodes) ends (suc (length nodes))) (node_ids nodes)
        (record { visiting = []; visited = [] })
        (record { sorted = tt; apart = λ x h. cc; distinct = refl; known = λ x h. cc }) (λ x h. h)
        (λ x h w inside. cc) (omega (arith, length-node_ids nodes))

  -- The source of an edge is a node.
  known_source :
      (x y : String) (es : List TaskPlanEdge)
      → all (is_known_edge (node_ids nodes)) es ≡ true
      → contains y (successors x es) ≡ true
      → contains x (node_ids nodes) ≡ true
  unfolding successors
  known_source x y [] h inside = cc
  known_source x y (e ∷ es) h inside = elim (Bool-cases (str_eq e.source_node_id x)) [
    | inl here ↦
        let source : contains e.source_node_id (node_ids nodes) ≡ true = ground (arith, h) in
        subst (λ k. contains k (node_ids nodes) ≡ true) ((eq_iff e.source_node_id x).0 here) source
    | inr other ↦ ground (arith, other, known_source x y es)
  ]

  walk_source :
      all (is_known_edge (node_ids nodes)) edges ≡ true
      → {x y : String} → Walk edges x y
      → contains x (node_ids nodes) ≡ true
  walk_source ends {x} (one {y} edge) = known_source x y edges ends edge
  walk_source ends (step walk edge) = walk_source ends walk

  found-IsAcyclic :
      all (is_known_edge (node_ids nodes)) edges ≡ true
      → (r : Result GraphError Search)
      → Outcome edges (node_ids nodes) (record { visiting = []; visited = [] }) (node_ids nodes) r
      → (s : Search) → r ≡ ok s
      → IsAcyclic edges
  found-IsAcyclic ends (err e) found s h = absurd (cc)
  found-IsAcyclic ends (ok t) found s h = λ x walk.
      IsSorted-acyclic edges t.visited found.good.sorted x (found.added x (walk_source ends walk))
        walk

  found_cycle :
      (r : Result GraphError Search)
      → Outcome edges (node_ids nodes) (record { visiting = []; visited = [] }) (node_ids nodes) r
      → IsAcyclic edges
      → (s : Search) × (r ≡ ok s)
  found_cycle (ok s) found acyclic = (s, refl)
  found_cycle (err e) (same, (x, walk)) acyclic = absurd (acyclic x walk)

  -- The search accepts exactly the plans whose nodes and whose edges have unique identifiers, whose
  -- edges join nodes of the plan, and which have no cycle.
  pub validate_task_plan_graph_iff :
      (validate_task_plan_graph nodes edges ≡ ok tt) ↔ IsPlanGraph nodes edges
  unfolding validate_task_plan_graph
  validate_task_plan_graph_iff = (
    (λ h.
        let (_, unique_nodes, h₁) =
          >>=-eq-ok (require (is_unique (node_ids nodes)) duplicate_node) _ h in
        let (_, unique_edges, h₂) =
          >>=-eq-ok (require (is_unique (edge_ids edges)) duplicate_edge) _ h₁ in
        let (_, known, h₃) =
          >>=-eq-ok (require (all (is_known_edge (node_ids nodes)) edges) unknown_node) _ h₂ in
        let (s, found, h₄) = >>=-eq-ok (search nodes edges) _ h₃ in
        let ends : all (is_known_edge (node_ids nodes)) edges ≡ true = ground arith in
        record {
          unique_nodes = ground arith;
          unique_edges = ground arith;
          known_ends = ends;
          acyclic = found-IsAcyclic ends (search nodes edges) (search-Outcome ends) s found;
        }),
    (λ g.
        let (s, found) = found_cycle (search nodes edges) (search-Outcome g.known_ends) g.acyclic in
        rw (g.unique_nodes, g.unique_edges, g.known_ends, found) refl),
  )

  search-ne-fuel :
      (r : Result GraphError Search)
      → Outcome edges (node_ids nodes) (record { visiting = []; visited = [] }) (node_ids nodes) r
      → r ≢ err out_of_fuel
  search-ne-fuel (ok s) found h = cc
  search-ne-fuel (err f) (same, cycle) h = cc

  guarded :
      (a b c : Bool) (r : Result GraphError Search)
      → (c ≡ true → r ≢ err out_of_fuel)
      → (do
        require a duplicate_node
        require b duplicate_edge
        require c unknown_node
        s ← r
        ok tt)
        ≢ err out_of_fuel
  guarded false b c r safe h = cc
  guarded true false c r safe h = cc
  guarded true true false r safe h = cc
  guarded true true true (ok s) safe h = cc
  guarded true true true (err e) safe h = safe refl (cc)

  -- The recursion of the search is never deeper than the number of nodes: the fuel, one more than
  -- that, does not run out.
  pub validate_terminates : validate_task_plan_graph nodes edges ≢ err out_of_fuel
  unfolding validate_task_plan_graph
  validate_terminates =
      guarded (is_unique (node_ids nodes)) (is_unique (edge_ids edges))
        (all (is_known_edge (node_ids nodes)) edges) (search nodes edges)
        (λ ends. search-ne-fuel (search nodes edges) (search-Outcome ends))
