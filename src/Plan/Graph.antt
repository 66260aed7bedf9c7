-- ===== src/Plan/Graph.antt =====
-- `validate_task_plan_graph`: a depth-first search that refuses a cyclic graph. The search keeps two
-- sets, as lists; the depth of its recursion is the fuel.
use job_slayer.Base.{
  ℕ, zero, suc, String, Bool, true, false, ◌&&◌, List, [], ◌∷◌, all, length, contains, is_unique,
  str_eq, if◌then◌else◌, Result, ok, err, require, ◌>>=◌, ◌>>◌,
}
use job_slayer.Plan.{TaskPlanNode, TaskPlanEdge}

pub data GraphError : Type 0 where
  duplicate_node duplicate_edge unknown_node cyclic out_of_fuel : GraphError

abbrev pub node_ids : List TaskPlanNode → List String
node_ids [] = []
node_ids (n ∷ ns) = n.node_id ∷ node_ids ns

abbrev pub edge_ids : List TaskPlanEdge → List String
edge_ids [] = []
edge_ids (e ∷ es) = e.edge_id ∷ edge_ids es

-- Whether both ends of an edge are known.
abbrev pub is_known_edge : List String → TaskPlanEdge → Bool
is_known_edge known e = contains e.source_node_id known && contains e.target_node_id known

-- `successors[node_id]`
unfoldable pub successors : String → List TaskPlanEdge → List String
successors id [] = []
successors id (e ∷ es) =
    let rest = successors id es in
    if str_eq e.source_node_id id then e.target_node_id ∷ rest else rest

pub record Search : Type 0 where
  pub visiting : List String
  pub visited : List String

-- `visiting.remove(node_id)`
abbrev pub remove : String → List String → List String
remove id [] = []
remove id (x ∷ xs) = let rest = remove id xs in if str_eq x id then xs else x ∷ rest

abbrev pub enter : String → Search → Search
enter id s = record s { visiting = id ∷ s.visiting }

abbrev pub leave : String → Search → Search
leave id s = record s { visiting = remove id s.visiting; visited = id ∷ s.visited }

-- `for x in xs: step(x)`
unfoldable pub each :
    (Search → String → Result GraphError Search) → Search → List String → Result GraphError Search
each step s [] = ok s
each step s (x ∷ xs) = do s' ← step s x; each step s' xs

unfoldable pub visit : ℕ → List TaskPlanEdge → Search → String → Result GraphError Search
unfolding each successors
visit zero edges s id = err out_of_fuel
visit (suc fuel) edges s id = elim (contains id s.visiting) [
  | true ↦ err cyclic
  | false ↦ elim (contains id s.visited) [
    | true ↦ ok s
    | false ↦ do s' ← each (visit fuel edges) (enter id s) (successors id edges); ok (leave id s')
  ]
]

unfoldable pub search : List TaskPlanNode → List TaskPlanEdge → Result GraphError Search
unfolding visit each
search nodes edges =
    each (visit (suc (length nodes)) edges) (record { visiting = []; visited = [] })
      (node_ids nodes)

unfoldable pub validate_task_plan_graph :
    List TaskPlanNode → List TaskPlanEdge → Result GraphError (Unit {0})
unfolding search
validate_task_plan_graph nodes edges = do
  require (is_unique (node_ids nodes)) duplicate_node
  require (is_unique (edge_ids edges)) duplicate_edge
  require (all (is_known_edge (node_ids nodes)) edges) unknown_node
  s ← search nodes edges
  ok tt
