-- ===== src/Plan/Order.antt =====
-- Walks in a plan, and lists of nodes in which every successor of a node comes after it.
use job_slayer.Base.{
  String, ◌≡◌, sym, subst, true, false, List, [], ◌∷◌, contains, str_eq, eq_iff, eq_refl, arith,
  Bool-cases, inl, inr, ◌⊎◌,
}
use job_slayer.Plan.{TaskPlanEdge}
use job_slayer.Plan.Graph.{successors}

-- An edge leads from the first node to the second.
abbrev pub IsEdge : List TaskPlanEdge → String → String → Type 0
IsEdge edges x y = contains y (successors x edges) ≡ true

-- A walk of at least one edge.
pub data Walk (edges : List TaskPlanEdge) (x : String) : String → Type 0 where
  one : {y : String} → IsEdge edges x y → Walk edges x y
  step : {y z : String} → Walk edges x y → IsEdge edges y z → Walk edges x z

abbrev pub IsAcyclic : List TaskPlanEdge → Type 0
IsAcyclic edges = (x : String) → ¬ Walk edges x x

-- The successors of each node stand after it, and no node stands twice.
abbrev pub IsSorted : List TaskPlanEdge → List String → Type 0
IsSorted edges [] = Unit
IsSorted edges (x ∷ xs) =
    ((y : String) → IsEdge edges x y → contains y xs ≡ true)
    × (contains x xs ≡ false)
    × IsSorted edges xs

pub contains-cons_self : (x : String) (xs : List String) → contains x (x ∷ xs) ≡ true
contains-cons_self x xs = ground (arith, eq_refl x)

pub contains-cons :
    (x y : String) (xs : List String) → contains y xs ≡ true → contains y (x ∷ xs) ≡ true
contains-cons x y xs h = ground (arith, h)

-- What stands at the head, or behind it.
pub contains-cases :
    (x y : String) (xs : List String)
    → contains y (x ∷ xs) ≡ true
    → (x ≡ y) ⊎ (contains y xs ≡ true)
contains-cases x y xs h = elim (Bool-cases (str_eq x y)) [
  | inl same ↦ inl ((eq_iff x y).0 same)
  | inr other ↦ inr (ground (arith, other))
]

module _ (edges : List TaskPlanEdge) where
  closed :
      (xs : List String)
      → IsSorted edges xs
      → (x y : String) → contains x xs ≡ true
      → IsEdge edges x y
      → contains y xs ≡ true
  closed [] sorted x y h edge = cc
  closed (z ∷ xs) (next, fresh, sorted) x y h edge = elim (contains-cases z x xs h) [
    | inl same ↦ contains-cons z y xs (next y (subst (λ k. IsEdge edges k y) (sym same) edge))
    | inr later ↦ contains-cons z y xs (closed xs sorted x y later edge)
  ]

  closed_walk :
      (xs : List String)
      → IsSorted edges xs
      → {x y : String} → contains x xs ≡ true
      → Walk edges x y
      → contains y xs ≡ true
  closed_walk xs sorted {x} h (one {y} edge) = closed xs sorted x y h edge
  closed_walk xs sorted {x} h (step {y} {z} walk edge) =
      closed xs sorted y z (closed_walk xs sorted h walk) edge

  -- The first edge of a walk, and the rest of it inside a closed list.
  walk_inside :
      (x : String) (xs : List String)
      → IsSorted edges xs
      → ((y : String) → IsEdge edges x y → contains y xs ≡ true)
      → {y : String} → Walk edges x y
      → contains y xs ≡ true
  walk_inside x xs sorted next (one {y} edge) = next y edge
  walk_inside x xs sorted next (step {y} {z} walk edge) =
      closed xs sorted y z (walk_inside x xs sorted next walk) edge

  pub IsSorted-acyclic :
      (xs : List String)
      → IsSorted edges xs
      → (x : String) → contains x xs ≡ true
      → ¬ Walk edges x x
  IsSorted-acyclic [] sorted x h walk = absurd (cc)
  IsSorted-acyclic (z ∷ xs) (next, fresh, sorted) x h walk = elim (contains-cases z x xs h) [
    | inr later ↦ IsSorted-acyclic xs sorted x later walk
    | inl same ↦
        let inside : contains z xs ≡ true =
          walk_inside z xs sorted next (subst (λ k. Walk edges k k) (sym same) walk) in
        absurd (cc (inside, fresh))
  ]
