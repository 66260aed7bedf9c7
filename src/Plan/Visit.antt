-- ===== src/Plan/Visit.antt =====
-- The depth-first search of a plan: what a visit establishes, and what its errors mean.
use job_slayer.Base.{
  ℕ, zero, suc, ◌+◌, ◌≤◌, String, ◌≡◌, refl, subst, ◌∙◌, true, false, List, [], ◌∷◌, all, length,
  contains, is_unique, str_eq, eq_iff, eq_refl, arith, Bool-cases, inl, inr, Result, ok, err, ◌>>=◌,
}
use job_slayer.Plan.{TaskPlanEdge}
use job_slayer.Plan.Graph.{
  GraphError, cyclic, is_known_edge, successors, Search, remove, enter, leave, each, visit,
}
use job_slayer.Plan.Order.{
  Walk, one, step, IsSorted, contains-cons_self, contains-cons, contains-cases,
}
use job_slayer.Plan.Pigeon.{length-le-of_subset}

module _ (edges : List TaskPlanEdge) (nodes : List String) where
  -- What holds of the two sets between two visits.
  pub record IsGood (s : Search) : Type 0 where
    pub sorted : IsSorted edges s.visited
    pub apart : (x : String) → contains x s.visiting ≡ true → contains x s.visited ≡ false
    pub distinct : is_unique s.visiting ≡ true
    pub known : (x : String) → contains x s.visiting ≡ true → contains x nodes ≡ true

  -- Every node that is being visited leads to `x`.
  abbrev pub Leads : Search → String → Type 0
  Leads s x = (w : String) → contains w s.visiting ≡ true → Walk edges w x

  pub record Extends (s s' : Search) (ids : List String) : Type 0 where
    pub good : IsGood s'
    pub same : s'.visiting ≡ s.visiting
    pub kept : (x : String) → contains x s.visited ≡ true → contains x s'.visited ≡ true
    pub added : (x : String) → contains x ids ≡ true → contains x s'.visited ≡ true

  abbrev pub Outcome : Search → List String → Result GraphError Search → Type 0
  Outcome s ids (ok s') = Extends s s' ids
  Outcome s ids (err e) = (e ≡ cyclic) × ((x : String) × Walk edges x x)

  -- A step that is given `fuel` levels of recursion.
  abbrev IsFine : ℕ → (Search → String → Result GraphError Search) → Type 0
  IsFine fuel f =
      (s : Search) (x : String)
      → IsGood s
      → contains x nodes ≡ true
      → Leads s x
      → suc (length nodes) ≤ fuel + length s.visiting
      → Outcome s (x ∷ []) (f s x)

  module _ (fuel : ℕ) (f : Search → String → Result GraphError Search) (fine : IsFine fuel f) where
    pub each-Outcome :
        (ids : List String) (s : Search)
        → IsGood s
        → ((x : String) → contains x ids ≡ true → contains x nodes ≡ true)
        → ((x : String) → contains x ids ≡ true → Leads s x)
        → suc (length nodes) ≤ fuel + length s.visiting
        → Outcome s ids (each f s ids)
    unfolding each
    each-Outcome [] s good known leads enough = record {
      good = good;
      same = refl;
      kept = λ x h. h;
      added = λ x h. cc;
    }
    each-Outcome (x ∷ xs) s good known leads enough =
        next
          (λ s' first.
            each-Outcome xs s' first.good (λ y h. known y (contains-cons x y xs h))
              (λ y h w inside. leads y (contains-cons x y xs h) w (rw first.same at inside))
              (rw first.same enough))
          (f s x)
          (fine s x good (known x (contains-cons_self x xs)) (leads x (contains-cons_self x xs))
            enough)
      where
        join :
            (s' : Search)
            → Extends s s' (x ∷ [])
            → (r : Result GraphError Search) → Outcome s' xs r
            → Outcome s (x ∷ xs) r
        join s' first (err e) found = found
        join s' first (ok t) rest = record {
          good = rest.good;
          same = rest.same ∙ first.same;
          kept = λ y h. rest.kept y (first.kept y h);
          added = λ y h. elim (contains-cases x y xs h) [
            | inl here ↦ rest.kept y (
                first.added y
                  (subst (λ k. contains k (x ∷ []) ≡ true) here (contains-cons_self x [])))
            | inr later ↦ rest.added y later
          ];
        }

        next :
            ((s' : Search) → Extends s s' (x ∷ []) → Outcome s' xs (each f s' xs))
            → (r : Result GraphError Search) → Outcome s (x ∷ []) r
            → Outcome s (x ∷ xs) (r >>= λ s'. each f s' xs)
        next rest (err e) found = found
        next rest (ok s') first = join s' first (each f s' xs) (rest s' first)

  pub successors-known :
      (x y : String) (es : List TaskPlanEdge)
      → all (is_known_edge nodes) es ≡ true
      → contains y (successors x es) ≡ true
      → contains y nodes ≡ true
  unfolding successors
  successors-known x y [] h inside = cc
  successors-known x y (e ∷ es) h inside = elim (Bool-cases (str_eq e.target_node_id y)) [
    | inl here ↦
        let target : contains e.target_node_id nodes ≡ true = ground (arith, h) in
        subst (λ k. contains k nodes ≡ true) ((eq_iff e.target_node_id y).0 here) target
    | inr other ↦ ground (arith, other, successors-known x y es)
  ]

  enter-IsGood :
      (s : Search) (id : String)
      → IsGood s
      → contains id nodes ≡ true
      → contains id s.visiting ≡ false
      → contains id s.visited ≡ false
      → IsGood (enter id s)
  enter-IsGood s id good known fresh unseen = record {
    sorted = good.sorted;
    apart = λ x h. elim (contains-cases id x s.visiting h) [
      | inl same ↦ subst (λ k. contains k s.visited ≡ false) same unseen
      | inr inside ↦ good.apart x inside
    ];
    distinct = ground (arith, fresh, good.distinct);
    known = λ x h. elim (contains-cases id x s.visiting h) [
      | inl same ↦ subst (λ k. contains k nodes ≡ true) same known
      | inr inside ↦ good.known x inside
    ];
  }

  leave-Extends :
      (s s' : Search) (id : String)
      → IsGood s
      → contains id s.visiting ≡ false
      → Extends (enter id s) s' (successors id edges)
      → Extends s (leave id s') (id ∷ [])
  leave-Extends s s' id good fresh inner =
      let restored : remove id s'.visiting ≡ s.visiting =
        rw inner.same (ground (arith, eq_refl id)) in
      let apart : (x : String)
          → contains x (id ∷ s.visiting) ≡ true
          → contains x s'.visited ≡ false =
        λ x h. inner.good.apart x (rw inner.same h) in
      let fresh_id : contains id s'.visited ≡ false = apart id (contains-cons_self id s.visiting) in
      record {
        good = record {
          sorted = (inner.added, fresh_id, inner.good.sorted);
          apart = λ x h.
              let inside : contains x s.visiting ≡ true = rw restored at h in
              elim (Bool-cases (str_eq id x)) [
                | inr other ↦ ground (arith, other, apart x (contains-cons id x s.visiting inside))
                | inl here ↦ absurd (cc (fresh, inside, (eq_iff id x).0 here))
              ];
          distinct = rw restored good.distinct;
          known = λ x h. good.known x (rw restored at h);
        };
        same = restored;
        kept = λ x h. contains-cons id x s'.visited (inner.kept x h);
        added = λ x h. elim (contains-cases id x [] h) [
          | inl here ↦
              subst (λ k. contains k (id ∷ s'.visited) ≡ true) here
                (contains-cons_self id s'.visited)
          | inr inside ↦ absurd (cc)
        ];
      }

  pub visit-IsFine :
      all (is_known_edge nodes) edges ≡ true → (fuel : ℕ) → IsFine fuel (visit fuel edges)
  unfolding visit
  visit-IsFine ends zero s x good known leads enough =
      let bound = length-le-of_subset s.visiting nodes good.distinct good.known in
      absurd (omega (arith, bound, enough))
  visit-IsFine ends (suc fuel) s x good known leads enough =
      elim (Bool-cases (contains x s.visiting)) [
        | inl again ↦ rw (again, Outcome) (refl, (x, leads x again))
        | inr fresh ↦ elim (Bool-cases (contains x s.visited)) [
          | inl seen ↦
              rw (fresh, seen, Outcome)
                (record {
                  good = good;
                  same = refl;
                  kept = λ y h. h;
                  added = λ y h. elim (contains-cases x y [] h) [
                    | inl here ↦ subst (λ k. contains k s.visited ≡ true) here seen
                    | inr inside ↦ absurd (cc)
                  ];
                })
          | inr unseen ↦
              rw (fresh, unseen, Outcome)
                (finish fresh (each (visit fuel edges) (enter x s) (successors x edges)) (
                  each-Outcome fuel (visit fuel edges) (visit-IsFine ends fuel) (successors x edges)
                    (enter x s) (enter-IsGood s x good known fresh unseen)
                    (λ y edge. successors-known x y edges ends edge)
                    (λ y edge w inside. elim (contains-cases x w s.visiting inside) [
                      | inl same ↦ subst (λ k. Walk edges k y) same (one edge)
                      | inr before ↦ step (leads w before) edge
                    ])
                    (omega (arith, enough))))
        ]
      ]
    where
      finish :
          contains x s.visiting ≡ false
          → (r : Result GraphError Search) → Outcome (enter x s) (successors x edges) r
          → Outcome s (x ∷ []) (r >>= λ s'. ok (leave x s'))
      finish fresh (err e) found = found
      finish fresh (ok s') inner = leave-Extends s s' x good fresh inner
