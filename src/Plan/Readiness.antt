-- ===== src/Plan/Readiness.antt =====
-- When the assessment of a plan finds no blocker.
use job_slayer.Base.{
  String, ◌≡◌, refl, ap, Bool, true, false, not, ◌&&◌, ◌||◌, List, [], ◌∷◌, ◌++◌, Option, none,
  some, any, arith, is_empty, ◌∙◌,
}
use job_slayer.Plan.{TaskPlanNode}
use job_slayer.Plan.Snapshot.{TaskPlanSnapshot, TaskPlanProposal, is_none}
use job_slayer.Plan.Assess.{
  TaskPlanIssueSeverity, blocker, warning, info, TaskPlanIssue, is_blocker, effective_nodes,
  effective_edges, add_if, is_unverifiable, node_issues, issues_of_nodes, plan_issues, connected,
  assess_task_plan,
}

-- What a plan needs, apart from any issue: it is active, nothing is pending, and it has nodes, of
-- which each validation node says what it verifies.
abbrev pub is_finalizable : TaskPlanSnapshot → Bool
is_finalizable s =
    not s.is_archived
    && is_none s.pending_proposal
    && not (is_empty s.nodes)
    && not (any is_unverifiable s.nodes)

any-append :
    (test : TaskPlanIssue → Bool) (xs ys : List TaskPlanIssue)
    → any test (xs ++ ys) ≡ (any test xs || any test ys)
any-append test [] ys = refl
any-append test (x ∷ xs) ys = ground (arith, any-append test xs ys)

-- An issue that is not a blocker does not count, a blocker counts as its test.
abbrev issue : Bool → TaskPlanIssueSeverity → String → String → Option String → List TaskPlanIssue
issue b severity code message id = add_if b code severity message id

one_issue :
    (b : Bool) (severity : TaskPlanIssueSeverity) (code message : String) (id : Option String)
    → any is_blocker (issue b severity code message id)
      ≡ (b && elim severity [ blocker ↦ true | _ ↦ false ])
one_issue false severity code message id = refl
one_issue true blocker code message id = refl
one_issue true warning code message id = refl
one_issue true info code message id = refl

-- The issues of one node, and of the whole plan, by their tests.
four_issues :
    (a b c d : Bool) (code₁ code₂ code₃ code₄ m₁ m₂ m₃ m₄ : String) (id : Option String)
    → any is_blocker (
        add_if a code₁ warning m₁ id
        ++ add_if b code₂ info m₂ id
        ++ add_if c code₃ blocker m₃ id
        ++ add_if d code₄ warning m₄ id)
      ≡ c
four_issues a b c d code₁ code₂ code₃ code₄ m₁ m₂ m₃ m₄ id =
    let x = issue a warning code₁ m₁ id in
    let y = issue b info code₂ m₂ id in
    let z = issue c blocker code₃ m₃ id in
    ground (
      arith,
      any-append is_blocker (x ++ y ++ z) (issue d warning code₄ m₄ id),
      any-append is_blocker (x ++ y) z,
      any-append is_blocker x y,
      one_issue a warning code₁ m₁ id,
      one_issue b info code₂ m₂ id,
      one_issue c blocker code₃ m₃ id,
      one_issue d warning code₄ m₄ id,
    )

five_issues :
    (a b c d e : Bool) (code₁ code₂ code₃ code₄ code₅ m₁ m₂ m₃ m₄ m₅ : String) (id : Option String)
    → any is_blocker (
        add_if a code₁ blocker m₁ id
        ++ add_if b code₂ blocker m₂ id
        ++ add_if c code₃ blocker m₃ id
        ++ add_if d code₄ warning m₄ id
        ++ add_if e code₅ warning m₅ id)
      ≡ (a || (b || c))
five_issues a b c d e code₁ code₂ code₃ code₄ code₅ m₁ m₂ m₃ m₄ m₅ id =
    let x = issue a blocker code₁ m₁ id in
    let y = issue b blocker code₂ m₂ id in
    let z = issue c blocker code₃ m₃ id in
    let w = issue d warning code₄ m₄ id in
    ground (
      arith,
      any-append is_blocker (x ++ y ++ z ++ w) (issue e warning code₅ m₅ id),
      any-append is_blocker (x ++ y ++ z) w,
      any-append is_blocker (x ++ y) z,
      any-append is_blocker x y,
      one_issue a blocker code₁ m₁ id,
      one_issue b blocker code₂ m₂ id,
      one_issue c blocker code₃ m₃ id,
      one_issue d warning code₄ m₄ id,
      one_issue e warning code₅ m₅ id,
    )

any-node_issues :
    (nodes : List TaskPlanNode) (ends : List String) (n : TaskPlanNode)
    → any is_blocker (node_issues nodes ends n) ≡ is_unverifiable n
any-node_issues nodes ends n =
    four_issues _ _ (is_unverifiable n) _ _ _ _ _ _ _ _ _ (some n.node_id)

any-issues_of_nodes :
    (nodes : List TaskPlanNode) (ends : List String) (ns : List TaskPlanNode)
    → any is_blocker (issues_of_nodes nodes ends ns) ≡ any is_unverifiable ns
any-issues_of_nodes nodes ends [] = refl
any-issues_of_nodes nodes ends (n ∷ ns) =
    any-append is_blocker (node_issues nodes ends n) (issues_of_nodes nodes ends ns)
    ∙ rw (any-node_issues nodes ends n, any-issues_of_nodes nodes ends ns) refl

any-plan_issues :
    (s : TaskPlanSnapshot)
    → any is_blocker (plan_issues s)
      ≡ (s.is_archived || (not (is_none s.pending_proposal) || is_empty (effective_nodes s)))
any-plan_issues s =
    five_issues s.is_archived (not (is_none s.pending_proposal)) (is_empty (effective_nodes s)) _ _
      _ _ _ _ _ _ _ _ _ _ none

-- `A or B`, negated, with the node that a pending proposal would bring left out.
not-any :
    (a : Bool) (p : Option TaskPlanProposal) (nodes : List TaskPlanNode)
    (n : TaskPlanProposal → List TaskPlanNode)
    → not (
        (a || (not (is_none p) || is_empty (elim p [ none ↦ nodes | some q ↦ n q ])))
        || any is_unverifiable (elim p [ none ↦ nodes | some q ↦ n q ]))
      ≡ (not a && is_none p && not (is_empty nodes) && not (any is_unverifiable nodes))
not-any true p nodes n = refl
not-any false (some q) nodes n = refl
not-any false none nodes n = ground arith

-- The assessment of a plan is ready exactly when it is active, has no pending proposal, has a node,
-- and each of its validation nodes has a verification requirement.
pub assess_task_plan-ready :
    (s : TaskPlanSnapshot) → (assess_task_plan s).ready_to_finalize ≡ is_finalizable s
unfolding assess_task_plan
assess_task_plan-ready s =
    ap not (
      any-append is_blocker (plan_issues s)
        (issues_of_nodes (effective_nodes s) (connected (effective_edges s)) (effective_nodes s))
      ∙ rw
          (
            any-plan_issues s,
            any-issues_of_nodes (effective_nodes s) (connected (effective_edges s))
                (effective_nodes s),
          )
          refl)
    ∙ not-any s.is_archived s.pending_proposal s.nodes (λ p. p.nodes)
