-- ===== src/Manager/Decisions.antt =====
-- The nodes for which the coordinator decides side effects.
use job_slayer.Base.{
  String, Bool, true, false, List, [], ◌∷◌, Option, none, some, ok, ◌≡◌, refl, sym, ap, ◌∙◌, subst,
  ◌⊎◌, inl, inr, arith, Bool-cases, >>=-eq-ok, ok-injective,
}
use job_slayer.Workflow.State.{TaskState, implementing, verifying, integrating}
use job_slayer.Manager.{
  NodeKind, validation, human_gate, NodeExecution, RunStage, run_completed, run_cancelled,
  RunSnapshot, active_states, is_in, Action, start_node, run_validation, observe_node, verify_node,
  integrate_checkpoint, has_side_effect, is_validation, Decision, active_decision,
}
use job_slayer.Manager.Ready.{
  are_satisfied, waiting_states, is_ready, ready_nodes, active_nodes, start_decision,
  ready_decision, node_decision, decide_in, decide,
}

abbrev pub IsOneOf : NodeExecution → List NodeExecution → Type 0
IsOneOf n [] = ⊥
IsOneOf n (x ∷ xs) = (x ≡ n) ⊎ IsOneOf n xs

abbrev has_reference : NodeExecution → Bool
has_reference n = elim n.provider_reference [ none ↦ false | some r ↦ true ]

-- The state of the one active node for which an action resumes its work.
abbrev pub Resumes : Action → NodeExecution → Type 0
Resumes start_node n =
    (n.workflow_state ≡ implementing)
    × (n.provider_reference ≡ none)
    × (is_validation n.kind ≡ false)
Resumes run_validation n =
    (n.workflow_state ≡ implementing)
    × (n.provider_reference ≡ none)
    × (is_validation n.kind ≡ true)
Resumes observe_node n = (n.workflow_state ≡ implementing) × (has_reference n ≡ true)
Resumes verify_node n = n.workflow_state ≡ verifying
Resumes integrate_checkpoint n = n.workflow_state ≡ integrating
Resumes _ n = ⊥

abbrev is_gate : NodeKind → Bool
is_gate human_gate = true
is_gate _ = false

-- The kind of node that an action starts.
abbrev pub Starts : Action → NodeExecution → Type 0
Starts start_node n = (is_validation n.kind ≡ false) × (is_gate n.kind ≡ false)
Starts run_validation n = is_validation n.kind ≡ true
Starts _ n = ⊥

-- The node of a decided side effect: the only active node, whose state the action resumes, or,
-- when no node is active, a waiting node with satisfied dependencies.
abbrev pub IsNext : RunSnapshot → Action → NodeExecution → Type 0
IsNext run action n =
    ((active_nodes run.nodes ≡ n ∷ []) × Resumes action n)
    ⊎ ((active_nodes run.nodes ≡ [])
        × (is_in waiting_states n ≡ true)
        × (are_satisfied run.nodes n.dependency_node_ids ≡ ok true)
        × Starts action n)

active_nodes-IsOneOf :
    (ns : List NodeExecution) (n : NodeExecution) (rest : List NodeExecution)
    → active_nodes ns ≡ n ∷ rest
    → IsOneOf n ns
unfolding active_nodes
active_nodes-IsOneOf [] n rest h = absurd (cc)
active_nodes-IsOneOf (x ∷ ns) n rest h = elim (Bool-cases (is_in active_states x)) [
  | inl here ↦ inl (ground (arith, here))
  | inr later ↦ inr (active_nodes-IsOneOf ns n rest (ground (arith, later)))
]

-- What a node of the comprehension `ready` satisfies.
abbrev IsReady : List NodeExecution → List NodeExecution → NodeExecution → Type 0
IsReady nodes ns n =
    IsOneOf n ns
    × (is_in waiting_states n ≡ true)
    × (are_satisfied nodes n.dependency_node_ids ≡ ok true)

is_ready-true :
    (nodes : List NodeExecution) (n : NodeExecution)
    → is_ready nodes n ≡ ok true
    → (is_in waiting_states n ≡ true) × (are_satisfied nodes n.dependency_node_ids ≡ ok true)
is_ready-true nodes n h = elim (Bool-cases (is_in waiting_states n)) [
  | inl here ↦ (here, rw here at h)
  | inr other ↦ absurd (ground (arith, other))
]

ready_nodes-IsReady :
    (nodes ns : List NodeExecution) (n : NodeExecution) (rest : List NodeExecution)
    → ready_nodes nodes ns ≡ ok (n ∷ rest)
    → IsReady nodes ns n
unfolding ready_nodes
ready_nodes-IsReady nodes [] n rest h = absurd (cc)
ready_nodes-IsReady nodes (x ∷ ns) n rest h =
    let (now, read, h₁) = >>=-eq-ok (is_ready nodes x) _ h in
    let (others, tail, h₂) = >>=-eq-ok (ready_nodes nodes ns) _ h₁ in
    elim (Bool-cases now) [
      | inl yes_now ↦
          let (waits, satisfied) = is_ready-true nodes x (read ∙ ap ok yes_now) in
          let same : x ≡ n = ground (arith, yes_now) in
          (
            inl same,
            subst (λ k. is_in waiting_states k ≡ true) same waits,
            subst (λ k. are_satisfied nodes k.dependency_node_ids ≡ ok true) same satisfied,
          )
      | inr not_now ↦
          let later : ready_nodes nodes ns ≡ ok (n ∷ rest) = tail ∙ ground (arith, not_now) in
          let (member, waits, satisfied) = ready_nodes-IsReady nodes ns n rest later in
          (inr member, waits, satisfied)
    ]

abbrev pub node : String → NodeKind → List String → TaskState → Option String → NodeExecution
node id kind dependencies state reference = record {
  node_id = id;
  kind = kind;
  dependency_node_ids = dependencies;
  workflow_state = state;
  provider_reference = reference;
}

abbrev IsResumed : NodeExecution → Type 0
IsResumed n =
    has_side_effect (active_decision n).action ≡ true
    → ((active_decision n).node_id ≡ some n.node_id) × Resumes (active_decision n).action n

node-IsResumed :
    (id : String) (kind : NodeKind) (ds : List String) (state : TaskState)
    (reference : Option String)
    → IsResumed (node id kind ds state reference)
unfolding active_decision
node-IsResumed id NodeKind.task ds implementing none = λ h. (refl, (refl, refl, refl))
node-IsResumed id NodeKind.milestone ds implementing none = λ h. (refl, (refl, refl, refl))
node-IsResumed id validation ds implementing none = λ h. (refl, (refl, refl, refl))
node-IsResumed id human_gate ds implementing none = λ h. (refl, (refl, refl, refl))
node-IsResumed id kind ds implementing (some r) = λ h. (refl, (refl, refl))
node-IsResumed id kind ds verifying reference = λ h. (refl, refl)
node-IsResumed id kind ds integrating reference = λ h. (refl, refl)
node-IsResumed id kind ds _ reference = λ h. absurd (cc)

active_decision-IsResumed : (n : NodeExecution) → IsResumed n
active_decision-IsResumed n =
    node-IsResumed n.node_id n.kind n.dependency_node_ids n.workflow_state n.provider_reference

abbrev IsStarted : NodeExecution → Type 0
IsStarted n =
    has_side_effect (start_decision n).action ≡ true
    → ((start_decision n).node_id ≡ some n.node_id) × Starts (start_decision n).action n

node-IsStarted :
    (id : String) (kind : NodeKind) (ds : List String) (state : TaskState)
    (reference : Option String)
    → IsStarted (node id kind ds state reference)
node-IsStarted id NodeKind.task ds state reference = λ h. (refl, (refl, refl))
node-IsStarted id NodeKind.milestone ds state reference = λ h. (refl, (refl, refl))
node-IsStarted id validation ds state reference = λ h. (refl, refl)
node-IsStarted id human_gate ds state reference = λ h. absurd (cc)

start_decision-IsStarted : (n : NodeExecution) → IsStarted n
start_decision-IsStarted n =
    node-IsStarted n.node_id n.kind n.dependency_node_ids n.workflow_state n.provider_reference

-- A decision and the node that it names.
abbrev pub IsDecidedFor : RunSnapshot → Decision → NodeExecution → Type 0
IsDecidedFor run d n = IsOneOf n run.nodes × (d.node_id ≡ some n.node_id) × IsNext run d.action n

ready_decision-IsNext :
    (run : RunSnapshot) (next : List NodeExecution)
    → active_nodes run.nodes ≡ []
    → ready_nodes run.nodes run.nodes ≡ ok next
    → has_side_effect (ready_decision next).action ≡ true
    → (n : NodeExecution) × IsDecidedFor run (ready_decision next) n
ready_decision-IsNext run [] idle found h = absurd (cc)
ready_decision-IsNext run (n ∷ rest) idle found h =
    let (member, waits, satisfied) = ready_nodes-IsReady run.nodes run.nodes n rest found in
    let (named, starts) = start_decision-IsStarted n h in
    (n, (member, named, inr (idle, waits, satisfied, starts)))

node_decision-IsNext :
    (run : RunSnapshot) (active : List NodeExecution) (d : Decision)
    → active_nodes run.nodes ≡ active
    → node_decision run active ≡ ok d
    → has_side_effect d.action ≡ true
    → (n : NodeExecution) × IsDecidedFor run d n
node_decision-IsNext run [] d shown h effect =
    let (next, found, e) = >>=-eq-ok (ready_nodes run.nodes run.nodes) _ h in
    let same : ready_decision next ≡ d = ok-injective e in
    subst (λ (k : Decision). (n : NodeExecution) × IsDecidedFor run k n) same
      (ready_decision-IsNext run next shown found
        (subst (λ (k : Decision). has_side_effect k.action ≡ true) (sym same) effect))
node_decision-IsNext run (n ∷ []) d shown h effect =
    let same : active_decision n ≡ d = ok-injective h in
    let (named, resumes) =
      active_decision-IsResumed n
        (subst (λ (k : Decision). has_side_effect k.action ≡ true) (sym same) effect) in
    subst (λ (k : Decision). (n : NodeExecution) × IsDecidedFor run k n) same
      (n, (active_nodes-IsOneOf run.nodes n [] shown, named, inl (shown, resumes)))
node_decision-IsNext run (n ∷ m ∷ ns) d shown h effect =
    let same = ok-injective h in
    absurd (cc (ap (λ (k : Decision). has_side_effect k.action) same, effect))

-- A side effect is decided only for a node of the run. Either that node is the only active one, and
-- its state asks for the action, or no node is active, the node waits, all its dependencies are
-- satisfied, and its kind asks for the action; in this second case it is not a human gate.
pub decide-IsNext :
    (run : RunSnapshot) (d : Decision)
    → decide run ≡ ok d
    → has_side_effect d.action ≡ true
    → (n : NodeExecution) × IsDecidedFor run d n
unfolding decide
decide-IsNext run d h effect = in_stage run.stage h
  where
    in_stage :
        (stage : RunStage) → decide_in run stage ≡ ok d → (n : NodeExecution) × IsDecidedFor run d n
    in_stage run_completed e =
        absurd (cc (ap (λ (k : Decision). has_side_effect k.action) (ok-injective e), effect))
    in_stage run_cancelled e =
        absurd (cc (ap (λ (k : Decision). has_side_effect k.action) (ok-injective e), effect))
    in_stage _ e = node_decision-IsNext run (active_nodes run.nodes) d refl e effect
