-- ===== src/Workflow/State.antt =====
-- `TaskState` and `ActorType` of domain/models.py, and `ALLOWED_TRANSITIONS` of workflow/kernel.py.
use job_slayer.Base.{ℕ, ◌≡◌, Bool, true, false, ◌||◌, List, [], ◌∷◌, arith, ◌==◌}

pub data TaskState : Type 0 where
  draft planned plan_review implementing verifying repairing reviewing merge_review : TaskState
  integrating blocked failed completed cancelled gate_approved deliverable_accepted : TaskState

pub data ActorType : Type 0 where
  agent human policy system : ActorType

pub TaskState-discrete : Discrete TaskState
TaskState-discrete = hlevel

pub ActorType-discrete : Discrete ActorType
ActorType-discrete = hlevel

-- The position of a state in the enumeration, by which two states are compared.
abbrev pub ordinal : TaskState → ℕ
ordinal draft = 0
ordinal planned = 1
ordinal plan_review = 2
ordinal implementing = 3
ordinal verifying = 4
ordinal repairing = 5
ordinal reviewing = 6
ordinal merge_review = 7
ordinal integrating = 8
ordinal blocked = 9
ordinal failed = 10
ordinal completed = 11
ordinal cancelled = 12
ordinal gate_approved = 13
ordinal deliverable_accepted = 14

-- `a is b` on states.
abbrev pub is_state : TaskState → TaskState → Bool
is_state a b = ordinal a == ordinal b

-- `state in {...}`
abbrev pub is_among : TaskState → List TaskState → Bool
is_among s [] = false
is_among s (t ∷ ts) = is_state s t || is_among s ts

pub is_state_refl : (s : TaskState) → is_state s s ≡ true
is_state_refl s = ground arith

pub is_state-eq : (s t : TaskState) → is_state s t ≡ true → s ≡ t
is_state-eq s t h = ground arith

unfoldable pub allowed_transitions : TaskState → List TaskState
allowed_transitions draft = planned ∷ []
allowed_transitions planned = plan_review ∷ implementing ∷ []
allowed_transitions plan_review = planned ∷ implementing ∷ cancelled ∷ gate_approved ∷ []
allowed_transitions implementing = verifying ∷ blocked ∷ failed ∷ []
allowed_transitions blocked = implementing ∷ cancelled ∷ []
allowed_transitions failed = implementing ∷ cancelled ∷ []
allowed_transitions verifying = repairing ∷ reviewing ∷ []
allowed_transitions repairing = verifying ∷ []
allowed_transitions reviewing = repairing ∷ merge_review ∷ deliverable_accepted ∷ []
allowed_transitions merge_review = repairing ∷ integrating ∷ cancelled ∷ []
allowed_transitions integrating = completed ∷ cancelled ∷ []
allowed_transitions completed = []
allowed_transitions cancelled = []
allowed_transitions gate_approved = []
allowed_transitions deliverable_accepted = []

abbrev pub is_allowed : TaskState → TaskState → Bool
unfolding allowed_transitions
is_allowed from to = is_among to (allowed_transitions from)

-- The states that a task never leaves.
abbrev pub terminal_states : List TaskState
terminal_states = completed ∷ cancelled ∷ gate_approved ∷ deliverable_accepted ∷ []
