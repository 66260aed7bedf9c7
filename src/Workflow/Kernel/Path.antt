-- ===== src/Workflow/Kernel/Path.antt =====
-- Whole histories under the kernel: governed sequences of records, and the states that they pass.
use job_slayer.Base.{
  ◌≡◌, refl, sym, subst, Bool, true, false, ◌||◌, List, [], ◌∷◌, ◌++◌, arith, any, ◌&&◌,
  ||-of_right, Bool-cases, inl, inr,
}
use job_slayer.Workflow.State.{
  TaskState, draft, planned, plan_review, implementing, verifying, repairing, reviewing,
  merge_review, integrating, blocked, failed, completed, cancelled, gate_approved,
  deliverable_accepted, is_state, is_among, is_allowed, allowed_transitions,
}
use job_slayer.Workflow.Journal.{TransitionRecord, last_state}
use job_slayer.Workflow.Kernel.{may_decide}
use job_slayer.Workflow.Kernel.Gates.{needs_decision}

-- Each record starts where the one before it ended, by a transition of the table, and a decision
-- has been made by a human or a policy.
abbrev pub IsGoverned : TaskState → List TransitionRecord → Type 0
IsGoverned s [] = Unit
IsGoverned s (r ∷ rs) =
    (r.from_state ≡ s)
    × (is_allowed s r.to_state ≡ true)
    × (needs_decision s r.to_state ≡ true → may_decide r.actor_type ≡ true)
    × IsGoverned r.to_state rs

abbrev pub state_after : TaskState → List TransitionRecord → TaskState
state_after s [] = s
state_after s (r ∷ rs) = state_after r.to_state rs

pub last_state-eq : (rs : List TransitionRecord) → last_state rs ≡ state_after draft rs
last_state-eq [] = refl
last_state-eq (r ∷ rs) = from_record r rs
  where
    from_record :
        (r : TransitionRecord) (rs : List TransitionRecord)
        → last_state (r ∷ rs) ≡ state_after r.to_state rs
    from_record r [] = refl
    from_record r (q ∷ rs) = from_record q rs

pub IsGoverned-snoc :
    (s : TaskState) (rs : List TransitionRecord) (r : TransitionRecord)
    → IsGoverned s rs
    → IsGoverned (state_after s rs) (r ∷ [])
    → IsGoverned s (rs ++ r ∷ [])
IsGoverned-snoc s [] r g h = h
IsGoverned-snoc s (q ∷ rs) r (from, allowed, decided, g) h =
    (from, allowed, decided, IsGoverned-snoc q.to_state rs r g h)

-- The states that every way from DRAFT to a state passes, the state itself first.
abbrev pub milestones : TaskState → List TaskState
milestones draft = draft ∷ []
milestones planned = planned ∷ []
milestones plan_review = plan_review ∷ planned ∷ []
milestones implementing = implementing ∷ planned ∷ []
milestones blocked = blocked ∷ implementing ∷ planned ∷ []
milestones failed = failed ∷ implementing ∷ planned ∷ []
milestones verifying = verifying ∷ implementing ∷ planned ∷ []
milestones repairing = repairing ∷ verifying ∷ implementing ∷ planned ∷ []
milestones reviewing = reviewing ∷ verifying ∷ implementing ∷ planned ∷ []
milestones merge_review = merge_review ∷ reviewing ∷ verifying ∷ implementing ∷ planned ∷ []
milestones integrating =
    integrating ∷ merge_review ∷ reviewing ∷ verifying ∷ implementing ∷ planned ∷ []
milestones completed =
    completed ∷ integrating ∷ merge_review ∷ reviewing ∷ verifying ∷ implementing ∷ planned ∷ []
milestones cancelled = cancelled ∷ planned ∷ []
milestones gate_approved = gate_approved ∷ plan_review ∷ planned ∷ []
milestones deliverable_accepted =
    deliverable_accepted ∷ reviewing ∷ verifying ∷ implementing ∷ planned ∷ []

step_milestones :
    (s t m : TaskState)
    → is_allowed s t ≡ true
    → is_among m (milestones t) ≡ true
    → (is_state t m || is_among m (milestones s)) ≡ true
unfolding allowed_transitions
step_milestones draft t m a h = ground arith
step_milestones _ t m a h = ground arith

pub visits : TaskState → List TransitionRecord → Bool
visits t rs = any (λ r. is_state r.to_state t) rs

or_chain : (a b p q : Bool) → a || b ≡ true → (a ≡ true → p || q ≡ true) → q || (p || b) ≡ true
or_chain true b true true h k = refl
or_chain true b true false h k = refl
or_chain true b false true h k = refl
or_chain true b false false h k = cc (k refl)
or_chain false b p q h k = ground arith

milestones_visited :
    (s m : TaskState) (rs : List TransitionRecord)
    → IsGoverned s rs
    → is_among m (milestones (state_after s rs)) ≡ true
    → is_among m (milestones s) || visits m rs ≡ true
unfolding visits
milestones_visited s m [] g h = ground (arith, h)
milestones_visited s m (r ∷ rs) (from, allowed, decided, g) h =
    or_chain (is_among m (milestones r.to_state)) (visits m rs) (is_state r.to_state m)
      (is_among m (milestones s)) (milestones_visited r.to_state m rs g h)
      (step_milestones s r.to_state m allowed)

-- A record that takes a task from its merge review into integration, by a human or a policy.
abbrev pub is_sign_off : TransitionRecord → Bool
is_sign_off r =
    is_state r.from_state merge_review && is_state r.to_state integrating && may_decide r.actor_type

into_integrating :
    (s t : TaskState) (decides : Bool)
    → is_allowed s t ≡ true
    → (needs_decision s t ≡ true → decides ≡ true)
    → is_state t integrating ≡ true
    → is_state s merge_review && is_state t integrating && decides ≡ true
unfolding allowed_transitions
into_integrating merge_review t decides a d e = ground (arith, d)
into_integrating _ t decides a d e = absurd (ground arith)

visits-sign_off :
    (s : TaskState) (rs : List TransitionRecord)
    → IsGoverned s rs
    → visits integrating rs ≡ true
    → any is_sign_off rs ≡ true
unfolding visits
visits-sign_off s [] g h = cc
visits-sign_off s (r ∷ rs) (from, allowed, decided, g) h =
    elim (Bool-cases (is_state r.to_state integrating)) [
      | inl here ↦
          let signed : is_sign_off r ≡ true =
            subst
              (λ q.
                is_state q merge_review
                  && is_state r.to_state integrating
                  && may_decide r.actor_type
                ≡ true)
              (sym from)
              (into_integrating s r.to_state (may_decide r.actor_type) allowed decided here) in
          rw signed refl
      | inr later ↦
          ||-of_right (is_sign_off r) (any is_sign_off rs)
            (visits-sign_off r.to_state rs g (rw later at h))
    ]

-- In a governed history, every state that lies on all ways to the present one has been entered.
pub milestones_of_end :
    (m : TaskState) (rs : List TransitionRecord)
    → IsGoverned draft rs
    → is_among m (milestones (last_state rs)) ≡ true
    → is_state draft m ≡ false
    → visits m rs ≡ true
milestones_of_end m rs g h not_start =
    let seen =
      milestones_visited draft m rs g
        (subst (λ s. is_among m (milestones s) ≡ true) (last_state-eq rs) h) in
    ground (arith, seen)

-- A completed task was verified, reviewed, and signed off into integration by a human or a policy.
pub completed_signed_off :
    (rs : List TransitionRecord)
    → IsGoverned draft rs
    → last_state rs ≡ completed
    → (visits verifying rs ≡ true) × (visits reviewing rs ≡ true) × (any is_sign_off rs ≡ true)
completed_signed_off rs g e =
    let entered : (m : TaskState)
        → is_among m (milestones completed) ≡ true
        → is_state draft m ≡ false
        → visits m rs ≡ true =
      λ m h n.
        milestones_of_end m rs g (subst (λ s. is_among m (milestones s) ≡ true) (sym e) h) n in
    (
      entered verifying refl refl,
      entered reviewing refl refl,
      visits-sign_off draft rs g (entered integrating refl refl),
    )
