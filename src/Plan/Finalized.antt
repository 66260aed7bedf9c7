-- ===== src/Plan/Finalized.antt =====
-- What the field `latest_finalized_revision` of a plan says of its history.
use job_slayer.Base.{
  ℕ, String, ◌≡◌, sym, subst, ◌∙◌, ◌⊎◌, Bool, true, false, List, [], ◌∷◌, some, arith, any,
  get_last?, ◌==◌, inl, inr, ok, ok-injective,
}
use job_slayer.Plan.Snapshot.{TaskPlanSnapshot, draft, finalized}
use job_slayer.Plan.Record.{TaskPlanRevisionRecord}
use job_slayer.Plan.Port.{TaskPlanStore, PlanningAgent}
use job_slayer.Plan.Next.{IsNext, Follows, finalizing, drafting}
use job_slayer.Plan.Lineage.{Continues, IsLineage}
use job_slayer.Plan.Reached.{Reaches, Reaches-HoldsLineage}

-- Whether a record is the finalized revision `n`.
abbrev pub is_finalized_at : ℕ → TaskPlanRevisionRecord → Bool
is_finalized_at n r = elim r.snapshot.status [
  | finalized ↦ r.snapshot.revision == n
  | draft ↦ false
]

found_next :
    (p : TaskPlanSnapshot) (r : TaskPlanRevisionRecord) (n : ℕ)
    → IsNext p r.snapshot
    → r.snapshot.latest_finalized_revision ≡ some n
    → (p.latest_finalized_revision ≡ some n) ⊎ (is_finalized_at n r ≡ true)
found_next p r n next h = by_kind next.follows
  where
    by_kind :
        Follows p r.snapshot → (p.latest_finalized_revision ≡ some n) ⊎ (is_finalized_at n r ≡ true)
    by_kind (finalizing status f) = inr (ground (arith, status, sym f.marked ∙ h))
    by_kind (drafting status kept d) = inl (sym kept ∙ h)

found_in :
    (p : TaskPlanSnapshot) (rs : List TaskPlanRevisionRecord) (q last : TaskPlanRevisionRecord)
    (n : ℕ)
    → IsNext p q.snapshot
    → Continues q.snapshot rs
    → get_last? (q ∷ rs) ≡ some last
    → last.snapshot.latest_finalized_revision ≡ some n
    → (p.latest_finalized_revision ≡ some n) ⊎ (any (is_finalized_at n) (q ∷ rs) ≡ true)
found_in p [] q last n next c e h =
    let same : last ≡ q = cc in
    elim (found_next p q n next (
      subst (λ (k : TaskPlanRevisionRecord). k.snapshot.latest_finalized_revision ≡ some n) same
        h)) [ inl before ↦ inl before | inr here ↦ inr (ground arith) ]
found_in p (r ∷ rs) q last n next c e h = elim (found_in q.snapshot rs r last n c.0 c.1 e h) [
  | inr later ↦ inr (ground arith)
  | inl kept ↦ elim (found_next p q n next kept) [
    | inl before ↦ inl before
    | inr here ↦ inr (ground arith)
  ]
]

lineage_finalized :
    (rs : List TaskPlanRevisionRecord) (last : TaskPlanRevisionRecord) (n : ℕ)
    → IsLineage rs
    → get_last? rs ≡ some last
    → last.snapshot.latest_finalized_revision ≡ some n
    → any (is_finalized_at n) rs ≡ true
lineage_finalized [] last n l e h = absurd (cc)
lineage_finalized (q ∷ []) last n l e h =
    let same : last ≡ q = cc in
    absurd (
      ground (
        arith,
        l.0.never_finalized,
        subst (λ (k : TaskPlanRevisionRecord). k.snapshot.latest_finalized_revision ≡ some n) same
            h,
      ))
lineage_finalized (q ∷ r ∷ rs) last n l e h =
    elim (found_in q.snapshot rs r last n l.1.0 l.1.1 e h) [
      | inl before ↦ absurd (ground (arith, l.0.never_finalized))
      | inr later ↦ ground (arith, later)
    ]

module _ {S Env : Type 0} (store : TaskPlanStore S Env) (agent : PlanningAgent)
    (actor_id : String) where
  -- After any calls of the service, the revision that the latest one names as the latest finalized
  -- is in the plan's history, and is finalized there.
  pub Reaches-finalized :
      {s₀ s : S} (plan_id : String) (rs : List TaskPlanRevisionRecord)
      (last : TaskPlanRevisionRecord) (n : ℕ)
      → store.history s₀ plan_id ≡ ok []
      → Reaches store agent actor_id s₀ s
      → store.history s plan_id ≡ ok rs
      → get_last? rs ≡ some last
      → last.snapshot.latest_finalized_revision ≡ some n
      → any (is_finalized_at n) rs ≡ true
  Reaches-finalized plan_id rs last n new reached read e h =
      let (all, listed, lineage) = Reaches-HoldsLineage store agent actor_id plan_id new reached in
      lineage_finalized rs last n (subst IsLineage (ok-injective (sym listed ∙ read)) lineage) e h
