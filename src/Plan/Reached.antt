-- ===== src/Plan/Reached.antt =====
-- The plans that the service can reach: what every history of a plan looks like.
use job_slayer.Base.{
  ℕ, String, ◌≡◌, refl, sym, ap, subst, ◌∙◌, true, not, List, [], ◌∷◌, ◌++◌, Option, none, some,
  get_last?, is_empty, strip, str_eq, eq_iff, Bool-cases, inl, inr, ok, err, Result-cases,
  >>=-eq-ok, require-eq-ok, ok-injective,
}
use job_slayer.Plan.Snapshot.{TaskPlanSnapshot, is_aware, is_valid_message, is_consistent_snapshot}
use job_slayer.Plan.Record.{TaskPlanRevisionRecord}
use job_slayer.Plan.Port.{TaskPlanStore, PlanningAgent}
use job_slayer.Plan.Changes.{
  invalid_value, refused, Call, Change, user_message, agent_message, answered, proposal_from_draft,
}
use job_slayer.Plan.Edits.{or_fresh}
use job_slayer.Plan.Service.{
  Request, is_allowed, from_journal, history, expected, entry_of, commit, created_snapshot,
  create_change, create, requested, perform,
}
use job_slayer.Plan.Next.{IsNext, validated-eq-ok}
use job_slayer.Plan.Lineage.{
  IsFirst, IsLineage, IsLineage-snoc, IsNumbered-last, IsRead, expected-IsRead, change-IsNext,
  from_journal-eq-ok,
}

module _ {S Env : Type 0} (store : TaskPlanStore S Env) where
  abbrev pub HoldsLineage : S → String → Type 0
  HoldsLineage s plan_id =
      (rs : List TaskPlanRevisionRecord) × (store.history s plan_id ≡ ok rs) × IsLineage rs

  -- A snapshot that may be appended to its plan's history.
  abbrev Suits : S → TaskPlanSnapshot → Type 0
  Suits s next =
      (rs : List TaskPlanRevisionRecord)
      → store.history s next.plan_id ≡ ok rs
      → IsLineage rs
      → (r : TaskPlanRevisionRecord) → r.snapshot ≡ next
      → IsLineage (rs ++ r ∷ [])

  commit-HoldsLineage :
      (agent : PlanningAgent) (actor_id : String) (env : Env) (s : S) (plan_id : String)
      (c : Change)
      → ((next : TaskPlanSnapshot) (o : String) → c ≡ ok (next, o) → Suits s next)
      → HoldsLineage s plan_id
      → HoldsLineage (commit store agent actor_id env s c).1 plan_id
  commit-HoldsLineage agent actor_id env s plan_id (err e) suits holds = holds
  commit-HoldsLineage agent actor_id env s plan_id (ok (next, o)) suits (rs, read, lineage) =
      let e = entry_of actor_id (next, o) in
      elim (Bool-cases (str_eq next.plan_id plan_id)) [
        | inr other ↦ (rs, store.append_others env s e plan_id rs other read, lineage)
        | inl same ↦
            let named = (eq_iff next.plan_id plan_id).0 same in
            let here : store.history s next.plan_id ≡ ok rs =
              subst (λ k. store.history s k ≡ ok rs) (sym named) read in
            subst (HoldsLineage (store.append env s e).1) named
              (elim (Result-cases (store.append env s e).0) [
                | inl (r, appended) ↦ (
                  rs ++ r ∷ [],
                  store.append_extends env s e r rs appended here,
                  suits next o refl rs here lineage r (
                      ap (λ (k : job_slayer.Plan.Record.Entry). k.snapshot)
                        (store.append_binds env s e r appended)),
                )
                | inr (f, failed) ↦ elim (store.append_fails env s e f rs failed here) [
                  | inl unchanged ↦ (rs, unchanged, lineage)
                  | inr (r, binds, published) ↦ (
                    rs ++ r ∷ [],
                    published,
                    suits next o refl rs here lineage r
                        (ap (λ (k : job_slayer.Plan.Record.Entry). k.snapshot) binds),
                  )
                ]
              ])
      ]

  module _ (agent : PlanningAgent) (actor_id : String) where
    pub requested-IsNext :
        (call : Call) (s : S) (plan_id : String) (n : ℕ) (request : Request)
        (next : TaskPlanSnapshot) (o : String)
        → requested store agent actor_id call s plan_id n request ≡ ok (next, o)
        → (r : TaskPlanRevisionRecord) × IsRead store s plan_id n r × IsNext r.snapshot next
    requested-IsNext call s plan_id n request next o h =
        let (_, h₁) = require-eq-ok (is_allowed request) invalid_value _ h in
        let (r, found, h₂) = >>=-eq-ok (expected store s plan_id n) _ h₁ in
        let (rs, _, h₃) = >>=-eq-ok (history store s plan_id) _ h₂ in
        (
          r,
          expected-IsRead store s plan_id n r found,
          change-IsNext agent actor_id call rs r.snapshot next o request h₃,
        )

    perform-Suits :
        (call : Call) (s : S) (plan_id : String) (n : ℕ) (request : Request)
        (next : TaskPlanSnapshot) (o : String)
        → requested store agent actor_id call s plan_id n request ≡ ok (next, o)
        → Suits s next
    perform-Suits call s plan_id n request next o h rs read lineage r same =
        let (last, seen, follows) = requested-IsNext call s plan_id n request next o h in
        let (_, _, named) =
          IsNumbered-last plan_id 1 seen.records last
            (store.history_numbered s plan_id seen.records seen.read) seen.last in
        let here : store.history s plan_id ≡ ok rs =
          subst (λ k. store.history s k ≡ ok rs) (follows.same_plan ∙ named) read in
        let all_read : seen.records ≡ rs = ok-injective (sym seen.read ∙ here) in
        IsLineage-snoc rs last r lineage (subst (λ k. get_last? k ≡ some last) all_read seen.last)
          (subst (IsNext last.snapshot) (sym same) follows)

    -- No request, whatever its outcome, leaves a plan with a history of another shape.
    perform-HoldsLineage :
        (env : Env) (call : Call) (s : S) (plan_id : String) (n : ℕ) (request : Request)
        (other : String)
        → HoldsLineage s other
        → HoldsLineage (perform store agent actor_id env call s plan_id n request).1 other
    unfolding perform
    perform-HoldsLineage env call s plan_id n request other =
        commit-HoldsLineage agent actor_id env s other
          (requested store agent actor_id call s plan_id n request)
          (perform-Suits call s plan_id n request)

    empty_of : (rs : List TaskPlanRevisionRecord) → is_empty rs ≡ true → rs ≡ []
    empty_of [] h = refl
    empty_of (r ∷ rs) h = cc

    create-Suits :
        (call : Call) (fresh : String) (s : S) (text : String) (plan_id : Option String)
        (next : TaskPlanSnapshot) (o : String)
        → create_change store agent actor_id call fresh s text plan_id ≡ ok (next, o)
        → Suits s next
    unfolding create_change
    create-Suits call fresh s text plan_id next o h rs read lineage r same =
        let id = or_fresh plan_id fresh in
        let question = user_message call (strip text) in
        let (_, h₁) = require-eq-ok (not (str_eq (strip text) "")) invalid_value _ h in
        let (rs₀, read₀, h₂) = >>=-eq-ok (from_journal (store.history s id)) _ h₁ in
        let (new, h₃) = require-eq-ok (is_empty rs₀) refused _ h₂ in
        let (_, h₄) = require-eq-ok (is_aware call.now) invalid_value _ h₃ in
        let (_, h₅) = validated-eq-ok is_valid_message question _ h₄ in
        let (d, _, h₆) =
          >>=-eq-ok
            (answered (
              agent.propose (record {
                plan_id = id;
                task_description = strip text;
                based_on_revision = 0;
                nodes = [];
                edges = [];
                conversation = question ∷ [];
                user_message = strip text;
                selected_node_id = none;
              })))
            _ h₅ in
        let (q, _, h₇) = >>=-eq-ok (proposal_from_draft agent call d 0) _ h₆ in
        let (_, h₈) = validated-eq-ok is_valid_message (agent_message call q) _ h₇ in
        let first = created_snapshot call id (strip text) question (agent_message call q) q in
        let (consistent, h₉) = validated-eq-ok is_consistent_snapshot first _ h₈ in
        let made : first ≡ next = ap (λ (c : TaskPlanSnapshot × String). c.0) (ok-injective h₉) in
        let here : store.history s id ≡ ok rs =
          subst (λ (k : TaskPlanSnapshot). store.history s k.plan_id ≡ ok rs) (sym made) read in
        let none_yet : rs ≡ [] =
          ok-injective (sym here ∙ from_journal-eq-ok store s id _ rs₀ read₀) ∙ empty_of rs₀ new in
        subst (λ k. IsLineage (k ++ r ∷ [])) (sym none_yet)
          (
            subst IsFirst (made ∙ sym same) (record {
              first_revision = refl;
              no_nodes = refl;
              no_edges = refl;
              drafted = refl;
              never_finalized = refl;
              active = refl;
              consistent = consistent;
            }),
            tt,
          )

    create-HoldsLineage :
        (env : Env) (call : Call) (fresh : String) (s : S) (text : String) (plan_id : Option String)
        (other : String)
        → HoldsLineage s other
        → HoldsLineage (create store agent actor_id env call fresh s text plan_id).1 other
    unfolding create
    create-HoldsLineage env call fresh s text plan_id other =
        commit-HoldsLineage agent actor_id env s other
          (create_change store agent actor_id call fresh s text plan_id)
          (create-Suits call fresh s text plan_id)

    -- Calls of the service, one after another.
    pub data Reaches (s : S) : S → Type 0 where
      starting : Reaches s s
      creating :
          {s' : S}
          → Reaches s s'
          → (env : Env) (call : Call) (fresh text : String) (plan_id : Option String)
          → Reaches s (create store agent actor_id env call fresh s' text plan_id).1
      performing :
          {s' : S}
          → Reaches s s'
          → (env : Env) (call : Call) (plan_id : String) (n : ℕ) (request : Request)
          → Reaches s (perform store agent actor_id env call s' plan_id n request).1

    -- Whatever calls are made, and wherever they fail, a plan's history starts as an empty draft, and
    -- each later revision follows from the one before: a new draft changes the graph only by applying
    -- the pending proposal or by an edit of an active plan with nothing pending, and a finalized
    -- revision has the graph of the draft before it, which was ready.
    pub Reaches-HoldsLineage :
        {s s' : S} (plan_id : String)
        → store.history s plan_id ≡ ok []
        → Reaches s s'
        → HoldsLineage s' plan_id
    Reaches-HoldsLineage plan_id new starting = ([], new, tt)
    Reaches-HoldsLineage plan_id new (creating {s'} before env call fresh text id) =
        create-HoldsLineage env call fresh s' text id plan_id
          (Reaches-HoldsLineage plan_id new before)
    Reaches-HoldsLineage plan_id new (performing {s'} before env call id n request) =
        perform-HoldsLineage env call s' id n request plan_id
          (Reaches-HoldsLineage plan_id new before)
