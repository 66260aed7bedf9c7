-- ===== src/Budgets/Reserved.antt =====
-- What a reservation promises over every later sequence of calls.
use job_slayer.Base.{
  ◌+◌, ◌≤◌, String, ◌≡◌, refl, sym, ap, ◌∙◌, subst, false, not, ◌||◌, List, ◌∷◌, Option, some,
  eq_refl, arith, Result, ok, err, inl, inr, require, >>=-eq-ok, ok-injective,
}
use job_slayer.Time.{Stamp}
use job_slayer.Budgets.{
  BudgetSnapshot, ExecutionBudget, active, Denial, BudgetError, already_reserved, invalid_snapshot,
  is_valid_snapshot,
}
use job_slayer.Budgets.Store.{
  EventType, reserved, BudgetDb, CallTime, find, has_event, reserve, append_event, is_taken,
  when_of, new_snapshot, Committed, attempted,
}
use job_slayer.Budgets.Charge.{charged, with_totals}
use job_slayer.Budgets.Steps.{
  Call, attempting, charging, releasing, target, expected_version, step, Commits, Writes,
}
use job_slayer.Budgets.Runs.{
  step-cases, granted, granted_bound, Dimension, input, output, cost, duration, maximum, accepted,
  accepted_bound, amount_left, attempts_left,
}

append_event-rows :
    (db db' : BudgetDb) (s : BudgetSnapshot) (kind : EventType)
    → append_event db s kind ≡ ok db'
    → db'.reservations ≡ db.reservations
unfolding append_event
append_event-rows db db' s kind h = ground arith

amount_left-new :
    (dim : Dimension) (id : String) (budget : ExecutionBudget) (when : Stamp)
    → amount_left dim (some (new_snapshot id budget when)) ≡ maximum dim budget
amount_left-new input id budget when = omega arith
amount_left-new output id budget when = omega arith
amount_left-new cost id budget when = omega arith
amount_left-new duration id budget when = omega arith

-- The row that a reservation adds.
pub record Reserves (db db' : BudgetDb) (id : String) (budget : ExecutionBudget)
    (s : BudgetSnapshot) : Type 0 where
  pub same_id : s.reservation_id ≡ id
  pub same_budget : s.budget ≡ budget
  pub starts_active : s.status ≡ active
  pub unspent : (dim : Dimension) → amount_left dim (some s) ≡ maximum dim budget
  pub unused : attempts_left (some s) ≡ budget.maximum_attempts
  pub was_free : is_taken s db.reservations ≡ false
  pub rows : db'.reservations ≡ s ∷ db.reservations

pub reserve-Reserves :
    (db db' : BudgetDb) (id : String) (budget : ExecutionBudget) (time : CallTime)
    (s : BudgetSnapshot)
    → reserve db id budget time ≡ ok (s, db')
    → Reserves db db' id budget s
unfolding reserve
reserve-Reserves db db' id budget time s h =
    let (when, timed, h₁) = >>=-eq-ok (when_of time) _ h in
    let new = new_snapshot id budget when in
    let (_, valid, h₂) = >>=-eq-ok (require (is_valid_snapshot new) invalid_snapshot) _ h₁ in
    let (_, free, h₃) =
      >>=-eq-ok
        (require (not (is_taken new db.reservations || has_event id 1 db.events)) already_reserved)
        _ h₂ in
    let (after, logged, h₄) =
      >>=-eq-ok (append_event (record db { reservations = new ∷ db.reservations }) new reserved) _
        h₃ in
    subst (λ (p : BudgetSnapshot × BudgetDb). Reserves db p.1 id budget p.0) (ok-injective h₄)
      (record {
        same_id = refl;
        same_budget = refl;
        starts_active = refl;
        unspent = λ dim. amount_left-new dim id budget when;
        unused = omega arith;
        was_free = ground arith;
        rows =
            append_event-rows (record db { reservations = new ∷ db.reservations }) after new
              reserved logged;
      })

reserve-find :
    (db db' : BudgetDb) (id : String) (budget : ExecutionBudget) (time : CallTime)
    (s : BudgetSnapshot)
    → reserve db id budget time ≡ ok (s, db')
    → find id db'.reservations ≡ some s
unfolding find
reserve-find db db' id budget time s h =
    let r = reserve-Reserves db db' id budget time s h in rw (r.rows, r.same_id, eq_refl id) refl

-- Whatever calls follow a reservation, they are granted at most the attempts of its budget.
pub reserve-granted :
    (db db' : BudgetDb) (id : String) (budget : ExecutionBudget) (time : CallTime)
    (s : BudgetSnapshot)
    → reserve db id budget time ≡ ok (s, db')
    → (calls : List Call) → granted id db' calls ≤ budget.maximum_attempts
reserve-granted db db' id budget time s h calls =
    let r = reserve-Reserves db db' id budget time s h in
    let row = reserve-find db db' id budget time s h in
    subst (λ k. granted id db' calls ≤ k) (ap attempts_left row ∙ r.unused)
      (granted_bound id calls db')

-- Whatever calls follow a reservation, the usage that charges add without being refused is, in
-- each of the four measures, at most the maximum of its budget.
pub reserve-accepted :
    (db db' : BudgetDb) (id : String) (budget : ExecutionBudget) (time : CallTime)
    (s : BudgetSnapshot)
    → reserve db id budget time ≡ ok (s, db')
    → (calls : List Call) (dim : Dimension) → accepted dim id db' calls ≤ maximum dim budget
reserve-accepted db db' id budget time s h calls dim =
    let r = reserve-Reserves db db' id budget time s h in
    let row = reserve-find db db' id budget time s h in
    subst (λ k. accepted dim id db' calls ≤ k) (ap (amount_left dim) row ∙ r.unspent dim)
      (accepted_bound dim id calls db')

Writes-version :
    (call : Call) (current new : BudgetSnapshot) (denial : Option Denial)
    → Writes call current denial new
    → new.version ≡ current.version + 1
unfolding attempted charged with_totals
Writes-version (attempting t expected repair time) current new denial (when, d, n) = rw n refl
Writes-version (charging t expected deltas time) current new denial (when, d, n) = rw n refl
Writes-version (releasing t expected time) current new denial (when, d, n) = rw n refl

stale-refused :
    (db : BudgetDb) (call later : Call) (c c' : Committed)
    → Commits db call c
    → Commits c.2 later c'
    → target later ≡ target call
    → expected_version later ≡ expected_version call
    → ⊥
stale-refused db call later c c' first second same_target same_version =
    let stored : find (target call) c.2.reservations ≡ some c.1 =
      first.after (target call) ∙ rw (eq_refl (target call)) refl in
    let read : find (target call) c.2.reservations ≡ some second.current =
      subst (λ k. find k c.2.reservations ≡ some second.current) same_target second.found in
    let row : c.1 ≡ second.current = cc in
    let next = Writes-version call first.current c.1 c.0 first.writes in
    omega (
      arith,
      next,
      first.at_version,
      second.at_version,
      ap (λ (s : BudgetSnapshot). s.version) row,
      same_version,
    )

-- Of two calls on one reservation that expect the same version, the second is refused and changes
-- nothing once the first has succeeded.
pub step-one_winner :
    (db db' : BudgetDb) (call later : Call) (s : BudgetSnapshot)
    → step db call ≡ (ok s, db')
    → target later ≡ target call
    → expected_version later ≡ expected_version call
    → (e : BudgetError) × (step db' later ≡ (err e, db'))
step-one_winner db db' call later s done same_target same_version = elim (step-cases db call) [
  | inl (e, failed) ↦
      let bad : ok s ≡ err e =
        ap (λ (p : Result BudgetError BudgetSnapshot × BudgetDb). p.0) (sym done ∙ failed) in
      cc
  | inr (c, first, committed) ↦
      let after : c.2 ≡ db' =
        ap (λ (p : Result BudgetError BudgetSnapshot × BudgetDb). p.1) (sym committed ∙ done) in
      subst (λ d. (e : BudgetError) × (step d later ≡ (err e, d))) after
        (elim (step-cases c.2 later) [
          | inl refused ↦ refused
          | inr (c', second, _) ↦
              absurd (stale-refused db call later c c' first second same_target same_version)
        ])
]
