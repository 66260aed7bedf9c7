-- ===== src/Plan/LocalLaws.antt =====
-- The local store behind the port of the service.
use job_slayer.Base.{
  ℕ, suc, ◌+◌, String, ◌≡◌, refl, sym, subst, ◌∙◌, Bool, true, not, ◌&&◌, List, [], ◌∷◌, ◌++◌,
  Option, none, some, arith, length, get_last?, ◌==◌, is_sha256, str_eq, eq_iff, Option-cases, inl,
  inr, ok, >>=-eq-ok, require-eq-ok, ok-injective,
}
use job_slayer.Plan.Record.{
  RevisionPayload, TaskPlanRevisionRecord, wrong_hash, blank_entry, wrong_sequence, mixed_plans,
  broken_link, is_valid_revision, is_of_plan, is_linked_to, final_hash, verify_links_from,
}
use job_slayer.Plan.Port.{IsNumbered}
use job_slayer.Plan.Local.{PlanCodec, is_supplied, read_raw, read_line, read_lines}

abbrev pub AreValid : List TaskPlanRevisionRecord → Type 0
AreValid [] = Unit {0}
AreValid (r ∷ rs) = (is_valid_revision r.payload ≡ true) × AreValid rs

-- The link of one record to the records before it.
pub record IsLink (n : ℕ) (plan_id previous : Option String) (r : TaskPlanRevisionRecord)
    : Type 0 where
  pub numbered : r.sequence ≡ n
  pub of_plan : is_of_plan plan_id r.plan_id ≡ true
  pub linked : is_linked_to r.previous_hash previous ≡ true

pub verify_links-cons :
    (n : ℕ) (plan_id previous : Option String) (r : TaskPlanRevisionRecord)
    (rs : List TaskPlanRevisionRecord)
    → verify_links_from n plan_id previous (r ∷ rs) ≡ ok tt
    → IsLink n plan_id previous r
      × (verify_links_from (suc n) (some r.plan_id) (some r.record_hash) rs ≡ ok tt)
unfolding verify_links_from
verify_links-cons n plan_id previous r rs h =
    let (a, h₁) = require-eq-ok (r.sequence == n) wrong_sequence _ h in
    let (b, h₂) = require-eq-ok (is_of_plan plan_id r.plan_id) mixed_plans _ h₁ in
    let (c, h₃) = require-eq-ok (is_linked_to r.previous_hash previous) broken_link _ h₂ in
    (record { numbered = ground arith; of_plan = b; linked = c }, h₃)

pub verify_links_of_link :
    (n : ℕ) (plan_id previous : Option String) (r : TaskPlanRevisionRecord)
    (rs : List TaskPlanRevisionRecord)
    → IsLink n plan_id previous r
    → verify_links_from (suc n) (some r.plan_id) (some r.record_hash) rs ≡ ok tt
    → verify_links_from n plan_id previous (r ∷ rs) ≡ ok tt
unfolding verify_links_from
verify_links_of_link n plan_id previous r rs l h =
    let here : (r.sequence == n) ≡ true = ground (arith, l.numbered) in
    rw (here, l.of_plan, l.linked) h

-- What a record after `rs` links to, when `plan_id` and `previous` are what `rs` links to.
abbrev pub last_plan : Option String → List TaskPlanRevisionRecord → Option String
last_plan plan_id [] = plan_id
last_plan plan_id (r ∷ rs) = last_plan (some r.plan_id) rs

abbrev pub last_record_hash : Option String → List TaskPlanRevisionRecord → Option String
last_record_hash previous [] = previous
last_record_hash previous (r ∷ rs) = last_record_hash (some r.record_hash) rs

pub verify_links-snoc :
    (n : ℕ) (plan_id previous : Option String) (rs : List TaskPlanRevisionRecord)
    (r : TaskPlanRevisionRecord)
    → verify_links_from n plan_id previous rs ≡ ok tt
    → IsLink (n + length rs) (last_plan plan_id rs) (last_record_hash previous rs) r
    → verify_links_from n plan_id previous (rs ++ r ∷ []) ≡ ok tt
verify_links-snoc n plan_id previous [] r h l =
    verify_links_of_link n plan_id previous r []
      (record { numbered = omega (arith, l.numbered); of_plan = l.of_plan; linked = l.linked })
      (unfold verify_links_from in refl)
verify_links-snoc n plan_id previous (q ∷ rs) r h l =
    let (here, rest) = verify_links-cons n plan_id previous q rs h in
    verify_links_of_link n plan_id previous q (rs ++ r ∷ []) here (
      verify_links-snoc (suc n) (some q.plan_id) (some q.record_hash) rs r rest
        (record { numbered = omega (arith, l.numbered); of_plan = l.of_plan; linked = l.linked }))

pub last_record_hash-final :
    (q : TaskPlanRevisionRecord) (rs : List TaskPlanRevisionRecord)
    → last_record_hash (some q.record_hash) rs ≡ final_hash (q ∷ rs)
last_record_hash-final q [] = refl
last_record_hash-final q (r ∷ rs) = last_record_hash-final r rs

pub continues-last_plan :
    (q : TaskPlanRevisionRecord) (rs : List TaskPlanRevisionRecord) (id : String)
    → is_of_plan (last_plan (some q.plan_id) rs) id
      ≡ (elim (get_last? (q ∷ rs)) [ none ↦ true | some r ↦ str_eq id r.plan_id ])
continues-last_plan q [] id = refl
continues-last_plan q (r ∷ rs) id = continues-last_plan r rs id

late_conjuncts : (a b c d : Bool) → (a && b && c && d) ≡ true → (b ≡ true) × (c ≡ true)
late_conjuncts a b c d h = (ground arith, ground arith)

pub valid_binding :
    (p : RevisionPayload)
    → is_valid_revision p ≡ true
    → (p.plan_id ≡ p.snapshot.plan_id) × (p.sequence ≡ p.snapshot.revision)
unfolding is_valid_revision
valid_binding p h =
    let (named, counted) =
      late_conjuncts _ (str_eq p.plan_id p.snapshot.plan_id) (p.sequence == p.snapshot.revision) _
        h in
    ((eq_iff p.plan_id p.snapshot.plan_id).0 named, ground arith)

pub links-IsNumbered :
    (plan_id : String) (n : ℕ) (previous : Option String) (rs : List TaskPlanRevisionRecord)
    → verify_links_from n (some plan_id) previous rs ≡ ok tt
    → AreValid rs
    → IsNumbered plan_id n rs
links-IsNumbered plan_id n previous [] h v = tt
links-IsNumbered plan_id n previous (r ∷ rs) h v =
    let (here, rest) = verify_links-cons n (some plan_id) previous r rs h in
    let same = (eq_iff r.plan_id plan_id).0 here.of_plan in
    let (bound, counted) = valid_binding r.payload v.0 in
    (
      here.numbered,
      sym counted ∙ here.numbered,
      sym bound ∙ same,
      links-IsNumbered plan_id (suc n) (some r.record_hash) rs
          (subst (λ k. verify_links_from (suc n) (some k) (some r.record_hash) rs ≡ ok tt) same
            rest)
          v.1,
    )

module _ {Text Raw : Type 0} {digest : RevisionPayload → String}
    (codec : PlanCodec Text Raw digest) where
  open codec use {is_blank_line, load, supplied_hash, hash_without, validate, render}

  read_raw-valid :
      (raw : Raw) (r : TaskPlanRevisionRecord)
      → read_raw codec raw ≡ ok r
      → is_valid_revision r.payload ≡ true
  read_raw-valid raw r h =
      let (_, h₁) =
        require-eq-ok (is_supplied (supplied_hash raw) (hash_without raw)) wrong_hash _ h in
      elim (Option-cases (validate raw)) [
        | inl invalid ↦ absurd (ground (arith, invalid))
        | inr (q, valid) ↦ codec.validate_sound raw r (ground (arith, valid))
      ]

  read_line-valid :
      (line : Text) (r : TaskPlanRevisionRecord)
      → read_line codec line ≡ ok r
      → is_valid_revision r.payload ≡ true
  read_line-valid line r h =
      let (_, h₁) = require-eq-ok (not (is_blank_line line)) blank_entry _ h in
      elim (Option-cases (load line)) [
        | inl malformed ↦ absurd (ground (arith, malformed))
        | inr (raw, loaded) ↦ read_raw-valid raw r (rw loaded at h₁)
      ]

  pub read_lines-valid :
      (lines : List Text) (rs : List TaskPlanRevisionRecord)
      → read_lines codec lines ≡ ok rs
      → AreValid rs
  read_lines-valid [] rs h = subst AreValid (ok-injective h) tt
  read_lines-valid (line ∷ lines) rs h =
      let (r, first, h₁) = >>=-eq-ok (read_line codec line) _ h in
      let (rest, others, h₂) = >>=-eq-ok (read_lines codec lines) _ h₁ in
      subst AreValid (ok-injective h₂)
        (read_line-valid line r first, read_lines-valid lines rest others)

  pub read_render :
      (r : TaskPlanRevisionRecord)
      → is_valid_revision r.payload ≡ true
      → digest r.payload ≡ r.record_hash
      → read_line codec (render r) ≡ ok r
  read_render r valid hashed =
      let sha : is_sha256 r.record_hash ≡ true =
        subst (λ k. is_sha256 k ≡ true) hashed (codec.digest_is_sha256 r.payload) in
      let same : str_eq (digest r.payload) r.record_hash ≡ true =
        (eq_iff (digest r.payload) r.record_hash).1 hashed in
      rw (codec.render_not_blank r, codec.load-render r)
        (rw
          (
            codec.supplied_hash-dump r,
            codec.hash_without-dump r,
            same,
            codec.validate-dump r valid sha,
          )
          refl)

  pub read_lines-snoc :
      (lines : List Text) (rs : List TaskPlanRevisionRecord) (line : Text)
      (r : TaskPlanRevisionRecord)
      → read_lines codec lines ≡ ok rs
      → read_line codec line ≡ ok r
      → read_lines codec (lines ++ line ∷ []) ≡ ok (rs ++ r ∷ [])
  read_lines-snoc [] rs line r h e =
      subst (λ k. read_lines codec (line ∷ []) ≡ ok (k ++ r ∷ [])) (ok-injective h) (rw e refl)
  read_lines-snoc (x ∷ lines) rs line r h e =
      let (q, first, h₁) = >>=-eq-ok (read_line codec x) _ h in
      let (rest, others, h₂) = >>=-eq-ok (read_lines codec lines) _ h₁ in
      subst (λ k. read_lines codec (x ∷ lines ++ line ∷ []) ≡ ok (k ++ r ∷ [])) (ok-injective h₂)
        (rw (first, read_lines-snoc lines rest line r others e) refl)
