-- ===== src/Workflow/Journal/Chain.antt =====
-- Verified sequences, one record more, and built records.
use job_slayer.Base.{
  ℕ, suc, ◌+◌, String, ◌≡◌, refl, true, List, [], ◌∷◌, ◌++◌, Option, none, some, arith, length,
  eq_iff, eq_refl, ok, ap,
}
use job_slayer.Workflow.Journal.{
  Draft, Payload, TransitionRecord, same_hash, last_hash, build_transition_record, verify_from,
  verify_transition_sequence,
}

same_hash-eq : (a b : Option String) → same_hash a b ≡ true → a ≡ b
same_hash-eq none none h = refl
same_hash-eq (some a) (some b) h = ap some ((eq_iff a b).0 h)
same_hash-eq none (some b) h = cc
same_hash-eq (some a) none h = cc

pub same_hash_refl : (a : Option String) → same_hash a a ≡ true
same_hash_refl none = refl
same_hash_refl (some a) = eq_refl a

-- What one step of the check establishes of the record that it reads.
pub record IsLinked (digest : Payload → String) (sequence : ℕ) (previous : Option String)
    (r : TransitionRecord) : Type 0 where
  pub numbered : r.sequence ≡ sequence
  pub linked : r.previous_hash ≡ previous
  pub hashed : digest r.payload ≡ r.record_hash

module _ (digest : Payload → String) where
  pub verify_from-cons :
      (n : ℕ) (before : Option String) (r : TransitionRecord) (rs : List TransitionRecord)
      → verify_from digest n before (r ∷ rs) ≡ ok tt
      → IsLinked digest n before r × (verify_from digest (suc n) (some r.record_hash) rs ≡ ok tt)
  unfolding verify_from
  verify_from-cons n before r rs h = (
    record {
      numbered = ground arith;
      linked = same_hash-eq r.previous_hash before (ground arith);
      hashed = (eq_iff (digest r.payload) r.record_hash).0 (ground arith);
    },
    ground arith,
  )

  pub verify_from_of_linked :
      (n : ℕ) (before : Option String) (r : TransitionRecord) (rs : List TransitionRecord)
      → IsLinked digest n before r
      → verify_from digest (suc n) (some r.record_hash) rs ≡ ok tt
      → verify_from digest n before (r ∷ rs) ≡ ok tt
  unfolding verify_from
  verify_from_of_linked n before r rs l h = ground (
    arith,
    l.numbered,
    ap (λ p. same_hash p before) l.linked,
    same_hash_refl before,
    (eq_iff (digest r.payload) r.record_hash).1 l.hashed,
  )

  pub verify_from-snoc :
      (n : ℕ) (before : Option String) (rs : List TransitionRecord) (r : TransitionRecord)
      → verify_from digest n before rs ≡ ok tt
      → IsLinked digest (n + length rs) (last_hash before rs) r
      → verify_from digest n before (rs ++ r ∷ []) ≡ ok tt
  verify_from-snoc n before [] r h l =
      verify_from_of_linked n before r []
        (record { numbered = omega (arith, l.numbered); linked = l.linked; hashed = l.hashed })
        (unfold verify_from in refl)
  verify_from-snoc n before (q ∷ rs) r h l =
      let (here, rest) = verify_from-cons n before q rs h in
      verify_from_of_linked n before q (rs ++ r ∷ []) here (
        verify_from-snoc (suc n) (some q.record_hash) rs r rest
          (record { numbered = omega (arith, l.numbered); linked = l.linked; hashed = l.hashed }))

  -- A record built from a sequence extends it by one link.
  pub build-IsLinked :
      (rs : List TransitionRecord) (d : Draft) (now : ℕ) (r : TransitionRecord)
      → build_transition_record digest rs d now ≡ ok r
      → IsLinked digest (1 + length rs) (last_hash none rs) r × (r.draft ≡ d)
  unfolding build_transition_record
  build-IsLinked rs d now r h = (
    record { numbered = ground arith; linked = ground arith; hashed = ground arith },
    ground arith,
  )

  -- A journal that verifies still verifies after the record built from it is appended.
  pub verify-build :
      (rs : List TransitionRecord) (d : Draft) (now : ℕ) (r : TransitionRecord)
      → verify_transition_sequence digest rs ≡ ok tt
      → build_transition_record digest rs d now ≡ ok r
      → verify_transition_sequence digest (rs ++ r ∷ []) ≡ ok tt
  unfolding verify_transition_sequence
  verify-build rs d now r h b = verify_from-snoc 1 none rs r h (build-IsLinked rs d now r b).0
