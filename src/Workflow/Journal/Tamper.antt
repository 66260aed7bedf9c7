-- ===== src/Workflow/Journal/Tamper.antt =====
-- What the last hash of a verified journal tells of the journal.
use mathlib.Core.List.{Memᴰ}
use job_slayer.Base.{
  ℕ, suc, ◌+◌, String, ◌≡◌, refl, ◌≢◌, ◌⊎◌, inl, inr, List, [], ◌∷◌, Option, none, some, arith,
  length, ok, ap, sym, ◌∙◌,
}
use job_slayer.Workflow.Journal.{
  Payload, TransitionRecord, last_hash, verify_from, verify_transition_sequence, Payload-discrete,
}
use job_slayer.Workflow.Journal.Chain.{verify_from-cons}

-- A record of each of two journals, with different payloads that the digest does not tell apart.
pub record Collision (digest : Payload → String) (xs ys : List TransitionRecord) : Type 0 where
  pub first : TransitionRecord
  pub second : TransitionRecord
  pub in_first : Memᴰ first xs
  pub in_second : Memᴰ second ys
  pub differ : first.payload ≢ second.payload
  pub collide : digest first.payload ≡ digest second.payload

module _ (digest : Payload → String) where
  abbrev Verifies : ℕ → Option String → List TransitionRecord → Type 0
  Verifies n before rs = verify_from digest n before rs ≡ ok tt

  later :
      (x y : TransitionRecord) (xs ys : List TransitionRecord)
      → Collision digest xs ys
      → Collision digest (x ∷ xs) (y ∷ ys)
  later x y xs ys c = record {
    first = c.first;
    second = c.second;
    differ = c.differ;
    collide = c.collide;
    in_first = Memᴰ.tail c.in_first;
    in_second = Memᴰ.tail c.in_second;
  }

  payload_of_hash :
      (x y : TransitionRecord) (xs ys : List TransitionRecord)
      → Memᴰ x xs
      → Memᴰ y ys
      → digest x.payload ≡ x.record_hash
      → digest y.payload ≡ y.record_hash
      → x.record_hash ≡ y.record_hash
      → (x ≡ y) ⊎ Collision digest xs ys
  payload_of_hash x y xs ys mx my hx hy e = elim (Payload-discrete x.payload y.payload) [
    | yes same ↦ inl (λ i. record { payload = same i; record_hash = e i })
    | no other ↦ inr (record {
      first = x;
      second = y;
      in_first = mx;
      in_second = my;
      differ = other;
      collide = hx ∙ e ∙ sym hy;
    })
  ]

  -- Of equal length, from the same position.
  same_length :
      (n : ℕ) (p q : Option String) (xs ys : List TransitionRecord)
      → Verifies n p xs
      → Verifies n q ys
      → length xs ≡ length ys
      → last_hash p xs ≡ last_hash q ys
      → ((xs ≡ ys) × (p ≡ q)) ⊎ Collision digest xs ys
  same_length n p q [] [] hx hy l e = inl (refl, e)
  same_length n p q [] (y ∷ ys) hx hy l e = absurd (omega arith)
  same_length n p q (x ∷ xs) [] hx hy l e = absurd (omega arith)
  same_length n p q (x ∷ xs) (y ∷ ys) hx hy l e =
      let (linked_x, rest_x) = verify_from-cons digest n p x xs hx in
      let (linked_y, rest_y) = verify_from-cons digest n q y ys hy in
      elim (same_length (suc n) (some x.record_hash) (some y.record_hash) xs ys rest_x rest_y
        (omega arith) e) [
          | inl (rest, hash) ↦
              elim (payload_of_hash x y (x ∷ xs) (y ∷ ys) (Memᴰ.head refl) (Memᴰ.head refl)
                linked_x.hashed linked_y.hashed (cc)) [
                  | inl same ↦ inl (
                    (λ i. same i ∷ rest i),
                    sym linked_x.linked
                        ∙ ap (λ (r : TransitionRecord). r.previous_hash) same
                        ∙ linked_y.linked,
                  )
                  | inr c ↦ inr c
                ]
          | inr c ↦ inr (later x y xs ys c)
        ]

  abbrev IsLast : Option String → ℕ → TransitionRecord → Type 0
  IsLast hash sequence r =
      (hash ≡ some r.record_hash) × (r.sequence ≡ sequence) × (digest r.payload ≡ r.record_hash)

  verify_from-IsLast :
      (n : ℕ) (p : Option String) (x : TransitionRecord) (xs : List TransitionRecord)
      → Verifies n p (x ∷ xs)
      → (r : TransitionRecord) × Memᴰ r (x ∷ xs) × IsLast (last_hash p (x ∷ xs)) (n + length xs) r
  verify_from-IsLast n p x [] h =
      let (linked, rest) = verify_from-cons digest n p x [] h in
      (x, Memᴰ.head refl, (refl, omega (arith, linked.numbered), linked.hashed))
  verify_from-IsLast n p x (y ∷ xs) h =
      let (linked, rest) = verify_from-cons digest n p x (y ∷ xs) h in
      let (r, member, (hash, sequence, hashed)) =
        verify_from-IsLast (suc n) (some x.record_hash) y xs rest in
      (r, Memᴰ.tail member, (hash, omega (arith, sequence), hashed))

  -- Two verified journals that end in the same hash are the same list of records, or a record of
  -- one and a record of the other have different payloads with one digest. Their lengths need not
  -- be known to agree.
  pub last_hash-determines :
      (xs ys : List TransitionRecord)
      → verify_transition_sequence digest xs ≡ ok tt
      → verify_transition_sequence digest ys ≡ ok tt
      → last_hash none xs ≡ last_hash none ys
      → (xs ≡ ys) ⊎ Collision digest xs ys
  unfolding verify_transition_sequence
  last_hash-determines [] [] hx hy e = inl refl
  last_hash-determines [] (y ∷ ys) hx hy e =
      let (r, _, last) = verify_from-IsLast 1 none y ys hy in cc (last.0)
  last_hash-determines (x ∷ xs) [] hx hy e =
      let (r, _, last) = verify_from-IsLast 1 none x xs hx in cc (last.0)
  last_hash-determines (x ∷ xs) (y ∷ ys) hx hy e =
      let (r, in_xs, last_r) = verify_from-IsLast 1 none x xs hx in
      let (t, in_ys, last_t) = verify_from-IsLast 1 none y ys hy in
      elim (payload_of_hash r t (x ∷ xs) (y ∷ ys) in_xs in_ys last_r.2 last_t.2
        (cc (last_r.0, last_t.0))) [
          | inl same ↦
              let lengths : length (x ∷ xs) ≡ length (y ∷ ys) =
                omega (arith, last_r.1, last_t.1, ap (λ (q : TransitionRecord). q.sequence) same) in
              elim (same_length 1 none none (x ∷ xs) (y ∷ ys) hx hy lengths e) [
                | inl both ↦ inl both.0
                | inr c ↦ inr c
              ]
          | inr c ↦ inr c
        ]
