-- ===== src/Workflow/Journal/Jsonl/Laws.antt =====
-- The journal's file between two appends, and the outcomes of an append to a file whose last line
-- is terminated.
use job_slayer.Base.{
  ℕ, String, ◌≡◌, refl, sym, ap, ◌∙◌, inl, inr, List, [], ◌∷◌, ◌++◌, none, some, arith, Result, ok,
  Result-cases, >>=-eq-ok, ok-injective, subst, ◌≢◌,
}
use job_slayer.Workflow.Journal.{
  Draft, Payload, TransitionRecord, AuditError, build_transition_record, verify_transition_sequence,
}
use job_slayer.Workflow.Journal.Chain.{verify-build}
use job_slayer.Workflow.Journal.Jsonl.{
  Codec, Content, JournalFile, Fault, content, add_line, text_lines, parse_line, parse_lines,
  read_all, append_transition, no_fault, sync_fault, published,
}

-- The file ends in a newline. A file that only the journal has written does.
abbrev pub IsClean : {Text : Type 0} → Codec Text → JournalFile Text → Type 0
IsClean codec f = (content codec f).tail ≡ codec.empty

module _ {Text : Type 0} (codec : Codec Text) where
  parse_lines-snoc :
      (lines : List Text) (rs : List TransitionRecord) (r : TransitionRecord)
      → parse_lines codec lines ≡ ok rs
      → parse_lines codec (lines ++ codec.render r ∷ []) ≡ ok (rs ++ r ∷ [])
  parse_lines-snoc [] rs r h = ground (arith, codec.render_not_blank r, codec.parse-render r)
  parse_lines-snoc (line ∷ lines) rs r h =
      let (x, here, h') = >>=-eq-ok (parse_line codec line) _ h in
      let (xs, rest, e) = >>=-eq-ok (parse_lines codec lines) _ h' in
      rw (here, parse_lines-snoc lines xs r rest) (cc)

  text_lines-clean : (c : Content Text) → c.tail ≡ codec.empty → text_lines codec c ≡ c.lines
  text_lines-clean c clean = rw (clean, codec.is_empty_text-empty) refl

  -- The next generation of a clean file parses to one more record.
  parse-add_line :
      (f : JournalFile Text) (rs : List TransitionRecord) (r : TransitionRecord)
      → IsClean codec f
      → parse_lines codec (text_lines codec (content codec f)) ≡ ok rs
      → parse_lines codec (text_lines codec (add_line codec (content codec f) (codec.render r)))
        ≡ ok (rs ++ r ∷ [])
  parse-add_line f rs r clean h =
      let before : parse_lines codec (content codec f).lines ≡ ok rs =
        ap (parse_lines codec) (sym (text_lines-clean (content codec f) clean)) ∙ h in
      let joined : codec.join (content codec f).tail (codec.render r) ≡ codec.render r =
        rw clean (codec.join-empty (codec.render r)) in
      ap (parse_lines codec) (
        text_lines-clean (add_line codec (content codec f) (codec.render r)) refl
        ∙ ap (λ l. (content codec f).lines ++ l ∷ []) joined)
      ∙ parse_lines-snoc (content codec f).lines rs r before

module _ {Text : Type 0} (codec : Codec Text) (digest : Payload → String) where
  read_all-content :
      (f : JournalFile Text) (rs : List TransitionRecord)
      → read_all codec digest f ≡ ok rs
      → (parse_lines codec (text_lines codec (content codec f)) ≡ ok rs)
        × (verify_transition_sequence digest rs ≡ ok tt)
  unfolding read_all verify_transition_sequence
  read_all-content none rs h =
      let e : [] ≡ rs = ok-injective h in
      let nothing : text_lines codec (content codec none) ≡ [] =
        text_lines-clean codec (content codec none) refl in
      (
        ap (parse_lines codec) nothing ∙ h,
        subst (λ l. verify_transition_sequence digest l ≡ ok tt) e refl,
      )
  read_all-content (some c) rs h =
      let (xs, parsed, h') = >>=-eq-ok (parse_lines codec (text_lines codec c)) _ h in
      let (u, verified, e) = >>=-eq-ok (verify_transition_sequence digest xs) _ h' in
      let same : xs ≡ rs = ok-injective e in
      (
        subst (λ l. parse_lines codec (text_lines codec c) ≡ ok l) same parsed,
        subst (λ l. verify_transition_sequence digest l ≡ ok tt) same verified,
      )

  read_all-add_line :
      (f : JournalFile Text) (rs : List TransitionRecord) (d : Draft) (now : ℕ)
      (r : TransitionRecord)
      → IsClean codec f
      → read_all codec digest f ≡ ok rs
      → build_transition_record digest rs d now ≡ ok r
      → read_all codec digest (some (add_line codec (content codec f) (codec.render r)))
        ≡ ok (rs ++ r ∷ [])
  read_all-add_line f rs d now r clean h built =
      let (parsed, verified) = read_all-content f rs h in
      let parsed' = parse-add_line codec f rs r clean parsed in
      let verified' = verify-build digest rs d now r verified built in
      unfold read_all in rw (parsed', verified')

  append-eq-published :
      (fault : Fault) (now : ℕ) (f : JournalFile Text) (d : Draft) (rs : List TransitionRecord)
      → read_all codec digest f ≡ ok rs
      → append_transition codec digest (fault, now) f d
        ≡ published codec digest fault f (build_transition_record digest rs d now)
  unfolding append_transition
  append-eq-published fault now f d rs h = rw h

  -- The outcome of an append to the file `f`, which holds `rs`: the file is as it was and no record
  -- is returned, or the file holds exactly one record more and no other record is returned.
  pub data IsAtomic (f : JournalFile Text) (rs : List TransitionRecord)
      (built : Result AuditError TransitionRecord)
      (outcome : Result AuditError TransitionRecord × JournalFile Text) : Type 0 where
    unchanged :
        outcome.1 ≡ f → ((r : TransitionRecord) → outcome.0 ≢ ok r) → IsAtomic f rs built outcome
    extended :
        (r : TransitionRecord)
        → built ≡ ok r
        → read_all codec digest outcome.1 ≡ ok (rs ++ r ∷ [])
        → IsClean codec outcome.1
        → ((t : TransitionRecord) → outcome.0 ≡ ok t → t ≡ r)
        → IsAtomic f rs built outcome

  published-IsAtomic :
      (fault : Fault) (now : ℕ) (f : JournalFile Text) (d : Draft) (rs : List TransitionRecord)
      (r : TransitionRecord)
      → IsClean codec f
      → read_all codec digest f ≡ ok rs
      → build_transition_record digest rs d now ≡ ok r
      → IsAtomic f rs (ok r) (published codec digest fault f (ok r))
  published-IsAtomic no_fault now f d rs r clean h built =
      extended r refl (read_all-add_line f rs d now r clean h built) refl (λ t e. cc)
  published-IsAtomic sync_fault now f d rs r clean h built =
      extended r refl (read_all-add_line f rs d now r clean h built) refl (λ t e. cc)
  published-IsAtomic _ now f d rs r clean h built = unchanged refl (λ t e. cc)

  -- Let a journal file that reads and verifies end in a newline, or not exist. After one append,
  -- wherever the operating system fails, it is the file before with no record returned, or that
  -- file with exactly the next record added, which reads back, verifies and ends in a newline.
  pub append-IsAtomic :
      (fault : Fault) (now : ℕ) (f : JournalFile Text) (d : Draft) (rs : List TransitionRecord)
      → IsClean codec f
      → read_all codec digest f ≡ ok rs
      → IsAtomic f rs
          (build_transition_record digest rs d now)
          (append_transition codec digest (fault, now) f d)
  append-IsAtomic fault now f d rs clean h =
      rw (append-eq-published fault now f d rs h)
        (elim (Result-cases (build_transition_record digest rs d now)) [
          | inl (r, built) ↦ rw built (published-IsAtomic fault now f d rs r clean h built)
          | inr (e, failed) ↦ rw failed (unchanged refl (λ t e. cc))
        ])
