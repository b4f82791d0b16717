-- ===== src/Tasking/RuntimeLoop/Adopted.antt =====
-- The adopted references of a run are those of its adopted outcomes.
use knowledage_base_assistan.Prelude.{
  nat_eq, string_eq, ◌==◌, Bool, true, false, ◌&&◌, ◌||◌, ◌≡◌, refl, sym, ap, ◌∙◌, subst, List, [],
  ◌∷◌, ◌++◌, any, Bool-cases, inl, inr,
}
use knowledage_base_assistan.Tasking.RuntimeDecision.Signals.{VersionedRef}
use knowledage_base_assistan.Tasking.RuntimeLoop.Attempts.{ActionAttemptResult}
use knowledage_base_assistan.Tasking.RuntimeLoop.Run.{
  same_ref, has_ref, ref_before, insert_ref, sort_refs, add_new, adopted_of, collect_adopted,
  adopted_refs,
}

and_true : (b c : Bool) → (b && c) ≡ true → (b ≡ true) × (c ≡ true)
and_true true c h = (refl, h)
and_true false c h = cc

or_false : (b : Bool) → (b || false) ≡ b
or_false true = refl
or_false false = refl

or_assoc : (b c d : Bool) → ((b || c) || d) ≡ (b || (c || d))
or_assoc true c d = refl
or_assoc false c d = refl

or_swap : (b c d : Bool) → (b || (c || d)) ≡ (c || (b || d))
or_swap true true d = refl
or_swap true false d = refl
or_swap false c d = refl

-- Two references with the same key are the same.
same_ref-eq : (a b : VersionedRef) → same_ref a b ≡ true → a ≡ b
same_ref-eq a b h =
    let (id, rest) = and_true (a.ref_id == b.ref_id) _ h in
    let (version, digest) = and_true (a.version == b.version) _ rest in
    let same_id = (nat_eq.same_key_iff a.ref_id b.ref_id).0 id in
    let same_version = (nat_eq.same_key_iff a.version b.version).0 version in
    let same_digest = (string_eq.same_key_iff a.integrity_digest b.integrity_digest).0 digest in cc

has-append :
    (xs ys : List VersionedRef) (r : VersionedRef)
    → has_ref (xs ++ ys) r ≡ (has_ref xs r || has_ref ys r)
has-append [] ys r = refl
has-append (x ∷ xs) ys r =
    ap (λ t. same_ref x r || t) (has-append xs ys r)
    ∙ sym (or_assoc (same_ref x r) (has_ref xs r) (has_ref ys r))

has-insert_ref :
    (a : VersionedRef) (refs : List VersionedRef) (r : VersionedRef)
    → has_ref (insert_ref a refs) r ≡ (same_ref a r || has_ref refs r)
unfolding insert_ref
has-insert_ref a [] r = refl
has-insert_ref a (b ∷ refs) r = elim (Bool-cases (ref_before b a)) [
  | inl past ↦ rw past (
      ap (λ t. same_ref b r || t) (has-insert_ref a refs r)
      ∙ or_swap (same_ref b r) (same_ref a r) (has_ref refs r))
  | inr here ↦ rw here refl
]

has-sort_refs :
    (refs : List VersionedRef) (r : VersionedRef) → has_ref (sort_refs refs) r ≡ has_ref refs r
unfolding sort_refs
has-sort_refs [] r = refl
has-sort_refs (a ∷ refs) r =
    has-insert_ref a (sort_refs refs) r ∙ ap (λ t. same_ref a r || t) (has-sort_refs refs r)

-- A key that is there already adds nothing.
known_adds_nothing :
    (seen : List VersionedRef) (x r : VersionedRef)
    → has_ref seen x ≡ true
    → (has_ref seen r || same_ref x r) ≡ has_ref seen r
known_adds_nothing seen x r h = elim (Bool-cases (same_ref x r)) [
  | inl same ↦
      let there = subst (λ y. has_ref seen y ≡ true) (same_ref-eq x r same) h in rw there refl
  | inr other ↦ rw other (or_false (has_ref seen r))
]

has-add_new :
    (seen refs : List VersionedRef) (r : VersionedRef)
    → has_ref (add_new seen refs) r ≡ (has_ref seen r || has_ref refs r)
unfolding add_new
has-add_new seen [] r = sym (or_false (has_ref seen r))
has-add_new seen (x ∷ refs) r = elim (Bool-cases (has_ref seen x)) [
  | inl old ↦ rw old (
      has-add_new seen refs r
      ∙ (ap (λ t. t || has_ref refs r) (sym (known_adds_nothing seen x r old))
          ∙ or_assoc (has_ref seen r) (same_ref x r) (has_ref refs r)))
  | inr new ↦ rw new (
      has-add_new (seen ++ x ∷ []) refs r
      ∙ (ap (λ t. t || has_ref refs r) (has-append seen (x ∷ []) r)
          ∙ (ap (λ t. (has_ref seen r || t) || has_ref refs r) (or_false (same_ref x r))
              ∙ or_assoc (has_ref seen r) (same_ref x r) (has_ref refs r))))
]

module _ {Proposal Binding : Type 0} where
  abbrev pub adopts : VersionedRef → List (ActionAttemptResult Proposal Binding) → Bool
  adopts r attempts = any (λ a. has_ref (adopted_of a.outcome) r) attempts

  has-collect_adopted :
      (seen : List VersionedRef) (attempts : List (ActionAttemptResult Proposal Binding))
      (r : VersionedRef)
      → has_ref (collect_adopted seen attempts) r ≡ (has_ref seen r || adopts r attempts)
  unfolding collect_adopted
  has-collect_adopted seen [] r = sym (or_false (has_ref seen r))
  has-collect_adopted seen (a ∷ attempts) r =
      has-collect_adopted (add_new seen (adopted_of a.outcome)) attempts r
      ∙ (ap (λ t. t || adopts r attempts) (has-add_new seen (adopted_of a.outcome) r)
          ∙ or_assoc (has_ref seen r) (has_ref (adopted_of a.outcome) r) (adopts r attempts))

  pub has-adopted_refs :
      (attempts : List (ActionAttemptResult Proposal Binding)) (r : VersionedRef)
      → has_ref (adopted_refs attempts) r ≡ adopts r attempts
  unfolding adopted_refs
  has-adopted_refs attempts r =
      has-sort_refs (collect_adopted [] attempts) r ∙ has-collect_adopted [] attempts r
