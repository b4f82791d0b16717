-- ===== src/Knowledge/Candidates/Members.antt =====
-- Members of lists of candidates.
use knowledage_base_assistan.Prelude.{
  string_eq, ◌==◌, ◌≡◌, refl, sym, ◌∙◌, ap, subst, ◌⊎◌, Bool, true, List, [], ◌∷◌, any, All, map,
  contains, keep_if, Bool-cases, inl, inr, arith, String,
}
use knowledage_base_assistan.Knowledge.Candidates.{Candidate, is_better, keep_better, best_of}
use knowledage_base_assistan.Knowledge.Candidates.Best.{AreDistinct, IsKey}

abbrev pub In : Candidate → List Candidate → Type 0
In a [] = ⊥
In a (y ∷ ys) = (y ≡ a) ⊎ In a ys

pub any-In :
    (f : Candidate → Bool) (xs : List Candidate)
    → any f xs ≡ true
    → (x : Candidate) × (f x ≡ true) × In x xs
any-In f [] h = cc
any-In f (x ∷ xs) h = elim (Bool-cases (f x)) [
  | inl here ↦ (x, here, inl refl)
  | inr skipped ↦ let later = any-In f xs (rw skipped at h) in (later.0, later.1, inr later.2)
]

pub In-any :
    (f : Candidate → Bool) (x : Candidate) (xs : List Candidate)
    → In x xs
    → f x ≡ true
    → any f xs ≡ true
In-any f x [] m h = elim m [ ]
In-any f x (y ∷ ys) (inl e) h = ground (arith, ap f e)
In-any f x (y ∷ ys) (inr later) h = ground (arith, In-any f x ys later h)

pub In-All :
    (P : Candidate → Type 0) (x : Candidate) (xs : List Candidate) → In x xs → All P xs → P x
In-All P x [] m h = elim m [ ]
In-All P x (y ∷ ys) (inl e) h = subst P e h.0
In-All P x (y ∷ ys) (inr later) h = In-All P x ys later h.1

pub In-keep_if :
    (p : Candidate → Bool) (x : Candidate) (xs : List Candidate)
    → In x (keep_if p xs)
    → (p x ≡ true) × In x xs
In-keep_if p x [] m = elim m [ ]
In-keep_if p x (y ∷ ys) m = elim (Bool-cases (p y)) [
  | inl kept ↦ elim (rw kept at m) [
    | inl e ↦ (sym (ap p e) ∙ kept, inl e)
    | inr later ↦ let rest = In-keep_if p x ys later in (rest.0, inr rest.1)
  ]
  | inr dropped ↦ let rest = In-keep_if p x ys (rw dropped at m) in (rest.0, inr rest.1)
]

pub keep_if-In :
    (p : Candidate → Bool) (x : Candidate) (xs : List Candidate)
    → In x xs
    → p x ≡ true
    → In x (keep_if p xs)
keep_if-In p x [] m h = elim m [ ]
keep_if-In p x (y ∷ ys) (inl e) h = rw (ap p e ∙ h) (inl e)
keep_if-In p x (y ∷ ys) (inr later) h = elim (Bool-cases (p y)) [
  | inl kept ↦ rw kept (inr (keep_if-In p x ys later h))
  | inr dropped ↦ rw dropped (keep_if-In p x ys later h)
]

pub contains-In :
    (id : String) (xs : List Candidate)
    → contains (map (λ (c : Candidate). c.chunk_id) xs) id ≡ any (λ c. c.chunk_id == id) xs
contains-In id [] = refl
contains-In id (x ∷ xs) = rw (contains-In id xs) refl

module _ (same : Candidate → Candidate → Bool) where
  In-keep_better :
      (a x : Candidate) (ys : List Candidate) → In a (keep_better same ys x) → (x ≡ a) ⊎ In a ys
  unfolding keep_better
  In-keep_better a x [] (inl e) = inl e
  In-keep_better a x [] (inr none_there) = elim none_there [ ]
  In-keep_better a x (y ∷ ys) m = elim (Bool-cases (same y x)) [
    | inl hit ↦ elim (Bool-cases (is_better x y)) [
      | inl up ↦ elim (rw (hit, up) at m) [ inl e ↦ inl e | inr later ↦ inr (inr later) ]
      | inr down ↦ inr (rw (hit, down) at m)
    ]
    | inr miss ↦ elim (rw miss at m) [
      | inl e ↦ inr (inl e)
      | inr later ↦ elim (In-keep_better a x ys later) [ inl e ↦ inl e | inr old ↦ inr (inr old) ]
    ]
  ]

  pub In-best_of :
      (a : Candidate) (ys xs : List Candidate) → In a (best_of same ys xs) → In a ys ⊎ In a xs
  unfolding best_of
  In-best_of a ys [] m = inl m
  In-best_of a ys (x ∷ xs) m = elim (In-best_of a (keep_better same ys x) xs m) [
    | inl m' ↦ elim (In-keep_better a x ys m') [ inl e ↦ inr (inl e) | inr old ↦ inl old ]
    | inr later ↦ inr (inr later)
  ]

  -- Members of the same key are the same member.
  pub member_unique :
      (key : IsKey same) (a b : Candidate) (ys : List Candidate)
      → AreDistinct same ys
      → In a ys
      → In b ys
      → same a b ≡ true
      → a ≡ b
  member_unique key a b [] d m m' s = elim m [ ]
  member_unique key a b (y ∷ ys) d (inl e) (inl e') s = sym e ∙ e'
  member_unique key a b (y ∷ ys) d (inl e) (inr m) s =
      ground (arith, d.0, In-any (same y) b ys m (ap (λ t. same t b) e ∙ s))
  member_unique key a b (y ∷ ys) d (inr m) (inl e) s = ground (
    arith,
    d.0,
    In-any (same y) a ys m (ap (λ t. same t a) e ∙ key.same_left b a a s (key.same_refl a)),
  )
  member_unique key a b (y ∷ ys) d (inr m) (inr m') s = member_unique key a b ys d.1 m m' s
