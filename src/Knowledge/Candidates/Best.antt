-- ===== src/Knowledge/Candidates/Best.antt =====
-- The dictionary of the best candidates, one for each key.
use knowledage_base_assistan.Prelude.{
  ◌≡◌, refl, Bool, true, false, ◌&&◌, ◌||◌, not, List, [], ◌∷◌, any, All, Bool-cases, Option-cases,
  inl, inr, arith, ℕ, Option,
}
use knowledage_base_assistan.Knowledge.Candidates.{
  Candidate, above, dedup_score, is_better, keep_better, best_of,
}

above_trans : (a b c : Option ℕ) → above a b ≡ true → above a c ≡ false → above b c ≡ false
above_trans a b c h k = ground arith

module _ (same : Candidate → Candidate → Bool) where
  -- Some entry has the key of a candidate, and no lower score.
  abbrev pub covers : List Candidate → Candidate → Bool
  covers ys x = any (λ y. same y x && not (is_better x y)) ys

  -- No two entries have the same key.
  abbrev pub AreDistinct : List Candidate → Type 0
  AreDistinct [] = Unit
  AreDistinct (y ∷ ys) = (any (same y) ys ≡ false) × AreDistinct ys

  pub keep_better-any :
      (g : Candidate → Bool) (ys : List Candidate) (x : Candidate)
      → any g (keep_better same ys x) ≡ true
      → (g x || any g ys) ≡ true
  unfolding keep_better
  keep_better-any g [] x h = ground arith
  keep_better-any g (y ∷ ys) x h = ground (arith, keep_better-any g ys x)

  pub best_of-any :
      (g : Candidate → Bool) (ys xs : List Candidate)
      → any g (best_of same ys xs) ≡ true
      → (any g ys || any g xs) ≡ true
  unfolding best_of
  best_of-any g ys [] h = ground arith
  best_of-any g ys (x ∷ xs) h =
      ground (arith, best_of-any g (keep_better same ys x) xs h, keep_better-any g ys x)

-- The test compares keys.
pub record IsKey (same : Candidate → Candidate → Bool) : Type 0 where
  pub same_refl : (x : Candidate) → same x x ≡ true
  pub same_left : (x y z : Candidate) → same y x ≡ true → same y z ≡ true → same x z ≡ true

better_irrefl : (x : Candidate) → is_better x x ≡ false
better_irrefl x = elim (Option-cases (dedup_score x)) [
  | inl none_there ↦ rw none_there refl
  | inr (s, there) ↦ rw there (ground arith)
]

module _ {same : Candidate → Candidate → Bool} (key : IsKey same) where
  keep_better-covers :
      (ys : List Candidate) (x : Candidate) → covers same (keep_better same ys x) x ≡ true
  unfolding keep_better
  keep_better-covers [] x = rw (key.same_refl x, better_irrefl x) refl
  keep_better-covers (y ∷ ys) x = elim (Bool-cases (same y x)) [
    | inl hit ↦ elim (Bool-cases (is_better x y)) [
      | inl up ↦ rw (hit, up, key.same_refl x, better_irrefl x) refl
      | inr down ↦ rw (hit, down, hit, down) refl
    ]
    | inr miss ↦ rw (miss, miss) (keep_better-covers ys x)
  ]

  keep_better-still :
      (ys : List Candidate) (x z : Candidate)
      → covers same ys z ≡ true
      → covers same (keep_better same ys x) z ≡ true
  unfolding keep_better
  keep_better-still [] x z h = ground arith
  keep_better-still (y ∷ ys) x z h = elim (Bool-cases (same y x)) [
    | inl hit ↦ elim (Bool-cases (is_better x y)) [
      | inl up ↦
          rw (hit, up)
            (ground (
              arith,
              key.same_left x y z hit,
              above_trans (dedup_score x) (dedup_score y) (dedup_score z) up,
            ))
      | inr down ↦ rw (hit, down) h
    ]
    | inr miss ↦ rw miss (ground (arith, keep_better-still ys x z))
  ]

  best_of-still :
      (ys xs : List Candidate) (z : Candidate)
      → covers same ys z ≡ true
      → covers same (best_of same ys xs) z ≡ true
  unfolding best_of
  best_of-still ys [] z h = h
  best_of-still ys (x ∷ xs) z h =
      best_of-still (keep_better same ys x) xs z (keep_better-still ys x z h)

  pub best_of-covers :
      (ys xs : List Candidate) → All (λ x. covers same (best_of same ys xs) x ≡ true) xs
  unfolding best_of
  best_of-covers ys [] = tt
  best_of-covers ys (x ∷ xs) = (
    best_of-still (keep_better same ys x) xs x (keep_better-covers ys x),
    best_of-covers (keep_better same ys x) xs,
  )

  replaced_distinct :
      (ys : List Candidate) (x y : Candidate)
      → same y x ≡ true
      → any (same y) ys ≡ false
      → any (same x) ys ≡ false
  replaced_distinct [] x y hit h = refl
  replaced_distinct (z ∷ ys) x y hit h = ground (
    arith,
    replaced_distinct ys x y hit,
    key.same_left y x z,
    key.same_left x y x hit,
    key.same_left x y y hit,
    key.same_refl y,
  )

  keep_better-AreDistinct :
      (ys : List Candidate) (x : Candidate)
      → AreDistinct same ys
      → AreDistinct same (keep_better same ys x)
  unfolding keep_better
  keep_better-AreDistinct [] x h = (refl, tt)
  keep_better-AreDistinct (y ∷ ys) x h = elim (Bool-cases (same y x)) [
    | inl hit ↦ elim (Bool-cases (is_better x y)) [
      | inl up ↦ rw (hit, up) (replaced_distinct ys x y hit h.0, h.1)
      | inr down ↦ rw (hit, down) h
    ]
    | inr miss ↦
        rw miss (
          ground (arith, keep_better-any same (same y) ys x, h.0),
          keep_better-AreDistinct ys x h.1,
        )
  ]

  pub best_of-AreDistinct :
      (ys xs : List Candidate) → AreDistinct same ys → AreDistinct same (best_of same ys xs)
  unfolding best_of
  best_of-AreDistinct ys [] h = h
  best_of-AreDistinct ys (x ∷ xs) h =
      best_of-AreDistinct (keep_better same ys x) xs (keep_better-AreDistinct ys x h)
