-- ===== src/Tasking/FinalGate/Filters.antt =====
-- Tests on lists that were filtered before.
use knowledage_base_assistan.Prelude.{
  nat_eq, Bool, not, ◌&&◌, ◌||◌, ◌≡◌, refl, sym, List, [], ◌∷◌, ◌++◌, map, any, all, keep_if,
  contains, Keyed, ◌==◌, Bool-cases, inl, inr, arith,
}
use knowledage_base_assistan.Tasking.FinalGate.{is_nothing}

shuffle : (a b c d : Bool) → ((a && c) && (b && d)) ≡ ((a && b) && (c && d))
shuffle a b c d = ground arith

shuffle_or : (a b c d : Bool) → ((a || c) || (b || d)) ≡ ((a || b) || (c || d))
shuffle_or a b c d = ground arith

module _ {ℓ} {A : Type ℓ} where
  pub all-cong : (p q : A → Bool) (xs : List A) → ((x : A) → p x ≡ q x) → all p xs ≡ all q xs
  all-cong p q [] h = refl
  all-cong p q (x ∷ xs) h = rw (h x, all-cong p q xs h) refl

  pub any-cong : (p q : A → Bool) (xs : List A) → ((x : A) → p x ≡ q x) → any p xs ≡ any q xs
  any-cong p q [] h = refl
  any-cong p q (x ∷ xs) h = rw (h x, any-cong p q xs h) refl

  pub all-keep_if :
      (p q : A → Bool) (xs : List A) → all q (keep_if p xs) ≡ all (λ x. not (p x) || q x) xs
  all-keep_if p q [] = refl
  all-keep_if p q (x ∷ xs) = elim (Bool-cases (p x)) [
    | inl kept ↦ rw (kept, all-keep_if p q xs) refl
    | inr dropped ↦ rw (dropped, all-keep_if p q xs) refl
  ]

  pub any-keep_if : (p q : A → Bool) (xs : List A) → any q (keep_if p xs) ≡ any (λ x. p x && q x) xs
  any-keep_if p q [] = refl
  any-keep_if p q (x ∷ xs) = elim (Bool-cases (p x)) [
    | inl kept ↦ rw (kept, any-keep_if p q xs) refl
    | inr dropped ↦ rw (dropped, any-keep_if p q xs) refl
  ]

  pub nothing-keep_if :
      (p : A → Bool) (xs : List A) → is_nothing (keep_if p xs) ≡ all (λ x. not (p x)) xs
  nothing-keep_if p [] = refl
  nothing-keep_if p (x ∷ xs) = elim (Bool-cases (p x)) [
    | inl kept ↦ rw kept refl
    | inr dropped ↦ rw (dropped, nothing-keep_if p xs) refl
  ]

  pub nothing-any : (p : A → Bool) (xs : List A) → not (is_nothing (keep_if p xs)) ≡ any p xs
  nothing-any p [] = refl
  nothing-any p (x ∷ xs) = elim (Bool-cases (p x)) [
    | inl kept ↦ rw kept refl
    | inr dropped ↦ rw (dropped, nothing-any p xs) refl
  ]

  pub nothing-map {κ} :
      {B : Type κ} (f : A → B) (xs : List A) → is_nothing (map f xs) ≡ is_nothing xs
  nothing-map f [] = refl
  nothing-map f (x ∷ xs) = refl

  pub all-append : (p : A → Bool) (xs ys : List A) → all p (xs ++ ys) ≡ (all p xs && all p ys)
  all-append p [] ys = refl
  all-append p (x ∷ xs) ys = elim (Bool-cases (p x)) [
    | inl t ↦ rw (t, all-append p xs ys) refl
    | inr f ↦ rw f refl
  ]

  pub all-both : (p q : A → Bool) (xs : List A) → (all p xs && all q xs) ≡ all (λ x. p x && q x) xs
  all-both p q [] = refl
  all-both p q (x ∷ xs) = rw (sym (all-both p q xs)) (shuffle (p x) (q x) (all p xs) (all q xs))

  pub any-append : (p : A → Bool) (xs ys : List A) → any p (xs ++ ys) ≡ (any p xs || any p ys)
  any-append p [] ys = refl
  any-append p (x ∷ xs) ys = elim (Bool-cases (p x)) [
    | inl t ↦ rw t refl
    | inr f ↦ rw (f, any-append p xs ys) refl
  ]

  pub any-both : (p q : A → Bool) (xs : List A) → (any p xs || any q xs) ≡ any (λ x. p x || q x) xs
  any-both p q [] = refl
  any-both p q (x ∷ xs) = rw (sym (any-both p q xs)) (shuffle_or (p x) (q x) (any p xs) (any q xs))

  pub contains-map :
      {B : Type 0} ⦃e : Keyed B⦄ (f : A → B) (b : B) (xs : List A)
      → contains (map f xs) b ≡ any (λ x. f x == b) xs
  contains-map f b [] = refl
  contains-map f b (x ∷ xs) = rw (contains-map f b xs) refl
