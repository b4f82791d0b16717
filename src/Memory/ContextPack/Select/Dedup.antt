-- ===== src/Memory/ContextPack/Select/Dedup.antt =====
-- The first loop: one item for each content hash.
use knowledage_base_assistan.Prelude.{
  string_eq, ◌==◌, contains, ℕ, ◌≤◌, ◌≡◌, Bool, false, inl, inr, String, List, [], ◌∷◌, arith,
  Bool-cases, sum_by, keep_if, All, Option, none, some, if◌then◌else◌, refl, eq_iff, true, subst,
}
use knowledage_base_assistan.Memory.ContextPack.Select.{ContextItem, dedup_by_hash}

-- No two items have the same content hash.
abbrev pub AreDistinct : List ContextItem → Type 0
AreDistinct [] = Unit
AreDistinct (x ∷ xs) = All (λ y. (x.content_hash == y.content_hash) ≡ false) xs × AreDistinct xs

pub All-map {ℓ κ μ} :
    {A : Type ℓ} {P : A → Type κ} {Q : A → Type μ} (xs : List A)
    → ((x : A) → P x → Q x)
    → All P xs
    → All Q xs
All-map [] f h = tt
All-map (x ∷ xs) f h = (f x h.0, All-map xs f h.1)

dedup_by_hash-new :
    (items : List ContextItem) (seen : List String)
    → All (λ x. contains seen x.content_hash ≡ false) (dedup_by_hash seen items)
unfolding dedup_by_hash
dedup_by_hash-new [] seen = tt
dedup_by_hash-new (x ∷ xs) seen = elim (Bool-cases (contains seen x.content_hash)) [
  | inl old ↦ rw old (dedup_by_hash-new xs seen)
  | inr fresh ↦ rw fresh (
    fresh,
    All-map (dedup_by_hash (x.content_hash ∷ seen) xs) (λ y h. ground arith)
        (dedup_by_hash-new xs (x.content_hash ∷ seen)),
  )
]

pub dedup_by_hash-AreDistinct :
    (items : List ContextItem) (seen : List String) → AreDistinct (dedup_by_hash seen items)
unfolding dedup_by_hash
dedup_by_hash-AreDistinct [] seen = tt
dedup_by_hash-AreDistinct (x ∷ xs) seen = elim (Bool-cases (contains seen x.content_hash)) [
  | inl old ↦ rw old (dedup_by_hash-AreDistinct xs seen)
  | inr fresh ↦ rw fresh (
    All-map (dedup_by_hash (x.content_hash ∷ seen) xs) (λ y h. ground arith)
        (dedup_by_hash-new xs (x.content_hash ∷ seen)),
    dedup_by_hash-AreDistinct xs (x.content_hash ∷ seen),
  )
]

-- The items that pass a test weigh no more than before.
pub dedup_by_hash-lighter :
    (p : ContextItem → Bool) (f : ContextItem → ℕ) (items : List ContextItem) (seen : List String)
    → sum_by f (keep_if p (dedup_by_hash seen items)) ≤ sum_by f (keep_if p items)
unfolding dedup_by_hash
dedup_by_hash-lighter p f [] seen = omega arith
dedup_by_hash-lighter p f (x ∷ xs) seen = elim (Bool-cases (contains seen x.content_hash)) [
  | inl old ↦ rw old (ground (arith, dedup_by_hash-lighter p f xs seen))
  | inr fresh ↦ rw fresh (ground (arith, dedup_by_hash-lighter p f xs (x.content_hash ∷ seen)))
]

-- The first item with a content hash.
abbrev pub find_hash : String → List ContextItem → Option ContextItem
find_hash hash [] = none
find_hash hash (x ∷ xs) = if x.content_hash == hash then some x else find_hash hash xs

dedup_by_hash-finds :
    (hash : String) (items : List ContextItem) (seen : List String)
    → contains seen hash ≡ false
    → find_hash hash (dedup_by_hash seen items) ≡ find_hash hash items
unfolding dedup_by_hash
dedup_by_hash-finds hash [] seen h = refl
dedup_by_hash-finds hash (x ∷ xs) seen h = elim (Bool-cases (contains seen x.content_hash)) [
  | inl old ↦ elim (Bool-cases (x.content_hash == hash)) [
    | inl same ↦ absurd (
        ground
          (arith, h, subst (λ k. contains seen k ≡ true) ((eq_iff x.content_hash hash).0 same) old))
    | inr other ↦ rw (old, other) (dedup_by_hash-finds hash xs seen h)
  ]
  | inr fresh ↦ elim (Bool-cases (x.content_hash == hash)) [
    | inl same ↦ rw (fresh, same) refl
    | inr other ↦
        rw (fresh, other) (dedup_by_hash-finds hash xs (x.content_hash ∷ seen) (ground arith))
  ]
]

-- Of the items with one content the first is kept.
pub dedup_by_hash-first :
    (items : List ContextItem) (hash : String)
    → find_hash hash (dedup_by_hash [] items) ≡ find_hash hash items
dedup_by_hash-first items hash = dedup_by_hash-finds hash items [] refl
