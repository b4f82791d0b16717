-- ===== src/Memory/ContextPack/Select/Shuffle.antt =====
-- What does not change which items there are: sorting them, and splitting them by a test.
use mathlib.Core.List.{Perm, perm_middle}
use mathlib.Core.List.Perm
use knowledage_base_assistan.Prelude.{
  true, all, arith, refl, ◌≡◌, Bool, not, inl, inr, List, [], ◌∷◌, ◌++◌, Bool-cases, keep_if,
}
use knowledage_base_assistan.Memory.ContextPack.Select.{
  ContextItem, precedes, insert_item, sort_items,
}

insert_item-perm :
    (a : ContextItem) (items : List ContextItem) → Perm (a ∷ items) (insert_item a items)
unfolding insert_item
insert_item-perm a [] = Perm.refl (a ∷ [])
insert_item-perm a (b ∷ bs) = elim (Bool-cases (precedes b a)) [
  | inl past ↦ rw past (Perm.trans (Perm.swap b a bs) (Perm.cons b (insert_item-perm a bs)))
  | inr here ↦ rw here (Perm.refl (a ∷ b ∷ bs))
]

pub sort_items-perm : (items : List ContextItem) → Perm items (sort_items items)
unfolding sort_items
sort_items-perm [] = Perm.nil
sort_items-perm (a ∷ items) =
    Perm.trans (Perm.cons a (sort_items-perm items)) (insert_item-perm a (sort_items items))

pub keep_if-perm {ℓ} :
    {A : Type ℓ} (p : A → Bool) (xs : List A)
    → Perm xs (keep_if p xs ++ keep_if (λ x. not (p x)) xs)
keep_if-perm p [] = Perm.nil
keep_if-perm p (x ∷ xs) = elim (Bool-cases (p x)) [
  | inl kept ↦ rw kept (Perm.cons x (keep_if-perm p xs))
  | inr other ↦ rw other (
      Perm.trans (Perm.cons x (keep_if-perm p xs))
        (Perm.symm (perm_middle (keep_if p xs) (keep_if (λ y. not (p y)) xs))))
]

insert_item-all :
    (p : ContextItem → Bool) (a : ContextItem) (items : List ContextItem)
    → p a ≡ true
    → all p items ≡ true
    → all p (insert_item a items) ≡ true
unfolding insert_item
insert_item-all p a [] h k = ground arith
insert_item-all p a (b ∷ bs) h k = ground (arith, insert_item-all p a bs h)

pub sort_items-all :
    (p : ContextItem → Bool) (items : List ContextItem)
    → all p items ≡ true
    → all p (sort_items items) ≡ true
unfolding sort_items
sort_items-all p [] h = refl
sort_items-all p (a ∷ items) h =
    insert_item-all p a (sort_items items) (ground arith) (sort_items-all p items (ground arith))

pub keep_if-all {ℓ} : {A : Type ℓ} (p : A → Bool) (xs : List A) → all p (keep_if p xs) ≡ true
keep_if-all p [] = refl
keep_if-all p (x ∷ xs) = ground (arith, keep_if-all p xs)
