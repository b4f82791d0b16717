-- ===== src/Temporal/Outbox/Rows.antt =====
-- Rows of the outbox in a table that is updated row by row, and the rows that a claim selects.
use knowledage_base_assistan.Prelude.{
  nat_eq, string_eq, ◌==◌, ℕ, ◌≤◌, zero, suc, Uuid, Bool, true, false, ◌≡◌, refl, sym, subst, inl,
  inr, List, [], ◌∷◌, map, some, All, keep_if, contains, Bool-cases, length, arith, ap, ◌∙◌, ◌||◌,
}
use knowledage_base_assistan.Temporal.Outbox.Table.{OutboxMessage, find_row}
use knowledage_base_assistan.Temporal.Outbox.Repository.{
  comes_before, place_row, order_rows, limit_rows,
}

pub find-map :
    (g : OutboxMessage → OutboxMessage) (id : Uuid) (r : OutboxMessage) (rows : List OutboxMessage)
    → ((x : OutboxMessage) → (g x).id ≡ x.id)
    → find_row id rows ≡ some r
    → find_row id (map g rows) ≡ some (g r)
find-map g id r [] same h = cc
find-map g id r (x ∷ rows) same h = elim (Bool-cases (x.id == id)) [
  | inl here ↦
      let found = rw here at h in
      let test = subst (λ i. (i == id) ≡ true) (sym (same x)) here in rw test cc
  | inr there ↦ rw (same x, there) (find-map g id r rows same (rw there at h))
]

-- The primary key: no other row has the key of this one.
abbrev pub OnlyRow : OutboxMessage → List OutboxMessage → Type 0
OnlyRow r rows = All (λ x. (x.id == r.id) ≡ true → x ≡ r) rows

module _ {κ} (P : OutboxMessage → Type κ) where
  place_row-All :
      (a : OutboxMessage) (rows : List OutboxMessage) → P a → All P rows → All P (place_row a rows)
  unfolding place_row
  place_row-All a [] h k = (h, tt)
  place_row-All a (b ∷ rows) h k = elim (Bool-cases (comes_before a b)) [
    | inl first ↦ rw first (h, k)
    | inr later ↦ rw later (k.0, place_row-All a rows h k.1)
  ]

  pub order_rows-All : (rows : List OutboxMessage) → All P rows → All P (order_rows rows)
  unfolding order_rows
  order_rows-All [] h = tt
  order_rows-All (a ∷ rows) h = place_row-All a (order_rows rows) h.0 (order_rows-All rows h.1)

  pub limit_rows-All : (n : ℕ) (rows : List OutboxMessage) → All P rows → All P (limit_rows n rows)
  unfolding limit_rows
  limit_rows-All zero rows h = tt
  limit_rows-All (suc n) [] h = tt
  limit_rows-All (suc n) (r ∷ rows) h = (h.0, limit_rows-All n rows h.1)

  pub keep_if-All :
      (p : OutboxMessage → Bool) (rows : List OutboxMessage)
      → All P rows
      → All (λ x. P x × (p x ≡ true)) (keep_if p rows)
  keep_if-All p [] h = tt
  keep_if-All p (r ∷ rows) h = elim (Bool-cases (p r)) [
    | inl kept ↦ rw kept ((h.0, kept), keep_if-All p rows h.1)
    | inr other ↦ rw other (keep_if-All p rows h.1)
  ]

  -- A key in a list is that of some row in it.
  pub contains-All :
      (id : Uuid) (rows : List OutboxMessage)
      → All P rows
      → contains (map (λ r. r.id) rows) id ≡ true
      → (x : OutboxMessage) × ((x.id == id) ≡ true) × P x
  contains-All id [] h k = cc
  contains-All id (r ∷ rows) h k = elim (Bool-cases (r.id == id)) [
    | inl here ↦ (r, here, h.0)
    | inr there ↦ contains-All id rows h.1 (rw there at k)
  ]

pub some-injective : {a b : OutboxMessage} → some a ≡ some b → a ≡ b
some-injective h = cc

-- Ordering and cutting at a sufficient limit lose no key.
abbrev has_key : Uuid → List OutboxMessage → Bool
has_key id rows = contains (map (λ r. r.id) rows) id

or_swap : (b c d : Bool) → (b || (c || d)) ≡ (c || (b || d))
or_swap true true d = refl
or_swap true false d = refl
or_swap false c d = refl

place_row-key :
    (id : Uuid) (a : OutboxMessage) (rows : List OutboxMessage)
    → has_key id (place_row a rows) ≡ has_key id (a ∷ rows)
unfolding place_row
place_row-key id a [] = refl
place_row-key id a (b ∷ rows) = elim (Bool-cases (comes_before a b)) [
  | inl first ↦ rw first refl
  | inr later ↦ rw later (
      ap (λ t. b.id == id || t) (place_row-key id a rows)
      ∙ or_swap (b.id == id) (a.id == id) (has_key id rows))
]

order_rows-key :
    (id : Uuid) (rows : List OutboxMessage) → has_key id (order_rows rows) ≡ has_key id rows
unfolding order_rows
order_rows-key id [] = refl
order_rows-key id (a ∷ rows) =
    rw (place_row-key id a (order_rows rows), order_rows-key id rows) refl

length-place_row :
    (a : OutboxMessage) (rows : List OutboxMessage) → length (place_row a rows) ≡ suc (length rows)
unfolding place_row
length-place_row a [] = refl
length-place_row a (b ∷ rows) = ground (arith, length-place_row a rows)

length-order_rows : (rows : List OutboxMessage) → length (order_rows rows) ≡ length rows
unfolding order_rows
length-order_rows [] = refl
length-order_rows (a ∷ rows) =
    ground (arith, length-place_row a (order_rows rows), length-order_rows rows)

limit_rows-all : (n : ℕ) (rows : List OutboxMessage) → length rows ≤ n → limit_rows n rows ≡ rows
unfolding limit_rows
limit_rows-all zero [] h = refl
limit_rows-all zero (r ∷ rows) h = absurd (omega arith)
limit_rows-all (suc n) [] h = refl
limit_rows-all (suc n) (r ∷ rows) h = rw (limit_rows-all n rows (omega arith)) refl

keep_if-key :
    (p : OutboxMessage → Bool) (r : OutboxMessage) (rows : List OutboxMessage)
    → find_row r.id rows ≡ some r
    → p r ≡ true
    → has_key r.id (keep_if p rows) ≡ true
keep_if-key p r [] f h = cc
keep_if-key p r (x ∷ rows) f h = elim (Bool-cases (x.id == r.id)) [
  | inl here ↦
      let found = rw here at f in
      let kept = subst (λ y. p y ≡ true) (sym (some-injective found)) h in rw (kept, here) refl
  | inr there ↦
      let rest = keep_if-key p r rows (rw there at f) h in
      elim (Bool-cases (p x)) [ inl kept ↦ rw (kept, there) rest | inr dropped ↦ rw dropped rest ]
]

-- A claim with a sufficient limit selects every row that passes the test.
pub selected-key :
    (p : OutboxMessage → Bool) (limit : ℕ) (r : OutboxMessage) (rows : List OutboxMessage)
    → find_row r.id rows ≡ some r
    → p r ≡ true
    → length (keep_if p rows) ≤ limit
    → contains (map (λ x. x.id) (limit_rows limit (order_rows (keep_if p rows)))) r.id ≡ true
selected-key p limit r rows f h enough =
    rw
      (
        limit_rows-all limit (order_rows (keep_if p rows))
            (rw (length-order_rows (keep_if p rows)) enough),
        order_rows-key r.id (keep_if p rows),
        keep_if-key p r rows f h,
      )
      refl
