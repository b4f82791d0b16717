-- ===== src/Temporal/Outbox/Keys.antt =====
-- The primary key of the outbox: a key names at most one row, also after an update row by row.
use knowledage_base_assistan.Prelude.{
  nat_eq, string_eq, ◌==◌, Uuid, true, false, ◌≡◌, sym, subst, inl, inr, List, [], ◌∷◌, map, some,
  All, Bool-cases,
}
use knowledage_base_assistan.Temporal.Outbox.Table.{OutboxMessage, find_row}
use knowledage_base_assistan.Temporal.Outbox.Rows.{some-injective, OnlyRow}

-- No two rows have the same key.
abbrev pub PrimaryKey : List OutboxMessage → Type 0
PrimaryKey [] = Unit
PrimaryKey (r ∷ rows) = All (λ x. (x.id == r.id) ≡ false) rows × PrimaryKey rows

apart-map :
    (g : OutboxMessage → OutboxMessage) (r : OutboxMessage) (xs : List OutboxMessage)
    → ((x : OutboxMessage) → (g x).id ≡ x.id)
    → All (λ x. (x.id == r.id) ≡ false) xs
    → All (λ x. (x.id == (g r).id) ≡ false) (map g xs)
apart-map g r [] same k = tt
apart-map g r (x ∷ xs) same k = (
  subst (λ i. (i == (g r).id) ≡ false) (sym (same x))
      (subst (λ i. (x.id == i) ≡ false) (sym (same r)) k.0),
  apart-map g r xs same k.1,
)

pub PrimaryKey-map :
    (g : OutboxMessage → OutboxMessage) (rows : List OutboxMessage)
    → ((x : OutboxMessage) → (g x).id ≡ x.id)
    → PrimaryKey rows
    → PrimaryKey (map g rows)
PrimaryKey-map g [] same h = tt
PrimaryKey-map g (r ∷ rows) same h = (apart-map g r rows same h.0, PrimaryKey-map g rows same h.1)

OnlyRow-of_apart :
    (r : OutboxMessage) (xs : List OutboxMessage)
    → All (λ x. (x.id == r.id) ≡ false) xs
    → OnlyRow r xs
OnlyRow-of_apart r [] h = tt
OnlyRow-of_apart r (x ∷ xs) h = (λ same. cc, OnlyRow-of_apart r xs h.1)

find-key :
    (id : Uuid) (r : OutboxMessage) (rows : List OutboxMessage)
    → find_row id rows ≡ some r
    → r.id ≡ id
find-key id r [] h = cc
find-key id r (x ∷ rows) h = elim (Bool-cases (x.id == id)) [
  | inl here ↦ let found = rw here at h in let key = (nat_eq.same_key_iff x.id id).0 here in cc
  | inr there ↦ find-key id r rows (rw there at h)
]

pub OnlyRow-of_find :
    (id : Uuid) (r : OutboxMessage) (rows : List OutboxMessage)
    → PrimaryKey rows
    → find_row id rows ≡ some r
    → OnlyRow r rows
OnlyRow-of_find id r [] p h = tt
OnlyRow-of_find id r (x ∷ rows) p h = elim (Bool-cases (x.id == id)) [
  | inl here ↦
      let found = some-injective (rw here at h) in
      (
        λ same. found,
        OnlyRow-of_apart r rows (subst (λ z. All (λ y. (y.id == z.id) ≡ false) rows) found p.0),
      )
  | inr there ↦ (
    λ same.
        let at_id = subst (λ i. (x.id == i) ≡ true) (find-key id r rows (rw there at h)) same in cc,
    OnlyRow-of_find id r rows p.1 (rw there at h),
  )
]
