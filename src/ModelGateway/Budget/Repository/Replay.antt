-- ===== src/ModelGateway/Budget/Repository/Replay.antt =====
-- A reservation that is inserted again, as after a lost reply.
use knowledage_base_assistan.Prelude.{
  nat_eq, ◌==◌, Uuid, ◌≡◌, refl, inl, inr, true, List, [], ◌∷◌, ◌++◌, Option, none, some, ok,
  Bool-cases, >>=-eq-ok, require-then, arith, ok-injective, subst,
}
use knowledage_base_assistan.ModelGateway.Budget.Ledger.{BudgetLedgerEntry}
use knowledage_base_assistan.ModelGateway.Budget.Reservation.{
  BudgetReservation, reserved, ◌same_status◌,
}
use knowledage_base_assistan.ModelGateway.Budget.Tables.{Db, find_reservation, reservation_allowed}
use knowledage_base_assistan.ModelGateway.Budget.Repository.{
  append_entry, insert_reserved, insert_row, require_reserve_entry, after_insert, already,
  already_present, BudgetReservationInsertResult,
}
use knowledage_base_assistan.ModelGateway.Budget.Repository.Keeps.{
  append_entry-Keeps, insert_row-adds,
}
use knowledage_base_assistan.ModelGateway.Budget.Repository.History.{
  Call, commit_all, commit_all-Life,
}

abbrev Stored : Db → Uuid → Type 0
Stored db id = (o : BudgetReservation) × (find_reservation id db.reservations ≡ some o)

find-append_new :
    (r : BudgetReservation) (rows : List BudgetReservation)
    → (o : BudgetReservation) × (find_reservation r.reservation_id (rows ++ r ∷ []) ≡ some o)
find-append_new r [] = (r, ground arith)
find-append_new r (x ∷ rows) = elim (Bool-cases (x.reservation_id == r.reservation_id)) [
  | inl here ↦ (x, rw here refl)
  | inr later ↦ let (o, e) = find-append_new r rows in (o, rw later e)
]

module _ (db : Db) (r : BudgetReservation) (e : BudgetLedgerEntry) where
  insert_row-allowed : (row : Option Db) → insert_row db r ≡ ok row → reservation_allowed r ≡ true
  unfolding insert_row
  insert_row-allowed row h = ground arith

  insert_row-present :
      (o : BudgetReservation)
      → reservation_allowed r ≡ true
      → find_reservation r.reservation_id db.reservations ≡ some o
      → insert_row db r ≡ ok none
  unfolding insert_row
  insert_row-present o a f = rw (a, f) refl

  already-Stored :
      (found : Option BudgetReservation) (p : Db × BudgetReservationInsertResult)
      → find_reservation r.reservation_id db.reservations ≡ found
      → already db found ≡ ok p
      → Stored p.0 r.reservation_id
  unfolding already
  already-Stored none p f h = cc
  already-Stored (some x) p f h =
      subst (λ (d : Db × BudgetReservationInsertResult). Stored d.0 r.reservation_id)
        (ok-injective h) (x, f)

  after_insert-Stored :
      (row : Option Db) (p : Db × BudgetReservationInsertResult)
      → insert_row db r ≡ ok row
      → after_insert db r e row ≡ ok p
      → Stored p.0 r.reservation_id
  unfolding after_insert
  after_insert-Stored none p w h =
      already-Stored (find_reservation r.reservation_id db.reservations) p refl h
  after_insert-Stored (some db1) p w h =
      let (q, a, z) = >>=-eq-ok (append_entry db1 e) _ h in
      let (rows, same) = insert_row-adds db r e db1 w in
      let (kept, booked) = append_entry-Keeps db1 e q.0 q.1 a in
      let (o, f) = find-append_new r db.reservations in
      subst (λ (d : Db × BudgetReservationInsertResult). Stored d.0 r.reservation_id)
        (ok-injective z) (o, rw (kept, rows) f)

-- Inserting once more, into tables that hold the row.
insert_reserved-present :
    (db : Db) (r o : BudgetReservation) (e : BudgetLedgerEntry)
    → (r.status same_status reserved) ≡ true
    → require_reserve_entry r e ≡ ok tt
    → reservation_allowed r ≡ true
    → find_reservation r.reservation_id db.reservations ≡ some o
    → insert_reserved db r e
      ≡ ok (
        db,
        record { disposition = already_present; reservation = o; row_version = o.row_version },
      )
unfolding insert_reserved
insert_reserved-present db r o e s q a f = rw (s, q, insert_row-present db r e o a f, f) refl

-- A reservation that was inserted, and is inserted again after any calls, is not reserved twice: the
-- second call changes neither table and returns the row as it is by then.
pub insert_reserved-replayed :
    (db db1 : Db) (r : BudgetReservation) (e : BudgetLedgerEntry)
    (first : BudgetReservationInsertResult) (cs : List Call)
    → insert_reserved db r e ≡ ok (db1, first)
    → (o : BudgetReservation) × (find_reservation r.reservation_id (commit_all db1 cs).reservations
        ≡ some o)
      × (insert_reserved (commit_all db1 cs) r e
          ≡ ok (
            commit_all db1 cs,
            record { disposition = already_present; reservation = o; row_version = o.row_version },
          ))
unfolding insert_reserved
insert_reserved-replayed db db1 r e first cs h =
    let (s, h1) = require-then (r.status same_status reserved) _ _ h in
    let (u, q, h2) = >>=-eq-ok (require_reserve_entry r e) _ h1 in
    let (row, w, h3) = >>=-eq-ok (insert_row db r) _ h2 in
    let (o, f) = after_insert-Stored db r e row (db1, first) w h3 in
    let (o', f', life) = commit_all-Life cs db1 r.reservation_id o f in
    (
      o',
      f',
      insert_reserved-present (commit_all db1 cs) r o' e s q (insert_row-allowed db r e row w) f',
    )
