-- ===== src/ModelGateway/Budget/Repository/Keeps.antt =====
-- What one successful call of the adapter may do to the tables.
use knowledage_base_assistan.Prelude.{
  nat_eq, ℕ, ◌+◌, Uuid, ◌≡◌, ◌⊎◌, inl, inr, true, List, [], ◌∷◌, ◌++◌, Option, none, some, ok,
  >>=-eq-ok, require-then, arith, append-nil, sym, ap, ◌∙◌, ok-injective, Bool-cases,
  database_error,
}
use native.Mathlib.Decide.{ℕ_discrete}
use knowledage_base_assistan.ModelGateway.Budget.Quantity.{BudgetQuantity}
use knowledage_base_assistan.ModelGateway.Budget.Ledger.{BudgetLedgerEntry}
use knowledage_base_assistan.ModelGateway.Budget.Reservation.{
  BudgetReservation, BudgetReservationStatus, can_transition, reserved, ◌same_status◌,
}
use knowledage_base_assistan.ModelGateway.Budget.Tables.{
  Db, find_reservation, find_entry, entry_allowed,
}
use knowledage_base_assistan.ModelGateway.Budget.Repository.{
  append_entry, store_entry, insert_reserved, insert_row, require_reserve_entry, after_insert,
  already, transition_status, BudgetReservationInsertResult, BudgetReservationTransitionResult,
}
use knowledage_base_assistan.ModelGateway.Budget.Repository.Cas.{
  transition_status-commits, transition_status-refuses, Committed,
}

-- Everything that a call that keeps the rules may do to the tables.
pub record Keeps (db db' : Db) : Type 0 where
  pub rows :
      (id : Uuid) (r : BudgetReservation)
      → find_reservation id db.reservations ≡ some r
      → (find_reservation id db'.reservations ≡ some r)
        ⊎ ((r' : BudgetReservation) × (find_reservation id db'.reservations ≡ some r')
            × (can_transition r.status r'.status ≡ true)
            × (r'.row_version ≡ r.row_version + 1)
            × (r'.reserved_quantity ≡ r.reserved_quantity))
  pub booked : (added : List BudgetLedgerEntry) × (db'.entries ≡ db.entries ++ added)

pub Keeps-refl : (db : Db) → Keeps db db
Keeps-refl db = record { rows = λ id r h. inl h; booked = ([], sym (append-nil db.entries)) }

find-append :
    (id : Uuid) (r : BudgetReservation) (o rows : List BudgetReservation)
    → find_reservation id rows ≡ some r
    → find_reservation id (rows ++ o) ≡ some r
find-append id r o [] h = cc
find-append id r o (x ∷ rows) h = ground (arith, find-append id r o rows)

module _ (db : Db) (e : BudgetLedgerEntry) where
  store_entry-Keeps :
      (found : Option BudgetLedgerEntry) (db' : Db) (stored : BudgetLedgerEntry)
      → store_entry db e found ≡ ok (db', stored)
      → (db'.reservations ≡ db.reservations)
        × ((added : List BudgetLedgerEntry) × (db'.entries ≡ db.entries ++ added))
  unfolding store_entry
  store_entry-Keeps (some x) db' stored h =
      (ground arith, ([], rw (append-nil db.entries) (ground arith)))
  store_entry-Keeps none db' stored h = (ground arith, (e ∷ [], ground arith))

  pub append_entry-Keeps :
      (db' : Db) (stored : BudgetLedgerEntry)
      → append_entry db e ≡ ok (db', stored)
      → (db'.reservations ≡ db.reservations)
        × ((added : List BudgetLedgerEntry) × (db'.entries ≡ db.entries ++ added))
  unfolding append_entry
  append_entry-Keeps db' stored h =
      store_entry-Keeps (find_entry e.entry_id db.entries) db' stored
        (require-then (entry_allowed e) database_error _ h).1

-- The tables of an entry written after the rows were kept or one row was added.
pub Keeps-of_append :
    (db db1 db' : Db) (o : List BudgetReservation) (e : BudgetLedgerEntry)
    (stored : BudgetLedgerEntry)
    → db1.reservations ≡ db.reservations ++ o
    → db1.entries ≡ db.entries
    → append_entry db1 e ≡ ok (db', stored)
    → Keeps db db'
Keeps-of_append db db1 db' o e stored p q h =
    let (same, (added, more)) = append_entry-Keeps db1 e db' stored h in
    record {
      rows = λ id r f. inl (rw (same, p) (find-append id r o db.reservations f));
      booked = (added, rw (← q) more);
    }

module _ (db : Db) (r : BudgetReservation) (e : BudgetLedgerEntry) where
  already-Keeps :
      (found : Option BudgetReservation) (p : Db × BudgetReservationInsertResult)
      → already db found ≡ ok p
      → Keeps db p.0
  unfolding already
  already-Keeps none p h = cc
  already-Keeps (some x) p h =
      rw (ap (λ (t : Db × BudgetReservationInsertResult). t.0) (sym (ok-injective h)))
        (Keeps-refl db)

  pub insert_row-adds :
      (db1 : Db)
      → insert_row db r ≡ ok (some db1)
      → (db1.reservations ≡ db.reservations ++ r ∷ []) × (db1.entries ≡ db.entries)
  unfolding insert_row
  insert_row-adds db1 h = ground arith

  after_insert-Keeps :
      (row : Option Db) (p : Db × BudgetReservationInsertResult)
      → insert_row db r ≡ ok row
      → after_insert db r e row ≡ ok p
      → Keeps db p.0
  unfolding after_insert
  after_insert-Keeps none p w h =
      already-Keeps (find_reservation r.reservation_id db.reservations) p h
  after_insert-Keeps (some db1) p w h =
      let (q, a, z) = >>=-eq-ok (append_entry db1 e) _ h in
      let (rows, same) = insert_row-adds db1 w in
      rw (ap (λ (t : Db × BudgetReservationInsertResult). t.0) (sym (ok-injective z)))
        (Keeps-of_append db db1 q.0 (r ∷ []) e q.1 rows same a)

  pub insert_reserved-Keeps :
      (p : Db × BudgetReservationInsertResult) → insert_reserved db r e ≡ ok p → Keeps db p.0
  unfolding insert_reserved
  insert_reserved-Keeps p h =
      let (a, h1) = require-then (r.status same_status reserved) _ _ h in
      let (u, b, h2) = >>=-eq-ok (require_reserve_entry r e) _ h1 in
      let (row, w, h3) = >>=-eq-ok (insert_row db r) _ h2 in after_insert-Keeps row p w h3

module _ (db : Db) (now : ℕ) (id : Uuid) (from_status to_status : BudgetReservationStatus)
    (expected : ℕ) (quantity : Option BudgetQuantity) where
  Committed-Keeps :
      (db' : Db) (old new : BudgetReservation)
      → Committed db db' id from_status to_status expected old new
      → can_transition from_status to_status ≡ true
      → Keeps db db'
  Committed-Keeps db' old new done legal = record {
    rows = λ j r f. elim (ℕ_discrete id j) [
      | yes e ↦
          let o : old ≡ r = ground (arith, done.was_stored) in
          inr (
            new,
            rw (← e) done.is_stored,
            rw (← o, done.was_in_status, done.is_in_status) legal,
            rw (← o, done.was_at_version) done.is_at_version,
            rw (← o) done.keeps_reserved,
          )
      | no ne ↦ inl (done.others j ne ∙ f)
    ];
    booked = ([], rw (append-nil db.entries) done.entries_kept);
  }

  pub transition_status-Keeps :
      (p : Db × BudgetReservationTransitionResult)
      → transition_status db now id from_status to_status expected quantity ≡ ok p
      → Keeps db p.0
  transition_status-Keeps (db', res) h = elim (Bool-cases res.committed) [
    | inl c ↦
        let (old, new, done, legal, z) =
          transition_status-commits db db' now id from_status to_status expected quantity res h c in
        Committed-Keeps db' old new done legal
    | inr c ↦
        rw
          ((transition_status-refuses db db' now id from_status to_status expected quantity res h
            c).0)
          (Keeps-refl db)
  ]
