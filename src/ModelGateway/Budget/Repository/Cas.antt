-- ===== src/ModelGateway/Budget/Repository/Cas.antt =====
-- The compare-and-set of `transition_status`.
use knowledage_base_assistan.Prelude.{
  none, false, Bool-cases, inl, inr, nat_eq, require-then, ℕ, ◌+◌, Uuid, ◌≡◌, ◌≢◌, refl, true, List,
  [], ◌∷◌, Option, none, some, ok, arith, is_some, not, ◌&&◌,
}
use knowledage_base_assistan.ModelGateway.Budget.Quantity.{BudgetQuantity}
use knowledage_base_assistan.ModelGateway.Budget.Reservation.{
  BudgetReservation, BudgetReservationStatus, same_status_iff, can_transition, settled,
  ◌same_status◌,
}
use knowledage_base_assistan.ModelGateway.Budget.Tables.{Db, find_reservation}
use knowledage_base_assistan.ModelGateway.Budget.Repository.{
  set_reservation, update_row, transition_values, transition_status,
  BudgetReservationTransitionResult, BudgetReservationTransitionConflict, not_found, not_in_state,
  row_version_conflict,
}

pub find-set_self :
    (id : Uuid) (r o : BudgetReservation) (rows : List BudgetReservation)
    → r.reservation_id ≡ id
    → find_reservation id rows ≡ some o
    → find_reservation id (set_reservation id r rows) ≡ some r
find-set_self id r o [] e h = cc
find-set_self id r o (x ∷ rows) e h = ground (arith, find-set_self id r o rows e)

pub find-set_ne :
    (id j : Uuid) (r : BudgetReservation) (rows : List BudgetReservation)
    → r.reservation_id ≡ id
    → id ≢ j
    → find_reservation j (set_reservation id r rows) ≡ find_reservation j rows
find-set_ne id j r [] e h = refl
find-set_ne id j r (x ∷ rows) e h = ground (arith, find-set_ne id j r rows e h)

pub find_reservation-id :
    (id : Uuid) (r : BudgetReservation) (rows : List BudgetReservation)
    → find_reservation id rows ≡ some r
    → r.reservation_id ≡ id
find_reservation-id id r [] h = cc
find_reservation-id id r (x ∷ rows) h = ground (arith, find_reservation-id id r rows)

-- What a committed transition did to the two tables.
pub record Committed (db db' : Db) (id : Uuid) (from_status to_status : BudgetReservationStatus)
    (expected : ℕ) (old new : BudgetReservation) : Type 0 where
  pub was_stored : find_reservation id db.reservations ≡ some old
  pub was_in_status : old.status ≡ from_status
  pub was_at_version : old.row_version ≡ expected
  pub is_stored : find_reservation id db'.reservations ≡ some new
  pub is_in_status : new.status ≡ to_status
  pub is_at_version : new.row_version ≡ expected + 1
  pub keeps_reserved : new.reserved_quantity ≡ old.reserved_quantity
  pub others :
      (j : Uuid) → id ≢ j → find_reservation j db'.reservations ≡ find_reservation j db.reservations
  pub entries_kept : db'.entries ≡ db.entries

-- Why a transition did not commit, read off the stored row.
pub data Conflict (db : Db) (id : Uuid) (from_status : BudgetReservationStatus) (expected : ℕ)
    : BudgetReservationTransitionConflict → Type 0 where
  missing :
      find_reservation id db.reservations ≡ none → Conflict db id from_status expected not_found
  moved :
      (r : BudgetReservation)
      → find_reservation id db.reservations ≡ some r
      → r.status ≢ from_status
      → Conflict db id from_status expected not_in_state
  stale :
      (r : BudgetReservation)
      → find_reservation id db.reservations ≡ some r
      → r.status ≡ from_status
      → r.row_version ≢ expected
      → Conflict db id from_status expected row_version_conflict

module _ (db db' : Db) (now : ℕ) (id : Uuid) (from_status to_status : BudgetReservationStatus)
    (expected : ℕ) (quantity : Option BudgetQuantity)
    (res : BudgetReservationTransitionResult) where
  update_row-some :
      (r : BudgetReservation)
      → update_row db (some r) now from_status to_status expected quantity ≡ ok (db', res)
      → res.committed ≡ true
      → (r.status ≡ from_status)
        × (r.row_version ≡ expected)
        × (db' ≡ record db {
          reservations =
              set_reservation r.reservation_id
                (transition_values now quantity to_status r)
                db.reservations;
        })
  unfolding update_row
  update_row-some r h c = ground (arith, same_status_iff r.status from_status)

  update_row_of_transition :
      transition_status db now id from_status to_status expected quantity ≡ ok (db', res)
      → (update_row db
            (find_reservation id db.reservations)
            now
            from_status
            to_status
            expected
            quantity
          ≡ ok (db', res))
        × (can_transition from_status to_status ≡ true)
  unfolding transition_status
  update_row_of_transition h =
      let (p, h1) = require-then (can_transition from_status to_status) _ _ h in
      let (q, h2) =
        require-then (not (to_status same_status settled && not (is_some quantity))) _ _ h1 in
      (h2, p)

  commit_of_update :
      (found : Option BudgetReservation)
      → find_reservation id db.reservations ≡ found
      → update_row db found now from_status to_status expected quantity ≡ ok (db', res)
      → res.committed ≡ true
      → (old : BudgetReservation) × (new : BudgetReservation) × Committed db db' id from_status
          to_status expected old new
        × (res.reservation ≡ some new)
  unfolding update_row
  commit_of_update none f h c = absurd (ground arith)
  commit_of_update (some r) f h c =
      let e = find_reservation-id id r db.reservations f in
      let row = transition_values now quantity to_status r in
      (
        r,
        row,
        record {
          was_stored = f;
          was_in_status = ground (arith, same_status_iff r.status from_status);
          was_at_version = ground arith;
          is_stored = ground (arith, find-set_self id row r db.reservations);
          is_in_status = refl;
          is_at_version = ground arith;
          keeps_reserved = refl;
          others = λ j ne. ground (arith, find-set_ne id j row db.reservations);
          entries_kept = ground arith;
        },
        ground arith,
      )

  -- A committed transition found the row in the expected status and version, moved it along the
  -- state machine, added one to its version, and changed no other row and no entry.
  pub transition_status-commits :
      transition_status db now id from_status to_status expected quantity ≡ ok (db', res)
      → res.committed ≡ true
      → (old : BudgetReservation) × (new : BudgetReservation) × Committed db db' id from_status
          to_status expected old new
        × (can_transition from_status to_status ≡ true)
        × (res.reservation ≡ some new)
  transition_status-commits h c =
      let (u, legal) = update_row_of_transition h in
      let (old, new, done, r) = commit_of_update (find_reservation id db.reservations) refl u c in
      (old, new, done, legal, r)

  refusal_of_update :
      (found : Option BudgetReservation)
      → find_reservation id db.reservations ≡ found
      → update_row db found now from_status to_status expected quantity ≡ ok (db', res)
      → res.committed ≡ false
      → (db' ≡ db)
        × ((reason : BudgetReservationTransitionConflict) × (res.conflict_reason ≡ some reason)
            × Conflict db id from_status expected reason)
  unfolding update_row
  refusal_of_update none f h c = (ground arith, (not_found, ground arith, missing f))
  refusal_of_update (some r) f h c = elim (Bool-cases (r.status same_status from_status)) [
    | inl same ↦ (
      ground arith,
      (
        row_version_conflict,
        ground arith,
        stale r f ((same_status_iff r.status from_status).0 same) (λ v. ground arith),
      ),
    )
    | inr other ↦ (
      ground arith,
      (
        not_in_state,
        ground arith,
        moved r f (λ e. ground (arith, same_status_iff r.status from_status)),
      ),
    )
  ]

  -- A transition that does not commit changes neither table, and its reason is the true one.
  pub transition_status-refuses :
      transition_status db now id from_status to_status expected quantity ≡ ok (db', res)
      → res.committed ≡ false
      → (db' ≡ db)
        × ((reason : BudgetReservationTransitionConflict) × (res.conflict_reason ≡ some reason)
            × Conflict db id from_status expected reason)
  transition_status-refuses h c =
      refusal_of_update (find_reservation id db.reservations) refl (update_row_of_transition h).0 c
