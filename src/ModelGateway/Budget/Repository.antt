-- ===== src/ModelGateway/Budget/Repository.antt =====
-- infrastructure/persistence/budget_repository.py. A method of
-- the adapter is a function from the session's view of the tables to the new view and the result;
-- an error ends the transaction, so it comes without a new view. `now` is `datetime.now(UTC)`.
pub mod Cas
mod Keeps
pub mod History
pub mod Replay
use knowledage_base_assistan.Prelude.{
  nat_eq, string_eq, ℕ, ◌+◌, ◌≤◌, Uuid, String, Bool, true, false, not, ◌&&◌, ◌||◌, List, [], ◌∷◌,
  ◌++◌, Option, none, some, ℤ, pos, negsuc, pos_part, neg_part, Result, ok, raise, require,
  state_violation, contract_error, integrity_error, database_error, assertion_error, ◌>>=◌, ◌>>◌,
  leb, all, any, contains, opt_beq, is_some, ◌==◌, if◌then◌else◌, keep_if,
}
use knowledage_base_assistan.ModelGateway.Budget.Quantity.{
  Dimension, dimensions, cost_amount, BudgetQuantity, BudgetQuantityDelta, get, get_delta, as_delta,
}
use knowledage_base_assistan.ModelGateway.Budget.Ledger.{
  BudgetLedgerEntry, BudgetLedgerEntryKind, reserve,
}
use knowledage_base_assistan.ModelGateway.Budget.Reservation.{
  BudgetReservation, BudgetReservationStatus, reserved, settled, is_terminal, require_transition,
  ◌same_status◌,
}
use knowledage_base_assistan.ModelGateway.Budget.Tables.{
  Db, find_reservation, find_entry, reservation_allowed, reservation_fits, entry_allowed,
  entry_fits,
}

pub data BudgetReservationInsertDisposition : Type 0 where
  inserted already_present : BudgetReservationInsertDisposition

pub record BudgetReservationInsertResult : Type 0 where
  pub disposition : BudgetReservationInsertDisposition
  pub reservation : BudgetReservation
  pub row_version : ℕ

pub data BudgetReservationTransitionConflict : Type 0 where
  not_found not_in_state row_version_conflict : BudgetReservationTransitionConflict

pub record BudgetReservationTransitionResult : Type 0 where
  pub committed : Bool
  pub reservation : Option BudgetReservation
  pub conflict_reason : Option BudgetReservationTransitionConflict

-- An entry with a known key is not written again: the stored one is returned.
store_entry : Db → BudgetLedgerEntry → Option BudgetLedgerEntry → Result (Db × BudgetLedgerEntry)
store_entry db entry (some existing) = ok (db, existing)
store_entry db entry none =
    if entry_fits db entry
    then ok (record db { entries = db.entries ++ entry ∷ [] }, entry)
    else raise database_error

unfoldable pub append_entry : Db → BudgetLedgerEntry → Result (Db × BudgetLedgerEntry)
unfolding entry_allowed entry_fits store_entry
append_entry db entry = do
  require (entry_allowed entry) database_error
  store_entry db entry (find_entry entry.entry_id db.entries)

abbrev is_reserve : BudgetLedgerEntryKind → Bool
is_reserve reserve = true
is_reserve _ = false

abbrev pub same_int : ℤ → ℤ → Bool
same_int (pos a) (pos b) = a == b
same_int (negsuc a) (negsuc b) = a == b
same_int _ _ = false

abbrev pub same_delta : BudgetQuantityDelta → BudgetQuantityDelta → Bool
same_delta a b = all (λ d. same_int (get_delta d a) (get_delta d b)) dimensions

unfoldable pub require_reserve_entry : BudgetReservation → BudgetLedgerEntry → Result (Unit {0})
unfolding as_delta
require_reserve_entry reservation entry = do
  require (is_reserve entry.entry_kind) (contract_error "BUDGET_RESERVE_ENTRY_KIND_MISMATCH")
  require (opt_beq entry.reservation_id (some reservation.reservation_id))
      (contract_error "BUDGET_RESERVE_ENTRY_RESERVATION_MISMATCH")
  require (same_delta entry.delta (as_delta reservation.reserved_quantity))
      (contract_error "BUDGET_RESERVE_ENTRY_DELTA_MISMATCH")

-- INSERT ... ON CONFLICT (id) DO NOTHING; `none` if the key was there.
unfoldable pub insert_row : Db → BudgetReservation → Result (Option Db)
insert_row db r =
    if reservation_allowed r
    then (if is_some (find_reservation r.reservation_id db.reservations)
        then ok none
        else if reservation_fits db r
        then ok (some (record db { reservations = db.reservations ++ r ∷ [] }))
        else raise database_error)
    else raise database_error

-- The result where the key was there before.
already : Db → Option BudgetReservation → Result (Db × BudgetReservationInsertResult)
already db none = raise (integrity_error "BUDGET_RESERVATION_INSERT_CONFLICT_MISSING_ROW")
already db (some existing) = ok (
  db,
  record {
    disposition = already_present;
    reservation = existing;
    row_version = existing.row_version;
  },
)

-- What `insert_reserved` does once the row was inserted, or was found.
after_insert :
    Db
    → BudgetReservation
    → BudgetLedgerEntry
    → Option Db
    → Result (Db × BudgetReservationInsertResult)
unfolding append_entry already
after_insert db reservation entry (some db') = do
  (db'', stored) ← append_entry db' entry
  ok (db'', record { disposition = inserted; reservation = reservation; row_version = 1 })
after_insert db reservation entry none =
    already db (find_reservation reservation.reservation_id db.reservations)

unfoldable pub insert_reserved :
    Db → BudgetReservation → BudgetLedgerEntry → Result (Db × BudgetReservationInsertResult)
unfolding require_reserve_entry insert_row after_insert
insert_reserved db reservation reserve_entry = do
  require (reservation.status same_status reserved)
      (state_violation "BUDGET_RESERVATION_INSERT_NOT_RESERVED")
  require_reserve_entry reservation reserve_entry
  row ← insert_row db reservation
  after_insert db reservation reserve_entry row

-- The new values of an updated row.
unfoldable pub transition_values :
    ℕ → Option BudgetQuantity → BudgetReservationStatus → BudgetReservation → BudgetReservation
unfolding is_terminal
transition_values now quantity to_status r = record r {
  status = to_status;
  row_version = r.row_version + 1;
  settled_at = if to_status same_status settled then some now else r.settled_at;
  settled_quantity =
      if is_terminal to_status
      then (elim quantity [ none ↦ r.settled_quantity | some q ↦ q ])
      else r.settled_quantity;
}

abbrev pub set_reservation :
    Uuid → BudgetReservation → List BudgetReservation → List BudgetReservation
set_reservation id r [] = []
set_reservation id r (o ∷ rows) =
    if o.reservation_id == id then r ∷ rows else o ∷ set_reservation id r rows

abbrev refused : BudgetReservationTransitionConflict → BudgetReservationTransitionResult
refused reason = record { committed = false; reservation = none; conflict_reason = some reason }

-- UPDATE ... WHERE id = .. AND status = .. AND row_version = ..., on the row with that key.
update_row :
    Db
    → Option BudgetReservation
    → ℕ
    → BudgetReservationStatus
    → BudgetReservationStatus
    → ℕ
    → Option BudgetQuantity
    → Result (Db × BudgetReservationTransitionResult)
unfolding transition_values
update_row db none now from_status to_status expected quantity = ok (db, refused not_found)
update_row db (some r) now from_status to_status expected quantity =
    let row = transition_values now quantity to_status r in
    if r.status same_status from_status && r.row_version == expected
    then (if reservation_allowed row
        then ok (
          record db { reservations = set_reservation r.reservation_id row db.reservations },
          record { committed = true; reservation = some row; conflict_reason = none },
        )
        else raise database_error)
    else if r.status same_status from_status
    then ok (db, refused row_version_conflict)
    else ok (db, refused not_in_state)

unfoldable pub transition_status :
    Db
    → ℕ
    → Uuid
    → BudgetReservationStatus
    → BudgetReservationStatus
    → ℕ
    → Option BudgetQuantity
    → Result (Db × BudgetReservationTransitionResult)
unfolding require_transition update_row
transition_status db now id from_status to_status expected quantity = do
  require_transition from_status to_status
  require (not (to_status same_status settled && not (is_some quantity)))
      (contract_error "BUDGET_SETTLE_REQUIRES_SETTLED_QUANTITY")
  update_row db (find_reservation id db.reservations) now from_status to_status expected quantity

-- `list_entries` without its order, which is by time and key.
unfoldable pub list_entries : Db → Uuid → List BudgetLedgerEntry
list_entries db id = keep_if (λ e. opt_beq e.reservation_id (some id)) db.entries
