-- ===== src/ModelGateway/Budget/Tables.antt =====
-- The tables of infrastructure/persistence/budget_models.py: their rows and the constraints of the
-- database on a row that is written.
use knowledage_base_assistan.Prelude.{
  nat_eq, string_eq, ℕ, Uuid, Bool, true, false, not, ◌&&◌, List, [], ◌∷◌, Option, none, some,
  pos_part, neg_part, leb, all, any, contains, is_some, ◌==◌, if◌then◌else◌,
}
use knowledage_base_assistan.ModelGateway.Budget.Quantity.{
  Dimension, dimensions, cost_amount, BudgetQuantityDelta, get, get_delta,
}
use knowledage_base_assistan.ModelGateway.Budget.Ledger.{BudgetLedgerEntry}
use knowledage_base_assistan.ModelGateway.Budget.Reservation.{BudgetReservation}

-- The identifiers of the rows in the tables that the two budget tables refer to.
pub record References : Type 0 where
  pub tasks : List Uuid
  pub task_attempts : List Uuid
  pub model_calls : List Uuid

-- `workflow.budget_reservation`, by its primary key, and `workflow.budget_ledger_entry`.
pub record Db : Type 0 where
  pub reservations : List BudgetReservation
  pub entries : List BudgetLedgerEntry
  pub references : References

abbrev pub find_reservation : Uuid → List BudgetReservation → Option BudgetReservation
find_reservation id [] = none
find_reservation id (r ∷ rs) = if r.reservation_id == id then some r else find_reservation id rs

abbrev pub find_entry : Uuid → List BudgetLedgerEntry → Option BudgetLedgerEntry
find_entry id [] = none
find_entry id (e ∷ es) = if e.entry_id == id then some e else find_entry id es

-- The largest value of an `Integer` column, and of `Numeric(20, 6)` in its smallest unit.
abbrev pub column_max : Dimension → ℕ
column_max cost_amount = 99999999999999999999
column_max _ = 2147483647

-- The constraint `settled_le_reserved`.
abbrev pub settled_le_reserved : BudgetReservation → Bool
settled_le_reserved r =
    all (λ d. leb (get d r.settled_quantity) (get d r.reserved_quantity)) dimensions

-- The row constraints of `budget_reservation`; the digest's format holds by its type.
unfoldable pub reservation_allowed : BudgetReservation → Bool
reservation_allowed r =
    settled_le_reserved r
    && all (λ d. leb (get d r.reserved_quantity) (column_max d)) dimensions
    && leb 1 r.reservation_version
    && leb r.reservation_version 2147483647
    && leb 1 r.row_version
    && leb r.row_version 2147483647

-- A foreign key that may be null.
abbrev refers : List Uuid → Option Uuid → Bool
refers ids none = true
refers ids (some id) = contains ids id

abbrev pub is_taken : Option Uuid → Option Uuid → Bool
is_taken (some a) (some b) = a == b
is_taken _ _ = false

-- The two partial unique indexes and the foreign keys of a row that is inserted.
unfoldable pub reservation_fits : Db → BudgetReservation → Bool
reservation_fits db r =
    not (any (λ o. is_taken o.model_call_id r.model_call_id) db.reservations)
    && not (any (λ o. is_taken o.invocation_id r.invocation_id) db.reservations)
    && contains db.references.tasks r.task_id
    && refers db.references.task_attempts r.task_attempt_id
    && refers db.references.model_calls r.model_call_id

delta_fits : BudgetQuantityDelta → Bool
delta_fits delta =
    all
      (λ d.
        leb (pos_part (get_delta d delta)) (column_max d)
        && leb (neg_part (get_delta d delta)) (column_max d))
      dimensions

refers_reservation : List BudgetReservation → Option Uuid → Bool
refers_reservation rows none = true
refers_reservation rows (some id) = is_some (find_reservation id rows)

-- The row constraints of an entry, and its foreign keys.
unfoldable pub entry_allowed : BudgetLedgerEntry → Bool
unfolding delta_fits
entry_allowed e = delta_fits e.delta && not (e.currency == "")

unfoldable pub entry_fits : Db → BudgetLedgerEntry → Bool
unfolding refers_reservation
entry_fits db e =
    contains db.references.tasks e.task_id && refers_reservation db.reservations e.reservation_id
