-- ===== src/ModelGateway/Budget/Reservation.antt =====
-- modules/model_gateway/domain/budget_reservation.py: the reservation, its state machine, and what
-- a reported usage settles.
use knowledage_base_assistan.Prelude.{
  nat_eq, ◌==◌, ◌≡◌, ◌↔◌, arith, ℕ, Uuid, String, Bool, true, false, Option, none, some, Result,
  require, state_violation,
}
use knowledage_base_assistan.ModelGateway.Usage.{
  ModelUsage, SettlementKind, resolve_settlement_kind,
}
use knowledage_base_assistan.ModelGateway.Budget.Quantity.{BudgetQuantity}
use knowledage_base_assistan.ModelGateway.Budget.Ledger.{
  BudgetLedgerEntryKind, settle, worst_case_settle,
}

pub data BudgetReservationStatus : Type 0 where
  reserved consuming settled released expired reconciling : BudgetReservationStatus

-- Statuses are compared by their values, which are all different.
abbrev pub status_index : BudgetReservationStatus → ℕ
status_index reserved = 0
status_index consuming = 1
status_index settled = 2
status_index released = 3
status_index expired = 4
status_index reconciling = 5

infix 50 ◌same_status◌
abbrev pub ◌same_status◌ : BudgetReservationStatus → BudgetReservationStatus → Bool
a same_status b = status_index a == status_index b

pub same_status_iff : (a b : BudgetReservationStatus) → ((a same_status b) ≡ true) ↔ (a ≡ b)
same_status_iff a b = ground arith

-- `to_status in _TRANSITIONS[from_status]`
unfoldable pub can_transition : BudgetReservationStatus → BudgetReservationStatus → Bool
can_transition reserved consuming = true
can_transition reserved released = true
can_transition reserved expired = true
can_transition consuming settled = true
can_transition consuming reconciling = true
can_transition reconciling settled = true
can_transition _ _ = false

unfoldable pub is_terminal : BudgetReservationStatus → Bool
is_terminal settled = true
is_terminal released = true
is_terminal expired = true
is_terminal _ = false

unfoldable pub require_transition :
    BudgetReservationStatus → BudgetReservationStatus → Result (Unit {0})
unfolding can_transition
require_transition from_status to_status =
    require (can_transition from_status to_status)
      (state_violation "BUDGET_RESERVATION_STATE_TRANSITION_INVALID")

pub record BudgetReservation : Type 0 where
  pub reservation_id : Uuid
  pub task_id : Uuid
  pub branch_id : Option Uuid
  pub delegation_id : Option Uuid
  pub task_attempt_id : Option Uuid
  pub model_call_id : Option Uuid
  pub action_attempt_id : Option Uuid
  pub invocation_id : Option Uuid
  pub account_id : Uuid
  pub reservation_version : ℕ
  pub reserved_quantity : BudgetQuantity
  pub settled_quantity : BudgetQuantity
  pub reservation_digest : String
  pub status : BudgetReservationStatus
  pub expires_at : Option ℕ
  pub created_at : ℕ
  pub settled_at : Option ℕ
  pub row_version : ℕ

pub record BudgetSettlementDecision : Type 0 where
  pub entry_kind : Option BudgetLedgerEntryKind
  pub status : BudgetReservationStatus

decision_for : SettlementKind → BudgetSettlementDecision
decision_for SettlementKind.reconciling = record { entry_kind = none; status = reconciling }
decision_for SettlementKind.known = record { entry_kind = some settle; status = settled }
decision_for SettlementKind.worst_case = record {
  entry_kind = some worst_case_settle;
  status = settled;
}

unfoldable pub resolve_settlement : ModelUsage → BudgetSettlementDecision
unfolding resolve_settlement_kind decision_for
resolve_settlement usage = decision_for (resolve_settlement_kind usage)
