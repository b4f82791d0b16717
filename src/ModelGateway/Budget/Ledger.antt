-- ===== src/ModelGateway/Budget/Ledger.antt =====
-- modules/model_gateway/domain/budget_ledger.py: ledger entries, the split of a settlement, and the
-- residue of a closed reservation.
use knowledage_base_assistan.Prelude.{
  ℕ, Uuid, String, Bool, true, false, List, [], ◌∷◌, Option, map, ℤ, pos, negsuc, zero, suc, Result,
  ok, raise, value_error, ◌>>=◌, ltb, all, keep_if, join, concat,
}
use knowledage_base_assistan.ModelGateway.Budget.Quantity.{
  Dimension, model_call_count, input_tokens, output_tokens, tool_count, cost_amount, dimensions,
  BudgetQuantity, BudgetQuantityDelta, get, get_delta, as_delta, subtract, negate_delta,
}

pub data BudgetLedgerEntryKind : Type 0 where
  allocate reserve settle release return worst_case_settle : BudgetLedgerEntryKind

pub record BudgetLedgerEntry : Type 0 where
  pub entry_id : Uuid
  pub task_id : Uuid
  pub account_id : Uuid
  pub reservation_id : Option Uuid
  pub entry_kind : BudgetLedgerEntryKind
  pub delta : BudgetQuantityDelta
  pub currency : String
  pub rate_card_version : Option String
  pub exchange_rate_snapshot_version : Option String
  pub caused_by_event_id : Option Uuid
  pub created_at : ℕ

-- The texts of `DIMENSIONS`.
abbrev pub dimension_name : Dimension → String
dimension_name model_call_count = "model_call_count"
dimension_name input_tokens = "input_tokens"
dimension_name output_tokens = "output_tokens"
dimension_name tool_count = "tool_count"
dimension_name cost_amount = "cost_amount"

unfoldable pub overrun_dimensions : BudgetQuantity → BudgetQuantity → List Dimension
overrun_dimensions reserved settled =
    keep_if (λ name. ltb (get name reserved) (get name settled)) dimensions

-- The code of `BudgetSettlementOverrunError`.
abbrev pub overrun_code : List Dimension → String
overrun_code overrun = concat "BUDGET_SETTLEMENT_OVERRUN:" (join "," (map dimension_name overrun))

split_settlement :
    List Dimension
    → BudgetQuantity
    → BudgetQuantity
    → Result (BudgetQuantityDelta × BudgetQuantityDelta)
split_settlement (d ∷ ds) reserved settled = raise (value_error (overrun_code (d ∷ ds)))
split_settlement [] reserved settled = do
  rest ← subtract reserved settled
  ok (as_delta settled, negate_delta (as_delta rest))

unfoldable pub settle_deltas :
    BudgetQuantity → BudgetQuantity → Result (BudgetQuantityDelta × BudgetQuantityDelta)
unfolding overrun_dimensions split_settlement subtract as_delta negate_delta
settle_deltas reserved settled =
    split_settlement (overrun_dimensions reserved settled) reserved settled

unfoldable pub conservation_gap :
    BudgetQuantity → BudgetQuantity → BudgetQuantity → Result BudgetQuantityDelta
unfolding subtract as_delta
conservation_gap reserved consumed returned = do
  rest ← subtract reserved consumed
  gap ← subtract rest returned
  ok (as_delta gap)

-- `getattr(gap, name) == 0`
abbrev pub is_zero : ℤ → Bool
is_zero (pos zero) = true
is_zero (pos (suc n)) = false
is_zero (negsuc n) = false

unfoldable pub is_conserved : BudgetQuantity → BudgetQuantity → BudgetQuantity → Result Bool
unfolding conservation_gap
is_conserved reserved consumed returned = do
  gap ← conservation_gap reserved consumed returned
  ok (all (λ name. is_zero (get_delta name gap)) dimensions)
