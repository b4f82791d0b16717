-- ===== src/ModelGateway/Budget/Quantity.antt =====
-- modules/model_gateway/domain/budget_quantity.py. `cost_amount` is a decimal with six places
-- (`Numeric(20, 6)`), counted here in its smallest unit.
use knowledage_base_assistan.Prelude.{
  ℕ, ◌-◌, ◌≤◌, ℤ, pos, negate, List, [], ◌∷◌, Result, ok, raise, validation_error, leb, all,
  if◌then◌else◌,
}

-- The names in `DIMENSIONS`; `getattr(q, name)` is `get name q`.
pub data Dimension : Type 0 where
  model_call_count input_tokens output_tokens tool_count cost_amount : Dimension

abbrev pub dimensions : List Dimension
dimensions = model_call_count ∷ input_tokens ∷ output_tokens ∷ tool_count ∷ cost_amount ∷ []

pub record BudgetQuantity : Type 0 where
  pub model_call_count : ℕ
  pub input_tokens : ℕ
  pub output_tokens : ℕ
  pub tool_count : ℕ
  pub cost_amount : ℕ

pub record BudgetQuantityDelta : Type 0 where
  pub model_call_count : ℤ
  pub input_tokens : ℤ
  pub output_tokens : ℤ
  pub tool_count : ℤ
  pub cost_amount : ℤ

abbrev pub get : Dimension → BudgetQuantity → ℕ
get model_call_count q = q.model_call_count
get input_tokens q = q.input_tokens
get output_tokens q = q.output_tokens
get tool_count q = q.tool_count
get cost_amount q = q.cost_amount

abbrev pub get_delta : Dimension → BudgetQuantityDelta → ℤ
get_delta model_call_count q = q.model_call_count
get_delta input_tokens q = q.input_tokens
get_delta output_tokens q = q.output_tokens
get_delta tool_count q = q.tool_count
get_delta cost_amount q = q.cost_amount

unfoldable pub as_delta : BudgetQuantity → BudgetQuantityDelta
as_delta q = record {
  model_call_count = pos q.model_call_count;
  input_tokens = pos q.input_tokens;
  output_tokens = pos q.output_tokens;
  tool_count = pos q.tool_count;
  cost_amount = pos q.cost_amount;
}

-- A difference below 0 in any dimension fails the `ge=0` validation of the new quantity.
unfoldable pub subtract : BudgetQuantity → BudgetQuantity → Result BudgetQuantity
subtract q other =
    if all (λ d. leb (get d other) (get d q)) dimensions
    then ok (record {
      model_call_count = q.model_call_count - other.model_call_count;
      input_tokens = q.input_tokens - other.input_tokens;
      output_tokens = q.output_tokens - other.output_tokens;
      tool_count = q.tool_count - other.tool_count;
      cost_amount = q.cost_amount - other.cost_amount;
    })
    else raise validation_error

unfoldable pub negate_delta : BudgetQuantityDelta → BudgetQuantityDelta
negate_delta q = record {
  model_call_count = negate q.model_call_count;
  input_tokens = negate q.input_tokens;
  output_tokens = negate q.output_tokens;
  tool_count = negate q.tool_count;
  cost_amount = negate q.cost_amount;
}

-- One quantity is at most another in every dimension.
pub record IsWithin (a b : BudgetQuantity) : Type 0 where
  pub model_call_count_le : a.model_call_count ≤ b.model_call_count
  pub input_tokens_le : a.input_tokens ≤ b.input_tokens
  pub output_tokens_le : a.output_tokens ≤ b.output_tokens
  pub tool_count_le : a.tool_count ≤ b.tool_count
  pub cost_amount_le : a.cost_amount ≤ b.cost_amount
