-- ===== src/ModelGateway/Usage.antt =====
-- modules/model_gateway/domain/usage.py: the token usage of a model call, in three closed branches.
use knowledage_base_assistan.Prelude.{ℕ}

pub record ExactModelUsage : Type 0 where
  pub input_tokens : ℕ
  pub output_tokens : ℕ

pub record EstimatedModelUsage : Type 0 where
  pub estimated_input_tokens : ℕ
  pub estimated_output_tokens : ℕ

pub data ModelUsage : Type 0 where
  exact : ExactModelUsage → ModelUsage
  estimated_dev : EstimatedModelUsage → ModelUsage
  unknown : ModelUsage

pub data SettlementKind : Type 0 where
  known worst_case reconciling : SettlementKind

unfoldable pub resolve_settlement_kind : ModelUsage → SettlementKind
resolve_settlement_kind (exact u) = known
resolve_settlement_kind (estimated_dev u) = worst_case
resolve_settlement_kind unknown = reconciling
