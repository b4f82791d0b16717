-- ===== src/Tasking/RuntimeDecision/Evaluate.antt =====
-- `RuntimeDecisionV1` and `evaluate_runtime_decision`. The canonical SHA-256 digests of a snapshot
-- and of a decision, and the name-based id, are parameters: they are computed by a third-party
-- serialiser and by the standard library.
use knowledage_base_assistan.Prelude.{
  ℕ, Uuid, String, ◌&&◌, List, Result, ok, require, value_error, validation_error, ◌>>=◌, ◌>>◌, all,
  leb, length,
}
use knowledage_base_assistan.Tasking.RuntimeDecision.Signals.{
  DecisionReason, Snapshot, RuntimeDirective, reason_allowed,
}
use knowledage_base_assistan.Tasking.RuntimeDecision.Select.{select_directive}

pub record RuntimeDecision : Type 0 where
  pub decision_id : Uuid
  pub decision_sequence : ℕ
  pub snapshot_digest : String
  pub directive : RuntimeDirective
  pub reasons : List DecisionReason
  pub basis_task_row_version : ℕ
  pub basis_event_high_watermark : ℕ
  pub issued_task_row_version : ℕ
  pub input_id : Uuid
  pub input_version : ℕ
  pub plan_version : ℕ
  pub work_version : ℕ
  pub execution_generation : ℕ
  pub cancellation_generation : ℕ
  pub decision_digest : String

pub record Digests : Type 0 where
  pub snapshot_digest_for : Snapshot → String
  pub decision_digest_for : RuntimeDecision → String
  pub decision_id : Uuid → String → Uuid

abbrev pub no_digest : String
no_digest = "0000000000000000000000000000000000000000000000000000000000000000"

module _ (h : Digests) where
  unfoldable pub freeze_runtime_decision_snapshot : Snapshot → Snapshot
  freeze_runtime_decision_snapshot s = record s { snapshot_digest = h.snapshot_digest_for s }

  -- The decision before its digest is set.
  unfoldable pub draft_decision :
      Snapshot → ℕ → RuntimeDirective → List DecisionReason → RuntimeDecision
  draft_decision s decision_sequence directive reasons = record {
    decision_id = h.decision_id s.task_id s.snapshot_digest;
    decision_sequence = decision_sequence;
    snapshot_digest = s.snapshot_digest;
    directive = directive;
    reasons = reasons;
    basis_task_row_version = s.task_row_version;
    basis_event_high_watermark = s.event_high_watermark;
    issued_task_row_version = s.task_row_version;
    input_id = s.input_id;
    input_version = s.input_version;
    plan_version = s.plan_version;
    work_version = s.work_version;
    execution_generation = s.execution_generation;
    cancellation_generation = s.cancellation_generation;
    decision_digest = no_digest;
  }

  -- The constraints of the model and its validator `validate_reasons`.
  unfoldable pub validate_decision : RuntimeDecision → Result RuntimeDecision
  validate_decision d = do
    require (leb 1 d.decision_sequence && (leb 1 (length d.reasons) && leb (length d.reasons) 8))
        validation_error
    require (all (reason_allowed d.directive) d.reasons)
        (value_error "RUNTIME_DECISION_REASON_MISMATCH")
    ok d

  unfoldable pub evaluate_runtime_decision : Snapshot → ℕ → Result RuntimeDecision
  unfolding freeze_runtime_decision_snapshot draft_decision
  evaluate_runtime_decision snapshot decision_sequence =
      let frozen = freeze_runtime_decision_snapshot snapshot in
      do
        (directive, reasons) ← select_directive frozen
        decision ← validate_decision (draft_decision frozen decision_sequence directive reasons)
        ok (record decision { decision_digest = h.decision_digest_for decision })
