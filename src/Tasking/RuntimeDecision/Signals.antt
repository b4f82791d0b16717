-- ===== src/Tasking/RuntimeDecision/Signals.antt =====
-- The enumerations, the snapshot and the directives of runtime_decision.py. Times are numbers: only
-- their order is read. Digests and references are carried along.
use knowledage_base_assistan.Prelude.{
  ℕ, Uuid, String, Bool, true, false, not, ◌&&◌, List, Option, none, some, is_some, Result, ok,
  require, value_error, ◌>>◌,
}

pub data TaskRuntimeState : Type 0 where
  running cancel_requested finalizing completed failed cancelled : TaskRuntimeState

pub data RuntimeBlockingIssueKind : Type 0 where
  required_parameter_missing resource_selection_required : RuntimeBlockingIssueKind
  required_conflict_decision user_owned_fact_required : RuntimeBlockingIssueKind

pub data ReplanAdmission : Type 0 where
  required eligible blocked not_needed : ReplanAdmission

pub data FinalOutcomeKind : Type 0 where
  complete partial insufficient_evidence : FinalOutcomeKind

pub data DecisionReason : Type 0 where
  terminal_event_committed runtime_close_ready : DecisionReason
  cancellation_pending generation_fence_required deadline_kill_required : DecisionReason
  blocking_effect_unresolved reconciliation_scheduled : DecisionReason
  integrity_corruption required_state_unrecoverable replan_required_failed : DecisionReason
  deadline_cancellation_converged convergence_budget_corrupt : DecisionReason
  control_dependency_exhausted safety_fail_closed : DecisionReason
  issue_reason : RuntimeBlockingIssueKind → DecisionReason
  replan_required replan_eligible : DecisionReason
  business_retryable_failure new_causal_fact : DecisionReason
  required_criterion_satisfied no_runnable_required_path : DecisionReason
  final_protected_budget partial_result_only : DecisionReason
  ready_items_available wake_source_registered : DecisionReason

-- `reason in FAIL_TASK_REASONS`
unfoldable pub is_fail_task_reason : DecisionReason → Bool
is_fail_task_reason integrity_corruption = true
is_fail_task_reason required_state_unrecoverable = true
is_fail_task_reason replan_required_failed = true
is_fail_task_reason deadline_cancellation_converged = true
is_fail_task_reason convergence_budget_corrupt = true
is_fail_task_reason control_dependency_exhausted = true
is_fail_task_reason safety_fail_closed = true
is_fail_task_reason _ = false

-- `reason in FINALIZATION_REASONS`
unfoldable pub is_finalization_reason : DecisionReason → Bool
is_finalization_reason required_criterion_satisfied = true
is_finalization_reason no_runnable_required_path = true
is_finalization_reason final_protected_budget = true
is_finalization_reason partial_result_only = true
is_finalization_reason _ = false

pub record VersionedRef : Type 0 where
  pub ref_id : Uuid
  pub version : ℕ
  pub integrity_digest : String

pub record RuntimeBlockingIssue : Type 0 where
  pub issue_kind : RuntimeBlockingIssueKind
  pub issue_fingerprint : String
  pub refs : List VersionedRef

-- The two values of `retry_reason`.
pub data RetryReason : Type 0 where
  retryable_failure causal_fact : RetryReason

pub record RetryablePlanItem : Type 0 where
  pub plan_item_id : Uuid
  pub next_iteration_no : ℕ
  pub retry_reason : RetryReason

pub data WakeKind : Type 0 where
  active_child pending_approval pending_user_input pending_deferred running_wave : WakeKind
  capacity_release business_backoff dependency_change authorization_change : WakeKind
  capability_change : WakeKind

pub record WakeSource : Type 0 where
  pub kind : WakeKind
  pub refs : List VersionedRef
  pub next_wakeup_at : ℕ

pub data TerminalKind : Type 0 where
  kind_cancelled kind_failed : TerminalKind

pub record Snapshot : Type 0 where
  pub task_id : Uuid
  pub task_row_version : ℕ
  pub event_high_watermark : ℕ
  pub task_state : TaskRuntimeState
  pub input_id : Uuid
  pub input_version : ℕ
  pub plan_version : ℕ
  pub work_version : ℕ
  pub execution_generation : ℕ
  pub cancellation_generation : ℕ
  pub deadline_at : ℕ
  pub terminal_committed : Bool
  pub runtime_close_ready : Bool
  pub has_active_execution_unit : Bool
  pub has_unresolved_unknown_effect : Bool
  pub has_pending_cancellation : Bool
  pub cancellation_fence_required : Bool
  pub cancellation_terminal_kind : Option TerminalKind
  pub has_blocking_unknown_effect : Bool
  pub reconciliation_ready : Bool
  pub blocking_effect_refs : List VersionedRef
  pub next_reconcile_at : Option ℕ
  pub fail_reason : Option DecisionReason
  pub blocking_issue : Option RuntimeBlockingIssue
  pub replan_admission : ReplanAdmission
  pub replan_budget_complete : Bool
  pub has_active_replan : Bool
  pub snapshot_version_stable : Bool
  pub has_unaffected_ready_items : Bool
  pub retryable_items : List RetryablePlanItem
  pub final_outcome_kind : Option FinalOutcomeKind
  pub finalization_reason : Option DecisionReason
  pub contributions_merged : Bool
  pub has_ready_items : Bool
  pub ready_set_ref : Option VersionedRef
  pub scheduling_state_valid : Bool
  pub wake_sources : List WakeSource
  pub snapshot_digest : String

abbrev pub holds : {A : Type 0} → (A → Bool) → Option A → Bool
holds p none = true
holds p (some a) = p a

-- not ((a is None) != (b is None))
abbrev pub both_or_neither : {A B : Type 0} → Option A → Option B → Bool
both_or_neither none none = true
both_or_neither (some a) (some b) = true
both_or_neither _ _ = false

-- The validator of a snapshot; field ranges are those of the types.
unfoldable pub validate_signals : Snapshot → Result Snapshot
validate_signals s = do
  require (holds is_fail_task_reason s.fail_reason)
      (value_error "RUNTIME_DECISION_FAIL_REASON_INVALID")
  require (both_or_neither s.final_outcome_kind s.finalization_reason)
      (value_error "RUNTIME_DECISION_FINALIZATION_SIGNAL_MISMATCH")
  require (holds is_finalization_reason s.finalization_reason)
      (value_error "RUNTIME_DECISION_FINALIZATION_REASON_INVALID")
  require (not (s.has_ready_items && not (is_some s.ready_set_ref)))
      (value_error "RUNTIME_DECISION_READY_SET_REF_REQUIRED")
  require
      (not (
        s.has_blocking_unknown_effect
        && s.reconciliation_ready
        && not (is_some s.next_reconcile_at)))
      (value_error "RUNTIME_DECISION_RECONCILE_AT_REQUIRED")
  ok s

pub data RuntimeDirective : Type 0 where
  close_runtime : TaskRuntimeState → RuntimeDirective
  advance_cancellation : Option TerminalKind → RuntimeDirective
  wait_reconciliation : List VersionedRef → ℕ → RuntimeDirective
  fail_task : DecisionReason → RuntimeDirective
  request_user_input : RuntimeBlockingIssue → RuntimeDirective
  start_replan : ReplanAdmission → ℕ → RuntimeDirective
  retry_plan_item : List RetryablePlanItem → RuntimeDirective
  start_final_synthesis : FinalOutcomeKind → RuntimeDirective
  schedule_ready_set : VersionedRef → RuntimeDirective
  wait_event : List WakeSource → ℕ → ℕ → RuntimeDirective

-- `reason in _REASONS_FOR_ACTION[action]`
unfoldable pub reason_allowed : RuntimeDirective → DecisionReason → Bool
unfolding is_fail_task_reason is_finalization_reason
reason_allowed (close_runtime t) terminal_event_committed = true
reason_allowed (close_runtime t) runtime_close_ready = true
reason_allowed (advance_cancellation k) cancellation_pending = true
reason_allowed (advance_cancellation k) generation_fence_required = true
reason_allowed (advance_cancellation k) deadline_kill_required = true
reason_allowed (wait_reconciliation r n) blocking_effect_unresolved = true
reason_allowed (wait_reconciliation r n) reconciliation_scheduled = true
reason_allowed (fail_task f) r = is_fail_task_reason r
reason_allowed (request_user_input i) (issue_reason k) = true
reason_allowed (start_replan a n) replan_required = true
reason_allowed (start_replan a n) replan_eligible = true
reason_allowed (retry_plan_item i) business_retryable_failure = true
reason_allowed (retry_plan_item i) new_causal_fact = true
reason_allowed (start_final_synthesis o) r = is_finalization_reason r
reason_allowed (schedule_ready_set r) ready_items_available = true
reason_allowed (wait_event w n d) wake_source_registered = true
reason_allowed _ _ = false
