-- ===== src/Tasking/RuntimeDecision/Select.antt =====
-- `_select_directive` and `evaluate_runtime_decision`. The canonical digest and the derived id are
-- parameters: they are those of a third-party serialiser and of the standard library.
use knowledage_base_assistan.Prelude.{
  ℕ, Bool, true, false, not, ◌&&◌, ◌||◌, List, [], ◌∷◌, Option, none, some, is_some, Result, ok,
  raise, require, value_error, assertion_error, ◌>>◌, if◌then◌else◌, min, map,
}
use knowledage_base_assistan.Tasking.RuntimeDecision.Signals.{
  TaskRuntimeState, running, cancel_requested, completed, failed, cancelled, ReplanAdmission,
  required, eligible, FinalOutcomeKind, DecisionReason, terminal_event_committed,
  runtime_close_ready, cancellation_pending, generation_fence_required, blocking_effect_unresolved,
  reconciliation_scheduled, issue_reason, replan_required, replan_eligible,
  business_retryable_failure, new_causal_fact, ready_items_available, wake_source_registered,
  VersionedRef, RetryReason, retryable_failure, causal_fact, RetryablePlanItem, WakeSource,
  Snapshot, RuntimeDirective, RuntimeBlockingIssue, close_runtime, advance_cancellation,
  wait_reconciliation, fail_task, request_user_input, start_replan, retry_plan_item,
  start_final_synthesis, schedule_ready_set, wait_event, is_fail_task_reason,
}

abbrev pub Choice : Type 0
Choice = RuntimeDirective × List DecisionReason

abbrev pub is_terminal : TaskRuntimeState → Bool
is_terminal completed = true
is_terminal failed = true
is_terminal cancelled = true
is_terminal _ = false

abbrev pub is_cancel_requested : TaskRuntimeState → Bool
is_cancel_requested cancel_requested = true
is_cancel_requested _ = false

abbrev pub is_running : TaskRuntimeState → Bool
is_running running = true
is_running _ = false

abbrev pub admits_replan : ReplanAdmission → Bool
admits_replan required = true
admits_replan eligible = true
admits_replan _ = false

abbrev pub is_eligible : ReplanAdmission → Bool
is_eligible eligible = true
is_eligible _ = false

-- The tests of the branches, in their order.
abbrev pub may_close : Snapshot → Bool
may_close s =
    is_terminal s.task_state
    && s.terminal_committed
    && not s.has_active_execution_unit
    && not s.has_unresolved_unknown_effect
    && s.runtime_close_ready

abbrev pub must_cancel : Snapshot → Bool
must_cancel s =
    s.has_pending_cancellation
    && (is_cancel_requested s.task_state || s.cancellation_fence_required)

abbrev pub may_replan : Snapshot → Bool
may_replan s =
    admits_replan s.replan_admission
    && not s.has_active_replan
    && s.replan_budget_complete
    && s.snapshot_version_stable
    && not s.has_blocking_unknown_effect
    && not (is_eligible s.replan_admission && s.has_unaffected_ready_items)

abbrev pub may_finalize : Snapshot → Bool
may_finalize s =
    not s.has_active_execution_unit
    && s.contributions_merged
    && s.snapshot_version_stable
    && not s.has_blocking_unknown_effect
    && not (is_some s.blocking_issue)

abbrev pub may_schedule : Snapshot → Bool
may_schedule s =
    is_running s.task_state
    && s.has_ready_items
    && s.scheduling_state_valid
    && not s.has_blocking_unknown_effect

abbrev pub retry_decision : RetryReason → DecisionReason
retry_decision retryable_failure = business_retryable_failure
retry_decision causal_fact = new_causal_fact

abbrev is_retryable_failure : RetryReason → Bool
is_retryable_failure retryable_failure = true
is_retryable_failure causal_fact = false

abbrev pub same_retry : RetryReason → RetryReason → Bool
same_retry a b =
    if is_retryable_failure a then is_retryable_failure b else not (is_retryable_failure b)

abbrev pub drop_retry : RetryReason → List RetryReason → List RetryReason
drop_retry a [] = []
drop_retry a (b ∷ bs) = let rest = drop_retry a bs in if same_retry a b then rest else b ∷ rest

-- dict.fromkeys: each reason once, in the order of its first item
unfoldable pub retry_reasons : List RetryablePlanItem → List RetryReason
retry_reasons [] = []
retry_reasons (item ∷ items) =
    item.retry_reason ∷ drop_retry item.retry_reason (retry_reasons items)

-- min(source.next_wakeup_at for source in sources), for a first source and the rest
unfoldable pub earliest : WakeSource → List WakeSource → ℕ
earliest w [] = w.next_wakeup_at
earliest w (v ∷ vs) = min w.next_wakeup_at (earliest v vs)

unfoldable pub wait_branch : Snapshot → List WakeSource → Result Choice
wait_branch s [] = raise (value_error "RUNTIME_DEADLOCK_DETECTED")
wait_branch s (w ∷ ws) =
    ok (wait_event (w ∷ ws) (earliest w ws) s.deadline_at, wake_source_registered ∷ [])

unfoldable pub schedule_branch : Snapshot → Option VersionedRef → Result Choice
schedule_branch s none = raise assertion_error
schedule_branch s (some ref) = ok (schedule_ready_set ref, ready_items_available ∷ [])

unfoldable pub after_final : Snapshot → Result Choice
unfolding wait_branch schedule_branch
after_final s =
    if may_schedule s then schedule_branch s s.ready_set_ref else wait_branch s s.wake_sources

unfoldable pub final_choice : FinalOutcomeKind → Option DecisionReason → Result Choice
final_choice kind none = raise assertion_error
final_choice kind (some reason) = ok (start_final_synthesis kind, reason ∷ [])

unfoldable pub final_branch : Snapshot → Option FinalOutcomeKind → Result Choice
unfolding after_final final_choice
final_branch s none = after_final s
final_branch s (some kind) =
    if may_finalize s then final_choice kind s.finalization_reason else after_final s

unfoldable pub retry_branch : Snapshot → List RetryablePlanItem → Result Choice
unfolding final_branch
retry_branch s [] = final_branch s s.final_outcome_kind
retry_branch s (item ∷ items) =
    if not s.has_blocking_unknown_effect
    then ok (retry_plan_item (item ∷ items), map retry_decision (retry_reasons (item ∷ items)))
    else final_branch s s.final_outcome_kind

unfoldable pub replan_branch : Snapshot → Result Choice
unfolding retry_branch
replan_branch s =
    if may_replan s
    then ok (
      start_replan s.replan_admission s.plan_version,
      (if is_eligible s.replan_admission then replan_eligible else replan_required) ∷ [],
    )
    else retry_branch s s.retryable_items

unfoldable pub issue_branch : Snapshot → Option RuntimeBlockingIssue → Result Choice
unfolding replan_branch
issue_branch s (some issue) = ok (request_user_input issue, issue_reason issue.issue_kind ∷ [])
issue_branch s none = replan_branch s

-- The directive itself refuses a reason outside its set.
unfoldable pub fail_branch : Snapshot → Option DecisionReason → Result Choice
unfolding issue_branch is_fail_task_reason
fail_branch s none = issue_branch s s.blocking_issue
fail_branch s (some reason) = do
  require (is_fail_task_reason reason) (value_error "RUNTIME_DECISION_FAIL_REASON_INVALID")
  ok (fail_task reason, reason ∷ [])

unfoldable pub reconcile_branch : Snapshot → Option ℕ → Result Choice
unfolding fail_branch
reconcile_branch s none = fail_branch s s.fail_reason
reconcile_branch s (some at) =
    if s.has_blocking_unknown_effect && s.reconciliation_ready
    then ok (
      wait_reconciliation s.blocking_effect_refs at,
      blocking_effect_unresolved ∷ reconciliation_scheduled ∷ [],
    )
    else fail_branch s s.fail_reason

unfoldable pub select_directive : Snapshot → Result Choice
unfolding reconcile_branch
select_directive s =
    if may_close s
    then ok (close_runtime s.task_state, terminal_event_committed ∷ runtime_close_ready ∷ [])
    else if must_cancel s
    then ok (
      advance_cancellation s.cancellation_terminal_kind,
      cancellation_pending
          ∷ (if s.cancellation_fence_required then generation_fence_required ∷ [] else []),
    )
    else reconcile_branch s s.next_reconcile_at
