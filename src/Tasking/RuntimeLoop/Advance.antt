-- ===== src/Tasking/RuntimeLoop/Advance.antt =====
-- `RuntimeLoopService.advance`: one decision, and what is done about it. The final synthesis is a
-- parameter.
use knowledage_base_assistan.Prelude.{
  ℕ, Bool, true, false, Option, Result, ok, raise, value_error, ◌>>=◌, if◌then◌else◌, given,
}
use knowledage_base_assistan.Tasking.RuntimeDecision.Signals.{
  Snapshot, RuntimeDirective, close_runtime, advance_cancellation, wait_reconciliation, fail_task,
  request_user_input, start_replan, retry_plan_item, start_final_synthesis, schedule_ready_set,
  wait_event,
}
use knowledage_base_assistan.Tasking.RuntimeDecision.Evaluate.{
  RuntimeDecision, Digests, evaluate_runtime_decision,
}

-- `RuntimeLoopStep`, by its kind
pub data RuntimeLoopStep (ActionRun FinalResult : Type 0) : Type 0 where
  run_actions : RuntimeDecision → ActionRun → RuntimeLoopStep ActionRun FinalResult
  run_final : RuntimeDecision → FinalResult → RuntimeLoopStep ActionRun FinalResult
  terminal : RuntimeDecision → RuntimeLoopStep ActionRun FinalResult
  yield_ : RuntimeDecision → RuntimeLoopStep ActionRun FinalResult

-- `_TERMINAL_ACTIONS`, `_YIELD_ACTIONS`
abbrev pub is_terminal_action : RuntimeDirective → Bool
is_terminal_action (close_runtime s) = true
is_terminal_action (advance_cancellation k) = true
is_terminal_action (fail_task r) = true
is_terminal_action _ = false

abbrev pub is_yield_action : RuntimeDirective → Bool
is_yield_action (wait_reconciliation r n) = true
is_yield_action (request_user_input i) = true
is_yield_action (start_replan a n) = true
is_yield_action (retry_plan_item i) = true
is_yield_action (wait_event w n m) = true
is_yield_action _ = false

module _ {ActionRun FinalResult : Type 0} where
  -- The materials that were given, as what the services make of them.
  unfoldable pub dispatch :
      Option (Result ActionRun)
      → Option (Result FinalResult)
      → RuntimeDecision
      → RuntimeDirective
      → Result (RuntimeLoopStep ActionRun FinalResult)
  dispatch action_run final d (schedule_ready_set r) =
      given (value_error "ACTION_MATERIALS_REQUIRED") action_run
      >>= (λ result. result >>= (λ made. ok (run_actions d made)))
  dispatch action_run final d (start_final_synthesis k) =
      given (value_error "FINAL_MATERIALS_REQUIRED") final
      >>= (λ result. result >>= (λ made. ok (run_final d made)))
  dispatch action_run final d directive =
      if is_terminal_action directive
      then ok (terminal d)
      else if is_yield_action directive
      then ok (yield_ d)
      else raise (value_error "RUNTIME_DIRECTIVE_UNKNOWN")

  -- `advance`
  unfoldable pub advance :
      Digests
      → Option (Result ActionRun)
      → Option (Result FinalResult)
      → Snapshot
      → ℕ
      → Result (RuntimeLoopStep ActionRun FinalResult)
  advance h action_run final snapshot decision_sequence =
      evaluate_runtime_decision h snapshot decision_sequence
      >>= (λ decision. dispatch action_run final decision decision.directive)
