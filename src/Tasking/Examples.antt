-- ===== src/Tasking/Examples.antt =====
-- Tests of the task control, and its theorems at concrete inputs.
use knowledage_base_assistan.Prelude.{
  nat_eq, string_eq, ◌+◌, ◌≤◌, String, ◌≡◌, ◌≢◌, refl, true, false, [], ◌∷◌, none, some, ok, arith,
}
use knowledage_base_assistan.Tasking.RuntimeDecision.Signals.{
  Snapshot, running, not_needed, validate_signals, is_fail_task_reason, active_child,
}
use knowledage_base_assistan.Tasking.RuntimeDecision.Evaluate.{
  RuntimeDecision, Digests, freeze_runtime_decision_snapshot,
}
use knowledage_base_assistan.Tasking.RuntimeDecision.Priority.{
  scheduling, kind_of, AllOffBefore, replan-IsOff, cancel-IsOff, close-IsOff,
}
use knowledage_base_assistan.Tasking.RuntimeDecision.Outcome.{Issued}
use knowledage_base_assistan.Tasking.RuntimeLoop.Advance.{advance}
use knowledage_base_assistan.Tasking.RuntimeLoop.Step.{Dispatched, advance-Dispatched}
use knowledage_base_assistan.Tasking.RuntimeProgress.{
  initial, no_progress, progress, merge_loop_no_progress, force_converge, replan,
}
use knowledage_base_assistan.Tasking.RuntimeProgress.Rounds.{initial-IsConsistent}
use knowledage_base_assistan.Tasking.RuntimeProgress.Converges.{
  Round, play, Goes, here, round, Goes-bounded, third_stall_converges,
}

abbrev some_digests : Digests
some_digests = record {
  snapshot_digest_for = λ s. "d1";
  decision_id = λ t d. 77;
  decision_digest_for = λ d. "d2";
}

abbrev waiting : Snapshot
waiting = record {
  task_id = 1;
  task_row_version = 4;
  event_high_watermark = 9;
  task_state = running;
  input_id = 2;
  input_version = 1;
  plan_version = 1;
  work_version = 1;
  execution_generation = 1;
  cancellation_generation = 0;
  deadline_at = 5000;
  terminal_committed = false;
  runtime_close_ready = false;
  has_active_execution_unit = false;
  has_unresolved_unknown_effect = false;
  has_pending_cancellation = false;
  cancellation_fence_required = false;
  cancellation_terminal_kind = none;
  has_blocking_unknown_effect = false;
  reconciliation_ready = false;
  blocking_effect_refs = [];
  next_reconcile_at = none;
  fail_reason = none;
  blocking_issue = none;
  replan_admission = not_needed;
  replan_budget_complete = true;
  has_active_replan = false;
  snapshot_version_stable = true;
  has_unaffected_ready_items = false;
  retryable_items = [];
  final_outcome_kind = none;
  finalization_reason = none;
  contributions_merged = false;
  has_ready_items = false;
  ready_set_ref = none;
  scheduling_state_valid = true;
  wake_sources = record { kind = active_child; refs = []; next_wakeup_at = 4000 } ∷ [];
  snapshot_digest = "";
}

-- The same, with a ready set that may be scheduled.
abbrev schedulable : Snapshot
schedulable = record waiting {
  has_ready_items = true;
  ready_set_ref = some (record { ref_id = 5; version = 1; integrity_digest = "r" });
}

schedulable-passes : validate_signals schedulable ≡ ok schedulable
unfolding validate_signals is_fail_task_reason
schedulable-passes = refl

-- Nothing that comes before scheduling is enabled.
schedulable-first : AllOffBefore schedulable scheduling
schedulable-first = (
  λ h. h.0 refl,
  (
    λ h. h.0 refl,
    (
      replan-IsOff schedulable refl,
      (
        λ h. h refl,
        (
          λ h. h refl,
          (
            λ (a, b, c). c refl,
            (cancel-IsOff schedulable refl, (close-IsOff schedulable refl, tt)),
          ),
        ),
      ),
    ),
  ),
)

advance-Dispatched_example :
    (d : RuntimeDecision) × Issued some_digests
      (freeze_runtime_decision_snapshot some_digests schedulable)
      3
      d
    × (kind_of d.directive ≡ scheduling)
    × Dispatched {ActionRun = String} {FinalResult = String}
        (some (ok "run"))
        none
        scheduling
        d
        (advance some_digests (some (ok "run")) none schedulable 3)
advance-Dispatched_example =
    advance-Dispatched (some (ok "run")) none some_digests schedulable 3 scheduling
      schedulable-passes (omega arith) (refl, refl, refl, refl) schedulable-first

abbrev stalling : String → Round
stalling f = record { disposition = no_progress; fingerprint = f; has_alternative_path = true }

abbrev advancing : Round
advancing = record { disposition = progress; fingerprint = "f0"; has_alternative_path = false }

second_stall_replans : (play (play initial (stalling "f1")).1 (stalling "f1")).0 ≡ replan
unfolding merge_loop_no_progress
second_stall_replans = refl

first_goes : (play initial (stalling "f1")).0 ≢ force_converge
unfolding merge_loop_no_progress
first_goes = λ e. cc

then_goes : (play (play initial (stalling "f1")).1 advancing).0 ≢ force_converge
unfolding merge_loop_no_progress
then_goes = λ e. cc

two_rounds : Goes initial 1 0 (play (play initial (stalling "f1")).1 advancing).1
unfolding merge_loop_no_progress
two_rounds = round (stalling "f1") first_goes (round advancing then_goes here refl refl) refl refl

Goes-bounded_example : (initial.task_no_progress + 1 ≤ 11) × (initial.task_replan_count + 0 ≤ 3)
Goes-bounded_example = Goes-bounded two_rounds initial-IsConsistent (omega arith)

third_stall_converges_example :
    (play (play (play initial (stalling "f1")).1 (stalling "f2")).1 (stalling "f3")).0
    ≡ force_converge
third_stall_converges_example =
    third_stall_converges initial (stalling "f1") (stalling "f2") (stalling "f3") (λ e. cc)
      (λ e. cc) (λ e. cc)
