-- ===== src/Tasking/RuntimeDecision/Priority.antt =====
-- When a directive may be issued, and which one comes first, said of the facts of the snapshot.
use knowledage_base_assistan.Prelude.{
  ◌≡◌, ◌≢◌, ◌⊎◌, inl, inr, refl, Bool, true, false, ◌&&◌, ◌||◌, List, [], ◌∷◌, none, All, arith,
}
use knowledage_base_assistan.Tasking.RuntimeDecision.Signals.{
  TaskRuntimeState, running, cancel_requested, completed, failed, cancelled, ReplanAdmission,
  required, eligible, Snapshot, RuntimeDirective, close_runtime, advance_cancellation,
  wait_reconciliation, fail_task, request_user_input, start_replan, retry_plan_item,
  start_final_synthesis, schedule_ready_set, wait_event,
}
use knowledage_base_assistan.Tasking.RuntimeDecision.Select.{
  is_terminal, is_cancel_requested, admits_replan, is_eligible, may_close, must_cancel, may_replan,
  may_finalize, may_schedule,
}

pub data DirectiveKind : Type 0 where
  closing cancelling reconciling failing asking replanning retrying finalizing scheduling waiting :
      DirectiveKind

abbrev pub kind_of : RuntimeDirective → DirectiveKind
kind_of (close_runtime t) = closing
kind_of (advance_cancellation k) = cancelling
kind_of (wait_reconciliation refs at) = reconciling
kind_of (fail_task r) = failing
kind_of (request_user_input i) = asking
kind_of (start_replan a v) = replanning
kind_of (retry_plan_item items) = retrying
kind_of (start_final_synthesis k) = finalizing
kind_of (schedule_ready_set r) = scheduling
kind_of (wait_event sources at deadline) = waiting

-- The kinds that come before one.
abbrev pub earlier : DirectiveKind → List DirectiveKind
earlier closing = []
earlier cancelling = closing ∷ []
earlier reconciling = cancelling ∷ closing ∷ []
earlier failing = reconciling ∷ cancelling ∷ closing ∷ []
earlier asking = failing ∷ reconciling ∷ cancelling ∷ closing ∷ []
earlier replanning = asking ∷ failing ∷ reconciling ∷ cancelling ∷ closing ∷ []
earlier retrying = replanning ∷ asking ∷ failing ∷ reconciling ∷ cancelling ∷ closing ∷ []
earlier finalizing =
    retrying ∷ replanning ∷ asking ∷ failing ∷ reconciling ∷ cancelling ∷ closing ∷ []
earlier scheduling =
    finalizing ∷ retrying ∷ replanning ∷ asking ∷ failing ∷ reconciling ∷ cancelling ∷ closing ∷ []
earlier waiting =
    scheduling ∷ finalizing ∷ retrying ∷ replanning ∷ asking ∷ failing ∷ reconciling ∷ cancelling
    ∷ closing ∷ []

abbrev pub HasEnded : TaskRuntimeState → Type 0
HasEnded t = (t ≡ completed) ⊎ (t ≡ failed) ⊎ (t ≡ cancelled)

-- No external effect is in doubt that blocks the task.
abbrev pub Settled : Snapshot → Type 0
Settled s = s.has_blocking_unknown_effect ≡ false

-- What the snapshot must say for a directive of a kind.
abbrev pub Enabled : Snapshot → DirectiveKind → Type 0
Enabled s closing =
    HasEnded s.task_state
    × (s.terminal_committed ≡ true)
    × (s.has_active_execution_unit ≡ false)
    × (s.has_unresolved_unknown_effect ≡ false)
    × (s.runtime_close_ready ≡ true)
Enabled s cancelling =
    (s.has_pending_cancellation ≡ true)
    × ((s.task_state ≡ cancel_requested) ⊎ (s.cancellation_fence_required ≡ true))
Enabled s reconciling =
    (s.has_blocking_unknown_effect ≡ true)
    × (s.reconciliation_ready ≡ true)
    × (s.next_reconcile_at ≢ none)
Enabled s failing = s.fail_reason ≢ none
Enabled s asking = s.blocking_issue ≢ none
Enabled s replanning =
    ((s.replan_admission ≡ required)
      ⊎ ((s.replan_admission ≡ eligible) × (s.has_unaffected_ready_items ≡ false)))
    × (s.has_active_replan ≡ false)
    × (s.replan_budget_complete ≡ true)
    × (s.snapshot_version_stable ≡ true)
    × Settled s
Enabled s retrying = (s.retryable_items ≢ []) × Settled s
Enabled s finalizing =
    (s.final_outcome_kind ≢ none)
    × (s.has_active_execution_unit ≡ false)
    × (s.contributions_merged ≡ true)
    × (s.snapshot_version_stable ≡ true)
    × Settled s
    × (s.blocking_issue ≡ none)
Enabled s scheduling =
    (s.task_state ≡ running)
    × (s.has_ready_items ≡ true)
    × (s.scheduling_state_valid ≡ true)
    × Settled s
Enabled s waiting = s.wake_sources ≢ []

abbrev pub IsOff : Snapshot → DirectiveKind → Type 0
IsOff s k = Enabled s k → ⊥

-- No kind that comes before this one is enabled.
abbrev pub AllOffBefore : Snapshot → DirectiveKind → Type 0
AllOffBefore s k = All (IsOff s) (earlier k)

-- What must hold of the snapshot for the controller to give up: nothing is left to do or await.
abbrev pub IsStuck : Snapshot → Type 0
IsStuck s = IsOff s waiting × AllOffBefore s waiting

terminal_iff : (t : TaskRuntimeState) → is_terminal t ≡ true → HasEnded t
terminal_iff completed h = inl refl
terminal_iff failed h = inr (inl refl)
terminal_iff cancelled h = inr (inr refl)
terminal_iff _ h = cc

ended_terminal : (t : TaskRuntimeState) → HasEnded t → is_terminal t ≡ true
ended_terminal t (inl e) = rw e refl
ended_terminal t (inr (inl e)) = rw e refl
ended_terminal t (inr (inr e)) = rw e refl

cancel_cause :
    (t : TaskRuntimeState) (fence : Bool)
    → (is_cancel_requested t || fence) ≡ true
    → (t ≡ cancel_requested) ⊎ (fence ≡ true)
cancel_cause cancel_requested fence h = inl refl
cancel_cause _ fence h = inr h

replan_cause :
    (a : ReplanAdmission) (ready : Bool)
    → admits_replan a ≡ true
    → (is_eligible a && ready) ≡ false
    → (a ≡ required) ⊎ ((a ≡ eligible) × (ready ≡ false))
replan_cause required ready h k = inl refl
replan_cause eligible ready h k = inr (refl, k)
replan_cause _ ready h k = cc

module _ (s : Snapshot) where
  pub close-Enabled : may_close s ≡ true → Enabled s closing
  close-Enabled h = (
    terminal_iff s.task_state (ground arith),
    ground arith,
    ground arith,
    ground arith,
    ground arith,
  )

  pub close-IsOff : may_close s ≡ false → IsOff s closing
  close-IsOff h (a, b, c, d, e) = ground (arith, ended_terminal s.task_state a)

  pub cancel-Enabled : must_cancel s ≡ true → Enabled s cancelling
  cancel-Enabled h =
      (ground arith, cancel_cause s.task_state s.cancellation_fence_required (ground arith))

  pub cancel-IsOff : must_cancel s ≡ false → IsOff s cancelling
  cancel-IsOff h (a, b) = ground arith

  pub replan-Enabled : may_replan s ≡ true → Enabled s replanning
  replan-Enabled h = (
    replan_cause s.replan_admission s.has_unaffected_ready_items (ground arith) (ground arith),
    ground arith,
    ground arith,
    ground arith,
    ground arith,
  )

  pub replan-IsOff : may_replan s ≡ false → IsOff s replanning
  replan-IsOff h (a, b, c, d, e) = ground arith

  pub final-Enabled : may_finalize s ≡ true → s.final_outcome_kind ≢ none → Enabled s finalizing
  final-Enabled h k = (k, ground arith, ground arith, ground arith, ground arith, ground arith)

  pub final-IsOff : may_finalize s ≡ false → IsOff s finalizing
  final-IsOff h (k, a, b, c, d, e) = ground arith

  pub schedule-Enabled : may_schedule s ≡ true → Enabled s scheduling
  schedule-Enabled h = (ground arith, ground arith, ground arith, ground arith)

  pub schedule-IsOff : may_schedule s ≡ false → IsOff s scheduling
  schedule-IsOff h (a, b, c, d) = ground arith
