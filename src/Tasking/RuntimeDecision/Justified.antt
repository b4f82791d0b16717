-- ===== src/Tasking/RuntimeDecision/Justified.antt =====
-- What each directive presupposes of the snapshot.
use knowledage_base_assistan.Prelude.{
  all, length, value_error, Bool-cases, inl, inr, sym, ℕ, ◌≤◌, ◌≡◌, refl, true, false, List, [],
  ◌∷◌, Option, none, some, Result, ok, raise, arith, All, any, ◌==◌, ==-refl, nat_eq, leb, min,
  subst, Bool, ◌||◌,
}
use knowledage_base_assistan.Tasking.RuntimeDecision.Signals.{
  Snapshot, RuntimeDirective, close_runtime, advance_cancellation, wait_reconciliation, fail_task,
  request_user_input, start_replan, retry_plan_item, start_final_synthesis, schedule_ready_set,
  wait_event, DecisionReason, WakeSource, is_fail_task_reason, is_finalization_reason,
  FinalOutcomeKind, VersionedRef, reason_allowed,
}
use knowledage_base_assistan.Tasking.RuntimeDecision.Priority.{
  Enabled, AllOffBefore, IsStuck, kind_of, waiting, scheduling, finalizing, schedule-Enabled,
  schedule-IsOff, final-Enabled,
}
use knowledage_base_assistan.Tasking.RuntimeDecision.Select.{
  Choice, wait_branch, schedule_branch, after_final, final_choice, may_schedule, may_finalize,
  earliest,
}

-- What a directive says is what the snapshot says.
abbrev pub Carries : Snapshot → RuntimeDirective → Type 0
Carries s (close_runtime t) = t ≡ s.task_state
Carries s (advance_cancellation k) = k ≡ s.cancellation_terminal_kind
Carries s (wait_reconciliation refs at) =
    (refs ≡ s.blocking_effect_refs) × (s.next_reconcile_at ≡ some at)
Carries s (fail_task reason) = (s.fail_reason ≡ some reason) × (is_fail_task_reason reason ≡ true)
Carries s (request_user_input issue) = s.blocking_issue ≡ some issue
Carries s (start_replan admission version) =
    (admission ≡ s.replan_admission) × (version ≡ s.plan_version)
Carries s (retry_plan_item items) = items ≡ s.retryable_items
Carries s (start_final_synthesis kind) = s.final_outcome_kind ≡ some kind
Carries s (schedule_ready_set ref) = s.ready_set_ref ≡ some ref
Carries s (wait_event sources at deadline) =
    (sources ≡ s.wake_sources)
    × All (λ w. at ≤ w.next_wakeup_at) sources
    × (any (λ w. w.next_wakeup_at == at) sources ≡ true)
    × (deadline ≡ s.deadline_at)

-- A directive is enabled by the snapshot, none that comes before it is, and what it says is so.
pub record Justified (s : Snapshot) (d : RuntimeDirective) : Type 0 where
  pub enabled : Enabled s (kind_of d)
  pub first : AllOffBefore s (kind_of d)
  pub carries : Carries s d

-- The reasons of a decision: one to eight, each allowed for its directive.
abbrev pub WellReasoned : RuntimeDirective → List DecisionReason → Type 0
WellReasoned d rs = (all (reason_allowed d) rs ≡ true) × (1 ≤ length rs) × (length rs ≤ 8)

-- What holds of each outcome of the selection.
abbrev pub Ensures : Snapshot → Result Choice → Type 0
Ensures s (ok (d, rs)) = Justified s d × WellReasoned d rs
Ensures s (raise e) = (e ≡ value_error "RUNTIME_DEADLOCK_DETECTED") × IsStuck s

-- What the validator of a snapshot guarantees.
pub record IsValid (s : Snapshot) : Type 0 where
  pub reason_of_outcome :
      (k : FinalOutcomeKind)
      → s.final_outcome_kind ≡ some k
      → (r : DecisionReason) × (s.finalization_reason ≡ some r) × (is_finalization_reason r ≡ true)
  pub ref_of_ready : s.has_ready_items ≡ true → (ref : VersionedRef) × (s.ready_set_ref ≡ some ref)
  pub failing : (r : DecisionReason) → s.fail_reason ≡ some r → is_fail_task_reason r ≡ true

earliest-le-head : (w : WakeSource) (ws : List WakeSource) → earliest w ws ≤ w.next_wakeup_at
unfolding earliest
earliest-le-head w [] = omega arith
earliest-le-head w (v ∷ vs) = omega arith

All-le :
    (a b : ℕ) (ws : List WakeSource)
    → a ≤ b
    → All (λ w. b ≤ w.next_wakeup_at) ws
    → All (λ w. a ≤ w.next_wakeup_at) ws
All-le a b [] h k = tt
All-le a b (w ∷ ws) h k = (omega (arith, k.0), All-le a b ws h k.1)

earliest-le :
    (w : WakeSource) (ws : List WakeSource) → All (λ v. earliest w ws ≤ v.next_wakeup_at) (w ∷ ws)
unfolding earliest
earliest-le w [] = (omega arith, tt)
earliest-le w (v ∷ vs) = (
  omega arith,
  All-le (earliest w (v ∷ vs)) (earliest v vs) (v ∷ vs) (omega arith) (earliest-le v vs),
)

-- Some source wakes at a time.
abbrev wakes_at : List WakeSource → ℕ → Bool
wakes_at sources at = any (λ w. w.next_wakeup_at == at) sources

or_right : (b c : Bool) → c ≡ true → (b || c) ≡ true
or_right true c h = refl
or_right false c h = h

earliest-attained :
    (w : WakeSource) (ws : List WakeSource) → wakes_at (w ∷ ws) (earliest w ws) ≡ true
unfolding earliest
earliest-attained w [] = ground arith
earliest-attained w (v ∷ vs) = elim (Bool-cases (leb w.next_wakeup_at (earliest v vs))) [
  | inl here ↦
      let e : w.next_wakeup_at ≡ min w.next_wakeup_at (earliest v vs) = ground arith in
      subst (λ n. wakes_at (w ∷ v ∷ vs) n ≡ true) e (rw (==-refl w.next_wakeup_at) refl)
  | inr later ↦
      let e : earliest v vs ≡ min w.next_wakeup_at (earliest v vs) = ground arith in
      subst (λ n. wakes_at (w ∷ v ∷ vs) n ≡ true) e
        (or_right (w.next_wakeup_at == earliest v vs) (wakes_at (v ∷ vs) (earliest v vs))
          (earliest-attained v vs))
]

module _ (s : Snapshot) (valid : IsValid s) where
  wait_branch-Ensures :
      (ws : List WakeSource)
      → s.wake_sources ≡ ws
      → AllOffBefore s waiting
      → Ensures s (wait_branch s ws)
  unfolding wait_branch reason_allowed
  wait_branch-Ensures [] e past = (refl, (λ h. h e, past))
  wait_branch-Ensures (w ∷ ws) e past = (
    record {
      enabled = λ h. cc;
      first = past;
      carries = (sym e, earliest-le w ws, earliest-attained w ws, refl);
    },
    (refl, omega arith, omega arith),
  )

  schedule_branch-Ensures :
      (o : Option VersionedRef)
      → s.ready_set_ref ≡ o
      → may_schedule s ≡ true
      → AllOffBefore s scheduling
      → Ensures s (schedule_branch s o)
  unfolding schedule_branch reason_allowed
  schedule_branch-Ensures none e m past = let (ref, p) = valid.ref_of_ready (ground arith) in cc
  schedule_branch-Ensures (some ref) e m past = (
    record { enabled = schedule-Enabled s m; first = past; carries = e },
    (refl, omega arith, omega arith),
  )

  pub after_final-Ensures : AllOffBefore s scheduling → Ensures s (after_final s)
  unfolding after_final
  after_final-Ensures past = elim (Bool-cases (may_schedule s)) [
    | inl m ↦ rw m (schedule_branch-Ensures s.ready_set_ref refl m past)
    | inr m ↦ rw m (wait_branch-Ensures s.wake_sources refl (schedule-IsOff s m, past))
  ]

  pub final_choice-Ensures :
      (kind : FinalOutcomeKind) (o : Option DecisionReason)
      → s.finalization_reason ≡ o
      → s.final_outcome_kind ≡ some kind
      → may_finalize s ≡ true
      → AllOffBefore s finalizing
      → Ensures s (final_choice kind o)
  unfolding final_choice reason_allowed
  final_choice-Ensures kind none e k m past = let (x, p, q) = valid.reason_of_outcome kind k in cc
  final_choice-Ensures kind (some reason) e k m past =
      let (x, p, q) = valid.reason_of_outcome kind k in
      (
        record { enabled = final-Enabled s m (λ h. cc); first = past; carries = k },
        (ground arith, omega arith, omega arith),
      )
