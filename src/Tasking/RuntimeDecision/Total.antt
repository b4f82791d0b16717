-- ===== src/Tasking/RuntimeDecision/Total.antt =====
-- The selection as a whole: it never trips over its own checks, and every outcome is justified.
use knowledage_base_assistan.Prelude.{
  if◌then◌else◌, ℕ, ◌≤◌, ◌≡◌, refl, sym, Bool, true, false, not, ◌&&◌, List, [], ◌∷◌, Option, none,
  some, Result, ok, arith, all, length, Bool-cases, inl, inr, map,
}
use knowledage_base_assistan.Tasking.RuntimeDecision.Signals.{
  Snapshot, TerminalKind, advance_cancellation, cancellation_pending, generation_fence_required,
  DecisionReason, RetryReason, retryable_failure, causal_fact, RetryablePlanItem, retry_plan_item,
  FinalOutcomeKind, RuntimeBlockingIssue, reason_allowed,
}
use knowledage_base_assistan.Tasking.RuntimeDecision.Select.{
  Choice, select_directive, final_branch, retry_branch, replan_branch, issue_branch, fail_branch,
  reconcile_branch, retry_reasons, retry_decision, drop_retry, same_retry, may_close, must_cancel,
  may_replan, may_finalize,
}
use knowledage_base_assistan.Tasking.RuntimeDecision.Priority.{
  AllOffBefore, reconciling, failing, asking, replanning, retrying, finalizing, close-Enabled,
  close-IsOff, cancel-Enabled, cancel-IsOff, replan-Enabled, replan-IsOff, final-IsOff,
}
use knowledage_base_assistan.Tasking.RuntimeDecision.Justified.{
  WellReasoned, Ensures, IsValid, after_final-Ensures, final_choice-Ensures,
}

-- At most one item of each kind.
abbrev Short : List RetryReason → Type 0
Short [] = Unit
Short (a ∷ []) = Unit
Short (a ∷ b ∷ []) = same_retry a b ≡ false
Short _ = ⊥

Short-drop : (a : RetryReason) (xs : List RetryReason) → Short xs → Short (a ∷ drop_retry a xs)
Short-drop a [] h = tt
Short-drop retryable_failure (retryable_failure ∷ []) h = tt
Short-drop retryable_failure (causal_fact ∷ []) h = refl
Short-drop causal_fact (retryable_failure ∷ []) h = refl
Short-drop causal_fact (causal_fact ∷ []) h = tt
Short-drop retryable_failure (retryable_failure ∷ causal_fact ∷ []) h = refl
Short-drop retryable_failure (causal_fact ∷ retryable_failure ∷ []) h = refl
Short-drop causal_fact (retryable_failure ∷ causal_fact ∷ []) h = refl
Short-drop causal_fact (causal_fact ∷ retryable_failure ∷ []) h = refl
Short-drop _ (retryable_failure ∷ retryable_failure ∷ []) h = cc
Short-drop _ (causal_fact ∷ causal_fact ∷ []) h = cc
Short-drop _ (_ ∷ _ ∷ _ ∷ _) h = absurd h

retry_reasons-Short : (items : List RetryablePlanItem) → Short (retry_reasons items)
unfolding retry_reasons
retry_reasons-Short [] = tt
retry_reasons-Short (item ∷ items) =
    Short-drop item.retry_reason (retry_reasons items) (retry_reasons-Short items)

Short-length : (xs : List RetryReason) → Short xs → length (map retry_decision xs) ≤ 2
Short-length [] h = omega arith
Short-length (a ∷ []) h = omega arith
Short-length (a ∷ b ∷ []) h = omega arith
Short-length (a ∷ b ∷ c ∷ xs) h = absurd h

retry_allowed :
    (items : List RetryablePlanItem) (xs : List RetryReason)
    → all (reason_allowed (retry_plan_item items)) (map retry_decision xs) ≡ true
unfolding reason_allowed
retry_allowed items [] = refl
retry_allowed items (retryable_failure ∷ xs) = retry_allowed items xs
retry_allowed items (causal_fact ∷ xs) = retry_allowed items xs

retry-WellReasoned :
    (item : RetryablePlanItem) (items : List RetryablePlanItem)
    → WellReasoned
        (retry_plan_item (item ∷ items))
        (map retry_decision (retry_reasons (item ∷ items)))
retry-WellReasoned item items = (
  retry_allowed (item ∷ items) (retry_reasons (item ∷ items)),
  unfold retry_reasons in omega arith,
  omega (arith, Short-length _ (retry_reasons-Short (item ∷ items))),
)

fence-WellReasoned :
    (k : Option TerminalKind) (b : Bool)
    → WellReasoned
        (advance_cancellation k)
        (cancellation_pending ∷ (if b then generation_fence_required ∷ [] else []))
unfolding reason_allowed
fence-WellReasoned k true = (refl, omega arith, omega arith)
fence-WellReasoned k false = (refl, omega arith, omega arith)

if-Ensures :
    (s : Snapshot) (b : Bool) (x y : Result Choice)
    → (b ≡ true → Ensures s x)
    → (b ≡ false → Ensures s y)
    → Ensures s (if b then x else y)
if-Ensures s true x y f g = f refl
if-Ensures s false x y f g = g refl

module _ (s : Snapshot) (valid : IsValid s) where
  final_branch-Ensures :
      (o : Option FinalOutcomeKind)
      → s.final_outcome_kind ≡ o
      → AllOffBefore s finalizing
      → Ensures s (final_branch s o)
  unfolding final_branch
  final_branch-Ensures none e past = after_final-Ensures s valid ((λ h. h.0 e), past)
  final_branch-Ensures (some kind) e past = elim (Bool-cases (may_finalize s)) [
    | inl m ↦ rw m (final_choice-Ensures s valid kind s.finalization_reason refl e m past)
    | inr m ↦ rw m (after_final-Ensures s valid (final-IsOff s m, past))
  ]

  retry_branch-Ensures :
      (items : List RetryablePlanItem)
      → s.retryable_items ≡ items
      → AllOffBefore s retrying
      → Ensures s (retry_branch s items)
  unfolding retry_branch
  retry_branch-Ensures [] e past =
      final_branch-Ensures s.final_outcome_kind refl ((λ (k, rest). absurd (k e)), past)
  retry_branch-Ensures (item ∷ items) e past =
      if-Ensures s (not s.has_blocking_unknown_effect)
        (ok (retry_plan_item (item ∷ items), map retry_decision (retry_reasons (item ∷ items))))
        (final_branch s s.final_outcome_kind)
        (λ b. (
          record { enabled = (λ h. cc, ground arith); first = past; carries = sym e },
          retry-WellReasoned item items,
        ))
        (λ b. final_branch-Ensures s.final_outcome_kind refl ((λ (k, rest). ground arith), past))

  replan_branch-Ensures : AllOffBefore s replanning → Ensures s (replan_branch s)
  unfolding replan_branch reason_allowed
  replan_branch-Ensures past = elim (Bool-cases (may_replan s)) [
    | inl m ↦ rw m (
      record { enabled = replan-Enabled s m; first = past; carries = (refl, refl) },
      (ground arith, omega arith, omega arith),
    )
    | inr m ↦ rw m (retry_branch-Ensures s.retryable_items refl (replan-IsOff s m, past))
  ]

  issue_branch-Ensures :
      (o : Option RuntimeBlockingIssue)
      → s.blocking_issue ≡ o
      → AllOffBefore s asking
      → Ensures s (issue_branch s o)
  unfolding issue_branch reason_allowed
  issue_branch-Ensures none e past = replan_branch-Ensures ((λ h. h e), past)
  issue_branch-Ensures (some issue) e past =
      (record { enabled = λ h. cc; first = past; carries = e }, (refl, omega arith, omega arith))

  fail_branch-Ensures :
      (o : Option DecisionReason)
      → s.fail_reason ≡ o
      → AllOffBefore s failing
      → Ensures s (fail_branch s o)
  unfolding fail_branch reason_allowed
  fail_branch-Ensures none e past = issue_branch-Ensures s.blocking_issue refl ((λ h. h e), past)
  fail_branch-Ensures (some reason) e past =
      let ok_reason = valid.failing reason e in
      rw ok_reason (
        record { enabled = λ h. cc; first = past; carries = (e, ok_reason) },
        (rw ok_reason, omega arith, omega arith),
      )

  reconcile_branch-Ensures :
      (o : Option ℕ)
      → s.next_reconcile_at ≡ o
      → AllOffBefore s reconciling
      → Ensures s (reconcile_branch s o)
  unfolding reconcile_branch reason_allowed
  reconcile_branch-Ensures none e past =
      fail_branch-Ensures s.fail_reason refl ((λ (a, b, c). absurd (c e)), past)
  reconcile_branch-Ensures (some at) e past =
      elim (Bool-cases (s.has_blocking_unknown_effect && s.reconciliation_ready)) [
        | inl m ↦ rw m (
          record {
            enabled = (ground arith, ground arith, λ h. cc);
            first = past;
            carries = (refl, e);
          },
          (refl, omega arith, omega arith),
        )
        | inr m ↦ rw m (fail_branch-Ensures s.fail_reason refl ((λ (a, b, c). ground arith), past))
      ]

  -- Every outcome of the selection is ensured.
  pub select_directive-Ensures : Ensures s (select_directive s)
  unfolding select_directive reason_allowed
  select_directive-Ensures = elim (Bool-cases (may_close s)) [
    | inl m ↦ rw m (
      record { enabled = close-Enabled s m; first = tt; carries = refl },
      (refl, omega arith, omega arith),
    )
    | inr m ↦ rw m (elim (Bool-cases (must_cancel s)) [
      | inl c ↦ rw c (
        record { enabled = cancel-Enabled s c; first = (close-IsOff s m, tt); carries = refl },
        fence-WellReasoned s.cancellation_terminal_kind s.cancellation_fence_required,
      )
      | inr c ↦ rw c (
          reconcile_branch-Ensures s.next_reconcile_at refl
            (cancel-IsOff s c, (close-IsOff s m, tt)))
    ])
  ]
