-- ===== src/Tasking/RuntimeLoop/Step.antt =====
-- One step of the loop, from the snapshot to what is done.
use knowledage_base_assistan.Prelude.{
  ℕ, ◌≤◌, ◌≡◌, refl, inl, inr, Option, none, some, Result, ok, raise, value_error, subst, String,
  given, ◌>>=◌,
}
use knowledage_base_assistan.Tasking.RuntimeDecision.Signals.{
  Snapshot, RuntimeDirective, close_runtime, advance_cancellation, wait_reconciliation, fail_task,
  request_user_input, start_replan, retry_plan_item, start_final_synthesis, schedule_ready_set,
  wait_event, validate_signals,
}
use knowledage_base_assistan.Tasking.RuntimeDecision.Evaluate.{
  RuntimeDecision, Digests, freeze_runtime_decision_snapshot,
}
use knowledage_base_assistan.Tasking.RuntimeDecision.Priority.{
  DirectiveKind, closing, cancelling, failing, finalizing, scheduling, kind_of, Enabled,
  AllOffBefore,
}
use knowledage_base_assistan.Tasking.RuntimeDecision.Unique.{first_unique, stuck-IsOff}
use knowledage_base_assistan.Tasking.RuntimeDecision.Outcome.{
  Issued, evaluate_runtime_decision-total,
}
use knowledage_base_assistan.Tasking.RuntimeLoop.Advance.{
  RuntimeLoopStep, run_actions, run_final, terminal, yield_, dispatch, advance,
}

-- What comes of a service: its result, its error, or the complaint that it had no materials.
abbrev answer : {R S : Type 0} → Option (Result R) → String → (R → S) → Result S
answer none missing wrap = raise (value_error missing)
answer (some (raise e)) missing wrap = raise e
answer (some (ok made)) missing wrap = ok (wrap made)

module _ {ActionRun FinalResult : Type 0} (acts : Option (Result ActionRun))
    (final : Option (Result FinalResult)) where
  -- What comes of a decision of a kind.
  abbrev pub Dispatched :
      DirectiveKind → RuntimeDecision → Result (RuntimeLoopStep ActionRun FinalResult) → Type 0
  Dispatched scheduling d out = out ≡ answer acts "ACTION_MATERIALS_REQUIRED" (run_actions d)
  Dispatched finalizing d out = out ≡ answer final "FINAL_MATERIALS_REQUIRED" (run_final d)
  Dispatched closing d out = out ≡ ok (terminal d)
  Dispatched cancelling d out = out ≡ ok (terminal d)
  Dispatched failing d out = out ≡ ok (terminal d)
  Dispatched _ d out = out ≡ ok (yield_ d)

  service-answer :
      {R S : Type 0} (service : Option (Result R)) (missing : String) (wrap : R → S)
      → (given (value_error missing) service >>= (λ result. result >>= (λ made. ok (wrap made))))
        ≡ answer service missing wrap
  service-answer none missing wrap = refl
  service-answer (some (raise e)) missing wrap = refl
  service-answer (some (ok made)) missing wrap = refl

  dispatch-Dispatched :
      (d : RuntimeDecision) (directive : RuntimeDirective)
      → Dispatched (kind_of directive) d (dispatch acts final d directive)
  unfolding dispatch
  dispatch-Dispatched d (schedule_ready_set r) = service-answer acts _ (run_actions d)
  dispatch-Dispatched d (start_final_synthesis k) = service-answer final _ (run_final d)
  dispatch-Dispatched d (close_runtime x) = refl
  dispatch-Dispatched d (advance_cancellation x) = refl
  dispatch-Dispatched d (fail_task x) = refl
  dispatch-Dispatched d (wait_reconciliation x y) = refl
  dispatch-Dispatched d (request_user_input x) = refl
  dispatch-Dispatched d (start_replan x y) = refl
  dispatch-Dispatched d (retry_plan_item x) = refl
  dispatch-Dispatched d (wait_event x y z) = refl

  -- For a snapshot that passed its validator, a sequence number from 1 on, and the first kind of
  -- directive that the facts enable, the step issues a decision of that kind, justified by the
  -- snapshot, and does what the kind asks for: actions run if it schedules a ready set, the synthesis
  -- if it finalizes, with that service's result, its error or the error of missing materials; the
  -- loop ends if it closes, cancels or fails, and yields for the other kinds.
  pub advance-Dispatched :
      (h : Digests) (s : Snapshot) (decision_sequence : ℕ) (k : DirectiveKind)
      → validate_signals s ≡ ok s
      → 1 ≤ decision_sequence
      → Enabled s k
      → AllOffBefore s k
      → (d : RuntimeDecision) × Issued h (freeze_runtime_decision_snapshot h s) decision_sequence d
        × (kind_of d.directive ≡ k)
        × Dispatched k d (advance h acts final s decision_sequence)
  unfolding advance freeze_runtime_decision_snapshot
  advance-Dispatched h s n k v pos on before = elim (evaluate_runtime_decision-total h s n v pos) [
    | inl (d, e, issued) ↦
        let chosen = issued.justified in
        let same = first_unique s (kind_of d.directive) k chosen.enabled chosen.first on before in
        (
          d,
          issued,
          same,
          subst (λ j. Dispatched j d (advance h acts final s n)) same
              (rw e (dispatch-Dispatched d d.directive)),
        )
    | inr (e, stuck) ↦ absurd (stuck-IsOff s k stuck on)
  ]
