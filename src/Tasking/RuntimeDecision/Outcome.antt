-- ===== src/Tasking/RuntimeDecision/Outcome.antt =====
-- The decision that the controller issues.
use knowledage_base_assistan.Prelude.{
  ℕ, ◌≤◌, ◌≡◌, ◌⊎◌, refl, Bool, true, not, ◌&&◌, Option, none, some, Result, ok, raise, arith,
  length, leb, value_error, inl, inr, is_some, require-then, ◌>>=◌,
}
use knowledage_base_assistan.Tasking.RuntimeDecision.Signals.{
  both_or_neither, holds, Snapshot, DecisionReason, FinalOutcomeKind, VersionedRef,
  is_fail_task_reason, is_finalization_reason, validate_signals,
}
use knowledage_base_assistan.Tasking.RuntimeDecision.Select.{Choice, select_directive}
use knowledage_base_assistan.Tasking.RuntimeDecision.Evaluate.{
  RuntimeDecision, Digests, evaluate_runtime_decision, freeze_runtime_decision_snapshot,
  validate_decision, draft_decision,
}
use knowledage_base_assistan.Tasking.RuntimeDecision.Justified.{
  Justified, WellReasoned, Ensures, IsValid,
}
use knowledage_base_assistan.Tasking.RuntimeDecision.Priority.{IsStuck}
use knowledage_base_assistan.Tasking.RuntimeDecision.Total.{select_directive-Ensures}

holds-some :
    (p : DecisionReason → Bool) (o : Option DecisionReason) (r : DecisionReason)
    → holds p o ≡ true
    → o ≡ some r
    → p r ≡ true
holds-some p none r h e = cc
holds-some p (some x) r h e = ground arith

paired :
    (o : Option FinalOutcomeKind) (f : Option DecisionReason) (k : FinalOutcomeKind)
    → both_or_neither o f ≡ true
    → o ≡ some k
    → (r : DecisionReason) × (f ≡ some r)
paired none f k h e = cc
paired (some x) none k h e = cc
paired (some x) (some r) k h e = (r, refl)

present :
    (b : Bool) (o : Option VersionedRef)
    → not (b && not (is_some o)) ≡ true
    → b ≡ true
    → (ref : VersionedRef) × (o ≡ some ref)
present b none h e = cc
present b (some ref) h e = (ref, refl)

-- A snapshot that passed its validator.
validate_signals-IsValid : (s t : Snapshot) → validate_signals s ≡ ok t → IsValid s
unfolding validate_signals
validate_signals-IsValid s t h =
    let (a, h1) = require-then (holds is_fail_task_reason s.fail_reason) _ _ h in
    let (b, h2) =
      require-then (both_or_neither s.final_outcome_kind s.finalization_reason) _ _ h1 in
    let (c, h3) = require-then (holds is_finalization_reason s.finalization_reason) _ _ h2 in
    let (d, h4) = require-then (not (s.has_ready_items && not (is_some s.ready_set_ref))) _ _ h3 in
    record {
      reason_of_outcome = λ k e.
          let (r, f) = paired s.final_outcome_kind s.finalization_reason k b e in
          (r, f, holds-some is_finalization_reason s.finalization_reason r c f);
      ref_of_ready = λ e. present s.has_ready_items s.ready_set_ref d e;
      failing = λ r e. holds-some is_fail_task_reason s.fail_reason r a e;
    }

-- A decision as it is issued.
pub record Issued (h : Digests) (s : Snapshot) (decision_sequence : ℕ) (d : RuntimeDecision)
    : Type 0 where
  pub justified : Justified s d.directive
  pub reasoned : WellReasoned d.directive d.reasons
  pub numbered : d.decision_sequence ≡ decision_sequence
  pub identified : d.decision_id ≡ h.decision_id s.task_id s.snapshot_digest
  pub based : d.basis_task_row_version ≡ s.task_row_version

issue :
    (h : Digests) (s : Snapshot) (decision_sequence : ℕ) (c : Result Choice)
    → 1 ≤ decision_sequence
    → Ensures s c
    → ((d : RuntimeDecision) × ((do
      (directive, reasons) ← c
      decision ← validate_decision h (draft_decision h s decision_sequence directive reasons)
      ok (record decision { decision_digest = h.decision_digest_for decision }))
          ≡ ok d)
        × Issued h s decision_sequence d)
      ⊎ ((c ≡ raise (value_error "RUNTIME_DEADLOCK_DETECTED")) × IsStuck s)
unfolding validate_decision draft_decision
issue h s n (ok (d, rs)) pos (j, w) =
    let draft = draft_decision h s n d rs in
    let fits : (leb 1 n && (leb 1 (length rs) && leb (length rs) 8)) ≡ true = ground arith in
    inl (
      record draft { decision_digest = h.decision_digest_for draft },
      rw fits (rw w.0 refl),
      record { justified = j; reasoned = w; numbered = refl; identified = refl; based = refl },
    )
issue h s n (raise e) pos (p, stuck) = inr (rw p, stuck)

frozen-IsValid :
    (h : Digests) (s : Snapshot) → IsValid s → IsValid (freeze_runtime_decision_snapshot h s)
unfolding freeze_runtime_decision_snapshot
frozen-IsValid h s v = record {
  reason_of_outcome = v.reason_of_outcome;
  ref_of_ready = v.ref_of_ready;
  failing = v.failing;
}

pub evaluate_runtime_decision-total :
    (h : Digests) (s : Snapshot) (decision_sequence : ℕ)
    → validate_signals s ≡ ok s
    → 1 ≤ decision_sequence
    → ((d : RuntimeDecision) × (evaluate_runtime_decision h s decision_sequence ≡ ok d)
        × Issued h (freeze_runtime_decision_snapshot h s) decision_sequence d)
      ⊎ ((evaluate_runtime_decision h s decision_sequence
            ≡ raise (value_error "RUNTIME_DEADLOCK_DETECTED"))
          × IsStuck s)
unfolding evaluate_runtime_decision
evaluate_runtime_decision-total h s n v pos =
    let f = freeze_runtime_decision_snapshot h s in
    let valid = frozen-IsValid h s (validate_signals-IsValid s s v) in
    elim (issue h f n (select_directive f) pos (select_directive-Ensures f valid)) [
      | inl (d, e, issued) ↦ inl (d, e, issued)
      | inr (p, stuck) ↦ inr (rw p, stuck)
    ]
