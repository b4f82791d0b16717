-- ===== src/Tasking/FinalGate.antt =====
-- modules/tasking/domain/final_gate.py: evaluations of criteria, `decide_completion` and
-- `deliverable_usability`.
pub mod Filters
pub mod Named
pub mod Honest
mod Examples
use knowledage_base_assistan.Prelude.{
  nat_eq, ◌==◌, ◌>>◌, ℕ, String, Uuid, Bool, true, false, not, ◌&&◌, ◌||◌, List, [], ◌∷◌, ◌++◌, map,
  any, all, contains, keep_if, Option, none, some, if◌then◌else◌, Result, ok, require, value_error,
}
use knowledage_base_assistan.Tasking.RuntimeDecision.Signals.{
  FinalOutcomeKind, complete, partial, insufficient_evidence, VersionedRef,
}
use knowledage_base_assistan.Tasking.RuntimeDecision.Evaluate.{no_digest}

pub data CriterionEvaluationStatus : Type 0 where
  satisfied in_part unsatisfied unknown not_applicable : CriterionEvaluationStatus

pub data CompletionRole : Type 0 where
  core_deliverable required_auxiliary supporting : CompletionRole

-- How well the model's own assessment says that a criterion is supported.
pub data SemanticCriterionAssessmentKind : Type 0 where
  supported partially_supported unsupported undetermined : SemanticCriterionAssessmentKind

unfoldable semantic_assessment_status : SemanticCriterionAssessmentKind → CriterionEvaluationStatus
semantic_assessment_status supported = satisfied
semantic_assessment_status partially_supported = in_part
semantic_assessment_status unsupported = unsatisfied
semantic_assessment_status undetermined = unknown

-- What the gate reads of a compiled criterion.
pub record CompiledCriterion : Type 0 where
  pub criterion_id : Uuid
  pub completion_role : CompletionRole

pub record CriterionEvaluation : Type 0 where
  pub criterion_id : Uuid
  pub status : CriterionEvaluationStatus
  pub evidence_refs : List VersionedRef
  pub evaluation_digest : String

-- The digest, a parameter, is of everything else in the evaluation.
unfoldable criterion_evaluation_digest :
    (CriterionEvaluation → String) → CriterionEvaluation → String
criterion_evaluation_digest digest e = digest (record e { evaluation_digest = no_digest })

unfoldable freeze_criterion_evaluation :
    (CriterionEvaluation → String) → CriterionEvaluation → CriterionEvaluation
freeze_criterion_evaluation digest e = record e {
  evaluation_digest = criterion_evaluation_digest digest e;
}

-- Its status is `satisfied`, `unsatisfied` or `unknown`.
pub record ConstraintCheck : Type 0 where
  pub constraint_id : Uuid
  pub status : CriterionEvaluationStatus

pub record CompletionDecision : Type 0 where
  pub decision : FinalOutcomeKind
  pub unmet_required_criterion_ids : List Uuid
  pub unmet_constraint_ids : List Uuid
  pub decision_digest : String

abbrev pub is_satisfied : CriterionEvaluationStatus → Bool
is_satisfied satisfied = true
is_satisfied _ = false

abbrev pub is_applicable : CriterionEvaluationStatus → Bool
is_applicable not_applicable = false
is_applicable _ = true

abbrev pub is_some_success : CriterionEvaluationStatus → Bool
is_some_success satisfied = true
is_some_success in_part = true
is_some_success _ = false

abbrev pub is_core : CompletionRole → Bool
is_core core_deliverable = true
is_core _ = false

abbrev pub is_auxiliary : CompletionRole → Bool
is_auxiliary required_auxiliary = true
is_auxiliary _ = false

abbrev pub has_twice : List Uuid → Bool
has_twice [] = false
has_twice (x ∷ xs) = contains xs x || has_twice xs

-- `evaluation_by_id[...]`, which is only read for keys that are there
abbrev pub status_of : List CriterionEvaluation → Uuid → CriterionEvaluationStatus
status_of [] id = unknown
status_of (e ∷ evaluations) id = if e.criterion_id == id then e.status else status_of evaluations id

abbrev pub is_nothing {ℓ} : {A : Type ℓ} → List A → Bool
is_nothing [] = true
is_nothing (x ∷ xs) = false

-- The inputs of the decision.
pub record GateInput : Type 0 where
  pub compiled_criteria : List CompiledCriterion
  pub evaluations : List CriterionEvaluation
  pub constraint_checks : List ConstraintCheck
  pub output_contract_complete : Bool
  pub substantive_claims_supported : Bool
  pub has_critical_degradation : Bool

module _ (g : GateInput) where
  abbrev pub status_for : CompiledCriterion → CriterionEvaluationStatus
  status_for c = status_of g.evaluations c.criterion_id

  abbrev pub criterion_ids : List Uuid
  criterion_ids = map (λ (c : CompiledCriterion). c.criterion_id) g.compiled_criteria

  abbrev pub evaluated_ids : List Uuid
  evaluated_ids = map (λ (e : CriterionEvaluation). e.criterion_id) g.evaluations

  unfoldable pub applicable : List CompiledCriterion
  applicable = keep_if (λ c. is_applicable (status_for c)) g.compiled_criteria

  unfoldable pub core : List CompiledCriterion
  core = keep_if (λ c. is_core c.completion_role) applicable

  unfoldable pub auxiliary : List CompiledCriterion
  auxiliary = keep_if (λ c. is_auxiliary c.completion_role) applicable

  unfoldable pub unmet_required : List Uuid
  unmet_required =
      map (λ (c : CompiledCriterion). c.criterion_id)
        (keep_if (λ c. not (is_satisfied (status_for c))) (core ++ auxiliary))

  unfoldable pub unmet_constraints : List Uuid
  unmet_constraints =
      map (λ (c : ConstraintCheck). c.constraint_id)
        (keep_if (λ c. not (is_satisfied c.status)) g.constraint_checks)

  unfoldable pub fully_satisfied : Bool
  fully_satisfied =
      is_nothing unmet_required
      && (is_nothing unmet_constraints
          && (g.output_contract_complete
              && (g.substantive_claims_supported && not g.has_critical_degradation)))

  unfoldable pub outcome : FinalOutcomeKind
  outcome =
      if fully_satisfied
      then complete
      else if g.substantive_claims_supported && any (λ c. is_some_success (status_for c)) core
      then partial
      else insufficient_evidence

  -- `decide_completion`; the digest of the record is a parameter.
  unfoldable pub decide_completion : (CompletionDecision → String) → Result CompletionDecision
  decide_completion digest =
      let draft : CompletionDecision = record {
        decision = outcome;
        unmet_required_criterion_ids = unmet_required;
        unmet_constraint_ids = unmet_constraints;
        decision_digest = no_digest;
      } in
      require (not (has_twice criterion_ids)) (value_error "COMPLETION_DUPLICATE_CRITERION")
      >> (require (not (has_twice evaluated_ids)) (value_error "COMPLETION_DUPLICATE_EVALUATION")
          >> (require
                (all (λ id. contains criterion_ids id) evaluated_ids
                  && all (λ id. contains evaluated_ids id) criterion_ids)
                (value_error "COMPLETION_EVALUATION_COVERAGE_MISMATCH")
              >> (require (not (is_nothing core)) (value_error "COMPLETION_NO_APPLICABLE_CORE")
                  >> ok (record draft { decision_digest = digest draft }))))

pub data DeliverableUsability : Type 0 where
  usable_complete usable_subset gap_report_only invalid_candidate : DeliverableUsability

-- `deliverable_usability`
unfoldable pub deliverable_usability : Option FinalOutcomeKind → Bool → DeliverableUsability
deliverable_usability none has_content = invalid_candidate
deliverable_usability (some decision) false = invalid_candidate
deliverable_usability (some complete) true = usable_complete
deliverable_usability (some partial) true = usable_subset
deliverable_usability (some insufficient_evidence) true = gap_report_only
