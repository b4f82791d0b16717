-- ===== src/Tasking/FinalGate/Examples.antt =====
-- A gate whose core criterion is met in part.
use knowledage_base_assistan.Prelude.{nat_eq, ◌≡◌, refl, true, false, [], ◌∷◌, ok}
use knowledage_base_assistan.Tasking.FinalGate.{
  CompletionDecision, GateInput, core_deliverable, supporting, satisfied, in_part, unsatisfied,
  decide_completion,
}
use knowledage_base_assistan.Tasking.RuntimeDecision.Evaluate.{no_digest}
use knowledage_base_assistan.Tasking.FinalGate.Honest.{IsHonest, decide_completion-IsHonest}

abbrev gate : GateInput
gate = record {
  compiled_criteria =
      record { criterion_id = 1; completion_role = core_deliverable }
      ∷ record { criterion_id = 2; completion_role = supporting }
      ∷ [];
  evaluations =
      record {
        criterion_id = 2;
        status = unsatisfied;
        evidence_refs = [];
        evaluation_digest = no_digest;
      }
      ∷ record {
        criterion_id = 1;
        status = in_part;
        evidence_refs = [];
        evaluation_digest = no_digest;
      }
      ∷ [];
  constraint_checks = record { constraint_id = 5; status = satisfied } ∷ [];
  output_contract_complete = true;
  substantive_claims_supported = true;
  has_critical_degradation = false;
}

decide_completion-IsHonest_example :
    (d : CompletionDecision) × (decide_completion gate (λ d. "digest") ≡ ok d) × IsHonest gate d
decide_completion-IsHonest_example =
    decide_completion-IsHonest gate (λ d. "digest") refl refl refl refl refl
