-- ===== src/Tasking/FinalGate/Named.antt =====
-- What the gate names as unmet.
use knowledage_base_assistan.Prelude.{
  nat_eq, Bool, true, not, ◌&&◌, ◌||◌, ◌≡◌, ap, ◌∙◌, ◌++◌, any, contains, keep_if, ◌==◌, Uuid,
  arith,
}
use knowledage_base_assistan.Tasking.FinalGate.{
  CompiledCriterion, CompletionRole, supporting, CriterionEvaluationStatus, ConstraintCheck,
  GateInput, is_satisfied, is_applicable, is_core, is_auxiliary, status_for, applicable, core,
  auxiliary, unmet_required, unmet_constraints,
}
use knowledage_base_assistan.Tasking.FinalGate.Filters.{
  any-cong, any-keep_if, any-append, any-both, contains-map,
}

-- A criterion that does not stand in the way: it only supports, does not apply, or is satisfied.
abbrev pub is_met : CompletionRole → CriterionEvaluationStatus → Bool
is_met supporting status = true
is_met role status = is_satisfied status || not (is_applicable status)

unmet_pointwise :
    (role : CompletionRole) (status : CriterionEvaluationStatus) (b : Bool)
    → ((is_applicable status && (is_core role && (not (is_satisfied status) && b)))
        || (is_applicable status && (is_auxiliary role && (not (is_satisfied status) && b))))
      ≡ (b && not (is_met role status))
unmet_pointwise role status b = ground arith

pub and_comm : (b c : Bool) → (b && c) ≡ (c && b)
and_comm b c = ground arith

module _ (g : GateInput) where
  pub unmet_constraints-contains :
      (id : Uuid)
      → contains (unmet_constraints g) id
        ≡ any
            (λ (c : ConstraintCheck). c.constraint_id == id && not (is_satisfied c.status))
            g.constraint_checks
  unfolding unmet_constraints
  unmet_constraints-contains id =
      contains-map (λ (c : ConstraintCheck). c.constraint_id) id _
      ∙ (any-keep_if (λ c. not (is_satisfied c.status)) (λ c. c.constraint_id == id)
            g.constraint_checks
          ∙ any-cong _ _ g.constraint_checks
              (λ c. and_comm (not (is_satisfied c.status)) (c.constraint_id == id)))

  -- an unmet criterion with the identifier, as the code's filters find it
  abbrev found_in : (CompletionRole → Bool) → Uuid → CompiledCriterion → Bool
  found_in role id c =
      is_applicable (status_for g c)
      && (role c.completion_role && (not (is_satisfied (status_for g c)) && c.criterion_id == id))

  any-filtered :
      (role : CompletionRole → Bool) (id : Uuid)
      → any
          (λ c. not (is_satisfied (status_for g c)) && c.criterion_id == id)
          (keep_if (λ c. role c.completion_role) (applicable g))
        ≡ any (found_in role id) g.compiled_criteria
  unfolding applicable
  any-filtered role id =
      any-keep_if (λ c. role c.completion_role) _ (applicable g)
      ∙ any-keep_if (λ c. is_applicable (status_for g c)) _ g.compiled_criteria

  pub unmet_required-contains :
      (id : Uuid)
      → contains (unmet_required g) id
        ≡ any
            (λ c. c.criterion_id == id && not (is_met c.completion_role (status_for g c)))
            g.compiled_criteria
  unfolding unmet_required core auxiliary
  unmet_required-contains id =
      contains-map (λ (c : CompiledCriterion). c.criterion_id) id _
      ∙ (any-keep_if (λ c. not (is_satisfied (status_for g c))) (λ c. c.criterion_id == id)
            (core g ++ auxiliary g)
          ∙ (any-append (λ c. not (is_satisfied (status_for g c)) && c.criterion_id == id) (core g)
                (auxiliary g)
              ∙ (ap
                    (λ t.
                      t
                      || any (λ c. not (is_satisfied (status_for g c)) && c.criterion_id == id)
                          (auxiliary g))
                    (any-filtered is_core id)
                  ∙ (ap (λ t. any (found_in is_core id) g.compiled_criteria || t)
                        (any-filtered is_auxiliary id)
                      ∙ (any-both (found_in is_core id) (found_in is_auxiliary id)
                            g.compiled_criteria
                          ∙ any-cong _ _ g.compiled_criteria (λ c.
                            unmet_pointwise c.completion_role (status_for g c)
                              (c.criterion_id == id)))))))
