-- ===== src/Tasking/FinalGate/Honest.antt =====
-- The gate's decision, described by the criteria themselves.
use knowledage_base_assistan.Prelude.{
  nat_eq, String, Bool, true, false, not, ◌&&◌, ◌||◌, ◌≡◌, refl, ap, ◌∙◌, ◌++◌, any, all, contains,
  keep_if, ok, ◌==◌, Uuid, Bool-cases, inl, inr, arith,
}
use knowledage_base_assistan.Tasking.RuntimeDecision.Signals.{FinalOutcomeKind, complete, partial}
use knowledage_base_assistan.Tasking.RuntimeDecision.Evaluate.{no_digest}
use knowledage_base_assistan.Tasking.FinalGate.{
  CompiledCriterion, CompletionRole, CriterionEvaluationStatus, ConstraintCheck, CompletionDecision,
  GateInput, is_satisfied, is_applicable, is_some_success, is_core, is_auxiliary, is_nothing,
  has_twice, status_for, criterion_ids, evaluated_ids, applicable, core, auxiliary, unmet_required,
  unmet_constraints, fully_satisfied, outcome, decide_completion,
}
use knowledage_base_assistan.Tasking.FinalGate.Filters.{
  all-cong, any-cong, all-keep_if, any-keep_if, nothing-keep_if, nothing-any, nothing-map,
  all-append, all-both,
}
use knowledage_base_assistan.Tasking.FinalGate.Named.{
  is_met, and_comm, unmet_constraints-contains, unmet_required-contains,
}

abbrev pub is_complete : FinalOutcomeKind → Bool
is_complete complete = true
is_complete _ = false

abbrev pub is_partial : FinalOutcomeKind → Bool
is_partial partial = true
is_partial _ = false

-- The code's test of a criterion, through its filters.
met_pointwise :
    (role : CompletionRole) (status : CriterionEvaluationStatus)
    → ((not (is_applicable status) || (not (is_core role) || not (not (is_satisfied status))))
        && (not (is_applicable status)
            || (not (is_auxiliary role) || not (not (is_satisfied status)))))
      ≡ is_met role status
met_pointwise role status = ground arith

succeeds_pointwise :
    (role : CompletionRole) (status : CriterionEvaluationStatus)
    → (is_applicable status && (is_core role && is_some_success status))
      ≡ (is_core role && is_some_success status)
succeeds_pointwise role status = ground arith

not-not : (b : Bool) → not (not b) ≡ b
not-not true = refl
not-not false = refl

module _ (g : GateInput) where
  abbrev pub all_met : Bool
  all_met = all (λ c. is_met c.completion_role (status_for g c)) g.compiled_criteria

  abbrev pub some_core_success : Bool
  some_core_success =
      any (λ c. is_core c.completion_role && is_some_success (status_for g c)) g.compiled_criteria

  abbrev pub constraints_met : Bool
  constraints_met = all (λ (c : ConstraintCheck). is_satisfied c.status) g.constraint_checks

  -- not unsatisfied, as the code's filters say it
  abbrev cleared : CompiledCriterion → Bool
  cleared c = not (not (is_satisfied (status_for g c)))

  abbrev passes : (CompletionRole → Bool) → CompiledCriterion → Bool
  passes role c =
      not (is_applicable (status_for g c)) || (not (role c.completion_role) || cleared c)

  filtered :
      (role : CompletionRole → Bool)
      → all cleared (keep_if (λ c. role c.completion_role) (applicable g))
        ≡ all (passes role) g.compiled_criteria
  unfolding applicable
  filtered role =
      all-keep_if (λ c. role c.completion_role) cleared (applicable g)
      ∙ all-keep_if _ _ g.compiled_criteria

  unmet_required-all : is_nothing (unmet_required g) ≡ all_met
  unfolding unmet_required core auxiliary applicable
  unmet_required-all =
      nothing-map _ (keep_if (λ c. not (is_satisfied (status_for g c))) (core g ++ auxiliary g))
      ∙ (nothing-keep_if _ (core g ++ auxiliary g)
          ∙ (all-append cleared (core g) (auxiliary g)
              ∙ (ap (λ t. t && all cleared (auxiliary g)) (filtered is_core)
                  ∙ (ap (λ t. all (passes is_core) g.compiled_criteria && t) (filtered is_auxiliary)
                      ∙ (all-both (passes is_core) (passes is_auxiliary) g.compiled_criteria
                          ∙ all-cong (λ c. passes is_core c && passes is_auxiliary c)
                              (λ c. is_met c.completion_role (status_for g c)) g.compiled_criteria
                              (λ c. met_pointwise c.completion_role (status_for g c)))))))

  unmet_constraints-all : is_nothing (unmet_constraints g) ≡ constraints_met
  unfolding unmet_constraints
  unmet_constraints-all =
      nothing-map _ (keep_if (λ c. not (is_satisfied c.status)) g.constraint_checks)
      ∙ (nothing-keep_if (λ c. not (is_satisfied c.status)) g.constraint_checks
          ∙ all-cong _ (λ c. is_satisfied c.status) g.constraint_checks
              (λ c. not-not (is_satisfied c.status)))

  some_core-any : any (λ c. is_some_success (status_for g c)) (core g) ≡ some_core_success
  unfolding core applicable
  some_core-any =
      any-keep_if _ _ (applicable g)
      ∙ (any-keep_if _ _ g.compiled_criteria
          ∙ any-cong _ (λ c. is_core c.completion_role && is_some_success (status_for g c))
              g.compiled_criteria (λ c. succeeds_pointwise c.completion_role (status_for g c)))

  -- Why a task is told complete, or partly done.
  pub record IsHonest (d : CompletionDecision) : Type 0 where
    pub complete_means : is_complete d.decision ≡ (
        all_met
        && (constraints_met
            && (g.output_contract_complete
                && (g.substantive_claims_supported && not g.has_critical_degradation))))
    pub partial_means :
        is_partial d.decision
        ≡ (not (is_complete d.decision) && (g.substantive_claims_supported && some_core_success))
    -- exactly the required criteria that apply and are not satisfied are named
    pub named :
        (id : Uuid)
        → contains d.unmet_required_criterion_ids id
          ≡ any
              (λ c. c.criterion_id == id && not (is_met c.completion_role (status_for g c)))
              g.compiled_criteria
    pub named_constraints :
        (id : Uuid)
        → contains d.unmet_constraint_ids id
          ≡ any
              (λ (c : ConstraintCheck). c.constraint_id == id && not (is_satisfied c.status))
              g.constraint_checks
    pub all_named : is_nothing d.unmet_required_criterion_ids ≡ all_met
    pub constraints_named : is_nothing d.unmet_constraint_ids ≡ constraints_met

  outcome_means :
      (is_complete (outcome g) ≡ fully_satisfied g)
      × (is_partial (outcome g) ≡ (
          not (is_complete (outcome g))
          && (g.substantive_claims_supported
              && any (λ c. is_some_success (status_for g c)) (core g))))
  unfolding outcome
  outcome_means =
      let success =
        g.substantive_claims_supported && any (λ c. is_some_success (status_for g c)) (core g) in
      elim (Bool-cases (fully_satisfied g)) [
        | inl full ↦ rw full (refl, refl)
        | inr lacking ↦ elim (Bool-cases success) [
          | inl some_ ↦ rw (lacking, some_) (refl, refl)
          | inr none_ ↦ rw (lacking, none_) (refl, refl)
        ]
      ]

  core_there :
      any (λ c. is_core c.completion_role && is_applicable (status_for g c)) g.compiled_criteria
        ≡ true
      → not (is_nothing (core g)) ≡ true
  unfolding core applicable
  core_there f =
      nothing-any (λ c. is_core c.completion_role) (applicable g)
      ∙ (any-keep_if (λ c. is_applicable (status_for g c)) (λ c. is_core c.completion_role)
            g.compiled_criteria
          ∙ (any-cong (λ c. is_applicable (status_for g c) && is_core c.completion_role)
                (λ c. is_core c.completion_role && is_applicable (status_for g c))
                g.compiled_criteria
                (λ c. and_comm (is_applicable (status_for g c)) (is_core c.completion_role))
              ∙ f))

  full_means : fully_satisfied g ≡ (
      all_met
      && (constraints_met
          && (g.output_contract_complete
              && (g.substantive_claims_supported && not g.has_critical_degradation))))
  unfolding fully_satisfied
  full_means =
      let rest =
        g.output_contract_complete
        && (g.substantive_claims_supported && not g.has_critical_degradation) in
      ap (λ t. t && (is_nothing (unmet_constraints g) && rest)) unmet_required-all
      ∙ ap (λ t. all_met && (t && rest)) unmet_constraints-all

  -- For distinct criteria, each evaluated once, of which a core one applies, there is a decision,
  -- and it is honest: complete exactly if every required criterion that applies is satisfied, every
  -- constraint holds, the contract is complete, the claims are supported and nothing critical is
  -- degraded; otherwise partial exactly if the claims are supported and a core criterion is
  -- satisfied at least in part; and named as unmet are exactly the required criteria that apply and
  -- are not satisfied, and exactly the constraints that do not hold.
  pub decide_completion-IsHonest :
      (digest : CompletionDecision → String)
      → has_twice (criterion_ids g) ≡ false
      → has_twice (evaluated_ids g) ≡ false
      → all (λ id. contains (criterion_ids g) id) (evaluated_ids g) ≡ true
      → all (λ id. contains (evaluated_ids g) id) (criterion_ids g) ≡ true
      → any (λ c. is_core c.completion_role && is_applicable (status_for g c)) g.compiled_criteria
        ≡ true
      → (d : CompletionDecision) × (decide_completion g digest ≡ ok d) × IsHonest d
  unfolding decide_completion
  decide_completion-IsHonest digest a b c e f =
      let draft : CompletionDecision = record {
        decision = outcome g;
        unmet_required_criterion_ids = unmet_required g;
        unmet_constraint_ids = unmet_constraints g;
        decision_digest = no_digest;
      } in
      (
        record draft { decision_digest = digest draft },
        rw (a, b, c, e, core_there f) refl,
        record {
          complete_means = outcome_means.0 ∙ full_means;
          partial_means =
              outcome_means.1
              ∙ ap (λ t. not (is_complete (outcome g)) && (g.substantive_claims_supported && t))
                  some_core-any;
          named = unmet_required-contains g;
          named_constraints = unmet_constraints-contains g;
          all_named = unmet_required-all;
          constraints_named = unmet_constraints-all;
        },
      )
