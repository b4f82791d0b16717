-- ===== src/Tasking/PlanRelations/Examples.antt =====
-- Plans with and without a cycle.
use knowledage_base_assistan.Prelude.{string_eq, String, ◌≡◌, ◌↔◌, refl, true, [], ◌∷◌, some}
use knowledage_base_assistan.Tasking.PlanRelations.{
  Graph, InitialPlanDraft, has_repeated, graph_from, set_parents, any_visit, visit, search,
  has_cycle, item_issues, criterion_issues, covered_goal_ids, validate_plan_relations,
}
use knowledage_base_assistan.Tasking.PlanRelations.Cycles.{Depends}
use knowledage_base_assistan.Tasking.PlanRelations.Exact.{has_cycle_iff}

-- "report" needs "read", which needs "search", which needs "read".
abbrev circular : Graph
circular = ("report", "read" ∷ []) ∷ ("read", "search" ∷ []) ∷ ("search", "read" ∷ []) ∷ []

circular_found : has_cycle circular ≡ true
unfolding has_cycle search any_visit visit
circular_found = refl

has_cycle_iff_example : (has_cycle circular ≡ true) ↔ ((a : String) × Depends circular a a)
has_cycle_iff_example = has_cycle_iff circular

abbrev draft : InitialPlanDraft
draft = record {
  items =
      record { local_id = "search"; depends_on_local_ids = []; stop_criterion_ids = "found" ∷ [] }
      ∷ record {
        local_id = "report";
        depends_on_local_ids = "search" ∷ [];
        stop_criterion_ids = [];
      }
      ∷ [];
  success_criteria =
      record { local_id = "found"; producer = some "report"; goal_criterion_local_id = some "goal" }
      ∷ [];
  hypothesis_ids = [];
  initial_ready_item_local_ids = "search" ∷ [];
}

draft_accepted : validate_plan_relations draft ("goal" ∷ []) ≡ []
unfolding validate_plan_relations has_repeated graph_from set_parents has_cycle search any_visit
    visit item_issues criterion_issues covered_goal_ids
draft_accepted = refl
