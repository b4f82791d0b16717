-- ===== src/Tasking/PlanRelations.antt =====
-- `validate_plan_relations` of modules/tasking/domain/planning_fragments.py: what refers to what in
-- the draft of a plan, and the search for a cycle of dependencies.
pub mod Terminates
pub mod Cycles
pub mod Acyclic
pub mod Exact
mod Examples
use knowledage_base_assistan.Prelude.{
  nat_eq, string_eq, ◌==◌, ℕ, zero, suc, ◌+◌, String, Bool, true, false, not, ◌&&◌, ◌||◌, List, [],
  ◌∷◌, ◌++◌, map, length, Option, none, some, if◌then◌else◌, all, any, contains,
}

pub record PlanItem : Type 0 where
  pub local_id : String
  pub depends_on_local_ids : List String
  pub stop_criterion_ids : List String

-- `producer` is the item that a criterion's target names, as its producer or else as its subject.
pub record PlanCriterion : Type 0 where
  pub local_id : String
  pub producer : Option String
  pub goal_criterion_local_id : Option String

pub record InitialPlanDraft : Type 0 where
  pub items : List PlanItem
  pub success_criteria : List PlanCriterion
  pub hypothesis_ids : List String
  pub initial_ready_item_local_ids : List String

pub data InitialPlanValidationReason : Type 0 where
  duplicate_local_id : InitialPlanValidationReason
  dependency_missing : InitialPlanValidationReason
  dependency_cycle : InitialPlanValidationReason
  initial_ready_invalid : InitialPlanValidationReason
  criterion_coverage_missing : InitialPlanValidationReason

-- "/items", and "/items/3/target"
pub data FieldPath : Type 0 where
  at : String → FieldPath
  at_index : String → ℕ → String → FieldPath

pub record PlanSemanticIssue : Type 0 where
  pub reason : InitialPlanValidationReason
  pub field_path : FieldPath

abbrev pub issue_if : Bool → InitialPlanValidationReason → FieldPath → List PlanSemanticIssue
issue_if true reason path = record { reason = reason; field_path = path } ∷ []
issue_if false reason path = []

-- len(values) != len(set(values))
unfoldable pub has_repeated : List String → Bool
has_repeated [] = false
has_repeated (x ∷ xs) = contains xs x || has_repeated xs

-- set(xs) <= set(ys)
abbrev pub is_within : List String → List String → Bool
is_within xs ys = all (λ x. contains ys x) xs

-- The dictionary `graph`: a key that is written again keeps its place.
abbrev pub Graph : Type 0
Graph = List (String × List String)

unfoldable pub set_parents : String → List String → Graph → Graph
set_parents node parents [] = (node, parents) ∷ []
set_parents node parents ((key, old) ∷ graph) =
    let rest = set_parents node parents graph in
    if key == node then (key, parents) ∷ graph else (key, old) ∷ rest

unfoldable pub graph_from : Graph → List PlanItem → Graph
graph_from graph [] = graph
graph_from graph (item ∷ items) =
    graph_from (set_parents item.local_id item.depends_on_local_ids graph) items

abbrev pub find_parents : String → Graph → Option (List String)
find_parents node [] = none
find_parents node ((key, parents) ∷ graph) =
    if key == node then some parents else find_parents node graph

abbrev pub nodes : Graph → List String
nodes graph = map (λ entry. entry.0) graph

-- A search's answer, and the nodes it is done with, the last one first; `none` is out of fuel.
abbrev pub Visit : Type 0
Visit = Option (Bool × List String)

abbrev pub unless_found : Visit → (List String → Visit) → Visit
unless_found none next = none
unless_found (some (true, visited)) next = some (true, visited)
unless_found (some (false, visited)) next = next visited

-- any(visit(parent) for parent in parents), which stops at the first true.
unfoldable pub any_visit : (List String → String → Visit) → List String → List String → Visit
any_visit visit_one visited [] = some (false, visited)
any_visit visit_one visited (parent ∷ parents) =
    unless_found (visit_one visited parent) (λ v. any_visit visit_one v parents)

-- visiting.remove(node); visited.add(node)
abbrev pub leave : String → Visit → Visit
leave node none = none
leave node (some found) = some (found.0, node ∷ found.1)

-- `visit`; `visiting` has the node that was entered last in front.
unfoldable pub visit : ℕ → Graph → List String → List String → String → Visit
visit zero graph visiting visited node = none
visit (suc fuel) graph visiting visited node =
    if contains visiting node
    then some (true, visited)
    else if contains visited node
    then some (false, visited)
    else (elim (find_parents node graph) [
      | none ↦ some (false, visited)
      | some parents ↦ leave node (any_visit (visit fuel graph (node ∷ visiting)) visited parents)
    ])

-- any(visit(node) for node in graph); one more than the number of nodes is enough fuel.
unfoldable pub search : Graph → Visit
search graph = any_visit (visit (suc (length graph)) graph []) [] (nodes graph)

abbrev pub answer : Visit → Bool
answer none = false
answer (some found) = found.0

unfoldable pub has_cycle : Graph → Bool
has_cycle graph = answer (search graph)

unfoldable pub item_issues : List String → List String → ℕ → List PlanItem → List PlanSemanticIssue
item_issues known_items known_criteria index [] = []
item_issues known_items known_criteria index (item ∷ items) =
    issue_if
      (contains item.depends_on_local_ids item.local_id
        || not (is_within item.depends_on_local_ids known_items))
      dependency_missing (at_index "/items/" index "/depends_on_local_ids")
    ++ (issue_if (not (is_within item.stop_criterion_ids known_criteria)) dependency_missing
          (at_index "/items/" index "/iteration_policy/stop_criterion_ids")
        ++ item_issues known_items known_criteria (index + 1) items)

-- graph.get(item_id), as a condition
abbrev pub has_parents : Option (List String) → Bool
has_parents (some (parent ∷ parents)) = true
has_parents _ = false

abbrev pub is_unknown : List String → Option String → Bool
is_unknown known none = false
is_unknown known (some id) = not (contains known id)

unfoldable pub criterion_issues : List String → ℕ → List PlanCriterion → List PlanSemanticIssue
criterion_issues known_items index [] = []
criterion_issues known_items index (criterion ∷ criteria) =
    issue_if (is_unknown known_items criterion.producer) dependency_missing
      (at_index "/success_criteria/" index "/target")
    ++ criterion_issues known_items (index + 1) criteria

unfoldable pub covered_goal_ids : List PlanCriterion → List String
covered_goal_ids [] = []
covered_goal_ids (criterion ∷ criteria) =
    let rest = covered_goal_ids criteria in
    elim criterion.goal_criterion_local_id [ none ↦ rest | some id ↦ id ∷ rest ]

unfoldable pub validate_plan_relations : InitialPlanDraft → List String → List PlanSemanticIssue
validate_plan_relations draft goal_criterion_ids =
    let known_items = map (λ (i : PlanItem). i.local_id) draft.items in
    let known_criteria = map (λ (c : PlanCriterion). c.local_id) draft.success_criteria in
    let ready = draft.initial_ready_item_local_ids in
    let graph = graph_from [] draft.items in
    let covered = covered_goal_ids draft.success_criteria in
    issue_if (has_repeated known_items) duplicate_local_id (at "/items")
    ++ (issue_if (has_repeated known_criteria) duplicate_local_id (at "/success_criteria")
        ++ (issue_if (has_repeated draft.hypothesis_ids) duplicate_local_id (at "/hypotheses")
            ++ (issue_if (has_repeated ready) duplicate_local_id
                  (at "/initial_ready_item_local_ids")
                ++ (item_issues known_items known_criteria 0 draft.items
                    ++ (issue_if (has_cycle graph) dependency_cycle (at "/items")
                        ++ (issue_if
                              (not (is_within ready known_items)
                                || any (λ id. has_parents (find_parents id graph)) ready)
                              initial_ready_invalid (at "/initial_ready_item_local_ids")
                            ++ (criterion_issues known_items 0 draft.success_criteria
                                ++ issue_if
                                    (not (
                                        is_within covered goal_criterion_ids
                                        && is_within goal_criterion_ids covered)
                                      || has_repeated covered)
                                    criterion_coverage_missing (at "/success_criteria"))))))))
