-- ===== src/Tasking/PlanRelations/Terminates.antt =====
-- The search for a cycle ends within its fuel: each call of `visit` that goes on enters another node.
use knowledage_base_assistan.Prelude.{
  nat_eq, string_eq, ◌==◌, ==-refl, ℕ, zero, suc, ◌+◌, ◌≤◌, ◌<◌, String, Bool, true, false, ◌≡◌,
  refl, List, [], ◌∷◌, length, some, if◌then◌else◌, contains, Bool-cases, Option-cases, arith, inl,
  inr, sym, subst,
}
use knowledage_base_assistan.Tasking.PlanRelations.{
  Graph, find_parents, nodes, Visit, any_visit, unless_found, visit, search,
}

-- The entries whose node is not being visited.
abbrev is_open : List String → String → ℕ
is_open visiting node = if contains visiting node then 0 else 1

abbrev open_nodes : List String → Graph → ℕ
open_nodes visiting [] = 0
open_nodes visiting ((node, parents) ∷ graph) = is_open visiting node + open_nodes visiting graph

is_open-le :
    (visiting : List String) (node key : String)
    → is_open (node ∷ visiting) key ≤ is_open visiting key
is_open-le visiting node key = elim (Bool-cases (node == key)) [
  | inl a ↦ rw a (ground arith)
  | inr b ↦ rw b (ground arith)
]

open_nodes-le :
    (visiting : List String) (node : String) (graph : Graph)
    → open_nodes (node ∷ visiting) graph ≤ open_nodes visiting graph
open_nodes-le visiting node [] = omega arith
open_nodes-le visiting node ((key, parents) ∷ graph) =
    omega (arith, is_open-le visiting node key, open_nodes-le visiting node graph)

open_nodes-lt :
    (visiting : List String) (node : String) (parents : List String) (graph : Graph)
    → contains visiting node ≡ false
    → find_parents node graph ≡ some parents
    → open_nodes (node ∷ visiting) graph < open_nodes visiting graph
open_nodes-lt visiting node parents [] o f = cc
open_nodes-lt visiting node parents ((key, ps) ∷ graph) o f = elim (Bool-cases (key == node)) [
  | inl here ↦
      let fresh =
        subst (λ n. contains visiting n ≡ false) (sym ((string_eq.same_key_iff key node).0 here))
          o in
      let entered : is_open (node ∷ visiting) key ≡ 0 =
        rw ((string_eq.same_key_iff key node).0 here, ==-refl node) refl in
      let was_open : is_open visiting key ≡ 1 = rw fresh refl in
      omega (arith, entered, was_open, open_nodes-le visiting node graph)
  | inr there ↦ omega (
    arith,
    is_open-le visiting node key,
    open_nodes-lt visiting node parents graph o (rw there at f),
  )
]

open_nodes-all : (graph : Graph) → open_nodes [] graph ≡ length graph
open_nodes-all [] = refl
open_nodes-all ((key, parents) ∷ graph) = omega (arith, open_nodes-all graph)

-- An answer within the fuel.
abbrev Answers : Visit → Type 0
Answers found = (out : Bool × List String) × (found ≡ some out)

after :
    (found : Bool × List String) (next : List String → Visit)
    → ((v : List String) → Answers (next v))
    → Answers (unless_found (some found) next)
after (true, v) next h = ((true, v), refl)
after (false, v) next h = h v

any_visit-Answers :
    (visit_one : List String → String → Visit)
    → ((visited : List String) (node : String) → Answers (visit_one visited node))
    → (visited parents : List String) → Answers (any_visit visit_one visited parents)
unfolding any_visit
any_visit-Answers visit_one one visited [] = ((false, visited), refl)
any_visit-Answers visit_one one visited (parent ∷ parents) =
    let (found, e) = one visited parent in
    rw e (
      after found (λ v. any_visit visit_one v parents)
        (λ v. any_visit-Answers visit_one one v parents))

visit-Answers :
    (fuel : ℕ) (graph : Graph) (visiting visited : List String) (node : String)
    → open_nodes visiting graph < fuel
    → Answers (visit fuel graph visiting visited node)
unfolding visit
visit-Answers zero graph visiting visited node h = absurd (omega arith)
visit-Answers (suc fuel) graph visiting visited node h =
    elim (Bool-cases (contains visiting node)) [
      | inl on ↦ ((true, visited), rw on refl)
      | inr off ↦ elim (Bool-cases (contains visited node)) [
        | inl seen ↦ ((false, visited), rw (off, seen) refl)
        | inr new ↦ elim (Option-cases (find_parents node graph)) [
          | inl absent ↦ ((false, visited), rw (off, new, absent) refl)
          | inr (parents, f) ↦
              let less = open_nodes-lt visiting node parents graph off f in
              let (found, e) =
                any_visit-Answers (visit fuel graph (node ∷ visiting))
                  (λ v n. visit-Answers fuel graph (node ∷ visiting) v n (omega (arith, less, h)))
                  visited parents in
              ((found.0, node ∷ found.1), rw (off, new, f, e) refl)
        ]
      ]
    ]

-- The search always answers.
pub search-answers : (graph : Graph) → (out : Bool × List String) × (search graph ≡ some out)
unfolding search
search-answers graph =
    any_visit-Answers (visit (suc (length graph)) graph [])
      (λ visited node.
        visit-Answers (suc (length graph)) graph [] visited node
          (omega (arith, open_nodes-all graph)))
      [] (nodes graph)
