-- ===== src/Tasking/PlanRelations/Acyclic.antt =====
-- A cycle is never missed: the nodes that the search is done with, in the order in which it left
-- them, depend on earlier ones only.
use knowledage_base_assistan.Prelude.{
  nat_eq, string_eq, ◌==◌, ==-refl, ℕ, zero, suc, String, true, false, ◌≡◌, ◌⊎◌, refl, sym, subst,
  List, [], ◌∷◌, none, some, contains, Bool-cases, Option-cases, inl, inr,
}
use knowledage_base_assistan.Tasking.PlanRelations.{Graph, find_parents, Visit, any_visit, visit}
use knowledage_base_assistan.Tasking.PlanRelations.Cycles.{
  found-false, leave-inv, same_text, or_true,
}

module _ (graph : Graph) where
  abbrev pub Done : List String → String → Type 0
  Done visited p = (contains visited p ≡ true) ⊎ (find_parents p graph ≡ none)

  abbrev pub Layered : List String → Type 0
  Layered [] = Unit
  Layered (x ∷ visited) =
      ((parents : List String) × (find_parents x graph ≡ some parents)
        × ((p : String) → contains parents p ≡ true → Done visited p))
      × Layered visited

  abbrev pub Grows : List String → List String → Type 0
  Grows visited found = (p : String) → contains visited p ≡ true → contains found p ≡ true

  pub Done-Grows :
      (visited found : List String) (p : String)
      → Grows visited found
      → Done visited p
      → Done found p
  Done-Grows visited found p g (inl here) = inl (g p here)
  Done-Grows visited found p g (inr absent) = inr absent

  abbrev pub Good : List String → List String → List String → Type 0
  Good visited parents found =
      Layered found
      × (((p : String) → contains parents p ≡ true → Done found p) × Grows visited found)

  Good-one :
      (visited found : List String) (node : String)
      → Layered found
      → Done found node
      → Grows visited found
      → Good visited (node ∷ []) found
  Good-one visited found node l d g = (
    l,
    (
      λ p m. elim (Bool-cases (node == p)) [
        | inl here ↦ subst (Done found) (same_text node p here) d
        | inr there ↦ let bad = rw there at m in cc
      ],
      g,
    ),
  )

  same_found : {v f : List String} → ◌≡◌ {A = Visit} (some (false, v)) (some (false, f)) → v ≡ f
  same_found h = cc

  pub any_visit-Good :
      (visit_one : List String → String → Visit)
      → ((v : List String) (p : String) (f : List String)
          → Layered v
          → visit_one v p ≡ some (false, f)
          → Good v (p ∷ []) f)
      → (visited parents found : List String) → Layered visited
      → any_visit visit_one visited parents ≡ some (false, found)
      → Good visited parents found
  unfolding any_visit
  any_visit-Good visit_one one visited [] found l h =
      subst (Good visited []) (same_found h) (l, (λ p m. cc, λ p m. m))
  any_visit-Good visit_one one visited (p ∷ parents) found l h =
      let (v, first, later) =
        found-false (visit_one visited p) (λ v. any_visit visit_one v parents) found h in
      let (l1, (d1, g1)) = one visited p v l first in
      let (l2, (d2, g2)) = any_visit-Good visit_one one v parents found l1 later in
      (
        l2,
        (
          λ q m. elim (Bool-cases (p == q)) [
            | inl here ↦ Done-Grows v found q g2 (d1 q (rw here refl))
            | inr there ↦ d2 q (rw there at m)
          ],
          λ q m. g2 q (g1 q m),
        ),
      )

  pub visit-Good :
      (fuel : ℕ) (visiting visited : List String) (node : String) (found : List String)
      → Layered visited
      → visit fuel graph visiting visited node ≡ some (false, found)
      → Good visited (node ∷ []) found
  unfolding visit
  visit-Good zero visiting visited node found l h = cc
  visit-Good (suc fuel) visiting visited node found l h =
      elim (Bool-cases (contains visiting node)) [
        | inl on ↦ let bad = rw on at h in cc
        | inr off ↦ elim (Bool-cases (contains visited node)) [
          | inl seen ↦
              subst (Good visited (node ∷ [])) (same_found (rw (off, seen) at h))
                (Good-one visited visited node l (inl seen) (λ p m. m))
          | inr new ↦ elim (Option-cases (find_parents node graph)) [
            | inl absent ↦
                subst (Good visited (node ∷ [])) (same_found (rw (off, new, absent) at h))
                  (Good-one visited visited node l (inr absent) (λ p m. m))
            | inr (parents, f) ↦
                let (v, e, same) =
                  leave-inv node (any_visit (visit fuel graph (node ∷ visiting)) visited parents)
                    false found (rw (off, new, f) at h) in
                let (l1, (d1, g1)) =
                  any_visit-Good (visit fuel graph (node ∷ visiting))
                    (λ w p g k r. visit-Good fuel (node ∷ visiting) w p g k r) visited parents v l
                    e in
                subst (Good visited (node ∷ [])) (sym same) (
                  Good-one visited (node ∷ v) node ((parents, f, d1), l1)
                    (inl (rw (==-refl node) refl)) (λ p m. rw (g1 p m) (or_true (node == p))))
          ]
        ]
      ]
