-- ===== src/Tasking/PlanRelations/Exact.antt =====
-- The search reports a cycle exactly if there is one.
use knowledage_base_assistan.Prelude.{
  nat_eq, string_eq, ◌==◌, suc, String, Bool, true, false, ◌≡◌, ◌↔◌, refl, sym, subst, List, [],
  ◌∷◌, length, some, contains, Bool-cases, inl, inr,
}
use knowledage_base_assistan.Tasking.PlanRelations.{
  Graph, find_parents, nodes, visit, search, has_cycle,
}
use knowledage_base_assistan.Tasking.PlanRelations.Terminates.{search-answers}
use knowledage_base_assistan.Tasking.PlanRelations.Cycles.{
  Edge, Depends, directly, through, HasCycle, visit-HasCycle, any_visit-HasCycle, same_text,
  or_true,
}
use knowledage_base_assistan.Tasking.PlanRelations.Acyclic.{
  Done, Layered, any_visit-Good, visit-Good,
}

module _ (graph : Graph) where
  abbrev Parents : String → Type 0
  Parents a = (parents : List String) × (find_parents a graph ≡ some parents)

  Depends-Parents : {a b : String} → Depends graph a b → Parents a
  Depends-Parents (directly (parents, f, m)) = (parents, f)
  Depends-Parents (through (parents, f, m) d) = (parents, f)

  Done-here :
      (visited : List String) (b : String)
      → Done graph visited b
      → Parents b
      → contains visited b ≡ true
  Done-here visited b (inl here) p = here
  Done-here visited b (inr absent) p = let found = p.1 in cc

  settled-Edge :
      (visited parents : List String) (x a b : String)
      → (x == a) ≡ true
      → find_parents x graph ≡ some parents
      → ((p : String) → contains parents p ≡ true → Done graph visited p)
      → Edge graph a b
      → Done graph visited b
  settled-Edge visited parents x a b here f d (ps, g, m) =
      let f' = subst (λ n. find_parents n graph ≡ some parents) (same_text x a here) f in
      let same : parents ≡ ps = cc in d b (subst (λ qs. contains qs b ≡ true) (sym same) m)

  Done-further :
      (visited : List String) (x b : String) → Done graph visited b → Done graph (x ∷ visited) b
  Done-further visited x b (inl here) = inl (rw here (or_true (x == b)))
  Done-further visited x b (inr absent) = inr absent

  Edge-Done :
      (visited : List String) (a b : String)
      → Layered graph visited
      → contains visited a ≡ true
      → Edge graph a b
      → Done graph visited b
  Edge-Done [] a b l h e = cc
  Edge-Done (x ∷ visited) a b l h e = elim (Bool-cases (x == a)) [
    | inl here ↦ Done-further visited x b (settled-Edge visited l.0.0 x a b here l.0.1 l.0.2 e)
    | inr there ↦ Done-further visited x b (Edge-Done visited a b l.1 (rw there at h) e)
  ]

  chain_within :
      (visited : List String) {a b : String}
      → Layered graph visited
      → contains visited a ≡ true
      → Depends graph a b
      → Parents b
      → contains visited b ≡ true
  chain_within visited l h (directly {a = a} {b = b} e) p =
      Done-here visited b (Edge-Done visited a b l h e) p
  chain_within visited l h (through {a = a} {b = b} e d) p =
      chain_within visited l (Done-here visited b (Edge-Done visited a b l h e) (Depends-Parents d))
        d p

  back_within :
      (visited parents : List String) (x : String) {a c : String}
      → Layered graph visited
      → (x == a) ≡ true
      → find_parents x graph ≡ some parents
      → ((p : String) → contains parents p ≡ true → Done graph visited p)
      → Depends graph a c
      → Parents c
      → contains visited c ≡ true
  back_within visited parents x l here f d (directly {a = a} {b = b} e) p =
      Done-here visited b (settled-Edge visited parents x a b here f d e) p
  back_within visited parents x l here f d (through {a = a} {b = b} e c) p =
      chain_within visited l
        (Done-here visited b (settled-Edge visited parents x a b here f d e) (Depends-Parents c)) c
        p

  no_chain :
      (visited : List String) (a : String)
      → Layered graph visited
      → contains visited a ≡ true
      → Depends graph a a
      → ⊥
  no_chain [] a l h d = cc
  no_chain (x ∷ visited) a l h d =
      no_chain visited a l.1
        (elim (Bool-cases (x == a)) [
          | inl here ↦ back_within visited l.0.0 x l.1 here l.0.1 l.0.2 d (Depends-Parents d)
          | inr there ↦ rw there at h
        ])
        d

  contains-nodes :
      (g : Graph) (a : String) (parents : List String)
      → find_parents a g ≡ some parents
      → contains (nodes g) a ≡ true
  contains-nodes [] a parents h = cc
  contains-nodes ((key, ps) ∷ g) a parents h = elim (Bool-cases (key == a)) [
    | inl here ↦ rw here refl
    | inr there ↦ rw there (contains-nodes g a parents (rw there at h))
  ]

  searched :
      (out : Bool × List String)
      → search graph ≡ some out
      → (out.0 ≡ true → HasCycle graph) × (HasCycle graph → out.0 ≡ true)
  unfolding search
  searched (true, found) h = (
    λ yes_.
        any_visit-HasCycle graph (visit (suc (length graph)) graph []) [] (nodes graph) found
          (λ v p f m k. visit-HasCycle graph (suc (length graph)) [] v p f tt k) h,
    λ cycle. refl,
  )
  searched (false, found) h = (
    λ no_. cc,
    λ cycle.
        let (l, (d, g)) =
          any_visit-Good graph (visit (suc (length graph)) graph [])
            (λ v p f k r. visit-Good graph (suc (length graph)) [] v p f k r) [] (nodes graph) found
            tt h in
        let parents = Depends-Parents cycle.1 in
        absurd (
          no_chain found cycle.0 l
            (Done-here found cycle.0 (d cycle.0 (contains-nodes graph cycle.0 parents.0 parents.1))
              parents)
            cycle.1),
  )

-- For any graph of dependencies the search answers, and it reports a cycle exactly if some node
-- depends on itself through one dependency or more.
pub has_cycle_iff : (graph : Graph) → (has_cycle graph ≡ true) ↔ ((a : String) × Depends graph a a)
unfolding has_cycle
has_cycle_iff graph =
    let (out, e) = search-answers graph in
    let (forth, back) = searched graph out e in (λ h. forth (rw e at h), λ cycle. rw e (back cycle))
