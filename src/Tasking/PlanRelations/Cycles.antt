-- ===== src/Tasking/PlanRelations/Cycles.antt =====
-- Chains of dependencies, and that a reported cycle is one.
use knowledage_base_assistan.Prelude.{
  nat_eq, string_eq, ◌==◌, ==-refl, ℕ, zero, suc, String, Bool, true, false, ◌||◌, ◌≡◌, ◌⊎◌, refl,
  subst, List, [], ◌∷◌, none, some, contains, Bool-cases, Option-cases, inl, inr,
}
use knowledage_base_assistan.Tasking.PlanRelations.{
  Graph, find_parents, Visit, any_visit, unless_found, leave, visit,
}

-- One dependency, and a chain of one or more.
abbrev pub Edge : Graph → String → String → Type 0
Edge graph a b =
    (parents : List String) × (find_parents a graph ≡ some parents) × (contains parents b ≡ true)

pub data Depends (graph : Graph) : String → String → Type 0 where
  directly : {a b : String} → Edge graph a b → Depends graph a b
  through : {a b c : String} → Edge graph a b → Depends graph b c → Depends graph a c

Depends-trans :
    {graph : Graph} {a b c : String} → Depends graph a b → Depends graph b c → Depends graph a c
Depends-trans (directly e) d = through e d
Depends-trans (through e d') d = through e (Depends-trans d' d)

pub same_text : (a b : String) → (a == b) ≡ true → a ≡ b
same_text a b h = (string_eq.same_key_iff a b).0 h

found-true :
    (o : Visit) (next : List String → Visit) (f : List String)
    → unless_found o next ≡ some (true, f)
    → (o ≡ some (true, f)) ⊎ ((v : List String) × (next v ≡ some (true, f)))
found-true none next f h = cc
found-true (some (true, v)) next f h = inl h
found-true (some (false, v)) next f h = inr (v, h)

pub found-false :
    (o : Visit) (next : List String → Visit) (f : List String)
    → unless_found o next ≡ some (false, f)
    → (v : List String) × (o ≡ some (false, v)) × (next v ≡ some (false, f))
found-false none next f h = cc
found-false (some (true, v)) next f h = cc
found-false (some (false, v)) next f h = (v, refl, h)

pub leave-inv :
    (node : String) (o : Visit) (b : Bool) (f : List String)
    → leave node o ≡ some (b, f)
    → (v : List String) × (o ≡ some (b, v)) × (f ≡ node ∷ v)
leave-inv node none b f h = cc
leave-inv node (some (c, v)) b f h = (v, cc, cc)

pub or_true : (b : Bool) → (b || true) ≡ true
or_true true = refl
or_true false = refl

module _ (graph : Graph) where
  -- What is being visited is a chain that leads to the node.
  abbrev pub Leads : List String → String → Type 0
  Leads [] node = Unit
  Leads (s ∷ visiting) node = Edge graph s node × Leads visiting s

  Leads-Depends :
      (visiting : List String) (node x : String)
      → Leads visiting node
      → contains visiting x ≡ true
      → Depends graph x node
  Leads-Depends [] node x l h = cc
  Leads-Depends (s ∷ visiting) node x l h = elim (Bool-cases (s == x)) [
    | inl here ↦ subst (λ y. Depends graph y node) (same_text s x here) (directly l.0)
    | inr there ↦ Depends-trans (Leads-Depends visiting s x l.1 (rw there at h)) (directly l.0)
  ]

  abbrev pub HasCycle : Type 0
  HasCycle = (a : String) × Depends graph a a

  pub any_visit-HasCycle :
      (visit_one : List String → String → Visit) (visited parents found : List String)
      → ((v : List String) (p : String) (f : List String)
          → contains parents p ≡ true
          → visit_one v p ≡ some (true, f)
          → HasCycle)
      → any_visit visit_one visited parents ≡ some (true, found)
      → HasCycle
  unfolding any_visit
  any_visit-HasCycle visit_one visited [] found one h = cc
  any_visit-HasCycle visit_one visited (p ∷ parents) found one h =
      elim (found-true (visit_one visited p) (λ v. any_visit visit_one v parents) found h) [
        | inl first ↦ one visited p found (rw (==-refl p) refl) first
        | inr (v, later) ↦
            any_visit-HasCycle visit_one v parents found
              (λ w q f m. one w q f (rw m (or_true (p == q)))) later
      ]

  pub visit-HasCycle :
      (fuel : ℕ) (visiting visited : List String) (node : String) (found : List String)
      → Leads visiting node
      → visit fuel graph visiting visited node ≡ some (true, found)
      → HasCycle
  unfolding visit
  visit-HasCycle zero visiting visited node found l h = cc
  visit-HasCycle (suc fuel) visiting visited node found l h =
      elim (Bool-cases (contains visiting node)) [
        | inl on ↦ (node, Leads-Depends visiting node node l on)
        | inr off ↦ elim (Bool-cases (contains visited node)) [
          | inl seen ↦ let bad = rw (off, seen) at h in cc
          | inr new ↦ elim (Option-cases (find_parents node graph)) [
            | inl absent ↦ let bad = rw (off, new, absent) at h in cc
            | inr (parents, f) ↦
                let (v, e, same) =
                  leave-inv node (any_visit (visit fuel graph (node ∷ visiting)) visited parents)
                    true found (rw (off, new, f) at h) in
                any_visit-HasCycle (visit fuel graph (node ∷ visiting)) visited parents v
                  (λ w p g m k. visit-HasCycle fuel (node ∷ visiting) w p g ((parents, f, m), l) k)
                  e
          ]
        ]
      ]
