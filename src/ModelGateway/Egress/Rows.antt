-- ===== src/ModelGateway/Egress/Rows.antt =====
-- Lookups of a permit after a row was replaced or added.
use knowledage_base_assistan.Prelude.{
  nat_eq, string_eq, ◌==◌, ==-refl, Uuid, false, ◌≡◌, refl, sym, subst, inl, inr, List, [], ◌∷◌,
  ◌++◌, none, some, Bool-cases,
}
use knowledage_base_assistan.ModelGateway.Egress.Permit.{EgressPermitRecord}
use knowledage_base_assistan.ModelGateway.Egress.Repository.{find_permit, set_permit}

pub find-key :
    (k : Uuid) (q : EgressPermitRecord) (ps : List EgressPermitRecord)
    → find_permit k ps ≡ some q
    → q.model_call_id ≡ k
find-key k q [] h = cc
find-key k q (p ∷ ps) h = elim (Bool-cases (p.model_call_id == k)) [
  | inl here ↦
      let found = rw here at h in let key = (nat_eq.same_key_iff p.model_call_id k).0 here in cc
  | inr there ↦ find-key k q ps (rw there at h)
]

pub find-set_same :
    (p q : EgressPermitRecord) (ps : List EgressPermitRecord)
    → find_permit p.model_call_id ps ≡ some q
    → find_permit p.model_call_id (set_permit p ps) ≡ some p
find-set_same p q [] h = cc
find-set_same p q (r ∷ ps) h = elim (Bool-cases (r.model_call_id == p.model_call_id)) [
  | inl here ↦ rw (here, ==-refl p.model_call_id) refl
  | inr there ↦ rw (there) (rw there (find-set_same p q ps (rw there at h)))
]

pub find-set_other :
    (id : Uuid) (p : EgressPermitRecord) (ps : List EgressPermitRecord)
    → (p.model_call_id == id) ≡ false
    → find_permit id (set_permit p ps) ≡ find_permit id ps
find-set_other id p [] other = refl
find-set_other id p (r ∷ ps) other = elim (Bool-cases (r.model_call_id == p.model_call_id)) [
  | inl here ↦
      let elsewhere =
        subst (λ i. (i == id) ≡ false)
          (sym ((nat_eq.same_key_iff r.model_call_id p.model_call_id).0 here)) other in
      rw here (rw (other, elsewhere) refl)
  | inr there ↦ rw there (rw (find-set_other id p ps other) refl)
]

pub find-append_same :
    (p : EgressPermitRecord) (ps : List EgressPermitRecord)
    → find_permit p.model_call_id ps ≡ none
    → find_permit p.model_call_id (ps ++ p ∷ []) ≡ some p
find-append_same p [] h = rw (==-refl p.model_call_id) refl
find-append_same p (r ∷ ps) h = elim (Bool-cases (r.model_call_id == p.model_call_id)) [
  | inl here ↦ let found = rw here at h in cc
  | inr there ↦ rw there (find-append_same p ps (rw there at h))
]

pub find-append_other :
    (id : Uuid) (p : EgressPermitRecord) (ps : List EgressPermitRecord)
    → (p.model_call_id == id) ≡ false
    → find_permit id (ps ++ p ∷ []) ≡ find_permit id ps
find-append_other id p [] other = rw other refl
find-append_other id p (r ∷ ps) other = rw (find-append_other id p ps other) refl
