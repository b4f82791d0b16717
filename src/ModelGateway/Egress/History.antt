-- ===== src/ModelGateway/Egress/History.antt =====
-- Whole histories of transactions on the permits.
use knowledage_base_assistan.Prelude.{
  nat_eq, string_eq, ◌==◌, ℕ, ◌+◌, ◌≤◌, Uuid, true, ◌&&◌, ◌≡◌, refl, subst, inl, inr, List, [], ◌∷◌,
  ◌++◌, Option, none, some, Bool-cases, arith, Result, ok, raise, >>=-eq-ok, require-then,
  ok-injective, sum_by, given,
}
use knowledage_base_assistan.ModelGateway.Egress.Permit.{
  EgressPermit, EgressPermitRecord, is_ready, permit_allowed,
}
use knowledage_base_assistan.ModelGateway.Egress.Repository.{
  EgressDb, find_permit, find_call, issue_ready, insert_permit, values_of_permit,
  EgressPermitIssueDisposition, same_issued_facts, require_call_snapshot,
}
use knowledage_base_assistan.ModelGateway.Egress.Admission.{admit, authorize}
use knowledage_base_assistan.ModelGateway.Egress.Rows.{find-append_same, find-append_other}
use knowledage_base_assistan.ModelGateway.Egress.OneShot.{
  Phase, absent, issued, opened, Event, nothing, admission, reading, may_go, phase, phase_of_row,
  Transaction, issues, admission_of, reading_of, changes, commit, observed, commit_list,
  observed_list, Run, done, goes, tables_after,
}
use knowledage_base_assistan.ModelGateway.Egress.Refines.{
  stays, admit_locked-goes, authorize_locked-goes,
}

tables_after-ind {ℓ κ} :
    {R : Type ℓ} (P : EgressDb → Type κ) (db : EgressDb) (out : Result (EgressDb × R))
    → P db
    → ((q : EgressDb × R) → out ≡ ok q → P q.0)
    → P (tables_after db out)
tables_after-ind P db (ok q) keep step = step q refl
tables_after-ind P db (raise e) keep step = keep

module _ (id : Uuid) (db : EgressDb) where
  append-goes :
      (r : EgressPermitRecord)
      → find_permit r.model_call_id db.permits ≡ none
      → is_ready r.status ≡ true
      → may_go (phase id db) nothing (phase_of_row (find_permit id (db.permits ++ r ∷ []))) ≡ true
  append-goes r f h = elim (Bool-cases (r.model_call_id == id)) [
    | inl here ↦
        subst
          (λ i.
            may_go (phase i db) nothing (phase_of_row (find_permit i (db.permits ++ r ∷ [])))
            ≡ true)
          ((nat_eq.same_key_iff r.model_call_id id).0 here)
          (rw (f, find-append_same r db.permits f) (ground arith))
    | inr other ↦ rw (find-append_other id r db.permits other) (stays (phase id db))
  ]

  insert-goes :
      (p : EgressPermit) (found : Option EgressPermitRecord)
      (q : EgressDb × EgressPermitIssueDisposition)
      → is_ready p.status ≡ true
      → find_permit p.model_call_id db.permits ≡ found
      → insert_permit db p found ≡ ok q
      → may_go (phase id db) nothing (phase id q.0) ≡ true
  unfolding insert_permit values_of_permit
  insert-goes p (some existing) q r f h =
      let (same, out) = require-then (same_issued_facts existing p) _ _ h in
      subst
        (λ (d : EgressDb × EgressPermitIssueDisposition).
          may_go (phase id db) nothing (phase id d.0) ≡ true)
        (ok-injective out) (stays (phase id db))
  insert-goes p none q r f h =
      let (allowed, out) = require-then (permit_allowed (values_of_permit p)) _ _ h in
      subst
        (λ (d : EgressDb × EgressPermitIssueDisposition).
          may_go (phase id db) nothing (phase id d.0) ≡ true)
        (ok-injective out) (append-goes (values_of_permit p) f r)

  issue_ready-goes :
      (p : EgressPermit) (q : EgressDb × EgressPermitIssueDisposition)
      → issue_ready db p ≡ ok q
      → may_go (phase id db) nothing (phase id q.0) ≡ true
  unfolding issue_ready
  issue_ready-goes p q h =
      let (fresh, h1) = require-then (is_ready p.status && p.row_version == 1) _ _ h in
      let (call, c, h2) = >>=-eq-ok (given _ (find_call p.model_call_id db.model_calls)) _ h1 in
      let (u, s, h3) = >>=-eq-ok (require_call_snapshot call p) _ h2 in
      insert-goes p (find_permit p.model_call_id db.permits) q (ground arith) refl h3

  commit-goes :
      (t : Transaction) → may_go (phase id db) (observed id db t) (phase id (commit db t)) ≡ true
  unfolding commit observed admit authorize
  commit-goes (issues p) =
      tables_after-ind (λ d. may_go (phase id db) nothing (phase id d) ≡ true) db (issue_ready db p)
        (stays (phase id db)) (issue_ready-goes p)
  commit-goes (admission_of now request) = admit_locked-goes db id now request _ _ refl
  commit-goes (reading_of now request) = authorize_locked-goes db id now request _ _ refl
  commit-goes (changes calls) = stays (phase id db)

-- The tables implement the promise of a permit: whatever transactions are committed, in whatever
-- order and with whatever requests, and however the model calls change in between, what is let
-- through for a model call is a run of its permit from its phase before to its phase after.
pub commit_list-Run :
    (id : Uuid) (ts : List Transaction) (db : EgressDb)
    → Run (phase id db) (observed_list id db ts) (phase id (commit_list db ts))
unfolding commit_list observed_list
commit_list-Run id [] db = done
commit_list-Run id (t ∷ ts) db = goes (commit-goes id db t) (commit_list-Run id ts (commit db t))

abbrev pub is_admission : Event → ℕ
is_admission admission = 1
is_admission _ = 0

abbrev pub is_reading : Event → ℕ
is_reading reading = 1
is_reading _ = 0

-- What a phase still allows.
abbrev admissions_left : Phase → ℕ
admissions_left absent = 1
admissions_left issued = 1
admissions_left _ = 0

abbrev readings_left : Phase → ℕ
readings_left opened = 1
readings_left _ = 0

abbrev Within : Phase → List Event → Type 0
Within x es =
    (sum_by is_admission es ≤ admissions_left x)
    × (sum_by is_reading es ≤ readings_left x + sum_by is_admission es)

go-Within :
    (x y : Phase) (e : Event) (es : List Event)
    → may_go x e y ≡ true
    → Within y es
    → Within x (e ∷ es)
go-Within x y e es h w = ground arith

Run-Within : {x y : Phase} {es : List Event} → Run x es y → Within x es
Run-Within done = (omega arith, omega arith)
Run-Within (goes {x = x} {y = y} {e = e} {es = es} h r) = go-Within x y e es h (Run-Within r)

-- A model call without a permit is admitted at most once, and its secret is read at most as often as
-- it was admitted, whatever transactions are committed.
pub one_shot :
    (id : Uuid) (ts : List Transaction) (db : EgressDb)
    → find_permit id db.permits ≡ none
    → (sum_by is_admission (observed_list id db ts) ≤ 1)
      × (sum_by is_reading (observed_list id db ts) ≤ sum_by is_admission (observed_list id db ts))
one_shot id ts db f =
    let within = rw f at (Run-Within (commit_list-Run id ts db)) in
    (within.0, omega (arith, within.1))
