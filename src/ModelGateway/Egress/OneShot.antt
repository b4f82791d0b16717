-- ===== src/ModelGateway/Egress/OneShot.antt =====
-- What a permit promises, and that the tables keep it.
use knowledage_base_assistan.Prelude.{
  nat_eq, string_eq, ◌==◌, ℕ, Uuid, Bool, true, false, ◌≡◌, List, [], ◌∷◌, Option, none, some,
  if◌then◌else◌, Result, ok, raise,
}
use knowledage_base_assistan.ModelGateway.Egress.Permit.{
  EgressPermit, EgressPermitRecord, EgressPermitStatus, ready, admitted, secret_read, ModelCall,
}
use knowledage_base_assistan.ModelGateway.Egress.Repository.{EgressDb, find_permit, issue_ready}
use knowledage_base_assistan.ModelGateway.Egress.Admission.{
  admit, EgressAdmissionRequest, EgressAdmissionDecision, admits, rejects, authorize,
  ProviderSecretReadRequest,
}

-- The promise: a permit is absent, issued, opened once, spent once, and then closed.
pub data Phase : Type 0 where
  absent issued opened spent closed : Phase

pub data Event : Type 0 where
  nothing admission reading : Event

abbrev pub may_go : Phase → Event → Phase → Bool
may_go absent nothing absent = true
may_go absent nothing issued = true
may_go issued nothing issued = true
may_go issued admission opened = true
may_go issued nothing closed = true
may_go opened nothing opened = true
may_go opened reading spent = true
may_go opened nothing closed = true
may_go spent nothing spent = true
may_go closed nothing closed = true
may_go _ _ _ = false

abbrev pub phase_of_status : EgressPermitStatus → Phase
phase_of_status ready = issued
phase_of_status admitted = opened
phase_of_status secret_read = spent
phase_of_status _ = closed

abbrev pub phase_of_row : Option EgressPermitRecord → Phase
phase_of_row none = absent
phase_of_row (some p) = phase_of_status p.status

-- What the tables say of a model call's permit.
abbrev pub phase : Uuid → EgressDb → Phase
phase id db = phase_of_row (find_permit id db.permits)

-- Transactions; the last is any change of the model calls by other code.
pub data Transaction : Type 0 where
  issues : EgressPermit → Transaction
  admission_of : ℕ → EgressAdmissionRequest → Transaction
  reading_of : ℕ → ProviderSecretReadRequest → Transaction
  changes : List ModelCall → Transaction

abbrev pub event_of_decision : EgressAdmissionDecision → Event
event_of_decision (admits p) = admission
event_of_decision (rejects reason) = nothing

abbrev pub event_of_answer : Bool → Event
event_of_answer true = reading
event_of_answer false = nothing

abbrev pub tables_after {ℓ} : {R : Type ℓ} → EgressDb → Result (EgressDb × R) → EgressDb
tables_after db (ok out) = out.0
tables_after db (raise e) = db

-- The tables after a transaction, and what was let through for a model call.
unfoldable pub commit : EgressDb → Transaction → EgressDb
commit db (issues p) = tables_after db (issue_ready db p)
commit db (admission_of now request) = (admit db now request).0
commit db (reading_of now request) = (authorize db now request).0
commit db (changes calls) = record { model_calls = calls; permits = db.permits }

unfoldable pub observed : Uuid → EgressDb → Transaction → Event
observed id db (admission_of now request) =
    if request.model_call_id == id then event_of_decision (admit db now request).1 else nothing
observed id db (reading_of now request) =
    if request.model_call_id == id then event_of_answer (authorize db now request).1 else nothing
observed id db _ = nothing

-- A run of the promise.
pub data Run : Phase → List Event → Phase → Type 0 where
  done : {x : Phase} → Run x [] x
  goes :
      {x y z : Phase} {e : Event} {es : List Event}
      → may_go x e y ≡ true
      → Run y es z
      → Run x (e ∷ es) z

unfoldable pub commit_list : EgressDb → List Transaction → EgressDb
commit_list db [] = db
commit_list db (t ∷ ts) = commit_list (commit db t) ts

unfoldable pub observed_list : Uuid → EgressDb → List Transaction → List Event
observed_list id db [] = []
observed_list id db (t ∷ ts) = observed id db t ∷ observed_list id (commit db t) ts
