-- ===== src/ModelGateway/Egress/Admission.antt =====
-- `admit` and `authorize` of infrastructure/persistence/egress_permit_repository.py.
use knowledage_base_assistan.Prelude.{
  nat_eq, string_eq, ◌==◌, ℕ, String, Uuid, Bool, true, false, not, ◌&&◌, Option, none, some,
  if◌then◌else◌, leb,
}
use knowledage_base_assistan.ModelGateway.Egress.Permit.{
  EgressPermitRecord, admitted, secret_read, is_ready, is_admitted, EgressBodyDigest, ModelCall,
  verify_egress_projection,
}
use knowledage_base_assistan.ModelGateway.Egress.Repository.{
  EgressDb, find_call, find_permit, current_call_rejection, body_from_record, with_status, expire,
  store,
}

pub record EgressAdmissionRequest : Type 0 where
  pub model_call_id : Uuid
  pub route_ref : String
  pub body : EgressBodyDigest

pub record EgressExecutionPermit : Type 0 where
  pub provider_model : String
  pub secret_ref : String
  pub secret_version : ℕ

-- `EgressAdmissionDecisionV1`, in the two shapes that `admit` gives it.
pub data EgressAdmissionDecision : Type 0 where
  admits : EgressExecutionPermit → EgressAdmissionDecision
  rejects : String → EgressAdmissionDecision

abbrev pub or_else : Option String → Option String → Option String
or_else none next = next
or_else (some reason) next = some reason

-- The reasons that leave the permit as it is.
unfoldable pub admission_reason :
    EgressAdmissionRequest → ModelCall → EgressPermitRecord → Option String
admission_reason request call permit = or_else (current_call_rejection call permit) (
    or_else
      (if not (request.route_ref == permit.route_ref) then some "EGRESS_ROUTE_MISMATCH" else none)
      (verify_egress_projection (body_from_record permit) request.body))

unfoldable pub admit_unopposed :
    EgressDb → ℕ → EgressPermitRecord → EgressDb × EgressAdmissionDecision
admit_unopposed db now permit =
    if leb permit.expires_at now
    then (store db (expire now permit), rejects "EGRESS_PERMIT_EXPIRED")
    else if not (is_ready permit.status)
    then (db, rejects "EGRESS_PERMIT_ALREADY_USED")
    else (
      store db (with_status admitted (some now) permit.secret_read_at now permit),
      admits (record {
        provider_model = permit.provider_model;
        secret_ref = permit.secret_ref;
        secret_version = permit.secret_version;
      }),
    )

unfoldable pub admit_for :
    EgressDb → ℕ → EgressPermitRecord → Option String → EgressDb × EgressAdmissionDecision
admit_for db now permit none = admit_unopposed db now permit
admit_for db now permit (some reason) = (db, rejects reason)

unfoldable pub admit_locked :
    EgressDb
    → ℕ
    → EgressAdmissionRequest
    → Option ModelCall
    → Option EgressPermitRecord
    → EgressDb × EgressAdmissionDecision
admit_locked db now request (some call) (some permit) =
    admit_for db now permit (admission_reason request call permit)
admit_locked db now request _ _ = (db, rejects "EGRESS_PERMIT_NOT_FOUND")

-- `admit`
unfoldable pub admit : EgressDb → ℕ → EgressAdmissionRequest → EgressDb × EgressAdmissionDecision
admit db now request =
    admit_locked db now request (find_call request.model_call_id db.model_calls)
      (find_permit request.model_call_id db.permits)

pub record ProviderSecretReadRequest : Type 0 where
  pub model_call_id : Uuid
  pub route_ref : String
  pub secret_ref : String
  pub secret_version : ℕ

unfoldable pub may_read : ProviderSecretReadRequest → EgressPermitRecord → Bool
may_read request permit =
    is_admitted permit.status
    && request.route_ref == permit.route_ref
    && request.secret_ref == permit.secret_ref
    && request.secret_version == permit.secret_version

unfoldable pub authorize_for :
    EgressDb → ℕ → ProviderSecretReadRequest → EgressPermitRecord → Option String → EgressDb × Bool
authorize_for db now request permit (some reason) = (db, false)
authorize_for db now request permit none =
    if leb permit.expires_at now
    then (store db (expire now permit), false)
    else if may_read request permit
    then (store db (with_status secret_read permit.admitted_at (some now) now permit), true)
    else (db, false)

unfoldable pub authorize_locked :
    EgressDb
    → ℕ
    → ProviderSecretReadRequest
    → Option ModelCall
    → Option EgressPermitRecord
    → EgressDb × Bool
authorize_locked db now request (some call) (some permit) =
    authorize_for db now request permit (current_call_rejection call permit)
authorize_locked db now request _ _ = (db, false)

-- `authorize`
unfoldable pub authorize : EgressDb → ℕ → ProviderSecretReadRequest → EgressDb × Bool
authorize db now request =
    authorize_locked db now request (find_call request.model_call_id db.model_calls)
      (find_permit request.model_call_id db.permits)
