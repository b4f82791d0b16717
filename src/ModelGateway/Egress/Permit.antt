-- ===== src/ModelGateway/Egress/Permit.antt =====
-- The permit as a contract and as a row, and the comparison of a request's body with it.
use knowledage_base_assistan.Prelude.{
  nat_eq, string_eq, ◌==◌, ◌>>◌, ℕ, String, Uuid, Bool, true, false, not, ◌&&◌, Option, none, some,
  is_some, if◌then◌else◌, leb, ltb, opt_beq, Result, ok, require, value_error,
}
use knowledage_base_assistan.ModelGateway.CallState.{ModelCallState}

pub data EgressPermitStatus : Type 0 where
  ready : EgressPermitStatus
  admitted : EgressPermitStatus
  secret_read : EgressPermitStatus
  revoked : EgressPermitStatus
  expired : EgressPermitStatus

abbrev pub is_ready : EgressPermitStatus → Bool
is_ready ready = true
is_ready _ = false

abbrev pub is_admitted : EgressPermitStatus → Bool
is_admitted admitted = true
is_admitted _ = false

pub record EgressBodyDigest : Type 0 where
  pub model_id : String
  pub model_revision : String
  pub parameters_digest : String
  pub schema_digest : Option String
  pub input_digest : String

pub record EgressPermit : Type 0 where
  pub model_call_id : Uuid
  pub route_ref : String
  pub provider_model : String
  pub secret_ref : String
  pub secret_version : ℕ
  pub body : EgressBodyDigest
  pub authorization_version : ℕ
  pub execution_generation : ℕ
  pub cancellation_generation : ℕ
  pub status : EgressPermitStatus
  pub expires_at : ℕ
  pub admitted_at : Option ℕ
  pub secret_read_at : Option ℕ
  pub row_version : ℕ
  pub created_at : ℕ

abbrev pub lifecycle_ok : EgressPermitStatus → Option ℕ → Option ℕ → Bool
lifecycle_ok ready admitted_at secret_read_at =
    not (is_some admitted_at) && not (is_some secret_read_at)
lifecycle_ok admitted admitted_at secret_read_at =
    is_some admitted_at && not (is_some secret_read_at)
lifecycle_ok secret_read admitted_at secret_read_at = is_some admitted_at && is_some secret_read_at
lifecycle_ok _ admitted_at secret_read_at = not (is_some secret_read_at)

-- `validate_lifecycle_timestamps`; every time here has a time zone.
unfoldable pub validate_lifecycle_timestamps : EgressPermit → Result EgressPermit
validate_lifecycle_timestamps p =
    require (not (leb p.expires_at p.created_at)) (value_error "EGRESS_PERMIT_EXPIRY_INVALID")
    >> (require (lifecycle_ok p.status p.admitted_at p.secret_read_at)
          (value_error "EGRESS_PERMIT_LIFECYCLE_INVALID")
        >> ok p)

-- A row of `egress_permit`.
pub record EgressPermitRecord : Type 0 where
  pub model_call_id : Uuid
  pub route_ref : String
  pub provider_model : String
  pub secret_ref : String
  pub secret_version : ℕ
  pub model_revision : String
  pub parameters_digest : String
  pub schema_digest : Option String
  pub input_digest : String
  pub authorization_version : ℕ
  pub execution_generation : ℕ
  pub cancellation_generation : ℕ
  pub status : EgressPermitStatus
  pub expires_at : ℕ
  pub admitted_at : Option ℕ
  pub secret_read_at : Option ℕ
  pub row_version : ℕ
  pub created_at : ℕ
  pub updated_at : ℕ

-- What the permits read of a model call.
pub record ModelCall : Type 0 where
  pub id : Uuid
  pub status : ModelCallState
  pub authorization_version : ℕ
  pub execution_generation : ℕ
  pub cancellation_generation : ℕ
  pub approved_model_id : String
  pub approved_model_revision : String

-- The row constraints; those on the form of digests and on the provider hold by the types.
unfoldable pub permit_allowed : EgressPermitRecord → Bool
permit_allowed p =
    leb 1 p.secret_version
    && leb 1 p.authorization_version
    && leb 1 p.execution_generation
    && leb 1 p.row_version
    && ltb p.created_at p.expires_at
    && lifecycle_ok p.status p.admitted_at p.secret_read_at

-- `verify_egress_projection`
unfoldable pub verify_egress_projection : EgressBodyDigest → EgressBodyDigest → Option String
verify_egress_projection approved actual =
    if not (actual.model_id == approved.model_id)
    then some "EGRESS_PROJECTION_MISMATCH:MODEL_ID"
    else if not (actual.model_revision == approved.model_revision)
    then some "EGRESS_PROJECTION_MISMATCH:MODEL_REVISION"
    else if not (actual.parameters_digest == approved.parameters_digest)
    then some "EGRESS_PROJECTION_MISMATCH:PARAMETERS"
    else if not (opt_beq actual.schema_digest approved.schema_digest)
    then some "EGRESS_PROJECTION_MISMATCH:SCHEMA"
    else if not (actual.input_digest == approved.input_digest)
    then some "EGRESS_PROJECTION_MISMATCH:INPUT"
    else none
