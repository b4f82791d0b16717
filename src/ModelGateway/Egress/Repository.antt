-- ===== src/ModelGateway/Egress/Repository.antt =====
-- `PostgresEgressPermitAuthority`: each method is one transaction, which holds the locks of the call
-- and of the permit.
use knowledage_base_assistan.Prelude.{
  nat_eq, string_eq, ◌==◌, ◌>>◌, ◌>>=◌, ℕ, ◌+◌, String, Uuid, Bool, true, false, not, ◌&&◌, ◌||◌,
  List, [], ◌∷◌, ◌++◌, Option, none, some, if◌then◌else◌, opt_beq, Result, ok, require,
  contract_error, database_error, given,
}
use knowledage_base_assistan.ModelGateway.CallState.{ModelCallState, sending}
use knowledage_base_assistan.ModelGateway.Egress.Permit.{
  EgressPermit, EgressPermitRecord, EgressPermitStatus, expired, is_ready, is_admitted,
  EgressBodyDigest, ModelCall, permit_allowed,
}

-- `workflow.model_call` and `workflow.egress_permit`, each by its primary key.
pub record EgressDb : Type 0 where
  pub model_calls : List ModelCall
  pub permits : List EgressPermitRecord

abbrev pub find_call : Uuid → List ModelCall → Option ModelCall
find_call id [] = none
find_call id (c ∷ calls) = if c.id == id then some c else find_call id calls

abbrev pub find_permit : Uuid → List EgressPermitRecord → Option EgressPermitRecord
find_permit id [] = none
find_permit id (p ∷ permits) = if p.model_call_id == id then some p else find_permit id permits

abbrev pub set_permit : EgressPermitRecord → List EgressPermitRecord → List EgressPermitRecord
set_permit p [] = []
set_permit p (q ∷ permits) =
    let rest = set_permit p permits in
    if q.model_call_id == p.model_call_id then p ∷ permits else q ∷ rest

abbrev pub is_sending : ModelCallState → Bool
is_sending sending = true
is_sending _ = false

-- `_record_values`
unfoldable pub values_of_permit : EgressPermit → EgressPermitRecord
values_of_permit p = record {
  model_call_id = p.model_call_id;
  route_ref = p.route_ref;
  provider_model = p.provider_model;
  secret_ref = p.secret_ref;
  secret_version = p.secret_version;
  model_revision = p.body.model_revision;
  parameters_digest = p.body.parameters_digest;
  schema_digest = p.body.schema_digest;
  input_digest = p.body.input_digest;
  authorization_version = p.authorization_version;
  execution_generation = p.execution_generation;
  cancellation_generation = p.cancellation_generation;
  status = p.status;
  expires_at = p.expires_at;
  admitted_at = p.admitted_at;
  secret_read_at = p.secret_read_at;
  row_version = p.row_version;
  created_at = p.created_at;
  updated_at = p.created_at;
}

-- `_same_issued_facts`
unfoldable pub same_issued_facts : EgressPermitRecord → EgressPermit → Bool
same_issued_facts r p =
    r.model_call_id == p.model_call_id
    && r.route_ref == p.route_ref
    && r.provider_model == p.provider_model
    && r.secret_ref == p.secret_ref
    && r.secret_version == p.secret_version
    && r.model_revision == p.body.model_revision
    && r.parameters_digest == p.body.parameters_digest
    && opt_beq r.schema_digest p.body.schema_digest
    && r.input_digest == p.body.input_digest
    && r.authorization_version == p.authorization_version
    && r.execution_generation == p.execution_generation
    && r.cancellation_generation == p.cancellation_generation
    && r.expires_at == p.expires_at
    && r.created_at == p.created_at

-- `_require_call_snapshot`
unfoldable pub require_call_snapshot : ModelCall → EgressPermit → Result (Unit {0})
require_call_snapshot c p =
    require (is_sending c.status) (contract_error "EGRESS_MODEL_CALL_NOT_SENDABLE")
    >> (require (c.authorization_version == p.authorization_version)
          (contract_error "EGRESS_AUTHORIZATION_VERSION_CHANGED")
        >> (require (c.execution_generation == p.execution_generation)
              (contract_error "EGRESS_EXECUTION_GENERATION_CHANGED")
            >> (require (c.cancellation_generation == p.cancellation_generation)
                  (contract_error "EGRESS_CANCELLATION_GENERATION_CHANGED")
                >> require
                    (c.approved_model_id == p.provider_model
                      && c.approved_model_revision == p.body.model_revision
                      && p.provider_model == p.body.model_id)
                    (contract_error "EGRESS_MODEL_BINDING_CHANGED"))))

pub data EgressPermitIssueDisposition : Type 0 where
  inserted : EgressPermitIssueDisposition
  idempotent_replay : EgressPermitIssueDisposition

-- insert ... on conflict do nothing, and what follows it
unfoldable pub insert_permit :
    EgressDb
    → EgressPermit
    → Option EgressPermitRecord
    → Result (EgressDb × EgressPermitIssueDisposition)
insert_permit db p (some existing) =
    require (same_issued_facts existing p) (contract_error "EGRESS_PERMIT_IDEMPOTENCY_CONFLICT")
    >> ok (db, idempotent_replay)
insert_permit db p none =
    require (permit_allowed (values_of_permit p)) database_error
    >> ok (
      record { model_calls = db.model_calls; permits = db.permits ++ values_of_permit p ∷ [] },
      inserted,
    )

unfoldable pub issue_ready :
    EgressDb → EgressPermit → Result (EgressDb × EgressPermitIssueDisposition)
issue_ready db p =
    require (is_ready p.status && p.row_version == 1)
      (contract_error "EGRESS_PERMIT_ISSUE_STATE_INVALID")
    >> (given (contract_error "EGRESS_PERMIT_MODEL_CALL_NOT_FOUND")
          (find_call p.model_call_id db.model_calls)
        >>= (λ call.
            require_call_snapshot call p
            >> insert_permit db p (find_permit p.model_call_id db.permits)))

-- `_current_call_rejection`, for a call and a permit that are there
unfoldable pub current_call_rejection : ModelCall → EgressPermitRecord → Option String
current_call_rejection c p =
    if not (is_sending c.status)
    then some "EGRESS_MODEL_CALL_NOT_SENDABLE"
    else if not (c.authorization_version == p.authorization_version)
    then some "EGRESS_AUTHORIZATION_VERSION_CHANGED"
    else if not (c.execution_generation == p.execution_generation)
    then some "EGRESS_EXECUTION_GENERATION_CHANGED"
    else if not (c.cancellation_generation == p.cancellation_generation)
    then some "EGRESS_CANCELLATION_GENERATION_CHANGED"
    else if not
        (c.approved_model_id == p.provider_model && c.approved_model_revision == p.model_revision)
    then some "EGRESS_MODEL_BINDING_CHANGED"
    else none

-- `_body_from_record`
unfoldable pub body_from_record : EgressPermitRecord → EgressBodyDigest
body_from_record p = record {
  model_id = p.provider_model;
  model_revision = p.model_revision;
  parameters_digest = p.parameters_digest;
  schema_digest = p.schema_digest;
  input_digest = p.input_digest;
}

-- The columns that a move writes.
unfoldable pub with_status :
    EgressPermitStatus → Option ℕ → Option ℕ → ℕ → EgressPermitRecord → EgressPermitRecord
with_status status admitted_at secret_read_at now p = record {
  model_call_id = p.model_call_id;
  route_ref = p.route_ref;
  provider_model = p.provider_model;
  secret_ref = p.secret_ref;
  secret_version = p.secret_version;
  model_revision = p.model_revision;
  parameters_digest = p.parameters_digest;
  schema_digest = p.schema_digest;
  input_digest = p.input_digest;
  authorization_version = p.authorization_version;
  execution_generation = p.execution_generation;
  cancellation_generation = p.cancellation_generation;
  status = status;
  expires_at = p.expires_at;
  admitted_at = admitted_at;
  secret_read_at = secret_read_at;
  row_version = p.row_version + 1;
  created_at = p.created_at;
  updated_at = now;
}

-- `_expire`
unfoldable pub expire : ℕ → EgressPermitRecord → EgressPermitRecord
expire now p =
    if is_ready p.status || is_admitted p.status
    then with_status expired p.admitted_at p.secret_read_at now p
    else p

abbrev pub store : EgressDb → EgressPermitRecord → EgressDb
store db p = record { model_calls = db.model_calls; permits = set_permit p db.permits }
