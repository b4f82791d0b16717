-- ===== src/ModelGateway/Egress/Examples.antt =====
-- The permits at concrete inputs: one is issued, used, and asked for again.
use knowledage_base_assistan.Prelude.{
  nat_eq, string_eq, ◌≤◌, ◌≡◌, refl, List, [], ◌∷◌, none, sum_by,
}
use knowledage_base_assistan.ModelGateway.CallState.{sending}
use knowledage_base_assistan.ModelGateway.Egress.Permit.{
  EgressPermit, EgressBodyDigest, ready, ModelCall, verify_egress_projection, permit_allowed,
}
use knowledage_base_assistan.ModelGateway.Egress.Repository.{
  EgressDb, issue_ready, current_call_rejection, body_from_record, expire, with_status,
  require_call_snapshot, insert_permit, values_of_permit, same_issued_facts,
}
use knowledage_base_assistan.ModelGateway.Egress.Admission.{
  EgressAdmissionRequest, ProviderSecretReadRequest, admit, authorize, admit_locked,
  authorize_locked, admit_for, authorize_for, admit_unopposed, admission_reason, may_read,
}
use knowledage_base_assistan.ModelGateway.Egress.OneShot.{
  Transaction, issues, admission_of, reading_of, observed_list, observed, commit, commit_list, Run,
  phase, nothing, admission, reading,
}
use knowledage_base_assistan.ModelGateway.Egress.History.{
  is_admission, is_reading, one_shot, commit_list-Run,
}

abbrev body : EgressBodyDigest
body = record {
  model_id = "qwen";
  model_revision = "r1";
  parameters_digest = "p";
  schema_digest = none;
  input_digest = "i";
}

abbrev permit : EgressPermit
permit = record {
  model_call_id = 1;
  route_ref = "route";
  provider_model = "qwen";
  secret_ref = "secret";
  secret_version = 1;
  body = body;
  authorization_version = 1;
  execution_generation = 1;
  cancellation_generation = 0;
  status = ready;
  expires_at = 100;
  admitted_at = none;
  secret_read_at = none;
  row_version = 1;
  created_at = 10;
}

abbrev call : ModelCall
call = record {
  id = 1;
  status = sending;
  authorization_version = 1;
  execution_generation = 1;
  cancellation_generation = 0;
  approved_model_id = "qwen";
  approved_model_revision = "r1";
}

abbrev request : EgressAdmissionRequest
request = record { model_call_id = 1; route_ref = "route"; body = body }

abbrev secret_request : ProviderSecretReadRequest
secret_request = record {
  model_call_id = 1;
  route_ref = "route";
  secret_ref = "secret";
  secret_version = 1;
}

abbrev empty_db : EgressDb
empty_db = record { model_calls = call ∷ []; permits = [] }

abbrev twice : List Transaction
twice =
    issues permit
    ∷ admission_of 20 request
    ∷ issues permit
    ∷ admission_of 21 request
    ∷ reading_of 22 secret_request
    ∷ reading_of 23 secret_request
    ∷ []

twice_events :
    observed_list 1 empty_db twice
    ≡ nothing ∷ admission ∷ nothing ∷ nothing ∷ reading ∷ nothing ∷ []
unfolding observed_list observed commit commit_list admit authorize admit_locked authorize_locked
    admit_for authorize_for admit_unopposed admission_reason current_call_rejection
    verify_egress_projection body_from_record expire with_status may_read issue_ready
    require_call_snapshot insert_permit permit_allowed values_of_permit same_issued_facts
twice_events = refl

commit_list-Run_example :
    Run (phase 1 empty_db) (observed_list 1 empty_db twice) (phase 1 (commit_list empty_db twice))
commit_list-Run_example = commit_list-Run 1 twice empty_db

one_shot_example :
    (sum_by is_admission (observed_list 1 empty_db twice) ≤ 1)
    × (sum_by is_reading (observed_list 1 empty_db twice)
        ≤ sum_by is_admission (observed_list 1 empty_db twice))
one_shot_example = one_shot 1 twice empty_db refl
