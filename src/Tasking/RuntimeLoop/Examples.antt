-- ===== src/Tasking/RuntimeLoop/Examples.antt =====
-- A run of two proposals, of which one cannot be bound.
use knowledage_base_assistan.Prelude.{
  ℕ, [], ◌∷◌, ok, raise, value_error, if◌then◌else◌, nat_eq, ◌==◌, Uuid,
}
use knowledage_base_assistan.Tasking.RuntimeLoop.Attempts.{
  Names, Source, ActionExecutionOutcome, adopted,
}
use knowledage_base_assistan.Tasking.RuntimeLoop.Run.{Ports}

abbrev names : Names ℕ
names = record {
  action_attempt_id = λ p. p;
  observation_id = λ task event ordinal. ordinal;
  observation_digest = λ o. "digest";
  error_text = λ e. "TOOL_UNKNOWN";
  len = λ t. 12;
  cut_to_128 = λ t. t;
}

abbrev source : Source
source = record {
  task_id = 7;
  source_event_id = 70;
  source_event_sequence = 1;
  source_plan_version = 1;
  now = 100;
}

abbrev outcome : Uuid → ActionExecutionOutcome
outcome id = record {
  terminal_state = adopted;
  adopted_refs = record { ref_id = 9; version = 1; integrity_digest = "d" } ∷ [];
  reason_code = "";
  progress_delta_kinds = "NEW_EVIDENCE" ∷ [];
  regressed_refs = [];
}

abbrev ports : Ports ℕ ℕ
ports = record {
  propose = 1 ∷ 2 ∷ [];
  bind_action = λ p n. if p == 2 then raise (value_error "TOOL_UNKNOWN") else ok p;
  execute = λ b id. outcome id;
}
