-- ===== src/Tasking/RuntimeLoop/Attempts.antt =====
-- Attempts and their observations. Proposals and bindings are of any type: nothing here reads more of
-- them than the two values that identify an attempt. `bind_action`, the executor, the name-based
-- identifiers and the digest are parameters.
use knowledage_base_assistan.Prelude.{
  nat_eq, string_eq, ◌==◌, ◌>>◌, ◌>>=◌, ℕ, ◌+◌, String, Uuid, Bool, true, false, not, ◌&&◌, ◌||◌,
  List, [], ◌∷◌, Option, none, some, if◌then◌else◌, leb, length, Result, ok, raise, Error, require,
  value_error, validation_error,
}
use knowledage_base_assistan.Tasking.RuntimeDecision.Signals.{VersionedRef}
use knowledage_base_assistan.Tasking.RuntimeDecision.Evaluate.{no_digest}

pub data ActionTerminalState : Type 0 where
  adopted not_adopted failed : ActionTerminalState

abbrev pub is_adopted : ActionTerminalState → Bool
is_adopted adopted = true
is_adopted _ = false

-- A kind of progress is its text.
pub record ActionExecutionOutcome : Type 0 where
  pub terminal_state : ActionTerminalState
  pub adopted_refs : List VersionedRef
  pub reason_code : String
  pub progress_delta_kinds : List String
  pub regressed_refs : List VersionedRef

abbrev pub is_empty {ℓ} : {A : Type ℓ} → List A → Bool
is_empty [] = true
is_empty (x ∷ xs) = false

-- `__post_init__`
unfoldable pub check_outcome : ActionExecutionOutcome → Result ActionExecutionOutcome
check_outcome o =
    require (not (is_adopted o.terminal_state && is_empty o.adopted_refs))
      (value_error "ADOPTED_OUTCOME_REQUIRES_REFS")
    >> (require (is_adopted o.terminal_state || is_empty o.adopted_refs)
          (value_error "NON_ADOPTED_OUTCOME_REFS_FORBIDDEN")
        >> ok o)

pub record ActionAttemptResult (Proposal Binding : Type 0) : Type 0 where
  pub proposal : Proposal
  pub binding : Option Binding
  pub outcome : Option ActionExecutionOutcome
  pub failure_reason : Option String

pub data ObservationPayload : Type 0 where
  action_terminal : Uuid → String → ObservationPayload
  result_adopted : List VersionedRef → ObservationPayload
  result_not_adopted : String → ObservationPayload

pub data ObservationClass : Type 0 where
  adopted_result : ObservationClass
  system_fact : ObservationClass

-- `observation_class_for`, for the sources that occur here
abbrev pub observation_class_for : ObservationPayload → ObservationClass
observation_class_for (result_adopted refs) = adopted_result
observation_class_for _ = system_fact

pub record TaskObservation : Type 0 where
  pub observation_id : Uuid
  pub task_id : Uuid
  pub source_event_id : Uuid
  pub source_event_sequence : ℕ
  pub source_ordinal : ℕ
  pub observation_class : ObservationClass
  pub source_plan_version : ℕ
  pub created_at : ℕ
  pub payload : ObservationPayload
  pub integrity_digest : String

-- What an observation says of its source besides the payload.
pub record Source : Type 0 where
  pub task_id : Uuid
  pub source_event_id : Uuid
  pub source_event_sequence : ℕ
  pub source_plan_version : ℕ
  pub now : ℕ

-- The parameters: identifiers, the digest, and the length and the cut of a text.
pub record Names (Proposal : Type 0) : Type 0 where
  pub action_attempt_id : Proposal → Uuid
  pub observation_id : Uuid → Uuid → ℕ → Uuid
  pub observation_digest : TaskObservation → String
  pub error_text : Error → String
  pub len : String → ℕ
  pub cut_to_128 : String → String

-- value or default
abbrev pub text_or : Option String → String → String
text_or none default = default
text_or (some text) default = if text == "" then default else text

module _ {Proposal : Type 0} (names : Names Proposal) where
  -- `_bounded_code`
  unfoldable pub bounded_code : Option String → String → String
  bounded_code value default =
      let code : String = text_or value default in
      if leb (names.len code) 128 then code else names.cut_to_128 code

  unfoldable pub payload_of_outcome :
      Proposal → ActionExecutionOutcome → ActionTerminalState → Result ObservationPayload
  payload_of_outcome proposal outcome adopted =
      require (leb 1 (length outcome.adopted_refs) && leb (length outcome.adopted_refs) 16)
        validation_error
      >> ok (result_adopted outcome.adopted_refs)
  payload_of_outcome proposal outcome not_adopted =
      ok (result_not_adopted (bounded_code (some outcome.reason_code) "UNSPECIFIED"))
  payload_of_outcome proposal outcome failed = ok (
      action_terminal (names.action_attempt_id proposal)
        (bounded_code (some outcome.reason_code) "UNSPECIFIED"))

  unfoldable pub observation_of : Source → ℕ → ObservationPayload → TaskObservation
  observation_of source ordinal payload =
      let draft : TaskObservation = record {
        observation_id = names.observation_id source.task_id source.source_event_id ordinal;
        task_id = source.task_id;
        source_event_id = source.source_event_id;
        source_event_sequence = source.source_event_sequence;
        source_ordinal = ordinal;
        observation_class = observation_class_for payload;
        source_plan_version = source.source_plan_version;
        created_at = source.now;
        payload = payload;
        integrity_digest = no_digest;
      } in
      record draft { integrity_digest = names.observation_digest draft }

module _ {Proposal Binding : Type 0} (names : Names Proposal) where
  unfoldable pub payload_of :
      Proposal
      → Option Binding
      → Option ActionExecutionOutcome
      → Option String
      → Result ObservationPayload
  payload_of proposal none outcome reason = ok (
      action_terminal (names.action_attempt_id proposal)
        (bounded_code names reason "BINDING_FAILED"))
  payload_of proposal (some binding) none reason =
      raise (value_error "ACTION_ATTEMPT_MISSING_OUTCOME")
  payload_of proposal (some binding) (some outcome) reason =
      payload_of_outcome names proposal outcome outcome.terminal_state

  -- `_build_observation`
  unfoldable pub build_observation :
      Source → ℕ → ActionAttemptResult Proposal Binding → Result TaskObservation
  build_observation source ordinal attempt =
      payload_of attempt.proposal attempt.binding attempt.outcome attempt.failure_reason
      >>= (λ payload.
          require (leb 1 source.source_plan_version) validation_error
          >> ok (observation_of names source ordinal payload))

  unfoldable pub observations_from :
      Source → ℕ → List (ActionAttemptResult Proposal Binding) → Result (List TaskObservation)
  observations_from source ordinal [] = ok []
  observations_from source ordinal (attempt ∷ attempts) =
      build_observation source ordinal attempt
      >>= (λ one. observations_from source (ordinal + 1) attempts >>= (λ rest. ok (one ∷ rest)))

  -- `build_action_observations`
  unfoldable pub build_action_observations :
      Source → List (ActionAttemptResult Proposal Binding) → Result (List TaskObservation)
  build_action_observations source attempts =
      require (leb 1 source.source_event_sequence)
        (value_error "OBSERVATION_SOURCE_SEQUENCE_INVALID")
      >> observations_from source 0 attempts
