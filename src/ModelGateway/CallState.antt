-- ===== src/ModelGateway/CallState.antt =====
-- modules/model_gateway/domain/call_state.py: the states of one controlled model call.
pub mod Paths
use knowledage_base_assistan.Prelude.{
  Bool, true, false, Result, require, state_violation, if◌then◌else◌,
}

pub data ModelCallState : Type 0 where
  accepted sending streaming completed failed cancelled unknown : ModelCallState

-- `state in TERMINAL_STATES`
unfoldable pub is_terminal : ModelCallState → Bool
is_terminal completed = true
is_terminal failed = true
is_terminal cancelled = true
is_terminal unknown = true
is_terminal _ = false

-- `target in _TRANSITIONS[current]`. A terminal state has no entry there; `can_transition`
-- returns before it looks one up, so the catch-all is read for the listed states only.
in_transitions : ModelCallState → ModelCallState → Bool
in_transitions accepted sending = true
in_transitions sending streaming = true
in_transitions sending completed = true
in_transitions sending failed = true
in_transitions sending cancelled = true
in_transitions sending unknown = true
in_transitions streaming completed = true
in_transitions streaming failed = true
in_transitions streaming cancelled = true
in_transitions streaming unknown = true
in_transitions _ _ = false

unfoldable pub can_transition : ModelCallState → ModelCallState → Bool
unfolding is_terminal in_transitions
can_transition current target = if is_terminal current then false else in_transitions current target

unfoldable pub require_transition : ModelCallState → ModelCallState → Result (Unit {0})
unfolding can_transition
require_transition current target =
    require (can_transition current target) (state_violation "MODEL_CALL_STATE_TRANSITION_INVALID")
