-- ===== src/ModelGateway/Stream/Ending.antt =====
-- The end of a stream, against the state machine of the call.
use knowledage_base_assistan.Prelude.{
  ℕ, ◌≡◌, ◌≢◌, Bool, true, false, Option, some, none, is_some, ok, arith,
}
use knowledage_base_assistan.ModelGateway.CallState.{
  sending, streaming, completed, failed, unknown, is_terminal, require_transition,
}
use knowledage_base_assistan.ModelGateway.Usage.{
  ExactModelUsage, exact, resolve_settlement_kind, known,
}
use knowledage_base_assistan.ModelGateway.ProviderError.{ProviderError}
use knowledage_base_assistan.ModelGateway.Stream.{
  StreamTerminal, StreamNormalizerState, resolve_stream_terminal,
}

-- What the end of a stream must be, whatever the flags.
pub record EndsWell (s : StreamNormalizerState) (is_completed : Bool) (err : Option ProviderError)
    (is_cancelled : Bool) (ending : StreamTerminal) : Type 0 where
  -- it is a terminal state to which the call may go, from SENDING and from STREAMING
  pub from_sending : require_transition sending ending.status ≡ ok tt
  pub from_streaming : require_transition streaming ending.status ≡ ok tt
  pub stays : is_terminal ending.status ≡ true
  -- it is COMPLETED exactly after a clean end without error and cancellation
  pub completed_only :
      ending.status ≡ completed → (is_cancelled ≡ false) × (err ≡ none) × (is_completed ≡ true)
  pub completed_if :
      is_cancelled ≡ false → err ≡ none → is_completed ≡ true → ending.status ≡ completed
  -- an error code is given exactly for FAILED
  pub coded : ending.status ≡ failed → is_some ending.error_code ≡ true
  pub uncoded : ending.status ≢ failed → ending.error_code ≡ none
  -- the result is left open only for a stream that had not started
  pub open_only : ending.status ≡ unknown → s.stream_started ≡ false
  -- only a usage that the provider reported is settled as known
  pub usage_known : resolve_settlement_kind ending.usage ≡ known → is_some s.provider_usage ≡ true
  pub usage_exact : (u : ExactModelUsage) → s.provider_usage ≡ some u → ending.usage ≡ exact u

-- Whatever the flags, the error and the usage: the end is a terminal state to which the call may go
-- from SENDING and from STREAMING; it is COMPLETED exactly after a clean end without error and
-- cancellation; exactly FAILED carries an error code; UNKNOWN is left only for a stream that had
-- not started; and a usage is settled as known only if the provider reported it.
pub resolve_stream_terminal-EndsWell :
    (s : StreamNormalizerState) (is_completed : Bool) (err : Option ProviderError)
    (is_cancelled : Bool) (input output : Option ℕ)
    → EndsWell s is_completed err is_cancelled
        (resolve_stream_terminal s is_completed err is_cancelled input output)
unfolding resolve_stream_terminal require_transition is_terminal resolve_settlement_kind
resolve_stream_terminal-EndsWell s is_completed err is_cancelled input output = record {
  from_sending = ground arith;
  from_streaming = ground arith;
  stays = ground arith;
  completed_only = λ h. ground arith;
  completed_if = λ a b c. ground arith;
  coded = λ h. ground arith;
  uncoded = λ h. ground arith;
  open_only = λ h. ground arith;
  usage_known = λ h. ground arith;
  usage_exact = λ u h. ground arith;
}
