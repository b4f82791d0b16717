-- ===== src/ModelGateway/Stream.antt =====
-- modules/model_gateway/domain/stream_event.py and stream_normalizer.py: raw events of the data
-- plane, normalised to numbered model events, and the end of a stream.
pub mod Numbering
pub mod Order
pub mod Ending
use knowledage_base_assistan.Prelude.{
  ℕ, ◌+◌, String, Bool, true, false, not, ◌&&◌, List, [], ◌∷◌, ◌++◌, Option, none, some, string_eq,
  ◌==◌, contains, is_some, if◌then◌else◌,
}
use knowledage_base_assistan.ModelGateway.CallState.{ModelCallState}
use knowledage_base_assistan.ModelGateway.Usage.{ModelUsage, ExactModelUsage, exact, estimated_dev}
use knowledage_base_assistan.ModelGateway.ProviderError.{
  ProviderError, ProviderErrorCode, ProviderErrorSource, model_stream_aborted, connection, timeout,
  normalize_provider_error,
}

pub data ModelEvent : Type 0 where
  started : ℕ → ModelEvent
  delta : ℕ → String → Option String → ModelEvent
  usage : ℕ → ExactModelUsage → ModelEvent
  completed : ℕ → Option String → ModelEvent
  error : ℕ → ProviderError → ModelEvent

pub record BifrostDelta : Type 0 where
  pub chunk_id : Option String
  pub text_delta : Option String
  pub finish_reason : Option String

pub data BifrostEvent : Type 0 where
  delta_event : BifrostDelta → BifrostEvent
  usage_event : ℕ → ℕ → BifrostEvent
  error_event : Option ℕ → ProviderErrorSource → BifrostEvent

-- `seen_chunk_ids` is a set: only membership is read.
pub record StreamNormalizerState : Type 0 where
  pub sequence : ℕ
  pub stream_started : Bool
  pub finish_reason : Option String
  pub provider_usage : Option ExactModelUsage
  pub seen_chunk_ids : List String

abbrev pub initial : StreamNormalizerState
initial = record {
  sequence = 0;
  stream_started = false;
  finish_reason = none;
  provider_usage = none;
  seen_chunk_ids = [];
}

-- `chunk_id is not None and chunk_id in seen`
abbrev pub is_seen : Option String → List String → Bool
is_seen none seen = false
is_seen (some c) seen = contains seen c

-- `if text_delta`
abbrev pub has_text : Option String → Bool
has_text none = false
has_text (some t) = not (t == "")

abbrev text_of : Option String → String
text_of none = ""
text_of (some t) = t

abbrev later_reason : Option String → Option String → Option String
later_reason none old = old
later_reason (some r) old = some r

abbrev pub add_chunk : Option String → List String → List String
add_chunk none seen = seen
add_chunk (some c) seen = c ∷ seen

-- The events of a new delta: none without text, STARTED before the first text.
delta_events : BifrostDelta → ℕ → Bool → List ModelEvent
delta_events e sequence is_started =
    if has_text e.text_delta
    then (if is_started
        then delta (sequence + 1) (text_of e.text_delta) e.finish_reason ∷ []
        else started (sequence + 1)
          ∷ delta (sequence + 2) (text_of e.text_delta) e.finish_reason
          ∷ [])
    else []

next_sequence : BifrostDelta → ℕ → Bool → ℕ
next_sequence e sequence is_started =
    if has_text e.text_delta then (if is_started then sequence + 1 else sequence + 2) else sequence

unfoldable pub normalize_delta :
    BifrostDelta → StreamNormalizerState → StreamNormalizerState × List ModelEvent
unfolding delta_events next_sequence
normalize_delta e s = if is_seen e.chunk_id s.seen_chunk_ids then (s, []) else (
  record {
    sequence = next_sequence e s.sequence s.stream_started;
    stream_started = if has_text e.text_delta then true else s.stream_started;
    finish_reason = later_reason e.finish_reason s.finish_reason;
    provider_usage = s.provider_usage;
    seen_chunk_ids = add_chunk e.chunk_id s.seen_chunk_ids;
  },
  delta_events e s.sequence s.stream_started,
)

unfoldable pub normalize_usage :
    ℕ → ℕ → StreamNormalizerState → StreamNormalizerState × List ModelEvent
normalize_usage input_tokens output_tokens s =
    let u : ExactModelUsage = record {
      input_tokens = input_tokens;
      output_tokens = output_tokens;
    } in
    (record s { sequence = s.sequence + 1; provider_usage = some u }, usage (s.sequence + 1) u ∷ [])

abbrev pub aborted : ProviderError
aborted = record { code = model_stream_aborted; status = none; source = ProviderErrorSource.stream }

unfoldable pub normalize_error :
    Option ℕ → ProviderErrorSource → StreamNormalizerState → StreamNormalizerState × List ModelEvent
unfolding normalize_provider_error
normalize_error status source s = (
  record s { sequence = s.sequence + 1 },
  error (s.sequence + 1)
        (if s.stream_started then aborted else normalize_provider_error status source)
      ∷ [],
)

unfoldable pub normalize_bifrost_event :
    BifrostEvent → StreamNormalizerState → StreamNormalizerState × List ModelEvent
unfolding normalize_delta normalize_usage normalize_error
normalize_bifrost_event (delta_event e) s = normalize_delta e s
normalize_bifrost_event (usage_event i o) s = normalize_usage i o s
normalize_bifrost_event (error_event status source) s = normalize_error status source s

-- The caller's loop over the data plane: the last state, and all events in order.
unfoldable pub normalize_all :
    List BifrostEvent → StreamNormalizerState → StreamNormalizerState × List ModelEvent
normalize_all [] s = (s, [])
normalize_all (e ∷ es) s =
    let (s1, out) = normalize_bifrost_event e s in
    let (s2, more) = normalize_all es s1 in (s2, out ++ more)

pub record StreamTerminal : Type 0 where
  pub status : ModelCallState
  pub error_code : Option ProviderErrorCode
  pub usage : ModelUsage

unfoldable pub resolve_usage : Option ExactModelUsage → Option ℕ → Option ℕ → ModelUsage
resolve_usage (some u) input output = exact u
resolve_usage none (some i) (some o) =
    estimated_dev (record { estimated_input_tokens = i; estimated_output_tokens = o })
resolve_usage none _ _ = ModelUsage.unknown

abbrev is_network : ProviderErrorSource → Bool
is_network connection = true
is_network timeout = true
is_network _ = false

terminal_of_error : ProviderError → StreamNormalizerState → ModelUsage → StreamTerminal
terminal_of_error e s u =
    if s.stream_started
    then record {
      status = ModelCallState.failed;
      error_code = some model_stream_aborted;
      usage = u;
    }
    else if is_network e.source
    then record { status = ModelCallState.unknown; error_code = none; usage = u }
    else record { status = ModelCallState.failed; error_code = some e.code; usage = u }

terminal_of_end : Bool → StreamNormalizerState → ModelUsage → StreamTerminal
terminal_of_end is_completed s u =
    if is_completed
    then record { status = ModelCallState.completed; error_code = none; usage = u }
    else if s.stream_started
    then record {
      status = ModelCallState.failed;
      error_code = some model_stream_aborted;
      usage = u;
    }
    else record { status = ModelCallState.unknown; error_code = none; usage = u }

terminal_of :
    Bool → Option ProviderError → Bool → StreamNormalizerState → ModelUsage → StreamTerminal
unfolding terminal_of_error terminal_of_end
terminal_of true e is_completed s u = record {
  status = ModelCallState.cancelled;
  error_code = none;
  usage = u;
}
terminal_of false (some e) is_completed s u = terminal_of_error e s u
terminal_of false none is_completed s u = terminal_of_end is_completed s u

unfoldable pub resolve_stream_terminal :
    StreamNormalizerState
    → Bool
    → Option ProviderError
    → Bool
    → Option ℕ
    → Option ℕ
    → StreamTerminal
unfolding terminal_of resolve_usage
resolve_stream_terminal s is_completed err is_cancelled input output =
    terminal_of is_cancelled err is_completed s (resolve_usage s.provider_usage input output)
