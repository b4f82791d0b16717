-- ===== src/ModelGateway/Stream/Order.antt =====
-- The order of the emitted events.
use knowledage_base_assistan.Prelude.{
  ℕ, ◌+◌, ◌≡◌, refl, Bool, true, false, if◌then◌else◌, List, [], ◌∷◌, ◌++◌, arith,
}
use knowledage_base_assistan.ModelGateway.ProviderError.{
  ProviderError, normalize_provider_error, model_stream_aborted,
}
use knowledage_base_assistan.ModelGateway.Usage.{ExactModelUsage}
use knowledage_base_assistan.ModelGateway.Stream.{
  ModelEvent, started, delta, usage, completed, error, BifrostEvent, delta_event, usage_event,
  error_event, StreamNormalizerState, aborted, normalize_bifrost_event, normalize_all,
}

-- What may follow when the stream has started or has not: STARTED once, deltas only after it, and
-- after it only the error of an aborted stream.
abbrev pub Ordered : Bool → List ModelEvent → Type 0
Ordered b [] = Unit {0}
Ordered false (started n ∷ es) = Ordered true es
Ordered true (started n ∷ es) = ⊥
Ordered false (delta n t r ∷ es) = ⊥
Ordered true (delta n t r ∷ es) = Ordered true es
Ordered b (usage n u ∷ es) = Ordered b es
Ordered b (completed n r ∷ es) = ⊥
Ordered false (error n e ∷ es) = Ordered false es
Ordered true (error n e ∷ es) = (e.code ≡ model_stream_aborted) × Ordered true es

nil-Ordered : (b : Bool) → Ordered b []
nil-Ordered true = tt
nil-Ordered false = tt

usage-Ordered :
    (b : Bool) (n : ℕ) (u : ExactModelUsage) (rest : List ModelEvent)
    → Ordered b rest
    → Ordered b (usage n u ∷ rest)
usage-Ordered true n u rest h = h
usage-Ordered false n u rest h = h

error-Ordered :
    (b : Bool) (n : ℕ) (e : ProviderError) (rest : List ModelEvent)
    → Ordered b rest
    → Ordered b (error n (if b then aborted else e) ∷ rest)
error-Ordered true n e rest h = (refl, h)
error-Ordered false n e rest h = h

step-Ordered :
    (e : BifrostEvent) (s : StreamNormalizerState) (rest : List ModelEvent)
    → Ordered (normalize_bifrost_event e s).0.stream_started rest
    → Ordered s.stream_started ((normalize_bifrost_event e s).1 ++ rest)
unfolding normalize_bifrost_event
step-Ordered (delta_event e) s rest h = ground arith
step-Ordered (usage_event i o) s rest h =
    usage-Ordered s.stream_started (s.sequence + 1) (record { input_tokens = i; output_tokens = o })
      rest h
step-Ordered (error_event status source) s rest h =
    error-Ordered s.stream_started (s.sequence + 1) (normalize_provider_error status source) rest h

-- Over any raw stream STARTED comes at most once and before every delta, nothing is reported as
-- completed, and an error after STARTED is reported as an aborted stream.
pub normalize_all-Ordered :
    (es : List BifrostEvent) (s : StreamNormalizerState)
    → Ordered s.stream_started (normalize_all es s).1
unfolding normalize_all
normalize_all-Ordered [] s = nil-Ordered s.stream_started
normalize_all-Ordered (e ∷ es) s =
    step-Ordered e s _ (normalize_all-Ordered es (normalize_bifrost_event e s).0)
