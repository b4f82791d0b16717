-- ===== src/ModelGateway/Examples.antt =====
-- Tests of the model gateway, and its theorems at concrete inputs.
use knowledage_base_assistan.Prelude.{
  pos, nat_eq, string_eq, ℕ, ◌+◌, ◌<◌, ◌≤◌, String, ◌≡◌, ◌↔◌, ◌⊎◌, refl, true, false, List, [], ◌∷◌,
  none, some, length, arith,
}
use knowledage_base_assistan.ModelGateway.CallState.{
  accepted, sending, streaming, completed, require_transition,
}
use knowledage_base_assistan.ModelGateway.CallState.Paths.{
  Run, stop, step, distance, length-le-distance,
}
use knowledage_base_assistan.ModelGateway.ProviderError.{http_status, normalize_provider_error}
use knowledage_base_assistan.ModelGateway.Retry.{compute_next_retry_delay, classify_retry, retry}
use knowledage_base_assistan.ModelGateway.Retry.Bounds.{
  compute_next_retry_delay-IsAllowed, IsAllowed, classify_retry_iff,
}
use knowledage_base_assistan.ModelGateway.Stream.{
  BifrostEvent, BifrostDelta, delta_event, usage_event, error_event, initial, normalize_all,
  normalize_bifrost_event, resolve_stream_terminal, StreamNormalizerState,
}
use knowledage_base_assistan.ModelGateway.Stream.Numbering.{
  Numbered, normalize_all-Numbered, redelivery_ignored,
}
use knowledage_base_assistan.ModelGateway.Stream.Order.{Ordered, normalize_all-Ordered}
use knowledage_base_assistan.ModelGateway.Stream.Ending.{EndsWell, resolve_stream_terminal-EndsWell}

-- A call that streams and completes.
happy-Run : Run accepted (sending ∷ streaming ∷ completed ∷ []) completed
unfolding require_transition
happy-Run = step refl (step refl (step refl stop))

length-le-distance_example :
    length (sending ∷ streaming ∷ completed ∷ []) + distance completed ≤ distance accepted
length-le-distance_example = length-le-distance happy-Run

abbrev first_chunk : BifrostDelta
first_chunk = record { chunk_id = some "chunk-a"; text_delta = some "Hello"; finish_reason = none }

abbrev second_chunk : BifrostDelta
second_chunk = record {
  chunk_id = some "chunk-b";
  text_delta = some "!";
  finish_reason = some "stop";
}

abbrev raw : List BifrostEvent
raw =
    delta_event first_chunk
    ∷ delta_event first_chunk
    ∷ delta_event second_chunk
    ∷ usage_event 12 3
    ∷ error_event (some 503) http_status
    ∷ []

raw_last_sequence : (normalize_all raw initial).0.sequence ≡ 5
unfolding normalize_all normalize_bifrost_event
raw_last_sequence = refl

normalize_all-Numbered_example :
    Numbered initial.sequence (normalize_all raw initial).1
    × ((normalize_all raw initial).0.sequence
        ≡ initial.sequence + length (normalize_all raw initial).1)
normalize_all-Numbered_example = normalize_all-Numbered raw initial

normalize_all-Ordered_example : Ordered false (normalize_all raw initial).1
normalize_all-Ordered_example = normalize_all-Ordered raw initial

redelivery_ignored_example :
    let after = (normalize_all (delta_event first_chunk ∷ usage_event 12 3 ∷ []) initial).0 in
    normalize_bifrost_event (delta_event first_chunk) after ≡ (after, [])
redelivery_ignored_example =
    redelivery_ignored "chunk-a" first_chunk first_chunk (usage_event 12 3 ∷ []) initial refl refl

abbrev cut_off : StreamNormalizerState
cut_off = record initial { sequence = 2; stream_started = true }

resolve_stream_terminal-EndsWell_example :
    EndsWell cut_off false none false
      (resolve_stream_terminal cut_off false none false (some 100) (some 50))
resolve_stream_terminal-EndsWell_example =
    resolve_stream_terminal-EndsWell cut_off false none false (some 100) (some 50)

abbrev middle_digest : String → ℕ → ℕ
middle_digest s n = 2147483647

compute_next_retry_delay-IsAllowed_example :
    IsAllowed 2
      (some (pos 17))
      (some 40)
      (compute_next_retry_delay middle_digest 2 "activity" (some (pos 17)) (some 40))
compute_next_retry_delay-IsAllowed_example =
    compute_next_retry_delay-IsAllowed middle_digest (λ s n. omega arith) 2 "activity"
      (some (pos 17)) (some 40) (omega arith)

classify_retry_iff_example :
    (classify_retry (normalize_provider_error (some 503) http_status).code false ≡ retry)
    ↔ ((false ≡ false) × (◌≡◌ {A = ℕ} 503 429 ⊎ (500 ≤ 503) ⊎ (503 < 400)))
classify_retry_iff_example = classify_retry_iff 503 false
