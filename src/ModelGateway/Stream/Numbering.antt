-- ===== src/ModelGateway/Stream/Numbering.antt =====
-- The sequence numbers of the emitted events, and repeated chunks.
use knowledage_base_assistan.Prelude.{
  ℕ, subst, ◌∙◌, ◌+◌, String, ◌≡◌, true, List, [], ◌∷◌, ◌++◌, some, length, length-append, arith,
  contains, string_eq, eq_iff,
}
use native.Mathlib.Nat.{add-zero}
use knowledage_base_assistan.ModelGateway.Stream.{
  ModelEvent, started, delta, usage, completed, error, BifrostEvent, BifrostDelta, delta_event,
  usage_event, error_event, StreamNormalizerState, normalize_bifrost_event, normalize_all,
}

abbrev pub sequence_of : ModelEvent → ℕ
sequence_of (started n) = n
sequence_of (delta n t r) = n
sequence_of (usage n u) = n
sequence_of (completed n r) = n
sequence_of (error n e) = n

-- The events carry the numbers after `n`, without a gap.
abbrev pub Numbered : ℕ → List ModelEvent → Type 0
Numbered n [] = Unit {0}
Numbered n (e ∷ es) = (sequence_of e ≡ n + 1) × Numbered (n + 1) es

Numbered-append :
    (n : ℕ) (xs ys : List ModelEvent)
    → Numbered n xs
    → Numbered (n + length xs) ys
    → Numbered n (xs ++ ys)
Numbered-append n [] ys h k = rw add-zero at k
Numbered-append n (x ∷ xs) ys h k =
    (h.0, Numbered-append (n + 1) xs ys h.1 (subst (λ (m : ℕ). Numbered m ys) (omega arith) k))

step-Numbered :
    (e : BifrostEvent) (s : StreamNormalizerState)
    → Numbered s.sequence (normalize_bifrost_event e s).1
      × ((normalize_bifrost_event e s).0.sequence
          ≡ s.sequence + length (normalize_bifrost_event e s).1)
unfolding normalize_bifrost_event
step-Numbered (delta_event e) s = ground arith
step-Numbered (usage_event i o) s = ground arith
step-Numbered (error_event status source) s = ground arith

-- Over any raw stream, the emitted events are numbered from the state's number on without a gap or
-- a repetition, and the last number is the new state's.
pub normalize_all-Numbered :
    (es : List BifrostEvent) (s : StreamNormalizerState)
    → Numbered s.sequence (normalize_all es s).1
      × ((normalize_all es s).0.sequence ≡ s.sequence + length (normalize_all es s).1)
unfolding normalize_all
normalize_all-Numbered [] s = (tt, omega arith)
normalize_all-Numbered (e ∷ es) s =
    let (s1, out) = normalize_bifrost_event e s in
    let (h, p) = step-Numbered e s in
    let (k, q) = normalize_all-Numbered es s1 in
    (
      Numbered-append s.sequence out _ h
          (subst (λ (m : ℕ). Numbered m (normalize_all es s1).1) p k),
      q ∙ omega (arith, p, length-append {0} out (normalize_all es s1).1),
    )

-- A chunk that the state has seen is seen ever after.
seen_stays :
    (c : String) (e : BifrostEvent) (s : StreamNormalizerState)
    → contains s.seen_chunk_ids c ≡ true
    → contains (normalize_bifrost_event e s).0.seen_chunk_ids c ≡ true
unfolding normalize_bifrost_event
seen_stays c (delta_event e) s h = ground arith
seen_stays c (usage_event i o) s h = h
seen_stays c (error_event status source) s h = h

seen_after_all :
    (c : String) (es : List BifrostEvent) (s : StreamNormalizerState)
    → contains s.seen_chunk_ids c ≡ true
    → contains (normalize_all es s).0.seen_chunk_ids c ≡ true
unfolding normalize_all
seen_after_all c [] s h = h
seen_after_all c (e ∷ es) s h =
    seen_after_all c es (normalize_bifrost_event e s).0 (seen_stays c e s h)

delta_marks :
    (c : String) (d : BifrostDelta) (s : StreamNormalizerState)
    → d.chunk_id ≡ some c
    → contains (normalize_bifrost_event (delta_event d) s).0.seen_chunk_ids c ≡ true
unfolding normalize_bifrost_event
delta_marks c d s h = ground (arith, eq_iff c c)

seen_ignored :
    (c : String) (d : BifrostDelta) (s : StreamNormalizerState)
    → d.chunk_id ≡ some c
    → contains s.seen_chunk_ids c ≡ true
    → normalize_bifrost_event (delta_event d) s ≡ (s, [])
unfolding normalize_bifrost_event
seen_ignored c d s h k = ground arith

-- A chunk that is delivered again, after any other events and with any content, changes nothing:
-- no event comes out and the state stays.
pub redelivery_ignored :
    (c : String) (first again : BifrostDelta) (es : List BifrostEvent) (s : StreamNormalizerState)
    → first.chunk_id ≡ some c
    → again.chunk_id ≡ some c
    → let after = (normalize_all (delta_event first ∷ es) s).0 in
      normalize_bifrost_event (delta_event again) after ≡ (after, [])
unfolding normalize_all
redelivery_ignored c first again es s h k = seen_ignored c again _ k (
    seen_after_all c es (normalize_bifrost_event (delta_event first) s).0 (delta_marks c first s h))
