-- ===== src/ModelGateway/CallState/Paths.antt =====
-- The runs of a call, against a rank that does not mention the transition table.
use knowledage_base_assistan.Prelude.{
  ℕ, ◌+◌, ◌≤◌, ◌<◌, ◌≡◌, refl, true, false, List, [], ◌∷◌, ok, length, arith,
}
use knowledage_base_assistan.ModelGateway.CallState.{
  ModelCallState, accepted, sending, streaming, completed, failed, cancelled, unknown, is_terminal,
  require_transition,
}

-- A call that went through the states of a list, each step admitted by `require_transition`.
pub data Run : ModelCallState → List ModelCallState → ModelCallState → Type 0 where
  stop : {s : ModelCallState} → Run s [] s
  step :
      {s t u : ModelCallState} {path : List ModelCallState}
      → require_transition s t ≡ ok tt
      → Run t path u
      → Run s (t ∷ path) u

-- How far a call is from its end.
abbrev pub distance : ModelCallState → ℕ
distance accepted = 3
distance sending = 2
distance streaming = 1
distance _ = 0

admitted_falls : (s t : ModelCallState) → require_transition s t ≡ ok tt → distance t < distance s
unfolding require_transition
admitted_falls s t h = ground arith

-- A run is never longer than the distance it covers, so no state is written twice.
pub length-le-distance :
    {s u : ModelCallState} {path : List ModelCallState}
    → Run s path u
    → length path + distance u ≤ distance s
length-le-distance stop = omega arith
length-le-distance (step {s = s} {t = t} h r) =
    omega (arith, admitted_falls s t h, length-le-distance r)

terminal_stops : (s t : ModelCallState) → is_terminal s ≡ true → require_transition s t ≡ ok tt → ⊥
unfolding require_transition
terminal_stops s t e h = ground arith

-- Every run from a terminal state is empty and stays where it is.
pub Run-terminal :
    {s u : ModelCallState} {path : List ModelCallState}
    → Run s path u
    → is_terminal s ≡ true
    → (path ≡ []) × (u ≡ s)
Run-terminal stop e = (refl, refl)
Run-terminal (step {s = s} {t = t} h r) e = absurd (terminal_stops s t e h)

-- Exactly the states with distance 0 are terminal, and from every other state one admitted step
-- leads to a state from which a terminal one is at most one more step away.
pub live_state_moves :
    (s : ModelCallState)
    → is_terminal s ≡ false
    → (t : ModelCallState) × (require_transition s t ≡ ok tt)
unfolding require_transition
live_state_moves accepted e = (sending, refl)
live_state_moves sending e = (unknown, refl)
live_state_moves streaming e = (unknown, refl)
live_state_moves completed e = absurd (ground arith)
live_state_moves failed e = absurd (ground arith)
live_state_moves cancelled e = absurd (ground arith)
live_state_moves unknown e = absurd (ground arith)
