-- ===== src/Memory/States.antt =====
-- The states of a memory in modules/memory/domain/memory_governance.py, and their histories.
use knowledage_base_assistan.Prelude.{
  ℕ, ◌+◌, ◌≤◌, ◌≡◌, Bool, true, false, List, [], ◌∷◌, length, sum_by, arith,
}
use knowledage_base_assistan.Memory.Types.{
  MemoryState, proposed, active, superseded, retracted, expired, invalidated, quarantined,
}

unfoldable pub is_legal_state_transition : MemoryState → MemoryState → Bool
is_legal_state_transition proposed active = true
is_legal_state_transition proposed quarantined = true
is_legal_state_transition active superseded = true
is_legal_state_transition active retracted = true
is_legal_state_transition active expired = true
is_legal_state_transition active invalidated = true
is_legal_state_transition quarantined active = true
is_legal_state_transition quarantined superseded = true
is_legal_state_transition quarantined retracted = true
is_legal_state_transition _ _ = false

pub data Lifetime : MemoryState → List MemoryState → MemoryState → Type 0 where
  still : {s : MemoryState} → Lifetime s [] s
  moves :
      {s t u : MemoryState} {path : List MemoryState}
      → is_legal_state_transition s t ≡ true
      → Lifetime t path u
      → Lifetime s (t ∷ path) u

-- One for ACTIVE.
abbrev pub activation : MemoryState → ℕ
activation active = 1
activation _ = 0

-- The moves and the activations that a state has before it.
abbrev pub moves_left : MemoryState → ℕ
moves_left proposed = 3
moves_left quarantined = 2
moves_left active = 1
moves_left _ = 0

abbrev pub activations_left : MemoryState → ℕ
activations_left proposed = 1
activations_left quarantined = 1
activations_left _ = 0

move_costs :
    (s t : MemoryState)
    → is_legal_state_transition s t ≡ true
    → (moves_left t + 1 ≤ moves_left s) × (activation t + activations_left t ≤ activations_left s)
unfolding is_legal_state_transition
move_costs s t h = ground arith

-- From a state on, a memory moves at most as often as the state allows, and becomes ACTIVE at most
-- once and never again after it was: at most three moves from PROPOSED, one from ACTIVE.
pub Lifetime-bounded :
    {s u : MemoryState} {path : List MemoryState}
    → Lifetime s path u
    → (length path ≤ moves_left s) × (sum_by activation path ≤ activations_left s)
Lifetime-bounded still = (omega arith, omega arith)
Lifetime-bounded (moves {s = s} {t = t} h r) =
    let (a, b) = move_costs s t h in let (c, d) = Lifetime-bounded r in (omega arith, omega arith)
