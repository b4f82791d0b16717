-- ===== src/Prelude/Texts.antt =====
-- Texts as keys and messages, and identifiers.
use Prim.Native.Nat.{ℕ}
use Prim.Native.String.{String, ◌++◌ as append}
use mathlib.Core.List.{List, [], ◌∷◌}

-- A UUID is a 128-bit number.
abbrev pub Uuid : Type 0
Uuid = ℕ

abbrev pub concat : String → String → String
concat s t = append s t

-- sep.join(parts)
abbrev pub join : String → List String → String
join sep [] = ""
join sep (s ∷ []) = s
join sep (s ∷ t ∷ ts) = append s (append sep (join sep (t ∷ ts)))
