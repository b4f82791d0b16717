-- ===== src/Tasking/RuntimeDecision/Unique.antt =====
-- Of the kinds that a snapshot enables exactly one comes first.
use knowledage_base_assistan.Prelude.{
  ◌≡◌, refl, ap, sym, ◌∙◌, subst, ◌⊎◌, inl, inr, Bool, true, false, ◌||◌, List, [], ◌∷◌, All, any,
  arith, ℕ, nat_eq, ◌==◌, Bool-cases, if◌then◌else◌,
}
use knowledage_base_assistan.Tasking.RuntimeDecision.Signals.{Snapshot}
use knowledage_base_assistan.Tasking.RuntimeDecision.Priority.{
  DirectiveKind, closing, cancelling, reconciling, failing, asking, replanning, retrying,
  finalizing, scheduling, waiting, earlier, Enabled, IsOff, AllOffBefore, IsStuck,
}

abbrev rank : DirectiveKind → ℕ
rank closing = 0
rank cancelling = 1
rank reconciling = 2
rank failing = 3
rank asking = 4
rank replanning = 5
rank retrying = 6
rank finalizing = 7
rank scheduling = 8
rank waiting = 9

abbrev kind_at : ℕ → DirectiveKind
kind_at n =
    if n == 0
    then closing
    else if n == 1
    then cancelling
    else if n == 2
    then reconciling
    else if n == 3
    then failing
    else if n == 4
    then asking
    else if n == 5
    then replanning
    else if n == 6
    then retrying
    else if n == 7
    then finalizing
    else if n == 8
    then scheduling
    else waiting

kind_at-rank : (k : DirectiveKind) → kind_at (rank k) ≡ k
kind_at-rank closing = refl
kind_at-rank cancelling = refl
kind_at-rank reconciling = refl
kind_at-rank failing = refl
kind_at-rank asking = refl
kind_at-rank replanning = refl
kind_at-rank retrying = refl
kind_at-rank finalizing = refl
kind_at-rank scheduling = refl
kind_at-rank waiting = refl

same_rank : (j k : DirectiveKind) → (rank j == rank k) ≡ true → j ≡ k
same_rank j k h =
    sym (kind_at-rank j)
    ∙ (ap kind_at ((nat_eq.same_key_iff (rank j) (rank k)).0 h) ∙ kind_at-rank k)

abbrev is_among : DirectiveKind → List DirectiveKind → Bool
is_among j ks = any (λ k. rank k == rank j) ks

IsOff-among :
    (s : Snapshot) (j : DirectiveKind) (ks : List DirectiveKind)
    → All (IsOff s) ks
    → is_among j ks ≡ true
    → IsOff s j
IsOff-among s j [] h m = cc
IsOff-among s j (k ∷ ks) h m = elim (Bool-cases (rank k == rank j)) [
  | inl same ↦ subst (IsOff s) (same_rank k j same) h.0
  | inr other ↦ IsOff-among s j ks h.1 (rw other at m)
]

comparable :
    (j k : DirectiveKind)
    → (is_among j (earlier k) || (is_among k (earlier j) || rank j == rank k)) ≡ true
comparable j k = ground arith

or_cases : (b c : Bool) → (b || c) ≡ true → (b ≡ true) ⊎ (c ≡ true)
or_cases true c h = inl refl
or_cases false c h = inr h

pub first_unique :
    (s : Snapshot) (j k : DirectiveKind)
    → Enabled s j
    → AllOffBefore s j
    → Enabled s k
    → AllOffBefore s k
    → j ≡ k
first_unique s j k e f e' f' = elim (or_cases (is_among j (earlier k)) _ (comparable j k)) [
  | inl before ↦ absurd (IsOff-among s j (earlier k) f' before e)
  | inr rest ↦ elim (or_cases (is_among k (earlier j)) _ rest) [
    | inl after ↦ absurd (IsOff-among s k (earlier j) f after e')
    | inr same ↦ same_rank j k same
  ]
]

listed : (k : DirectiveKind) → is_among k (waiting ∷ earlier waiting) ≡ true
listed k = ground arith

-- A stuck controller may issue no directive of any kind.
pub stuck-IsOff : (s : Snapshot) (k : DirectiveKind) → IsStuck s → IsOff s k
stuck-IsOff s k h = IsOff-among s k (waiting ∷ earlier waiting) h (listed k)
