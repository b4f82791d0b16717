-- ===== src/Tasking/RuntimeLoop/Whole.antt =====
-- A whole run of the proposed actions.
use knowledage_base_assistan.Prelude.{
  nat_eq, string_eq, ℕ, ◌+◌, ◌≤◌, Uuid, true, ◌≡◌, ◌⊎◌, List, [], ◌∷◌, none, some, ok, raise, All,
  Error, false,
}
use knowledage_base_assistan.Tasking.RuntimeDecision.Signals.{VersionedRef}
use knowledage_base_assistan.Tasking.RuntimeLoop.Attempts.{ActionAttemptResult, Names, Source}
use knowledage_base_assistan.Tasking.RuntimeLoop.Run.{
  Ports, ActionRunResult, has_ref, adopted_refs, is_value_error,
}
use knowledage_base_assistan.Tasking.RuntimeLoop.Adopted.{adopts}
use knowledage_base_assistan.Tasking.RuntimeLoop.Observed.{IsProper, Observed, IsRecorded}

module _ {Proposal Binding : Type 0} (names : Names Proposal) (source : Source)
    (planned : 1 ≤ source.source_plan_version) where
  abbrev pub AllRecorded : List (ActionAttemptResult Proposal Binding) → Type 0
  AllRecorded attempts = All (λ a. IsRecorded a.binding a.outcome) attempts

  module _ (ports : Ports Proposal Binding)
      (proper : (b : Binding) (id : Uuid) → IsProper (ports.execute b id)) where
    -- The attempt of the proposal with a number: it was bound and the binding executed once, under
    -- the attempt's identifier; or it could not be bound, and the reason is kept.
    pub data AttemptOf (n : ℕ) (p : Proposal) (a : ActionAttemptResult Proposal Binding)
        : Type 0 where
      bound :
          (b : Binding)
          → ports.bind_action p n ≡ ok b
          → a ≡ record {
            proposal = p;
            binding = some b;
            outcome = some (ports.execute b (names.action_attempt_id p));
            failure_reason = none;
          }
          → AttemptOf n p a
      not_bound :
          (e : Error)
          → ports.bind_action p n ≡ raise e
          → is_value_error e ≡ true
          → a ≡ record {
            proposal = p;
            binding = none;
            outcome = none;
            failure_reason = some (names.error_text e);
          }
          → AttemptOf n p a

    -- One attempt for each proposal, in order.
    abbrev pub AttemptsOf : ℕ → List Proposal → List (ActionAttemptResult Proposal Binding) → Type 0
    AttemptsOf n [] [] = Unit
    AttemptsOf n (p ∷ proposals) (a ∷ attempts) =
        AttemptOf n p a × AttemptsOf (n + 1) proposals attempts
    AttemptsOf n _ _ = ⊥

    -- The binding of some proposal failed with an error that the loop does not catch.
    abbrev pub Escapes : ℕ → List Proposal → Error → Type 0
    Escapes n [] e = ⊥
    Escapes n (p ∷ proposals) e =
        ((ports.bind_action p n ≡ raise e) × (is_value_error e ≡ false))
        ⊎ Escapes (n + 1) proposals e

    -- What a run leaves: the attempt of each proposal, an observation for each attempt, and as
    -- adopted references exactly those of the adopted outcomes.
    pub record IsFaithful (result : ActionRunResult Proposal Binding) : Type 0 where
      pub proposed : result.proposals ≡ ports.propose
      pub each_proposal : AttemptsOf 1 ports.propose result.attempts
      pub recorded_attempts : AllRecorded result.attempts
      pub observed : Observed 0 result.attempts result.observations
      pub only_adopted :
          (r : VersionedRef) → has_ref result.adopted_refs r ≡ adopts r result.attempts
