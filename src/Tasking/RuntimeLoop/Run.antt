-- ===== src/Tasking/RuntimeLoop/Run.antt =====
-- `ActionRunService.run`. The model, the binder and the executor are parameters.
use knowledage_base_assistan.Prelude.{
  nat_eq, string_eq, ◌==◌, ◌>>◌, ◌>>=◌, ℕ, ◌+◌, String, Uuid, Bool, true, false, ◌&&◌, ◌||◌, List,
  [], ◌∷◌, ◌++◌, Option, none, some, if◌then◌else◌, leb, ltb, length, Result, ok, raise, require,
  value_error, validation_error, Error, contains,
}
use Prim.Native.Nat.{Ordering}
use Prim.Native.String.{compare}
use knowledage_base_assistan.Tasking.RuntimeDecision.Signals.{VersionedRef}
use knowledage_base_assistan.Tasking.RuntimeProgress.{ProgressDisposition, classify_disposition}
use knowledage_base_assistan.Tasking.RuntimeLoop.Attempts.{
  ActionExecutionOutcome, ActionAttemptResult, is_adopted, check_outcome, Names, Source,
  TaskObservation, build_action_observations,
}

-- What is asked of the ports while one run lasts.
pub record Ports (Proposal Binding : Type 0) : Type 0 where
  pub propose : List Proposal
  pub bind_action : Proposal → ℕ → Result Binding
  pub execute : Binding → Uuid → ActionExecutionOutcome

pub record ActionRunResult (Proposal Binding : Type 0) : Type 0 where
  pub proposals : List Proposal
  pub attempts : List (ActionAttemptResult Proposal Binding)
  pub observations : List TaskObservation
  pub adopted_refs : List VersionedRef
  pub disposition : ProgressDisposition

-- Equality of the keys (ref_id, version, integrity_digest).
abbrev pub same_ref : VersionedRef → VersionedRef → Bool
same_ref a b =
    a.ref_id == b.ref_id && (a.version == b.version && a.integrity_digest == b.integrity_digest)

abbrev pub has_ref : List VersionedRef → VersionedRef → Bool
has_ref [] r = false
has_ref (x ∷ refs) r = same_ref x r || has_ref refs r

abbrev pub text_lt : String → String → Bool
text_lt s t = elim (compare s t) [ Ordering.lt ↦ true | _ ↦ false ]

-- The order of `sorted`; the texts of two identifiers compare as the numbers do.
unfoldable pub ref_before : VersionedRef → VersionedRef → Bool
ref_before a b =
    ltb a.ref_id b.ref_id
    || a.ref_id == b.ref_id
      && (ltb a.version b.version
          || a.version == b.version && text_lt a.integrity_digest b.integrity_digest)

unfoldable pub insert_ref : VersionedRef → List VersionedRef → List VersionedRef
insert_ref a [] = a ∷ []
insert_ref a (b ∷ refs) =
    let rest = insert_ref a refs in if ref_before b a then b ∷ rest else a ∷ b ∷ refs

unfoldable pub sort_refs : List VersionedRef → List VersionedRef
sort_refs [] = []
sort_refs (a ∷ refs) = insert_ref a (sort_refs refs)

-- The loops over `refs` with their set `seen`, which has the keys of `refs`.
unfoldable pub add_new : List VersionedRef → List VersionedRef → List VersionedRef
add_new seen [] = seen
add_new seen (r ∷ refs) = add_new (if has_ref seen r then seen else seen ++ r ∷ []) refs

unfoldable pub add_kinds : List String → List String → List String
add_kinds seen [] = seen
add_kinds seen (k ∷ kinds) = add_kinds (if contains seen k then seen else seen ++ k ∷ []) kinds

-- What an attempt contributes to each collection.
abbrev pub adopted_of : Option ActionExecutionOutcome → List VersionedRef
adopted_of none = []
adopted_of (some outcome) = if is_adopted outcome.terminal_state then outcome.adopted_refs else []

abbrev pub kinds_of : Option ActionExecutionOutcome → List String
kinds_of none = []
kinds_of (some outcome) = outcome.progress_delta_kinds

abbrev pub regressed_of : Option ActionExecutionOutcome → List VersionedRef
regressed_of none = []
regressed_of (some outcome) = outcome.regressed_refs

module _ {Proposal Binding : Type 0} where
  unfoldable pub collect_adopted :
      List VersionedRef → List (ActionAttemptResult Proposal Binding) → List VersionedRef
  collect_adopted seen [] = seen
  collect_adopted seen (a ∷ attempts) =
      collect_adopted (add_new seen (adopted_of a.outcome)) attempts

  -- `_adopted_refs`
  unfoldable pub adopted_refs : List (ActionAttemptResult Proposal Binding) → List VersionedRef
  adopted_refs attempts = sort_refs (collect_adopted [] attempts)

  unfoldable pub collect_kinds :
      List String → List (ActionAttemptResult Proposal Binding) → List String
  collect_kinds seen [] = seen
  collect_kinds seen (a ∷ attempts) = collect_kinds (add_kinds seen (kinds_of a.outcome)) attempts

  unfoldable pub collect_regressed :
      List VersionedRef → List (ActionAttemptResult Proposal Binding) → List VersionedRef
  collect_regressed seen [] = seen
  collect_regressed seen (a ∷ attempts) =
      collect_regressed (add_new seen (regressed_of a.outcome)) attempts

  -- `_delta_kinds`, `_regressed_refs`
  unfoldable pub delta_kinds : List (ActionAttemptResult Proposal Binding) → List String
  delta_kinds attempts = collect_kinds [] attempts

  unfoldable pub regressed_refs : List (ActionAttemptResult Proposal Binding) → List VersionedRef
  regressed_refs attempts = sort_refs (collect_regressed [] attempts)

-- `except ValueError`, whose subclass is pydantic's `ValidationError`.
abbrev pub is_value_error : Error → Bool
is_value_error (value_error code) = true
is_value_error validation_error = true
is_value_error _ = false

module _ {Proposal Binding : Type 0} (names : Names Proposal) (ports : Ports Proposal Binding) where
  -- The body of the loop: a binding that fails with a `ValueError` is recorded, and the loop goes on.
  unfoldable pub attempt_with :
      Proposal → Result Binding → Result (ActionAttemptResult Proposal Binding)
  attempt_with proposal (raise error) =
      if is_value_error error
      then ok (record {
        proposal = proposal;
        binding = none;
        outcome = none;
        failure_reason = some (names.error_text error);
      })
      else raise error
  attempt_with proposal (ok binding) =
      check_outcome (ports.execute binding (names.action_attempt_id proposal)) >>= (λ outcome.
        ok (record {
          proposal = proposal;
          binding = some binding;
          outcome = some outcome;
          failure_reason = none;
        }))

  unfoldable pub attempts_from :
      ℕ → List Proposal → Result (List (ActionAttemptResult Proposal Binding))
  attempts_from index [] = ok []
  attempts_from index (proposal ∷ proposals) =
      attempt_with proposal (ports.bind_action proposal (index + 1))
      >>= (λ one. attempts_from (index + 1) proposals >>= (λ rest. ok (one ∷ rest)))

  -- `run`
  unfoldable pub run : ℕ → Source → Result (ActionRunResult Proposal Binding)
  run max_proposed_action_count source =
      require (leb (length ports.propose) max_proposed_action_count)
        (value_error "PROPOSED_ACTION_LIMIT_EXCEEDED")
      >> (attempts_from 0 ports.propose >>= (λ attempts.
          build_action_observations names source attempts >>= (λ observations.
            classify_disposition (delta_kinds attempts) (regressed_refs attempts)
            >>= (λ disposition. ok (record {
              proposals = ports.propose;
              attempts = attempts;
              observations = observations;
              adopted_refs = adopted_refs attempts;
              disposition = disposition;
            })))))
