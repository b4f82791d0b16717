-- ===== src/Tasking/RuntimeLoop/Observed.antt =====
-- What an attempt leaves in its observation.
use knowledage_base_assistan.Prelude.{
  nat_eq, string_eq, ℕ, ◌+◌, ◌≤◌, Bool, true, false, not, ◌&&◌, ◌≡◌, ◌⊎◌, refl, sym, List, [], ◌∷◌,
  length, Option, none, some, String, inl, inr, arith, ok, raise, value_error, leb, require-then,
}
use knowledage_base_assistan.Tasking.RuntimeDecision.Signals.{VersionedRef}
use knowledage_base_assistan.Tasking.RuntimeProgress.{ProgressDisposition, classify_disposition}
use knowledage_base_assistan.Tasking.RuntimeLoop.Attempts.{
  ActionExecutionOutcome, ActionTerminalState, adopted, not_adopted, failed, ActionAttemptResult,
  ObservationPayload, result_adopted, result_not_adopted, action_terminal, is_adopted, is_empty,
  check_outcome, Names, Source, TaskObservation, payload_of_outcome, payload_of, observation_of,
  build_observation,
}
use knowledage_base_assistan.Tasking.RuntimeLoop.Run.{adopted_of}

-- An outcome that an executor may return: it has references exactly if it is adopted, 16 at most.
abbrev pub IsProper : ActionExecutionOutcome → Type 0
IsProper o = (check_outcome o ≡ ok o) × (length o.adopted_refs ≤ 16)

abbrev pub refs_told : ObservationPayload → List VersionedRef
refs_told (result_adopted refs) = refs
refs_told _ = []

-- How the attempt ended, by its observation and by its outcome; one that was not bound has failed.
abbrev pub told_state : ObservationPayload → ActionTerminalState
told_state (result_adopted refs) = adopted
told_state (result_not_adopted reason) = not_adopted
told_state (action_terminal id reason) = failed

abbrev pub ended_as : Option ActionExecutionOutcome → ActionTerminalState
ended_as none = failed
ended_as (some o) = o.terminal_state

module _ {Proposal Binding : Type 0} where
  -- One observation for each attempt, numbered, which tells how the attempt ended, and of adopted
  -- results exactly those that the attempt adopted.
  abbrev pub Observed :
      ℕ → List (ActionAttemptResult Proposal Binding) → List TaskObservation → Type 0
  Observed n [] [] = Unit
  Observed n (a ∷ attempts) (o ∷ observations) =
      (o.source_ordinal ≡ n)
      × (told_state o.payload ≡ ended_as a.outcome)
      × (refs_told o.payload ≡ adopted_of a.outcome)
      × Observed (n + 1) attempts observations
  Observed n _ _ = ⊥

-- A recorded attempt: the binding failed and nothing was executed, or the outcome is a proper one.
pub data IsRecorded {Binding : Type 0}
    : Option Binding → Option ActionExecutionOutcome → Type 0 where
  unbound : IsRecorded none none
  executed : {b : Binding} {o : ActionExecutionOutcome} → IsProper o → IsRecorded (some b) (some o)

-- Only progress together with a regression is refused.
pub classified {ℓ κ} :
    {A : Type ℓ} {B : Type κ} (kinds : List A) (regressed : List B)
    → ((d : ProgressDisposition) × (classify_disposition kinds regressed ≡ ok d))
      ⊎ (classify_disposition kinds regressed
          ≡ raise (value_error "RUNTIME_PROGRESS_DELTA_REGRESSION_CONFLICT"))
unfolding classify_disposition
classified [] [] = inl (_, refl)
classified [] (r ∷ rs) = inl (_, refl)
classified (k ∷ ks) [] = inl (_, refl)
classified (k ∷ ks) (r ∷ rs) = inr refl

not-true : (b : Bool) → not b ≡ true → b ≡ false
not-true true h = cc
not-true false h = refl

within : (n : ℕ) → 1 ≤ n → n ≤ 16 → (leb 1 n && leb n 16) ≡ true
within n h k = ground arith

nonempty_length : (refs : List VersionedRef) → is_empty refs ≡ false → 1 ≤ length refs
nonempty_length [] h = cc
nonempty_length (r ∷ refs) h = omega arith

module _ {Proposal : Type 0} (names : Names Proposal) (proposal : Proposal)
    (o : ActionExecutionOutcome) where
  payload_for :
      (state : ActionTerminalState)
      → IsProper o
      → o.terminal_state ≡ state
      → (p : ObservationPayload) × (payload_of_outcome names proposal o state ≡ ok p)
        × (told_state p ≡ o.terminal_state)
        × (refs_told p ≡ adopted_of (some o))
  unfolding payload_of_outcome check_outcome
  payload_for adopted h e =
      let (some_refs, rest) =
        require-then (not (is_adopted o.terminal_state && is_empty o.adopted_refs)) _ _ h.0 in
      let filled : is_empty o.adopted_refs ≡ false =
        not-true (is_empty o.adopted_refs) (rw e at some_refs) in
      let fits : (leb 1 (length o.adopted_refs) && leb (length o.adopted_refs) 16) ≡ true =
        within (length o.adopted_refs) (nonempty_length o.adopted_refs filled) h.1 in
      (result_adopted o.adopted_refs, rw fits refl, sym e, rw e refl)
  payload_for not_adopted h e = (_, refl, sym e, rw e refl)
  payload_for failed h e = (_, refl, sym e, rw e refl)

module _ {Proposal Binding : Type 0} (names : Names Proposal) (source : Source)
    (planned : 1 ≤ source.source_plan_version) where
  recorded :
      (n : ℕ) (proposal : Proposal) (b : Option Binding) (o : Option ActionExecutionOutcome)
      (reason : Option String)
      → IsRecorded b o
      → (p : ObservationPayload) × (payload_of names proposal b o reason ≡ ok p)
        × (told_state p ≡ ended_as o)
        × (refs_told p ≡ adopted_of o)
  unfolding payload_of
  recorded n proposal none none reason unbound = (_, refl, refl, refl)
  recorded n proposal none (some o) reason h = elim h [ ]
  recorded n proposal (some b) none reason h = elim h [ ]
  recorded n proposal (some b) (some o) reason (executed h) =
      payload_for names proposal o o.terminal_state h refl

  pub build-tells :
      (n : ℕ) (a : ActionAttemptResult Proposal Binding)
      → IsRecorded a.binding a.outcome
      → (t : TaskObservation) × (build_observation names source n a ≡ ok t)
        × (t.source_ordinal ≡ n)
        × (told_state t.payload ≡ ended_as a.outcome)
        × (refs_told t.payload ≡ adopted_of a.outcome)
  unfolding build_observation observation_of
  build-tells n a h =
      let (p, e, state, told) = recorded n a.proposal a.binding a.outcome a.failure_reason h in
      let fits : leb 1 source.source_plan_version ≡ true = ground arith in
      (observation_of names source n p, rw (e, fits) refl, refl, state, told)
