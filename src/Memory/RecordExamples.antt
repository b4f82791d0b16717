-- ===== src/Memory/RecordExamples.antt =====
-- Tests of the memory governance, and the theorems at concrete inputs.
use knowledage_base_assistan.Prelude.{
  ◌⊎◌, string_eq, nat_eq, ◌≤◌, ◌≡◌, ◌↔◌, refl, Bool, true, false, String, [], ◌∷◌, none, some,
  length, sum_by, any,
}
use knowledage_base_assistan.Memory.Types.{
  same, overlap, unrelated, DuplicateVerdict, new, merge, conversation, task, user_private,
  preference, supported_finding, proposed, quarantined, active, superseded, user_explicit,
  assistant_derived, correct, CorrectionDisposition, MemoryProposal, MemoryRecord,
}
use knowledage_base_assistan.Memory.Governance.{
  plan_correction_or_conflict, assess_proposal_legality, is_evidence,
}
use knowledage_base_assistan.Memory.Governance.Correction.{
  Respects, plan_correction_or_conflict-Respects,
}
use knowledage_base_assistan.Memory.Governance.Legality.{assess_proposal_legality_iff}
use knowledage_base_assistan.Memory.Duplicate.{TextTools, resolve_duplicate}
use knowledage_base_assistan.Memory.Duplicate.Agrees.{verdict_agrees_with_plan}
use knowledage_base_assistan.Memory.States.{
  Lifetime, still, moves, activation, activations_left, moves_left, is_legal_state_transition,
  Lifetime-bounded,
}

abbrev stored : MemoryRecord
stored = record {
  id = 11;
  owner_id = 1;
  conversation_id = some 2;
  task_id = none;
  scope = conversation;
  kind = preference;
  state = active;
  trust = user_explicit;
  canonical_key = some "units";
  content = "use metres";
  canonical_hash = "h";
  importance = 700;
  pinned = false;
  valid_from = 100;
  valid_until = none;
  supersedes_id = none;
  conflict_group_id = none;
  provenance = [];
  schema_version = 1;
  revision = 1;
}

abbrev guess : MemoryProposal
guess = record {
  scope = conversation;
  kind = preference;
  canonical_key = some "units";
  statement = "use feet";
  importance = 400;
  valid_until = none;
  trust = assistant_derived;
  provenance = [];
  correction_of = some 11;
}

abbrev plain : String → String
plain s = s

-- the assistant's correction of what the user said becomes a conflict
guess_conflicts :
    (plan_correction_or_conflict plain guess stored).disposition ≡ CorrectionDisposition.conflict
unfolding plan_correction_or_conflict
guess_conflicts = refl

rewrite_corrects :
    (plan_correction_or_conflict plain (record guess { trust = user_explicit }) stored).disposition
    ≡ correct
unfolding plan_correction_or_conflict
rewrite_corrects = refl

plan_correction_or_conflict-Respects_example :
    Respects plain guess stored (plan_correction_or_conflict plain guess stored)
plan_correction_or_conflict-Respects_example =
    plan_correction_or_conflict-Respects plain guess stored

assess_proposal_legality_iff_example : (assess_proposal_legality guess false ≡ []) ↔ (
    (conversation ≡ user_private → ◌≡◌ {A = Bool} false true)
    × (assistant_derived ≡ assistant_derived → conversation ≡ task)
    × (preference ≡ supported_finding
        → any (λ r. is_evidence r.source_type) guess.provenance ≡ true))
assess_proposal_legality_iff_example = assess_proposal_legality_iff guess false

quarantined_first : Lifetime proposed (quarantined ∷ active ∷ superseded ∷ []) superseded
unfolding is_legal_state_transition
quarantined_first = moves refl (moves refl (moves refl still))

Lifetime-bounded_example :
    (length (quarantined ∷ active ∷ superseded ∷ []) ≤ moves_left proposed)
    × (sum_by activation (quarantined ∷ active ∷ superseded ∷ []) ≤ activations_left proposed)
Lifetime-bounded_example = Lifetime-bounded quarantined_first

-- Texts without a common part and with the same numbers.
abbrev plain_tools : TextTools
plain_tools = record { normalize = λ s. s; is_in = λ a b. false; same_numbers = λ a b. true }

abbrev unlinked : MemoryProposal
unlinked = record guess { correction_of = none }

verdict_agrees_with_plan_example :
    let verdict = (resolve_duplicate plain_tools unlinked stored).verdict in
    let plan = (plan_correction_or_conflict plain_tools.normalize unlinked stored).disposition in
    ((verdict ≡ same) ↔ (plan ≡ merge))
    × ((verdict ≡ unrelated) ↔ (plan ≡ new))
    × (((verdict ≡ overlap) ⊎ (verdict ≡ DuplicateVerdict.conflict))
        ↔ ((plan ≡ CorrectionDisposition.conflict) ⊎ (plan ≡ correct)))
    × (((resolve_duplicate plain_tools unlinked stored).differing_fields ≡ [])
        ↔ ((verdict ≡ same) ⊎ (verdict ≡ unrelated)))
verdict_agrees_with_plan_example = verdict_agrees_with_plan plain_tools unlinked stored refl
