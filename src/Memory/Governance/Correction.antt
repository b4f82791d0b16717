-- ===== src/Memory/Governance/Correction.antt =====
-- Who may overwrite whom.
use knowledage_base_assistan.Prelude.{
  nat_eq, string_eq, ◌≤◌, ◌≡◌, ◌≢◌, ◌↔◌, ◌⊎◌, String, true, false, none, some, arith,
}
use knowledage_base_assistan.Memory.Types.{
  new, merge, correct, MemoryProposal, MemoryRecord, CorrectionPlan,
}
use knowledage_base_assistan.Memory.Governance.{
  trust_rank, corrects, has_same_key, says_the_same, is_user_rewrite, plan_correction_or_conflict,
}

-- A plan that respects what is stored.
pub record Respects (normalize : String → String) (proposal : MemoryProposal)
    (existing : MemoryRecord) (plan : CorrectionPlan) : Type 0 where
  -- a stored memory is replaced exactly if it is named: then it is the one compared with, the
  -- proposal is at least as trusted, and it is a correction or a rewrite by the user
  pub replaces : plan.disposition ≡ correct → plan.supersedes_id ≡ some existing.id
  pub keeps : plan.disposition ≢ correct → plan.supersedes_id ≡ none
  pub trusted : plan.disposition ≡ correct → trust_rank existing.trust ≤ trust_rank proposal.trust
  pub asked :
      plan.disposition ≡ correct
      → (corrects proposal existing ≡ true) ⊎ (is_user_rewrite normalize proposal existing ≡ true)
  -- a merge needs the same key and the same normal form, and is the only plan that adds provenance
  pub merged :
      plan.disposition ≡ merge
      → (has_same_key proposal existing ≡ true) × (says_the_same normalize proposal existing ≡ true)
  pub adds : (plan.append_provenance ≡ true) ↔ (plan.disposition ≡ merge)
  -- a new memory exactly if nothing links the two
  pub unrelated :
      (plan.disposition ≡ new)
      ↔ ((corrects proposal existing ≡ false) × (has_same_key proposal existing ≡ false))

-- Whatever the proposal and the stored memory: only a correction or a rewrite by the user replaces the
-- stored memory, and only if the proposal is at least as trusted; a merge needs the same key and the
-- same normal form, and alone adds provenance; and the proposal is new exactly if nothing links it.
pub plan_correction_or_conflict-Respects :
    (normalize : String → String) (proposal : MemoryProposal) (existing : MemoryRecord)
    → Respects normalize proposal existing (plan_correction_or_conflict normalize proposal existing)
unfolding plan_correction_or_conflict
plan_correction_or_conflict-Respects normalize proposal existing = record {
  replaces = λ h. ground arith;
  keeps = λ h. ground arith;
  trusted = λ h. ground arith;
  asked = λ h. ground arith;
  merged = λ h. ground arith;
  adds = (λ h. ground arith, λ h. ground arith);
  unrelated = (λ h. ground arith, λ h. ground arith);
}
