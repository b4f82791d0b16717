-- ===== src/Memory/Governance.antt =====
-- modules/memory/domain/memory_governance.py: what a proposal does to a stored memory, whether it is
-- legal, and the states of a memory. The normal form of a statement is a parameter: the standard
-- library computes it.
pub mod Correction
pub mod Legality
use knowledage_base_assistan.Prelude.{
  nat_eq, string_eq, ◌==◌, ℕ, String, Uuid, Bool, true, false, not, ◌&&◌, ◌||◌, List, [], ◌∷◌, ◌++◌,
  Option, none, some, leb, any, is_some, opt_beq, if◌then◌else◌,
}
use knowledage_base_assistan.Memory.Types.{
  MemoryScope, task, user_private, MemoryKind, supported_finding, MemoryState, proposed, active,
  superseded, retracted, expired, invalidated, quarantined, MemoryTrust, user_explicit,
  user_derived, assistant_derived, evidence_supported, ProvenanceSourceType, evidence,
  CorrectionDisposition, new, merge, correct, MemoryProposal, MemoryRecord, CorrectionPlan,
}

abbrev pub trust_rank : MemoryTrust → ℕ
trust_rank user_explicit = 4
trust_rank user_derived = 3
trust_rank evidence_supported = 2
trust_rank assistant_derived = 1

abbrev is_user_explicit : MemoryTrust → Bool
is_user_explicit user_explicit = true
is_user_explicit _ = false

-- `a is not None and a == b`
abbrev pub given_and_equal : Option String → Option String → Bool
given_and_equal a b = is_some a && opt_beq a b

abbrev pub plan_new : CorrectionPlan
plan_new = record {
  disposition = new;
  supersedes_id = none;
  conflict_group_id = none;
  append_provenance = false;
}

abbrev pub plan_correct : Uuid → CorrectionPlan
plan_correct id = record plan_new { disposition = correct; supersedes_id = some id }

abbrev pub plan_conflict : Option Uuid → CorrectionPlan
plan_conflict group = record plan_new {
  disposition = CorrectionDisposition.conflict;
  conflict_group_id = group;
}

abbrev pub plan_merge : CorrectionPlan
plan_merge = record plan_new { disposition = merge; append_provenance = true }

-- `correction` and `same_key`
abbrev pub corrects : MemoryProposal → MemoryRecord → Bool
corrects proposal existing = opt_beq proposal.correction_of (some existing.id)

abbrev pub has_same_key : MemoryProposal → MemoryRecord → Bool
has_same_key proposal existing = given_and_equal proposal.canonical_key existing.canonical_key

module _ (normalize : String → String) where
  abbrev pub says_the_same : MemoryProposal → MemoryRecord → Bool
  says_the_same proposal existing = normalize proposal.statement == normalize existing.content

  abbrev pub is_user_rewrite : MemoryProposal → MemoryRecord → Bool
  is_user_rewrite proposal existing =
      has_same_key proposal existing
      && is_user_explicit proposal.trust
      && not (says_the_same proposal existing)

  unfoldable pub plan_correction_or_conflict : MemoryProposal → MemoryRecord → CorrectionPlan
  plan_correction_or_conflict proposal existing =
      if not (corrects proposal existing) && not (has_same_key proposal existing)
      then plan_new
      else if corrects proposal existing || is_user_rewrite proposal existing
      then (if leb (trust_rank existing.trust) (trust_rank proposal.trust)
          then plan_correct existing.id
          else plan_conflict existing.conflict_group_id)
      else if says_the_same proposal existing
      then plan_merge
      else plan_conflict existing.conflict_group_id

-- The codes of the violations.
pub data Violation : Type 0 where
  scope_promotion_forbidden assistant_derived_scope_forbidden : Violation
  supported_finding_requires_evidence : Violation

abbrev pub is_user_private : MemoryScope → Bool
is_user_private user_private = true
is_user_private _ = false

abbrev pub is_task : MemoryScope → Bool
is_task task = true
is_task _ = false

abbrev pub is_assistant_derived : MemoryTrust → Bool
is_assistant_derived assistant_derived = true
is_assistant_derived _ = false

abbrev pub is_supported_finding : MemoryKind → Bool
is_supported_finding supported_finding = true
is_supported_finding _ = false

abbrev pub is_evidence : ProvenanceSourceType → Bool
is_evidence evidence = true
is_evidence _ = false

abbrev pub note : Bool → Violation → List Violation
note true v = v ∷ []
note false v = []

unfoldable pub assess_proposal_legality : MemoryProposal → Bool → List Violation
assess_proposal_legality proposal explicit =
    note (is_user_private proposal.scope && not explicit) scope_promotion_forbidden
    ++ note (is_assistant_derived proposal.trust && not (is_task proposal.scope))
        assistant_derived_scope_forbidden
    ++ note
        (is_supported_finding proposal.kind
          && not (any (λ r. is_evidence r.source_type) proposal.provenance))
        supported_finding_requires_evidence
