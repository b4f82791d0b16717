-- ===== src/Memory/Duplicate/Agrees.antt =====
-- The verdict on a duplicate and the plan for it.
use knowledage_base_assistan.Prelude.{
  string_eq, nat_eq, ◌≡◌, ◌↔◌, ◌⊎◌, refl, String, false, not, [], Option, none, some, arith,
}
use knowledage_base_assistan.Memory.Types.{
  MemoryProposal, MemoryRecord, DuplicateVerdict, same, overlap, unrelated, CorrectionDisposition,
  new, merge, correct,
}
use knowledage_base_assistan.Memory.Governance.{
  corrects, given_and_equal, plan_correction_or_conflict,
}
use knowledage_base_assistan.Memory.Duplicate.{TextTools, keys_differ, resolve_duplicate}

keys_differ_iff : (a b : Option String) → keys_differ a b ≡ not (given_and_equal a b)
keys_differ_iff none b = refl
keys_differ_iff (some a) none = refl
keys_differ_iff (some a) (some b) = refl

-- For a proposal that does not name the stored memory as what it corrects, verdict and plan agree: the
-- plan is a merge exactly on SAME, a new memory exactly on UNRELATED, and otherwise, on OVERLAP and on
-- CONFLICT, a conflict or a correction; and fields are reported as differing exactly then.
pub verdict_agrees_with_plan :
    (tools : TextTools) (proposal : MemoryProposal) (existing : MemoryRecord)
    → corrects proposal existing ≡ false
    → let verdict = (resolve_duplicate tools proposal existing).verdict in
      let plan = (plan_correction_or_conflict tools.normalize proposal existing).disposition in
      ((verdict ≡ same) ↔ (plan ≡ merge))
      × ((verdict ≡ unrelated) ↔ (plan ≡ new))
      × (((verdict ≡ overlap) ⊎ (verdict ≡ DuplicateVerdict.conflict))
          ↔ ((plan ≡ CorrectionDisposition.conflict) ⊎ (plan ≡ correct)))
      × (((resolve_duplicate tools proposal existing).differing_fields ≡ [])
          ↔ ((verdict ≡ same) ⊎ (verdict ≡ unrelated)))
unfolding resolve_duplicate plan_correction_or_conflict
verdict_agrees_with_plan tools proposal existing h =
    let k = keys_differ_iff proposal.canonical_key existing.canonical_key in
    (
      (λ e. ground arith, λ e. ground arith),
      (λ e. ground arith, λ e. ground arith),
      (λ e. ground arith, λ e. ground arith),
      (λ e. ground arith, λ e. ground arith),
    )
