-- ===== src/Memory/Governance/Legality.antt =====
-- Which proposals are legal.
use knowledage_base_assistan.Prelude.{
  ◌≡◌, ◌↔◌, refl, Bool, true, false, not, ◌&&◌, [], ◌++◌, arith, any,
}
use knowledage_base_assistan.Memory.Types.{
  MemoryScope, task, user_private, MemoryKind, supported_finding, MemoryTrust, assistant_derived,
  MemoryProposal,
}
use knowledage_base_assistan.Memory.Governance.{
  Violation, note, is_evidence, is_user_private, is_task, is_assistant_derived,
  is_supported_finding, assess_proposal_legality,
}

no_notes :
    (a b c : Bool) (u v w : Violation)
    → (note a u ++ note b v ++ note c w ≡ []) ↔ ((a ≡ false) × (b ≡ false) × (c ≡ false))
no_notes a b c u v w = (λ h. ground arith, λ h. ground arith)

scope_test :
    (s : MemoryScope) (e : Bool)
    → ((is_user_private s && not e) ≡ false) ↔ (s ≡ user_private → e ≡ true)
scope_test user_private e = (λ h k. ground arith, λ h. ground (arith, h refl))
scope_test _ e = (λ h k. cc, λ h. refl)

trust_test :
    (t : MemoryTrust) (s : MemoryScope)
    → ((is_assistant_derived t && not (is_task s)) ≡ false) ↔ (t ≡ assistant_derived → s ≡ task)
trust_test assistant_derived s = (λ h k. ground arith, λ h. ground (arith, h refl))
trust_test _ s = (λ h k. cc, λ h. refl)

finding_test :
    (k : MemoryKind) (b : Bool)
    → ((is_supported_finding k && not b) ≡ false) ↔ (k ≡ supported_finding → b ≡ true)
finding_test supported_finding b = (λ h k. ground arith, λ h. ground (arith, h refl))
finding_test _ b = (λ h k. cc, λ h. refl)

-- A proposal has no violation exactly if a private memory was asked for explicitly, what the
-- assistant derived stays in the task, and a supported finding names some evidence. So an automatic
-- proposal is not confined to the conversation: one for the task passes as well, whatever its trust,
-- unless it is a supported finding without evidence.
pub assess_proposal_legality_iff :
    (p : MemoryProposal) (explicit : Bool)
    → (assess_proposal_legality p explicit ≡ []) ↔ (
        (p.scope ≡ user_private → explicit ≡ true)
        × (p.trust ≡ assistant_derived → p.scope ≡ task)
        × (p.kind ≡ supported_finding → any (λ r. is_evidence r.source_type) p.provenance ≡ true))
unfolding assess_proposal_legality
assess_proposal_legality_iff p explicit =
    let found = any (λ r. is_evidence r.source_type) p.provenance in
    let (to, from) =
      no_notes (is_user_private p.scope && not explicit)
        (is_assistant_derived p.trust && not (is_task p.scope))
        (is_supported_finding p.kind && not found) _ _ _ in
    (
      λ h.
          let (a, b, c) = to h in
          (
            (scope_test p.scope explicit).0 a,
            (trust_test p.trust p.scope).0 b,
            (finding_test p.kind found).0 c,
          ),
      λ (a, b, c). from (
        (scope_test p.scope explicit).1 a,
        (trust_test p.trust p.scope).1 b,
        (finding_test p.kind found).1 c,
      ),
    )
