-- ===== src/Memory/ContextPack/Budget/Allocation.antt =====
-- How the window of the model is divided.
use knowledage_base_assistan.Prelude.{
  ℕ, ◌+◌, ◌-◌, ◌*◌, ◌/◌, ◌<◌, ◌≤◌, ◌≡◌, ◌⊎◌, refl, inl, inr, Option, none, some, Result, ok, raise,
  value_error, arith, Bool-cases, ltb, Option-cases,
}
use knowledage_base_assistan.Memory.ContextPack.Budget.{
  ContextBucket, recent, memory, task_artifact, evidence, summary, ContextOperationProfile,
  fact_verification, external_research, Ratio, elastic_ratio_percent, ContextBudget, shares,
  allocate_elastic_budget, compute_context_budget,
}

-- The tokens of a bucket, none for a missing one.
abbrev pub tokens_of : Option ℕ → ℕ
tokens_of none = 0
tokens_of (some n) = n

abbrev pub total_of : (ContextBucket → Option ℕ) → ℕ
total_of limits =
    tokens_of (limits recent)
    + tokens_of (limits memory)
    + tokens_of (limits task_artifact)
    + tokens_of (limits evidence)
    + tokens_of (limits summary)

-- All buckets have a limit.
abbrev pub IsComplete : (ContextBucket → Option ℕ) → Type 0
IsComplete limits = (b : ContextBucket) → (n : ℕ) × (limits b ≡ some n)

abbrev IsWhole : Ratio → Type 0
IsWhole r = r.recent_percent + r.memory_percent + r.task_artifact_percent + r.evidence_percent ≡ 100

-- A division of the window.
pub record Divides (max_context taken mandatory : ℕ) (b : ContextBudget) : Type 0 where
  pub adds_up : taken + mandatory + b.elastic_tokens ≡ max_context
  pub mandatory_kept : b.mandatory_tokens ≡ mandatory
  pub complete : IsComplete b.bucket_limits
  pub within : total_of b.bucket_limits ≤ b.elastic_tokens
  pub nearly_all : b.elastic_tokens ≤ total_of b.bucket_limits + 3

shares-IsComplete : (r : Ratio) (n : ℕ) → IsComplete (shares r n)
unfolding shares
shares-IsComplete r n recent = (n * r.recent_percent / 100, refl)
shares-IsComplete r n memory = (n * r.memory_percent / 100, refl)
shares-IsComplete r n task_artifact = (n * r.task_artifact_percent / 100, refl)
shares-IsComplete r n evidence = (n * r.evidence_percent / 100, refl)
shares-IsComplete r n summary = (0, refl)

-- Rounding four parts of a whole down loses at most 3.
hundredths :
    (n x y z w : ℕ)
    → x + y + z + w ≡ n * 100
    → (x / 100 + y / 100 + z / 100 + w / 100 + 0 ≤ n)
      × (n ≤ x / 100 + y / 100 + z / 100 + w / 100 + 0 + 3)
hundredths n x y z w h = (omega arith, omega arith)

distribute : (n a b c d : ℕ) → a + b + c + d ≡ 100 → n * a + n * b + n * c + n * d ≡ n * 100
distribute n a b c d h = rw (← h) (omega arith)

ratio-IsWhole :
    (p : ContextOperationProfile) (r : Ratio) → elastic_ratio_percent p ≡ some r → IsWhole r
unfolding elastic_ratio_percent
ratio-IsWhole p r h = ground arith

shares-within :
    (r : Ratio) (n : ℕ) → IsWhole r → (total_of (shares r n) ≤ n) × (n ≤ total_of (shares r n) + 3)
unfolding shares
shares-within r n h =
    hundredths n (n * r.recent_percent) (n * r.memory_percent) (n * r.task_artifact_percent)
      (n * r.evidence_percent)
      (distribute n r.recent_percent r.memory_percent r.task_artifact_percent r.evidence_percent h)

abbrev pub IsDedicated : ContextOperationProfile → Type 0
IsDedicated p = (p ≡ fact_verification) ⊎ (p ≡ external_research)

IsDedicated-if : (p : ContextOperationProfile) → elastic_ratio_percent p ≡ none → IsDedicated p
unfolding elastic_ratio_percent
IsDedicated-if p h = ground arith

allocated :
    (p : ContextOperationProfile) (n : ℕ)
    → ((r : Ratio) × IsWhole r × (allocate_elastic_budget p n ≡ ok (shares r n)))
      ⊎ (IsDedicated p
          × (allocate_elastic_budget p n
              ≡ raise (value_error "PROFILE_USES_DEDICATED_CONTEXT_BUDGET")))
unfolding allocate_elastic_budget
allocated p n = elim (Option-cases (elastic_ratio_percent p)) [
  | inl e ↦ inr (IsDedicated-if p e, rw e)
  | inr (r, e) ↦ inl (r, ratio-IsWhole p r e, rw e)
]

-- What becomes of a window of `max_context` tokens of which `taken` are reserved.
abbrev pub Accounts : ℕ → ℕ → ℕ → ContextOperationProfile → Result ContextBudget → Type 0
Accounts max_context taken mandatory p (ok b) =
    (taken + mandatory ≤ max_context) × Divides max_context taken mandatory b
Accounts max_context taken mandatory p (raise e) =
    ((e ≡ value_error "MODEL_CONTEXT_BUDGET_INVALID") × (max_context < taken))
    ⊎ ((e ≡ value_error "MODEL_CONTEXT_MANDATORY_EXCEEDED")
        × (taken ≤ max_context)
        × (max_context < taken + mandatory))
    ⊎ ((e ≡ value_error "PROFILE_USES_DEDICATED_CONTEXT_BUDGET") × IsDedicated p)

-- The division of the window succeeds or is refused, and is never wrong: on success the reserved,
-- the mandatory and the elastic tokens make up the window, every bucket has a limit, and the limits
-- leave at most 3 of the elastic tokens unused and exceed them never; on an error its code is the
-- true reason.
pub compute_context_budget-Accounts :
    (max_context reserved_output protocol_overhead safety_margin mandatory : ℕ)
    (p : ContextOperationProfile)
    → Accounts max_context (reserved_output + protocol_overhead + safety_margin) mandatory p (
        compute_context_budget max_context reserved_output protocol_overhead safety_margin mandatory
          p)
unfolding compute_context_budget
compute_context_budget-Accounts m r o s n p = elim (Bool-cases (ltb m (r + o + s))) [
  | inl a ↦ rw a (inl (refl, ground arith))
  | inr a ↦ elim (Bool-cases (ltb m (r + o + s + n))) [
    | inl b ↦ rw (a, b) (inr (inl (refl, ground arith, ground arith)))
    | inr b ↦ elim (allocated p (m - (r + o + s) - n)) [
      | inl (q, whole, e) ↦
          rw (a, b, e)
            (
              ground arith,
              record {
                adds_up = ground arith;
                mandatory_kept = refl;
                complete = shares-IsComplete q (m - (r + o + s) - n);
                within = (shares-within q (m - (r + o + s) - n) whole).0;
                nearly_all = (shares-within q (m - (r + o + s) - n) whole).1;
              },
            )
      | inr (d, e) ↦ rw (a, b, e) (inr (inr (refl, d)))
    ]
  ]
]
