-- ===== src/Memory/ContextPack/Budget.antt =====
-- The buckets and the token budget of context_pack.py. Token counts are not negative by their type,
-- so the two errors for a negative count do not occur. `bucket_limits` is a map: `none` is a
-- missing key.
pub mod Allocation
use knowledage_base_assistan.Prelude.{
  ℕ, ◌+◌, ◌-◌, ◌*◌, ◌/◌, Bool, true, false, Option, none, some, Result, ok, raise, value_error, ltb,
  require, not, ◌>>◌, ◌>>=◌,
}

pub data ContextBucket : Type 0 where
  recent memory task_artifact evidence summary : ContextBucket

pub data ContextOperationProfile : Type 0 where
  knowledge_research multi_material_analysis synthesis_action final_synthesis :
      ContextOperationProfile
  fact_verification external_research governance_explanation supervisor_planning :
      ContextOperationProfile

-- A row of `_ELASTIC_RATIO_PERCENT`.
pub record Ratio : Type 0 where
  pub recent_percent : ℕ
  pub memory_percent : ℕ
  pub task_artifact_percent : ℕ
  pub evidence_percent : ℕ

abbrev ratio : ℕ → ℕ → ℕ → ℕ → Option Ratio
ratio r m t e = some (record {
  recent_percent = r;
  memory_percent = m;
  task_artifact_percent = t;
  evidence_percent = e;
})

unfoldable pub elastic_ratio_percent : ContextOperationProfile → Option Ratio
elastic_ratio_percent knowledge_research = ratio 15 10 10 65
elastic_ratio_percent multi_material_analysis = ratio 10 10 35 45
elastic_ratio_percent synthesis_action = ratio 10 10 40 40
elastic_ratio_percent final_synthesis = ratio 0 0 50 50
elastic_ratio_percent governance_explanation = ratio 5 5 40 50
elastic_ratio_percent supervisor_planning = ratio 15 10 60 15
elastic_ratio_percent fact_verification = none
elastic_ratio_percent external_research = none

pub record ContextBudget : Type 0 where
  pub max_context_tokens : ℕ
  pub reserved_output_tokens : ℕ
  pub protocol_overhead_tokens : ℕ
  pub safety_margin_tokens : ℕ
  pub mandatory_tokens : ℕ
  pub elastic_tokens : ℕ
  pub bucket_limits : ContextBucket → Option ℕ

-- The dictionary of the five shares.
unfoldable pub shares : Ratio → ℕ → ContextBucket → Option ℕ
shares r elastic_tokens recent = some (elastic_tokens * r.recent_percent / 100)
shares r elastic_tokens memory = some (elastic_tokens * r.memory_percent / 100)
shares r elastic_tokens task_artifact = some (elastic_tokens * r.task_artifact_percent / 100)
shares r elastic_tokens evidence = some (elastic_tokens * r.evidence_percent / 100)
shares r elastic_tokens summary = some 0

allocate : Option Ratio → ℕ → Result (ContextBucket → Option ℕ)
unfolding shares
allocate none elastic_tokens = raise (value_error "PROFILE_USES_DEDICATED_CONTEXT_BUDGET")
allocate (some r) elastic_tokens = ok (shares r elastic_tokens)

unfoldable pub allocate_elastic_budget :
    ContextOperationProfile → ℕ → Result (ContextBucket → Option ℕ)
unfolding elastic_ratio_percent allocate
allocate_elastic_budget profile elastic_tokens =
    allocate (elastic_ratio_percent profile) elastic_tokens

-- `available_input < 0` and `mandatory_tokens > available_input`, with the subtractions of the
-- source moved to the other side.
unfoldable pub compute_context_budget :
    ℕ → ℕ → ℕ → ℕ → ℕ → ContextOperationProfile → Result ContextBudget
unfolding allocate_elastic_budget
compute_context_budget max_context reserved_output protocol_overhead safety_margin mandatory
      profile =
    let taken = reserved_output + protocol_overhead + safety_margin in
    let elastic = max_context - taken - mandatory in
    do
      require (not (ltb max_context taken)) (value_error "MODEL_CONTEXT_BUDGET_INVALID")
      require (not (ltb max_context (taken + mandatory)))
          (value_error "MODEL_CONTEXT_MANDATORY_EXCEEDED")
      limits ← allocate_elastic_budget profile elastic
      ok (record {
        max_context_tokens = max_context;
        reserved_output_tokens = reserved_output;
        protocol_overhead_tokens = protocol_overhead;
        safety_margin_tokens = safety_margin;
        mandatory_tokens = mandatory;
        elastic_tokens = elastic;
        bucket_limits = limits;
      })
