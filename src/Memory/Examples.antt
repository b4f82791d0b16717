-- ===== src/Memory/Examples.antt =====
-- Tests of the context budget and the selection, and the theorems at concrete inputs.
use knowledage_base_assistan.Prelude.{
  string_eq, nat_eq, ℕ, ◌+◌, ◌≤◌, ◌≡◌, ◌⊎◌, refl, true, false, String, List, [], ◌∷◌, Option, none,
  some, Result, ok, ◌>>=◌, arith, sum_by, any, ltb,
}
use knowledage_base_assistan.Memory.ContextPack.Budget.{
  shares, ContextBudget, knowledge_research, compute_context_budget, ContextBucket, recent, memory,
  task_artifact, evidence, summary,
}
use knowledage_base_assistan.Memory.ContextPack.Budget.Allocation.{
  Accounts, compute_context_budget-Accounts,
}
use knowledage_base_assistan.Memory.ContextPack.Select.{
  ContextItem, ContextItemType, system_policy, evidence_item, memory_item, ContextSelectionResult,
  select_context_items, insert_item, is_mandatory_item_type, too_large, dedup_by_hash,
}
use knowledage_base_assistan.Memory.ContextPack.Select.Fits.{
  Fits, tokens, mandatory_of, select_context_items-Fits, selection_within_window,
}

abbrev item : ℕ → ContextItemType → String → ℕ → ContextItem
item id kind hash n = record {
  item_id = id;
  item_type = kind;
  source_id = none;
  content_hash = hash;
  token_count = n;
  priority = 1;
  rank_score = some n;
  compression_level = 0;
  selection_reason = "test";
  trust = "SYSTEM";
}

abbrev candidates : List ContextItem
candidates =
    item 1 system_policy "h1" 100
    ∷ item 2 evidence_item "h2" 400
    ∷ item 3 evidence_item "h2" 400
    ∷ item 4 evidence_item "h4" 300
    ∷ item 5 memory_item "h5" 90
    ∷ []

compute_context_budget-Accounts_example :
    Accounts 2000
      (500 + 200 + 200)
      100
      knowledge_research
      (compute_context_budget 2000 500 200 200 100 knowledge_research)
compute_context_budget-Accounts_example =
    compute_context_budget-Accounts 2000 500 200 200 100 knowledge_research

abbrev limits : ContextBucket → Option ℕ
limits recent = some 150
limits memory = some 100
limits task_artifact = some 100
limits evidence = some 650
limits summary = some 0

abbrev budget : ContextBudget
budget = record {
  max_context_tokens = 2000;
  reserved_output_tokens = 500;
  protocol_overhead_tokens = 200;
  safety_margin_tokens = 200;
  mandatory_tokens = 100;
  elastic_tokens = 1000;
  bucket_limits = limits;
}

-- A mandatory item is lost if an elastic one of the same content comes before it.
mandatory_lost :
    select_context_items (item 1 evidence_item "h" 10 ∷ item 2 system_policy "h" 10 ∷ []) budget
    ≡ ok (record {
      selected = item 1 evidence_item "h" 10 ∷ [];
      dropped = [];
      total_tokens = 10;
      overflow = false;
      error_code = none;
    })
unfolding select_context_items insert_item is_mandatory_item_type
mandatory_lost = refl

limits_complete : (b : ContextBucket) → (n : ℕ) × (limits b ≡ some n)
limits_complete recent = (150, refl)
limits_complete memory = (100, refl)
limits_complete task_artifact = (100, refl)
limits_complete evidence = (650, refl)
limits_complete summary = (0, refl)

abbrev computed : ContextBudget
computed = record budget {
  bucket_limits =
      shares
        (record {
          recent_percent = 15;
          memory_percent = 10;
          task_artifact_percent = 10;
          evidence_percent = 65;
        })
        1000;
}

computes : compute_context_budget 2000 500 200 200 100 knowledge_research ≡ ok computed
unfolding compute_context_budget shares
computes = refl

total_tokens : Result ℕ
unfolding compute_context_budget select_context_items
total_tokens = do
  b ← compute_context_budget 2000 500 200 200 100 knowledge_research
  r ← select_context_items candidates b
  ok r.total_tokens

-- 100 mandatory, 400 + 90 elastic: the second piece of evidence has no room beside the first
total_tokens_is : total_tokens ≡ ok 590
unfolding total_tokens insert_item
total_tokens_is = refl

select_context_items-Fits_example :
    ((r : ContextSelectionResult) × (select_context_items candidates budget ≡ ok r)
      × Fits candidates budget r)
    ⊎ ((select_context_items candidates budget ≡ ok (too_large (dedup_by_hash [] candidates)))
        × (any (λ x. ltb 1100 x.token_count) (mandatory_of (dedup_by_hash [] candidates)) ≡ true))
select_context_items-Fits_example = select_context_items-Fits candidates budget limits_complete

mandatory_weight : sum_by tokens (mandatory_of candidates) ≤ 100
unfolding is_mandatory_item_type
mandatory_weight = omega arith

selection_within_window_example :
    (r : ContextSelectionResult) × (select_context_items candidates computed ≡ ok r)
    × Fits candidates computed r
    × (500 + 200 + 200 + r.total_tokens ≤ 2000)
selection_within_window_example =
    selection_within_window 2000 500 200 200 100 knowledge_research candidates computed computes
      mandatory_weight
