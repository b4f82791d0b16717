-- ===== src/Memory/ContextPack/Select.antt =====
-- `select_context_items` of context_pack.py. Of the scores only the order is read: a score is a
-- natural number here, and `none` comes after all of them. `bucket_limits` may lack a key.
pub mod Fill
mod Shuffle
pub mod Dedup
pub mod Fits
use knowledage_base_assistan.Prelude.{
  nat_eq, string_eq, ◌==◌, contains, ℕ, ◌+◌, ◌-◌, Uuid, String, Bool, true, false, not, List, [],
  ◌∷◌, ◌++◌, Option, none, some, Result, ok, raise, key_error, ltb, leb, if◌then◌else◌, any, sum_by,
  keep_if, ◌>>=◌,
}
use knowledage_base_assistan.Memory.ContextPack.Budget.{
  ContextBucket, recent, memory, task_artifact, evidence, summary, ContextBudget,
}

pub data ContextItemType : Type 0 where
  system_policy tool_schema output_schema current_message : ContextItemType
  recent_message memory_item task_artifact_item observation evidence_item summary_item :
      ContextItemType

pub record ContextItem : Type 0 where
  pub item_id : Uuid
  pub item_type : ContextItemType
  pub source_id : Option String
  pub content_hash : String
  pub token_count : ℕ
  pub priority : ℕ
  pub rank_score : Option ℕ
  pub compression_level : ℕ
  pub selection_reason : String
  pub trust : String

pub record ContextSelectionResult : Type 0 where
  pub selected : List ContextItem
  pub dropped : List ContextItem
  pub total_tokens : ℕ
  pub overflow : Bool
  pub error_code : Option String

unfoldable pub is_mandatory_item_type : ContextItemType → Bool
is_mandatory_item_type system_policy = true
is_mandatory_item_type tool_schema = true
is_mandatory_item_type output_schema = true
is_mandatory_item_type current_message = true
is_mandatory_item_type _ = false

unfoldable pub bucket_for_item_type : ContextItemType → Option ContextBucket
bucket_for_item_type recent_message = some recent
bucket_for_item_type memory_item = some memory
bucket_for_item_type task_artifact_item = some task_artifact
bucket_for_item_type observation = some task_artifact
bucket_for_item_type evidence_item = some evidence
bucket_for_item_type summary_item = some summary
bucket_for_item_type _ = none

abbrev pub is_mandatory : ContextItem → Bool
is_mandatory item = is_mandatory_item_type item.item_type

-- The first loop, with the hashes seen so far.
unfoldable pub dedup_by_hash : List String → List ContextItem → List ContextItem
dedup_by_hash seen [] = []
dedup_by_hash seen (item ∷ items) =
    let old = contains seen item.content_hash in
    let rest = dedup_by_hash (if old then seen else item.content_hash ∷ seen) items in
    if old then rest else item ∷ rest

-- The sort key (-priority, -rank_score, item_id), compared.
abbrev pub higher : Option ℕ → Option ℕ → Bool
higher (some a) (some b) = ltb b a
higher (some a) none = true
higher none b = false

unfoldable pub precedes : ContextItem → ContextItem → Bool
precedes a b =
    if ltb b.priority a.priority
    then true
    else if ltb a.priority b.priority
    then false
    else if higher a.rank_score b.rank_score
    then true
    else if higher b.rank_score a.rank_score
    then false
    else ltb a.item_id b.item_id

-- `elastic.sort(key=...)`, which keeps the order of items with the same key.
unfoldable pub insert_item : ContextItem → List ContextItem → List ContextItem
unfolding precedes
insert_item a [] = a ∷ []
insert_item a (b ∷ bs) =
    let rest = insert_item a bs in if precedes b a then b ∷ rest else a ∷ b ∷ bs

unfoldable pub sort_items : List ContextItem → List ContextItem
sort_items [] = []
sort_items (a ∷ items) = insert_item a (sort_items items)

abbrev pub same_bucket : ContextBucket → ContextBucket → Bool
same_bucket recent recent = true
same_bucket memory memory = true
same_bucket task_artifact task_artifact = true
same_bucket evidence evidence = true
same_bucket summary summary = true
same_bucket _ _ = false

abbrev pub Remaining : Type 0
Remaining = ContextBucket → Option ℕ

-- `remaining[bucket] = tokens`
abbrev pub set_limit : ContextBucket → ℕ → Remaining → Remaining
set_limit bucket tokens remaining b = if same_bucket bucket b then some tokens else remaining b

-- What is left once the item is taken; `none` if it is dropped.
unfoldable pub charge :
    Remaining → ContextItem → ContextBucket → Option ℕ → Result (Option Remaining)
charge remaining item bucket none = raise key_error
charge remaining item bucket (some limit) =
    if leb item.token_count limit
    then ok (some (set_limit bucket (limit - item.token_count) remaining))
    else ok none

unfoldable pub offer : Remaining → ContextItem → Option ContextBucket → Result (Option Remaining)
unfolding charge
offer remaining item none = ok none
offer remaining item (some bucket) = charge remaining item bucket (remaining bucket)

abbrev pub left_after : Remaining → Option Remaining → Remaining
left_after remaining none = remaining
left_after remaining (some after) = after

abbrev pub placed :
    ContextItem
    → Option Remaining
    → List ContextItem × List ContextItem
    → List ContextItem × List ContextItem
placed item none (taken, dropped) = (taken, item ∷ dropped)
placed item (some after) (taken, dropped) = (item ∷ taken, dropped)

-- The last loop: the items that are taken and those that are dropped.
unfoldable pub fill_buckets :
    Remaining → List ContextItem → Result (List ContextItem × List ContextItem)
unfolding offer bucket_for_item_type
fill_buckets remaining [] = ok ([], [])
fill_buckets remaining (item ∷ items) = do
  choice ← offer remaining item (bucket_for_item_type item.item_type)
  rest ← fill_buckets (left_after remaining choice) items
  ok (placed item choice rest)

abbrev is_nonempty : List ContextItem → Bool
is_nonempty [] = false
is_nonempty (x ∷ xs) = true

selection : List ContextItem → List ContextItem × List ContextItem → ContextSelectionResult
selection mandatory (taken, dropped) = record {
  selected = mandatory ++ taken;
  dropped = dropped;
  total_tokens = sum_by (λ item. item.token_count) (mandatory ++ taken);
  overflow = is_nonempty dropped;
  error_code = none;
}

abbrev pub too_large : List ContextItem → ContextSelectionResult
too_large deduped = record {
  selected = [];
  dropped = deduped;
  total_tokens = 0;
  overflow = true;
  error_code = some "CONTEXT_ATOMIC_ITEM_TOO_LARGE";
}

unfoldable pub select_context_items :
    List ContextItem → ContextBudget → Result ContextSelectionResult
unfolding is_mandatory_item_type dedup_by_hash sort_items fill_buckets selection
select_context_items candidates budget =
    let available_input = budget.mandatory_tokens + budget.elastic_tokens in
    let deduped = dedup_by_hash [] candidates in
    let mandatory = keep_if is_mandatory deduped in
    let elastic = keep_if (λ item. not (is_mandatory item)) deduped in
    if any (λ item. ltb available_input item.token_count) mandatory
    then ok (too_large deduped)
    else do
      placement ← fill_buckets budget.bucket_limits (sort_items elastic)
      ok (selection mandatory placement)
