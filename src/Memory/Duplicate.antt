-- ===== src/Memory/Duplicate.antt =====
-- `resolve_duplicate` of modules/memory/domain/memory_governance.py. The normal form of a statement,
-- the search of a text in a text and the numbers of a text are parameters: the standard library
-- computes them.
pub mod Agrees
use knowledage_base_assistan.Prelude.{
  string_eq, ◌==◌, ℕ, String, Bool, true, false, not, ◌&&◌, ◌||◌, List, [], ◌∷◌, ◌++◌, Option, none,
  some, any, if◌then◌else◌,
}
use knowledage_base_assistan.Memory.Types.{
  MemoryProposal, MemoryRecord, DuplicateVerdict, same, overlap, unrelated,
}

pub record DuplicateResolution : Type 0 where
  pub verdict : DuplicateVerdict
  pub differing_fields : List String
  pub rationale : String

abbrev pub negation_markers : List String
negation_markers = "不" ∷ "没" ∷ "非" ∷ "禁止" ∷ "勿" ∷ "不要" ∷ []

-- key is None or existing_key is None or key != existing_key
abbrev pub keys_differ : Option String → Option String → Bool
keys_differ (some a) (some b) = not (a == b)
keys_differ _ _ = true

abbrev pub same_bool : Bool → Bool → Bool
same_bool a b = if a then b else not b

abbrev pub field_if : Bool → String → List String
field_if true name = name ∷ []
field_if false name = []

-- `is_in a b` is `a in b`; `same_numbers` compares the sets of the numbers in two texts.
pub record TextTools : Type 0 where
  pub normalize : String → String
  pub is_in : String → String → Bool
  pub same_numbers : String → String → Bool

module _ (tools : TextTools) where
  unfoldable pub has_negation : String → Bool
  has_negation text = any (λ marker. tools.is_in marker text) negation_markers

  unfoldable pub differing_fields_of : String → String → List String
  unfolding has_negation
  differing_fields_of left right =
      "statement" ∷ field_if (not (same_bool (has_negation left) (has_negation right))) "negation"
      ++ field_if (not (tools.same_numbers left right)) "number"

  unfoldable pub resolve_duplicate : MemoryProposal → MemoryRecord → DuplicateResolution
  unfolding differing_fields_of
  resolve_duplicate proposal existing =
      let proposed_norm = tools.normalize proposal.statement in
      let existing_norm = tools.normalize existing.content in
      let differing = differing_fields_of proposed_norm existing_norm in
      if keys_differ proposal.canonical_key existing.canonical_key
      then record {
        verdict = unrelated;
        differing_fields = [];
        rationale = "canonical_key 缺失或不一致，仅语义相似不算重复";
      }
      else if proposed_norm == existing_norm
      then record { verdict = same; differing_fields = []; rationale = "同 canonical_key 且规范化值等价" }
      else if tools.is_in proposed_norm existing_norm || tools.is_in existing_norm proposed_norm
      then record {
        verdict = overlap;
        differing_fields = differing;
        rationale = "同 Key 一方信息更全且无矛盾";
      }
      else record {
        verdict = DuplicateVerdict.conflict;
        differing_fields = differing;
        rationale = "同 Key 数值/否定/时间/实体不一致，保留双方进冲突组";
      }
