-- ===== src/Knowledge/Candidates.antt =====
-- modules/knowledge/domain/retrieval.py: `CandidateV1`, `_dedup_score` and `dedup_candidates`.
-- A score is a natural number, since only the order of the scores is read.
pub mod Best
pub mod Members
pub mod Keys
pub mod Kept
mod Examples
use knowledage_base_assistan.Prelude.{
  string_eq, ◌==◌, ℕ, max, String, Bool, true, false, ◌||◌, not, List, [], ◌∷◌, map, keep_if,
  contains, Option, none, some, is_some, opt_beq, if◌then◌else◌, ltb,
}

pub data CandidateSource : Type 0 where
  identifier lexical vector : CandidateSource

pub record Candidate : Type 0 where
  pub chunk_id : String
  pub source : CandidateSource
  pub lexical_score : Option ℕ
  pub vector_score : Option ℕ
  pub fusion_score : Option ℕ
  pub rerank_score : Option ℕ
  pub text_hash : Option String
  pub parent_chunk_id : Option String

-- `max` and `>`, where `none` is minus infinity.
abbrev pub max_score : Option ℕ → Option ℕ → Option ℕ
max_score none b = b
max_score (some a) none = some a
max_score (some a) (some b) = some (max a b)

abbrev pub above : Option ℕ → Option ℕ → Bool
above none b = false
above (some a) none = true
above (some a) (some b) = ltb b a

unfoldable pub dedup_score : Candidate → Option ℕ
dedup_score c =
    max_score c.rerank_score (max_score c.fusion_score (max_score c.lexical_score c.vector_score))

abbrev pub is_better : Candidate → Candidate → Bool
is_better c existing = above (dedup_score c) (dedup_score existing)

-- The key of a dictionary's entry is read from its value, so the dictionary is the list of its
-- values, with a test whether two have the same key.
module _ (same : Candidate → Candidate → Bool) where
  unfoldable pub keep_better : List Candidate → Candidate → List Candidate
  keep_better [] c = c ∷ []
  keep_better (existing ∷ seen) c =
      let rest = keep_better seen c in
      if same existing c
      then (if is_better c existing then c else existing) ∷ seen
      else existing ∷ rest

  unfoldable pub best_of : List Candidate → List Candidate → List Candidate
  best_of seen [] = seen
  best_of seen (c ∷ candidates) = best_of (keep_better seen c) candidates

abbrev pub same_chunk : Candidate → Candidate → Bool
same_chunk a b = a.chunk_id == b.chunk_id

abbrev pub same_text : Candidate → Candidate → Bool
same_text a b = opt_beq a.text_hash b.text_hash

unfoldable pub unique : List Candidate → List Candidate
unique candidates = best_of same_chunk [] candidates

unfoldable pub by_hash : List Candidate → List Candidate
by_hash candidates = best_of same_text [] (keep_if (λ c. is_some c.text_hash) (unique candidates))

unfoldable pub dedup_candidates : List Candidate → List Candidate
dedup_candidates candidates =
    let kept_ids = map (λ (c : Candidate). c.chunk_id) (by_hash candidates) in
    keep_if (λ c. not (is_some c.text_hash) || contains kept_ids c.chunk_id) (unique candidates)
