-- ===== src/Knowledge/Candidates/Examples.antt =====
-- Candidates of two chunks with one text, and of a chunk that was found twice.
use knowledage_base_assistan.Prelude.{String, ℕ, List, [], ◌∷◌, Option, none, some, ◌≡◌, refl}
use knowledage_base_assistan.Knowledge.Candidates.{
  Candidate, lexical, dedup_candidates, unique, by_hash, best_of, keep_better, dedup_score,
}
use knowledage_base_assistan.Knowledge.Candidates.Kept.{
  AreDeduplicated, dedup_candidates-AreDeduplicated,
}

abbrev found : String → ℕ → Option String → Candidate
found id score hash = record {
  chunk_id = id;
  source = lexical;
  lexical_score = some score;
  vector_score = none;
  fusion_score = none;
  rerank_score = none;
  text_hash = hash;
  parent_chunk_id = none;
}

abbrev candidates : List Candidate
candidates =
    found "a" 3 (some "h")
    ∷ found "b" 5 (some "h")
    ∷ found "c" 1 none
    ∷ found "a" 4 (some "h")
    ∷ found "c" 2 none
    ∷ []

dedup_test : dedup_candidates candidates ≡ found "b" 5 (some "h") ∷ found "c" 2 none ∷ []
unfolding dedup_candidates unique by_hash best_of keep_better dedup_score
dedup_test = refl

dedup_candidates-AreDeduplicated_example : AreDeduplicated candidates (dedup_candidates candidates)
dedup_candidates-AreDeduplicated_example = dedup_candidates-AreDeduplicated candidates
